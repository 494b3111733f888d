-- ===== src/Lora/Dedup/Laws.antt =====
-- src/lora/lora_proto.h, the table of accepted packets: which packets it takes for repeated, and how
-- long it remembers.
use project_voyager.Prelude.{
  ℕ, zero, suc, ◌+◌, ◌%◌, ◌<◌, ◌≡◌, refl, sym, ap, ◌∙◌, ◌≢◌, ◌⊎◌, inl, inr, true, false, none, some,
  List, [], ◌∷◌, arith, ◌==◌, Option-cases, length, get_or, set, length-set,
}
use project_voyager.Lora.Dedup.{
  dedup_slots, dedup_window, u32_mod, RxDedupEntry, empty_entry, RxDedupMulti, key_slot, free_slot,
  rx_is_duplicate_multi, rx_commit_multi,
}
use project_voyager.Lora.Dedup.Table.{
  entry_of, Others, Inv, NotIn-Others, entry_of-set_self, entry_of-set_gone, entry_of-set_ne,
  Unique-set, key_slot-none, NotIn-key_slot, key_slot-some, lookup-entry_of, free_slot-lt, set-set,
  Others-set, NotIn-set,
}

-- The entry that a commit writes.
abbrev committed : RxDedupMulti → ℕ → ℕ → RxDedupEntry
committed d key seq = record { key = key; at = d.accepted; seq = seq; used = true }

-- A commit writes one slot: that of the key if it has one.
record Written (d : RxDedupMulti) (key seq : ℕ) : Type 0 where
  slot : ℕ
  slot_in : slot < dedup_slots
  others : Others key d.entries slot
  entries_are : (rx_commit_multi d key seq).entries ≡ set d.entries slot (committed d key seq)
  lru_in : (rx_commit_multi d key seq).lru < dedup_slots
  counted : (rx_commit_multi d key seq).accepted ≡ (d.accepted + 1) % u32_mod

rx_commit_multi-Written : (d : RxDedupMulti) (key seq : ℕ) → Inv d → Written d key seq
unfolding rx_commit_multi
rx_commit_multi-Written d key seq v = elim (Option-cases (key_slot key 0 d.entries)) [
  | inl absent ↦
      let n = key_slot-none d.entries key 0 absent in
      elim (Option-cases (free_slot 0 d.entries)) [
        | inl full ↦ record {
          slot = d.lru;
          slot_in = v.lru_in;
          others = NotIn-Others d.entries key d.lru n;
          entries_are = ground (
            arith,
            set-set d.entries d.lru (record (get_or d.entries d.lru empty_entry) { used = false })
                (committed d key seq),
          );
          lru_in = ground arith;
          counted = ground arith;
        }
        | inr (i, free) ↦ record {
          slot = i;
          slot_in = ground (arith, free_slot-lt d.entries 0 i free);
          others = NotIn-Others d.entries key i n;
          entries_are = ground arith;
          lru_in = ground arith;
          counted = ground arith;
        }
      ]
  | inr (i, found) ↦
      let (k, e₁, e₂, e₃, e₄, e₅) = key_slot-some d.entries key 0 i found v.unique in
      let at : i ≡ k = omega arith in
      record {
        slot = k;
        slot_in = ground arith;
        others = e₄;
        entries_are = ground arith;
        lru_in = ground arith;
        counted = ground arith;
      }
]

-- Every commit keeps four slots, the replacement pointer among them, and at most one entry for each
-- source.
pub rx_commit_multi-Inv : (d : RxDedupMulti) (key seq : ℕ) → Inv d → Inv (rx_commit_multi d key seq)
rx_commit_multi-Inv d key seq v =
    let w = rx_commit_multi-Written d key seq v in
    record {
      slots = rw w.entries_are (length-set d.entries w.slot (committed d key seq) ∙ v.slots);
      lru_in = w.lru_in;
      counter = rw w.counted (omega arith);
      unique =
          rw w.entries_are (Unique-set d.entries w.slot (committed d key seq) w.others v.unique);
    }

lookup-commit_self :
    (d : RxDedupMulti) (key seq : ℕ)
    → Inv d
    → entry_of key (rx_commit_multi d key seq).entries ≡ some (committed d key seq)
lookup-commit_self d key seq v =
    let w = rx_commit_multi-Written d key seq v in
    rw w.entries_are (
      entry_of-set_self d.entries key w.slot (committed d key seq) w.others
        (ground (arith, w.slot_in, v.slots)) refl refl)

lookup-commit_ne :
    (d : RxDedupMulti) (key other seq : ℕ)
    → Inv d
    → other ≢ key
    → (entry_of key (rx_commit_multi d other seq).entries ≡ entry_of key d.entries)
      ⊎ (entry_of key (rx_commit_multi d other seq).entries ≡ none)
lookup-commit_ne d key other seq v ne =
    let w = rx_commit_multi-Written d other seq v in
    rw w.entries_are (entry_of-set_ne d.entries key w.slot (committed d other seq) v.unique ne)

-- With a table as `Inv` describes it, right after a packet was accepted, a packet of the same source counts as repeated exactly when it
-- has the same sequence number.
pub rx_is_duplicate-commit :
    (d : RxDedupMulti) (key seq seq' : ℕ)
    → Inv d
    → rx_is_duplicate_multi (rx_commit_multi d key seq) key seq' ≡ (seq == seq')
unfolding rx_is_duplicate_multi
rx_is_duplicate-commit d key seq seq' v =
    let w = rx_commit_multi-Written d key seq v in
    let u = (rx_commit_multi-Inv d key seq v).unique in
    ground (
      arith,
      lookup-entry_of (rx_commit_multi d key seq) key u,
      lookup-commit_self d key seq v,
      w.counted,
      v.counter,
    )

-- A run of accepted packets, each a source and a sequence number.
unfoldable pub commit_all : RxDedupMulti → List (ℕ × ℕ) → RxDedupMulti
commit_all d [] = d
commit_all d ((key, seq) ∷ cs) = commit_all (rx_commit_multi d key seq) cs

-- None of the packets is from this source.
abbrev pub Elsewhere : ℕ → List (ℕ × ℕ) → Type 0
Elsewhere key [] = Unit {0}
Elsewhere key ((other, seq) ∷ cs) = (other ≢ key) × Elsewhere key cs

pub commit_all-Inv : (cs : List (ℕ × ℕ)) (d : RxDedupMulti) → Inv d → Inv (commit_all d cs)
unfolding commit_all
commit_all-Inv [] d v = v
commit_all-Inv ((key, seq) ∷ cs) d v =
    commit_all-Inv cs (rx_commit_multi d key seq) (rx_commit_multi-Inv d key seq v)

commit_all-accepted :
    (cs : List (ℕ × ℕ)) (d : RxDedupMulti)
    → Inv d
    → (commit_all d cs).accepted ≡ (d.accepted + length cs) % u32_mod
unfolding commit_all
commit_all-accepted [] d v = omega arith
commit_all-accepted ((key, seq) ∷ cs) d v =
    let w = rx_commit_multi-Written d key seq v in
    omega (
      arith,
      w.counted,
      commit_all-accepted cs (rx_commit_multi d key seq) (rx_commit_multi-Inv d key seq v),
    )

commit_all-entry_of :
    (cs : List (ℕ × ℕ)) (d : RxDedupMulti) (key : ℕ)
    → Inv d
    → Elsewhere key cs
    → (entry_of key (commit_all d cs).entries ≡ entry_of key d.entries)
      ⊎ (entry_of key (commit_all d cs).entries ≡ none)
unfolding commit_all
commit_all-entry_of [] d key v e = inl refl
commit_all-entry_of ((other, seq) ∷ cs) d key v (ne, e) =
    let one = lookup-commit_ne d key other seq v ne in
    let more =
      commit_all-entry_of cs (rx_commit_multi d other seq) key (rx_commit_multi-Inv d other seq v)
        e in
    ground (arith, one, more)

-- With a table as `Inv` describes it, after a source's packet and then `n` packets of other sources, a packet of the first one counts as
-- repeated only if it has the same sequence number and `n` is below 15: a sequence number that comes
-- round again is not dropped. (The counter of accepted packets has 32 bits,
-- and `n + 1` is taken to be less than 2^32.)
pub rx_is_duplicate_window :
    (d : RxDedupMulti) (key seq seq' : ℕ) (cs : List (ℕ × ℕ))
    → Inv d
    → Elsewhere key cs
    → length cs + 1 < u32_mod
    → rx_is_duplicate_multi (commit_all (rx_commit_multi d key seq) cs) key seq' ≡ true
    → (seq ≡ seq') × (length cs + 1 < dedup_window)
unfolding rx_is_duplicate_multi
rx_is_duplicate_window d key seq seq' cs v e h dup =
    let d₁ = rx_commit_multi d key seq in
    let v₁ = rx_commit_multi-Inv d key seq v in
    let w = rx_commit_multi-Written d key seq v in
    ground (
      arith,
      lookup-entry_of (commit_all d₁ cs) key (commit_all-Inv cs d₁ v₁).unique,
      commit_all-entry_of cs d₁ key v₁ e,
      lookup-commit_self d key seq v,
      commit_all-accepted cs d₁ v₁,
      w.counted,
      v.counter,
    )

commit_found :
    (d : RxDedupMulti) (key seq i : ℕ)
    → key_slot key 0 d.entries ≡ some i
    → rx_commit_multi d key seq ≡ record d {
      entries = set d.entries i (committed d key seq);
      accepted = (d.accepted + 1) % u32_mod;
    }
unfolding rx_commit_multi
commit_found d key seq i h = ground arith

commit_full :
    (d : RxDedupMulti) (key seq : ℕ)
    → key_slot key 0 d.entries ≡ none
    → free_slot 0 d.entries ≡ none
    → (rx_commit_multi d key seq).entries ≡ set d.entries d.lru (committed d key seq)
unfolding rx_commit_multi
commit_full d key seq h f = ground (
  arith,
  set-set d.entries d.lru (record (get_or d.entries d.lru empty_entry) { used = false })
      (committed d key seq),
)

free_slot-set :
    (es : List RxDedupEntry) (i k : ℕ) (x : RxDedupEntry)
    → x.used ≡ true
    → free_slot i es ≡ none
    → free_slot i (set es k x) ≡ none
unfolding free_slot
free_slot-set [] i k x u h = refl
free_slot-set (e ∷ es) i zero x u h = ground arith
free_slot-set (e ∷ es) i (suc k) x u h = ground (arith, free_slot-set es (i + 1) k x u)

-- With a full table, as `Inv` describes it, whose replacement pointer stands at a source's slot, the packet of that source
-- just accepted is forgotten as soon as a packet of a fifth source is accepted, so its repetition
-- would be delivered again: the slot replaced is not the least recently used one.
pub evicts_latest :
    (d : RxDedupMulti) (key seq seq' other : ℕ)
    → Inv d
    → key_slot key 0 d.entries ≡ some d.lru
    → free_slot 0 d.entries ≡ none
    → key_slot other 0 d.entries ≡ none
    → rx_is_duplicate_multi (rx_commit_multi (rx_commit_multi d key seq) other seq') key seq ≡ false
unfolding rx_is_duplicate_multi
evicts_latest d key seq seq' other v hk hf ho =
    let c = committed d key seq in
    let (k, e₁, e₂, e₃, e₄, e₅) = key_slot-some d.entries key 0 d.lru hk v.unique in
    let at : d.lru ≡ k = omega arith in
    let others : Others key d.entries d.lru = rw at e₄ in
    let d₁ = record d { entries = set d.entries d.lru c; accepted = (d.accepted + 1) % u32_mod } in
    let ne : key ≢ other = λ e. cc (sym hk ∙ ap (λ x. key_slot x 0 d.entries) e ∙ ho) in
    let absent : key_slot other 0 d₁.entries ≡ none =
      NotIn-key_slot d₁.entries other 0
        (NotIn-set d.entries other d.lru c ne (key_slot-none d.entries other 0 ho)) in
    let v₁ : Inv d₁ = rw (commit_found d key seq d.lru hk) at (rx_commit_multi-Inv d key seq v) in
    let written = commit_full d₁ other seq' absent (free_slot-set d.entries 0 d.lru c refl hf) in
    let gone =
      entry_of-set_gone d₁.entries key d.lru (committed d₁ other seq')
        (Others-set d.entries key d.lru c others) (omega (arith, v₁.slots)) (λ e. ne (sym e)) in
    let unique = (rx_commit_multi-Inv d₁ other seq' v₁).unique in
    rw (commit_found d key seq d.lru hk)
      (ground (arith, lookup-entry_of (rx_commit_multi d₁ other seq') key unique, written, gone))
