-- ===== src/Lora/Dedup/Table.antt =====
-- src/lora/lora_proto.h, the table of accepted packets: its invariant, and what a write to one slot does
-- to the entries that are found.
use project_voyager.Prelude.{
  ℕ, zero, suc, ◌+◌, ◌<◌, ◌≡◌, refl, ap, ◌≢◌, ◌⊎◌, inl, inr, true, false, Option, none, some, List,
  [], ◌∷◌, arith, if◌then◌else◌, is_some, Bool-cases, Option-cases, length, get_elem?, set,
}
use project_voyager.Lora.Dedup.{
  dedup_slots, u32_mod, RxDedupEntry, RxDedupMulti, key_slot, free_slot, rx_dedup_lookup, holds,
}

-- The entry of a key, as the table is meant: the first used entry with that key.
abbrev pub entry_of : ℕ → List RxDedupEntry → Option RxDedupEntry
entry_of key [] = none
entry_of key (e ∷ es) = if holds key e then some e else entry_of key es

abbrev pub NotIn : ℕ → List RxDedupEntry → Type 0
NotIn key [] = Unit {0}
NotIn key (e ∷ es) = (holds key e ≡ false) × NotIn key es

-- No entry but the one in slot `i` belongs to the key.
abbrev pub Others : ℕ → List RxDedupEntry → ℕ → Type 0
Others key [] i = Unit {0}
Others key (e ∷ es) zero = NotIn key es
Others key (e ∷ es) (suc i) = (holds key e ≡ false) × Others key es i

-- No two used entries have one key.
abbrev pub Unique : List RxDedupEntry → Type 0
Unique [] = Unit {0}
Unique (e ∷ es) = ((e.used ≡ false) ⊎ NotIn e.key es) × Unique es

pub record Inv (d : RxDedupMulti) : Type 0 where
  pub slots : length d.entries ≡ dedup_slots
  pub lru_in : d.lru < dedup_slots
  pub counter : d.accepted < u32_mod
  pub unique : Unique d.entries

pub entry_of-NotIn : (es : List RxDedupEntry) (key : ℕ) → NotIn key es → entry_of key es ≡ none
entry_of-NotIn [] key n = refl
entry_of-NotIn (e ∷ es) key n = ground (arith, entry_of-NotIn es key n.1)

pub NotIn-Others : (es : List RxDedupEntry) (key i : ℕ) → NotIn key es → Others key es i
NotIn-Others [] key i n = tt
NotIn-Others (e ∷ es) key zero n = n.1
NotIn-Others (e ∷ es) key (suc i) n = (n.0, NotIn-Others es key i n.1)

pub NotIn-set :
    (es : List RxDedupEntry) (key i : ℕ) (x : RxDedupEntry)
    → x.key ≢ key
    → NotIn key es
    → NotIn key (set es i x)
NotIn-set [] key i x h n = tt
NotIn-set (e ∷ es) key zero x h n = ground arith
NotIn-set (e ∷ es) key (suc i) x h n = (n.0, NotIn-set es key i x h n.1)

pub Others-set :
    (es : List RxDedupEntry) (key i : ℕ) (x : RxDedupEntry)
    → Others key es i
    → Others key (set es i x) i
Others-set [] key i x o = tt
Others-set (e ∷ es) key zero x o = o
Others-set (e ∷ es) key (suc i) x o = (o.0, Others-set es key i x o.1)

-- A write to the key's only slot.
pub entry_of-set_self :
    (es : List RxDedupEntry) (key i : ℕ) (x : RxDedupEntry)
    → Others key es i
    → i < length es
    → x.key ≡ key
    → x.used ≡ true
    → entry_of key (set es i x) ≡ some x
entry_of-set_self [] key i x o h k u = absurd (omega arith)
entry_of-set_self (e ∷ es) key zero x o h k u = ground arith
entry_of-set_self (e ∷ es) key (suc i) x o h k u =
    ground (arith, entry_of-set_self es key i x o.1 (omega arith) k u)

pub entry_of-set_gone :
    (es : List RxDedupEntry) (key i : ℕ) (x : RxDedupEntry)
    → Others key es i
    → i < length es
    → x.key ≢ key
    → entry_of key (set es i x) ≡ none
entry_of-set_gone [] key i x o h k = refl
entry_of-set_gone (e ∷ es) key zero x o h k = ground (arith, entry_of-NotIn es key o)
entry_of-set_gone (e ∷ es) key (suc i) x o h k =
    ground (arith, entry_of-set_gone es key i x o.1 (omega arith) k)

-- A write for another key leaves the entry of a key alone, or takes its slot.
pub entry_of-set_ne :
    (es : List RxDedupEntry) (key i : ℕ) (x : RxDedupEntry)
    → Unique es
    → x.key ≢ key
    → (entry_of key (set es i x) ≡ entry_of key es) ⊎ (entry_of key (set es i x) ≡ none)
entry_of-set_ne [] key i x u k = inl refl
entry_of-set_ne (e ∷ es) key zero x (inl f, u) k = inl (ground arith)
entry_of-set_ne (e ∷ es) key zero x (inr n, u) k = elim (Bool-cases (holds key e)) [
  | inl h ↦
      let same : e.key ≡ key = ground arith in
      let n' : NotIn key es = rw same at n in inr (ground (arith, entry_of-NotIn es key n'))
  | inr h ↦ inl (ground arith)
]
entry_of-set_ne (e ∷ es) key (suc i) x (f, u) k = ground (arith, entry_of-set_ne es key i x u k)

pub Unique-set :
    (es : List RxDedupEntry) (i : ℕ) (x : RxDedupEntry)
    → Others x.key es i
    → Unique es
    → Unique (set es i x)
Unique-set [] i x o u = tt
Unique-set (e ∷ es) zero x o u = (inr o, u.1)
Unique-set (e ∷ es) (suc i) x o (inl f, u) = (inl f, Unique-set es i x o.1 u)
Unique-set (e ∷ es) (suc i) x o (inr n, u) = elim (Bool-cases e.used) [
  | inr off ↦ (inl off, Unique-set es i x o.1 u)
  | inl live ↦ (inr (NotIn-set es e.key i x (ground arith) n), Unique-set es i x o.1 u)
]

pub key_slot-none : (es : List RxDedupEntry) (key i : ℕ) → key_slot key i es ≡ none → NotIn key es
unfolding key_slot
key_slot-none [] key i h = tt
key_slot-none (e ∷ es) key i h = ground (arith, key_slot-none es key (i + 1))

pub NotIn-key_slot : (es : List RxDedupEntry) (key i : ℕ) → NotIn key es → key_slot key i es ≡ none
unfolding key_slot
NotIn-key_slot [] key i h = refl
NotIn-key_slot (e ∷ es) key i h = ground (arith, NotIn-key_slot es key (i + 1) h.1)

-- The slot found, counted from the start of the list.
pub key_slot-some :
    (es : List RxDedupEntry) (key i j : ℕ)
    → key_slot key i es ≡ some j
    → Unique es
    → (k : ℕ) × (j ≡ i + k)
      × (k < length es)
      × (get_elem? es k ≡ entry_of key es)
      × Others key es k
      × (is_some (entry_of key es) ≡ true)
unfolding key_slot
key_slot-some [] key i j h u = cc
key_slot-some (e ∷ es) key i j h (d, u) = elim (Bool-cases (holds key e)) [
  | inl hit ↦
      let same : e.key ≡ key = ground arith in
      let gone : NotIn e.key es = elim d [ inl f ↦ absurd (ground arith) | inr n ↦ n ] in
      (0, ground arith, omega arith, ground arith, rw same at gone, ground arith)
  | inr miss ↦
      let found : key_slot key (i + 1) es ≡ some j = ground arith in
      let (k, e₁, e₂, e₃, e₄, e₅) = key_slot-some es key (i + 1) j found u in
      (suc k, omega arith, omega arith, ground arith, (miss, e₄), ground arith)
]

pub lookup-entry_of :
    (d : RxDedupMulti) (key : ℕ) → Unique d.entries → rx_dedup_lookup d key ≡ entry_of key d.entries
unfolding rx_dedup_lookup
lookup-entry_of d key u = elim (Option-cases (key_slot key 0 d.entries)) [
  | inl n ↦ ground (arith, entry_of-NotIn d.entries key (key_slot-none d.entries key 0 n))
  | inr (j, f) ↦
      let (k, e₁, e₂, e₃, e₄, e₅) = key_slot-some d.entries key 0 j f u in
      let at : j ≡ k = omega arith in ground (arith, at, e₃)
]

pub free_slot-lt : (es : List RxDedupEntry) (i j : ℕ) → free_slot i es ≡ some j → j < i + length es
unfolding free_slot
free_slot-lt [] i j h = cc
free_slot-lt (e ∷ es) i j h = ground (arith, free_slot-lt es (i + 1) j)

pub set-set :
    (es : List RxDedupEntry) (i : ℕ) (x y : RxDedupEntry) → set (set es i x) i y ≡ set es i y
set-set [] i x y = refl
set-set (e ∷ es) zero x y = refl
set-set (e ∷ es) (suc i) x y = ap (◌∷◌ e) (set-set es i x y)
