-- ===== src/Lora/Dedup.antt =====
-- src/lora/lora_proto.h, the receiver's suppression of repeated packets: the single-source check, and
-- the table of the last accepted packet of each of four sources.
pub mod Table
pub mod Laws
use Prim.Native.Nat.{bit_xor}
use project_voyager.Prelude.{
  ℕ, zero, suc, ◌+◌, ◌-◌, ◌*◌, ◌/◌, ◌%◌, ◌^◌, ◌≤◌, ◌<◌, ◌≡◌, refl, sym, ap, ◌∙◌, ◌≢◌, ◌↔◌, ◌⊎◌, inl,
  inr, Bool, true, false, not, ◌&&◌, ◌||◌, Option, none, some, List, [], ◌∷◌, ◌++◌, map,
  append_assoc, append-nil, arith, ltb, leb, ◌==◌, ◌!=◌, if◌then◌else◌, is_some, ==_iff, Bool-cases,
  Option-cases, Bytes, codes, length, get_elem?, get_or, set, take, drop, replicate, All,
  length-append, take-length-append, drop-length-append, length-set, length-take, get_or-set_self,
  get_or-set_ne, IsByte, str_eq, str_eq_iff, str_eq_refl,
}

pub record RxDedup : Type 0 where
  pub have : Bool
  pub last_seq : ℕ

unfoldable pub rx_is_duplicate : RxDedup → ℕ → Bool
rx_is_duplicate d seq = d.have && d.last_seq == seq

unfoldable pub rx_commit : RxDedup → ℕ → RxDedup
rx_commit d seq = record { have = true; last_seq = seq }

abbrev pub dedup_slots : ℕ
dedup_slots = 4

abbrev pub dedup_window : ℕ
dedup_window = 16

abbrev pub u32_mod : ℕ
u32_mod = 2 ^ 32

pub record RxDedupEntry : Type 0 where
  pub key : ℕ
  pub at : ℕ
  pub seq : ℕ
  pub used : Bool

abbrev pub empty_entry : RxDedupEntry
empty_entry = record { key = 0; at = 0; seq = 0; used = false }

-- `entries` is the array of `dedup_slots` entries.
pub record RxDedupMulti : Type 0 where
  pub entries : List RxDedupEntry
  pub lru : ℕ
  pub accepted : ℕ

abbrev pub fresh : RxDedupMulti
fresh = record { entries = replicate dedup_slots empty_entry; lru = 0; accepted = 0 }

hash_loop : ℕ → Bytes → ℕ
hash_loop h [] = h
hash_loop h (c ∷ cs) = hash_loop (bit_xor ((h * 2 ^ 5 + h) % u32_mod) c) cs

-- A null pointer is `none`; the arithmetic is that of `uint32_t`.
unfoldable pub hash_mac : Option Bytes → ℕ
unfolding hash_loop
hash_mac (some (c ∷ cs)) = let h = hash_loop 5381 (c ∷ cs) in if h == 0 then 1 else h
hash_mac _ = 1

abbrev holds : ℕ → RxDedupEntry → Bool
holds key e = e.used && e.key == key

-- The first loop of `rx_dedup_lookup` and of `rx_dedup_find`: the slot of the key, counted from `i`.
unfoldable pub key_slot : ℕ → ℕ → List RxDedupEntry → Option ℕ
key_slot key i [] = none
key_slot key i (e ∷ es) =
    let later = key_slot key (i + 1) es in if e.used && e.key == key then some i else later

unfoldable pub free_slot : ℕ → List RxDedupEntry → Option ℕ
free_slot i [] = none
free_slot i (e ∷ es) = let later = free_slot (i + 1) es in if not e.used then some i else later

unfoldable pub rx_dedup_lookup : RxDedupMulti → ℕ → Option RxDedupEntry
unfolding key_slot
rx_dedup_lookup d key = elim (key_slot key 0 d.entries) [
  | none ↦ none
  | some i ↦ get_elem? d.entries i
]

-- The table after the search, and the slot found: that of the key, else the first free one, else the
-- one that `lru` points at, which is cleared.
unfoldable pub rx_dedup_find : RxDedupMulti → ℕ → RxDedupMulti × ℕ
unfolding key_slot free_slot
rx_dedup_find d key = elim (key_slot key 0 d.entries) [
  | some i ↦ (d, i)
  | none ↦ elim (free_slot 0 d.entries) [
    | some i ↦ (d, i)
    | none ↦ (
      record d {
        entries =
            set d.entries d.lru (record (get_or d.entries d.lru empty_entry) { used = false });
        lru = (d.lru + 1) % dedup_slots;
      },
      d.lru,
    )
  ]
]

-- `d.accepted - e->at` is a `uint32_t` subtraction.
unfoldable pub rx_is_duplicate_multi : RxDedupMulti → ℕ → ℕ → Bool
unfolding rx_dedup_lookup
rx_is_duplicate_multi d key seq = elim (rx_dedup_lookup d key) [
  | none ↦ false
  | some e ↦ e.seq == seq && ltb ((d.accepted + u32_mod - e.at) % u32_mod) dedup_window
]

unfoldable pub rx_commit_multi : RxDedupMulti → ℕ → ℕ → RxDedupMulti
unfolding rx_dedup_find
rx_commit_multi d key seq =
    let (d', i) = rx_dedup_find d key in
    record d' {
      entries = set d'.entries i (record { key = key; at = d'.accepted; seq = seq; used = true });
      accepted = (d'.accepted + 1) % u32_mod;
    }
