-- ===== src/Core/LoraConfig/Ranges.antt =====
-- src/core/core_dispatch.h, a LoRa configuration that is accepted: its six numbers and their ranges.

use project_voyager.Prelude.{
  ℕ, ◌≤◌, ◌≡◌, refl, ◌⊎◌, inl, inr, true, false, ◌||◌, some, List, [], ◌∷◌, arith, ◌==◌, ==_iff,
  Bool-cases, Option-cases, Bytes, codes,
}
use project_voyager.Core.LoraConfig.{
  is_bandwidth, bandwidths, core_lora_config_valid, core_lora_config_string_valid,
}
use project_voyager.Core.Json.{Json}
use project_voyager.Prelude.Int.{ℤ, ltb_ℤ, pos, negsuc}

abbrev pub IsOneOf : List ℕ → ℕ → Type 0
IsOneOf [] n = ⊥
IsOneOf (m ∷ ms) n = (n ≡ m) ⊎ IsOneOf ms n

pub is_bandwidth-among :
    (bs : List ℕ) (bw : ℤ) → is_bandwidth bs bw ≡ true → (n : ℕ) × (bw ≡ pos n) × IsOneOf bs n
unfolding is_bandwidth
is_bandwidth-among [] bw e = absurd (cc)
is_bandwidth-among (b ∷ bs) (pos n) e = elim (Bool-cases (n == b)) [
  | inl same ↦ (n, refl, inl ((==_iff _ _).0 same))
  | inr other ↦
      let (m, is, among) = is_bandwidth-among bs (pos n) (ground (arith, e, other)) in
      (m, is, inr among)
]
is_bandwidth-among (b ∷ bs) (negsuc n) e =
    let (m, is, among) = is_bandwidth-among bs (negsuc n) e in (m, is, inr among)

in_range :
    (lo hi : ℕ) (x : ℤ)
    → (ltb_ℤ x (pos lo) || ltb_ℤ (pos hi) x) ≡ false
    → (n : ℕ) × (x ≡ pos n) × (lo ≤ n) × (n ≤ hi)
in_range lo hi (pos n) e = (n, refl, ground arith, ground arith)
in_range lo hi (negsuc n) e = absurd (ground (arith, e))

module _ (j : Json) where
  open j use {Value, parse, member, is_object, is_long, as_long}

  -- A number, from `lo` to `hi`, under a key.
  abbrev pub IsField : Value → Bytes → ℕ → ℕ → Type 0
  IsField o key lo hi =
      (n : ℕ) × (is_long (member o key) ≡ true)
      × (as_long (member o key) ≡ pos n)
      × (lo ≤ n)
      × (n ≤ hi)

  -- One of the bandwidths that the radio has, under its key.
  abbrev pub IsBandwidth : Value → Type 0
  IsBandwidth o =
      (n : ℕ) × (is_long (member o (codes "SignalBandwidth")) ≡ true)
      × (as_long (member o (codes "SignalBandwidth")) ≡ pos n)
      × IsOneOf
          (7800 ∷ 10400 ∷ 15600 ∷ 20800 ∷ 31250 ∷ 41700 ∷ 62500 ∷ 125000 ∷ 250000 ∷ 500000 ∷ []) n

  abbrev pub IsConfig : Value → Type 0
  IsConfig o =
      IsField o (codes "freq") 410000000 525000000
      × IsField o (codes "TxPower") 2 20
      × IsField o (codes "SpreadingFactor") 6 12
      × IsBandwidth o
      × IsField o (codes "CodingRate4") 5 8
      × IsField o (codes "SyncWord") 0 255

  -- The text of an object with these six numbers.
  abbrev pub IsConfigText : Bytes → Type 0
  IsConfigText text = (o : Value) × (parse text ≡ some o) × (is_object o ≡ true) × IsConfig o

  field :
      (o : Value) (key : Bytes) (lo hi : ℕ)
      → is_long (member o key) ≡ true
      → (ltb_ℤ (as_long (member o key)) (pos lo) || ltb_ℤ (pos hi) (as_long (member o key))) ≡ false
      → IsField o key lo hi
  field o key lo hi is e =
      let (n, number, low, high) = in_range lo hi (as_long (member o key)) e in
      (n, is, number, low, high)

  core_lora_config_valid-IsConfig : (o : Value) → core_lora_config_valid j o ≡ true → IsConfig o
  unfolding core_lora_config_valid
  core_lora_config_valid-IsConfig o e =
      let (n, number, among) =
        is_bandwidth-among bandwidths (as_long (member o (codes "SignalBandwidth")))
          (ground (arith, e)) in
      (
        field o (codes "freq") _ _ (ground (arith, e)) (ground (arith, e)),
        field o (codes "TxPower") _ _ (ground (arith, e)) (ground (arith, e)),
        field o (codes "SpreadingFactor") _ _ (ground (arith, e)) (ground (arith, e)),
        (n, ground (arith, e), number, among),
        field o (codes "CodingRate4") _ _ (ground (arith, e)) (ground (arith, e)),
        field o (codes "SyncWord") _ _ (ground (arith, e)) (ground (arith, e)),
      )

  pub core_lora_config_string_valid-IsConfigText :
      (text : Bytes) → core_lora_config_string_valid j text ≡ true → IsConfigText text
  unfolding core_lora_config_string_valid
  core_lora_config_string_valid-IsConfigText text e = elim (Option-cases (parse text)) [
    | inl failed ↦ absurd (ground (arith, e, failed))
    | inr (o, read) ↦ (
      o,
      read,
      ground (arith, e, read),
      core_lora_config_valid-IsConfig o (ground (arith, e, read)),
    )
  ]
