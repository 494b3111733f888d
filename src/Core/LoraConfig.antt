-- ===== src/Core/LoraConfig.antt =====
-- src/core/core_dispatch.h, the range checks of a LoRa configuration.
pub mod Ranges
use project_voyager.Prelude.{
  ℕ, Bool, true, false, not, ◌&&◌, ◌||◌, none, some, List, [], ◌∷◌, ◌==◌, if◌then◌else◌, Bytes,
  codes,
}
use project_voyager.Prelude.Int.{ℤ, pos, ltb_ℤ}
use project_voyager.Core.Json.{Json}

abbrev out_of : ℤ → ℤ → ℤ → Bool
out_of lo hi x = ltb_ℤ x lo || ltb_ℤ hi x

abbrev eq_ℤ : ℤ → ℕ → Bool
eq_ℤ (pos n) m = n == m
eq_ℤ _ m = false

-- The loop over the table of bandwidths.
unfoldable pub is_bandwidth : List ℕ → ℤ → Bool
is_bandwidth [] bw = false
is_bandwidth (b ∷ bs) bw = eq_ℤ bw b || is_bandwidth bs bw

abbrev pub bandwidths : List ℕ
bandwidths = 7800 ∷ 10400 ∷ 15600 ∷ 20800 ∷ 31250 ∷ 41700 ∷ 62500 ∷ 125000 ∷ 250000 ∷ 500000 ∷ []

module _ (j : Json) where
  open j use {Value, parse, member, is_null, is_object, is_long, as_long}

  abbrev keys : List Bytes
  keys =
      codes "freq"
      ∷ codes "TxPower"
      ∷ codes "SpreadingFactor"
      ∷ codes "SignalBandwidth"
      ∷ codes "CodingRate4"
      ∷ codes "SyncWord"
      ∷ []

  all_long : Value → List Bytes → Bool
  all_long o [] = true
  all_long o (k ∷ ks) = is_long (member o k) && all_long o ks

  unfoldable pub core_lora_config_valid : Value → Bool
  unfolding all_long is_bandwidth
  core_lora_config_valid o =
      let field = λ (k : Bytes). as_long (member o k) in
      if is_null o
      then false
      else if not (all_long o keys)
      then false
      else if out_of (pos 410000000) (pos 525000000) (field (codes "freq"))
      then false
      else if out_of (pos 2) (pos 20) (field (codes "TxPower"))
      then false
      else if out_of (pos 6) (pos 12) (field (codes "SpreadingFactor"))
      then false
      else if out_of (pos 5) (pos 8) (field (codes "CodingRate4"))
      then false
      else if out_of (pos 0) (pos 255) (field (codes "SyncWord"))
      then false
      else is_bandwidth bandwidths (field (codes "SignalBandwidth"))

  unfoldable pub core_lora_config_string_valid : Bytes → Bool
  unfolding core_lora_config_valid
  core_lora_config_string_valid json = elim (parse json) [
    | none ↦ false
    | some cfg ↦ if not (is_object cfg) then false else core_lora_config_valid cfg
  ]
