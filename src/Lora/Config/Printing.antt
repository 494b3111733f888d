-- ===== src/Lora/Config/Printing.antt =====
-- src/lora/lora_proto.h: settings that were printed read back as they were.
use project_voyager.Prelude.{
  ℕ, ◌≡◌, refl, ◌≢◌, Bool, true, false, some, List, [], ◌∷◌, arith, Bytes, codes, All,
}
use project_voyager.Prelude.Int.{ℤ, pos}
use project_voyager.Core.Json.{Json}
use project_voyager.Core.LoraConfig.Ranges.{is_bandwidth-among}
use project_voyager.Lora.Receive.{before_nul}
use project_voyager.Lora.Config.Ranges.{Between, InRange}
use project_voyager.Lora.Config.{
  LoraConfig, valid_bandwidth, num, bandwidth_of, or_fail, read_fields, config_from_json,
  config_from_text, members, accepted,
}

-- Different names, without zero bytes.
abbrev pub AreNames : List (Bytes × ℤ) → Type 0
AreNames [] = Unit {0}
AreNames ((k, x) ∷ ms) = All (λ b. b ≢ 0) k × (All (λ m. m.0 ≢ k) ms × AreNames ms)

module _ (j : Json) (is_double whole : j.Value → Bool) (to_long : j.Value → ℤ) where
  -- A value that is the whole number `x`.
  abbrev pub IsNumber : j.Value → ℤ → Type 0
  IsNumber f x = (j.is_null f ≡ false) × (j.is_long f ≡ true) × (whole f ≡ true) × (to_long f ≡ x)

  -- The printed text of an object reads back as an object with those members.
  abbrev pub IsObjectOf : List (Bytes × ℤ) → Bytes → Type 0
  IsObjectOf ms text =
      (v : j.Value) × (j.parse text ≡ some v)
      × (j.is_object v ≡ true)
      × All (λ m. IsNumber (j.member v m.0) m.1) ms

  -- What the code relies on in the library that prints: its texts are C strings and read back, for
  -- members of different names.
  pub record Printer (print : List (Bytes × ℤ) → Bytes) : Type 0 where
    pub no_zero : (ms : List (Bytes × ℤ)) → AreNames ms → before_nul (print ms) ≡ print ms
    pub reads_back : (ms : List (Bytes × ℤ)) → AreNames ms → IsObjectOf ms (print ms)

  num-IsNumber :
      (v : j.Value) (k : Bytes) (lo hi : ℕ) (x : ℤ)
      → IsNumber (j.member v k) x
      → Between lo hi x
      → num j is_double whole to_long v k (pos lo) (pos hi) ≡ some x
  unfolding num
  num-IsNumber v k lo hi x h (n, e, low, high) = ground (arith, h, e, low, high)

  bandwidth-Between : (x : ℤ) → valid_bandwidth x ≡ true → Between 7800 500000 x
  unfolding valid_bandwidth
  bandwidth-Between x h =
      let (n, e, among) =
        is_bandwidth-among
          (7800 ∷ 10400 ∷ 15600 ∷ 20800 ∷ 31250 ∷ 41700 ∷ 62500 ∷ 125000 ∷ 250000 ∷ 500000 ∷ []) x
          h in
      (n, e, ground (arith, among), ground (arith, among))

  bandwidth_of-IsNumber :
      (v : j.Value) (x : ℤ)
      → IsNumber (j.member v (codes "SignalBandwidth")) x
      → valid_bandwidth x ≡ true
      → bandwidth_of j is_double whole to_long v ≡ some x
  unfolding bandwidth_of
  bandwidth_of-IsNumber v x h ok =
      rw
        (
          bandwidth_of,
          num-IsNumber v (codes "SignalBandwidth") 7800 500000 x h (bandwidth-Between x ok),
        )
        (rw ok refl)

  config_from_json-members :
      (v : j.Value) (c : LoraConfig)
      → j.is_object v ≡ true
      → All (λ m. IsNumber (j.member v m.0) m.1) (members c)
      → InRange c
      → config_from_json j is_double whole to_long v ≡ accepted c
  unfolding config_from_json read_fields or_fail members
  config_from_json-members v c o (freq, (txp, (sf, (bw, (cr, (sw, _)))))) r =
      rw
        (
          config_from_json,
          o,
          num-IsNumber v (codes "freq") 410000000 525000000 c.freq freq r.freq_in,
          num-IsNumber v (codes "TxPower") 2 20 c.tx_power txp r.tx_power_in,
          num-IsNumber v (codes "SpreadingFactor") 6 12 c.spreading_factor sf r.spreading_factor_in,
          bandwidth_of-IsNumber v c.signal_bandwidth bw r.signal_bandwidth_in,
          num-IsNumber v (codes "CodingRate4") 5 8 c.coding_rate cr r.coding_rate_in,
          num-IsNumber v (codes "SyncWord") 0 255 c.sync_word sw r.sync_word_in,
        )
        refl

  pub members-AreNames : (c : LoraConfig) → AreNames (members c)
  unfolding members
  members-AreNames c = ground arith

  -- Settings in range that were printed read back as they were.
  pub config_from_text-members :
      (print : List (Bytes × ℤ) → Bytes) (c : LoraConfig)
      → Printer print
      → InRange c
      → config_from_text j is_double whole to_long (some (before_nul (print (members c))))
        ≡ accepted c
  unfolding config_from_text
  config_from_text-members print c p r =
      let (v, e, o, all) = p.reads_back (members c) (members-AreNames c) in
      rw (p.no_zero (members c) (members-AreNames c), config_from_text, e)
        (config_from_json-members v c o all r)
