-- ===== src/Lora/Config.antt =====
-- src/lora/lora_proto.h and src/lora/lora_support.cpp, the settings of the radio: reading them from JSON
-- and from files, with their fallbacks, and saving them.
pub mod Ranges
pub mod Printing
pub mod Saved
use project_voyager.Prelude.{
  ℕ, zero, suc, ◌+◌, ◌-◌, ◌*◌, ◌/◌, ◌%◌, ◌^◌, ◌≤◌, ◌<◌, ◌≡◌, refl, sym, ap, ◌∙◌, ◌≢◌, ◌↔◌, ◌⊎◌, inl,
  inr, Bool, true, false, not, ◌&&◌, ◌||◌, Option, none, some, List, [], ◌∷◌, ◌++◌, map,
  append_assoc, append-nil, arith, ltb, leb, ◌==◌, ◌!=◌, if◌then◌else◌, is_some, ==_iff, Bool-cases,
  Option-cases, Bytes, codes, length, get_elem?, get_or, set, take, drop, replicate, All,
  length-append, take-length-append, drop-length-append, length-set, length-take, get_or-set_self,
  get_or-set_ne, IsByte, str_eq, str_eq_iff, str_eq_refl, str_eq_empty, List-cases,
}
use project_voyager.Prelude.Int.{
  ℤ, pos_part, neg_part, sub_ℕ, ◌+ℤ◌, ◌-ℤ◌, ◌≤ℤ◌, ◌<ℤ◌, ltb_ℤ, leb_ℤ, pos, negsuc,
}
use project_voyager.Core.Json.{Json}
use project_voyager.Core.LoraConfig.{
  is_bandwidth, bandwidths, core_lora_config_valid, core_lora_config_string_valid,
}
use project_voyager.Core.Files.{
  LittleFs, Access, fs_enter, tmp_of, read_file, replace, write_file_atomic, restore_default,
}
use project_voyager.Lora.Receive.{
  Station, Reply, before_nul, is_bad_crc, handle_ack, handle_serial, handle_net, handle_msg,
  payload_of, handle_rx_frame,
}

-- The type of the settings; `int` and `long` hold every value in range.
pub record LoraConfig : Type 0 where
  pub freq : ℤ
  pub tx_power : ℤ
  pub spreading_factor : ℤ
  pub signal_bandwidth : ℤ
  pub coding_rate : ℤ
  pub sync_word : ℤ

abbrev pub default_config : LoraConfig
default_config = record {
  freq = pos 510000000;
  tx_power = pos 10;
  spreading_factor = pos 8;
  signal_bandwidth = pos 500000;
  coding_rate = pos 7;
  sync_word = pos 52;
}

unfoldable pub valid_bandwidth : ℤ → Bool
unfolding is_bandwidth
valid_bandwidth bw =
    is_bandwidth
      (7800 ∷ 10400 ∷ 15600 ∷ 20800 ∷ 31250 ∷ 41700 ∷ 62500 ∷ 125000 ∷ 250000 ∷ 500000 ∷ []) bw

abbrev pub config_path : Bytes
config_path = codes "/config/lora_config.json"

abbrev pub default_path : Bytes
default_path = codes "/config/lora_default.json"

-- The result `true` with the settings, or `false` with the name of the first bad key.
pub data ConfigResult : Type 0 where
  accepted : LoraConfig → ConfigResult
  refused : Bytes → ConfigResult

-- The members of the document, in their order.
unfoldable pub members : LoraConfig → List (Bytes × ℤ)
members c =
    (codes "freq", c.freq)
    ∷ (codes "TxPower", c.tx_power)
    ∷ (codes "SpreadingFactor", c.spreading_factor)
    ∷ (codes "SignalBandwidth", c.signal_bandwidth)
    ∷ (codes "CodingRate4", c.coding_rate)
    ∷ (codes "SyncWord", c.sync_word)
    ∷ []

-- `print` is the library's text of an object with these members; `none` is the result 0.
unfoldable pub config_to_json : (List (Bytes × ℤ) → Bytes) → LoraConfig → ℕ → Option Bytes
unfolding members
config_to_json print c room =
    let text = print (members c) in
    if room == 0 || ltb room (length text + 1) then none else some text

-- Floating point is not modelled: `is_double` is the library's test, `whole` the test
-- `d == (double)(long)d` of a number's value `d`, and `to_long` is `(long)d`.
module _ (j : Json) (is_double whole : j.Value → Bool) (to_long : j.Value → ℤ) where
  open j use {Value, parse, member, is_null, is_object, is_long}

  unfoldable pub num : Value → Bytes → ℤ → ℤ → Option ℤ
  num v k lo hi =
      let f = member v k in
      let x = to_long f in
      if is_null f || not (is_long f || is_double f)
      then none
      else if not (whole f)
      then none
      else if ltb_ℤ x lo || ltb_ℤ hi x
      then none
      else some x

  unfoldable pub bandwidth_of : Value → Option ℤ
  unfolding num valid_bandwidth
  bandwidth_of v = elim (num v (codes "SignalBandwidth") (pos 7800) (pos 500000)) [
    | none ↦ none
    | some bw ↦ if valid_bandwidth bw then some bw else none
  ]

  -- A value that was read, or the refusal under its key.
  unfoldable pub or_fail : Bytes → Option ℤ → (ℤ → ConfigResult) → ConfigResult
  or_fail k none next = refused k
  or_fail k (some x) next = next x

  unfoldable pub read_fields : Value → ConfigResult
  unfolding num bandwidth_of or_fail
  read_fields v =
      or_fail (codes "freq") (num v (codes "freq") (pos 410000000) (pos 525000000)) (λ freq.
        or_fail (codes "TxPower") (num v (codes "TxPower") (pos 2) (pos 20)) (λ txp.
          or_fail (codes "SpreadingFactor") (num v (codes "SpreadingFactor") (pos 6) (pos 12))
            (λ sf. or_fail (codes "SignalBandwidth") (bandwidth_of v) (λ bw.
              or_fail (codes "CodingRate4") (num v (codes "CodingRate4") (pos 5) (pos 8)) (λ cr.
                or_fail (codes "SyncWord") (num v (codes "SyncWord") (pos 0) (pos 255)) (λ sw.
                  accepted (record {
                    freq = freq;
                    tx_power = txp;
                    spreading_factor = sf;
                    signal_bandwidth = bw;
                    coding_rate = cr;
                    sync_word = sw;
                  })))))))

  unfoldable pub config_from_json : Value → ConfigResult
  unfolding read_fields
  config_from_json v = if not (is_object v) then refused (codes "object") else read_fields v

  unfoldable pub config_from_text : Option Bytes → ConfigResult
  unfolding config_from_json
  config_from_text none = refused (codes "json")
  config_from_text (some text) = elim (parse text) [
    | none ↦ refused (codes "json")
    | some doc ↦ config_from_json doc
  ]

  module _ (fs : LittleFs) where
    open fs use {Store}

    -- `none` is the result `false`. A text ends at a zero byte.
    unfoldable pub read_config_file : Access → Store → Bytes → Option LoraConfig
    unfolding config_from_text
    read_config_file a s path = elim (read_file fs a s path) [
      | none ↦ none
      | some text ↦
          let result : Option LoraConfig = elim (config_from_text (some (before_nul text))) [
            | refused k ↦ none
            | accepted c ↦ some c
          ] in
          if ltb 1024 (length text) then none else result
    ]

    -- The settings that are applied at the start; the two accesses are those of the two files.
    unfoldable pub chosen_config : Access → Access → Store → LoraConfig
    unfolding read_config_file
    chosen_config a b s = elim (read_config_file a s config_path) [
      | some c ↦ c
      | none ↦ elim (read_config_file b s default_path) [ some c ↦ c | none ↦ default_config ]
    ]

    -- `taken` tells whether the radio's mutex is had in time.
    unfoldable pub apply_config : Bool → LoraConfig → LoraConfig → LoraConfig × Bool
    apply_config taken active c = if taken then (c, true) else (active, false)

    -- `none` is the halt of the board.
    unfoldable pub set_lora_parameters :
        Bool → Access → Access → Store → LoraConfig → Option LoraConfig
    unfolding chosen_config apply_config
    set_lora_parameters taken a b s active =
        let (active', ok) = apply_config taken active (chosen_config a b s) in
        if ok then some active' else none

    -- The new settings of the radio and files, and the result.
    pub record Saving : Type 0 where
      pub active : LoraConfig
      pub store : Store
      pub ok : Bool

    unfoldable pub save_lora_config :
        (List (Bytes × ℤ) → Bytes) → Bool → Access → Store → LoraConfig → Bytes → Saving
    unfolding config_from_text config_to_json apply_config
    save_lora_config print taken a s active value =
        let failed : Saving = record { active = active; store = s; ok = false } in
        elim (config_from_text (some (before_nul value))) [
          | refused k ↦ failed
          | accepted c ↦ elim (config_to_json print c 192) [
            | none ↦ failed
            | some js ↦
                let (s', written) = write_file_atomic fs a s config_path js in
                let (active', applied) = apply_config taken active c in
                if not written
                then record { active = active; store = s'; ok = false }
                else record { active = active'; store = s'; ok = applied }
          ]
        ]
