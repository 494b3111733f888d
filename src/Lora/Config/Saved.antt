-- ===== src/Lora/Config/Saved.antt =====
-- src/lora/lora_proto.h and src/lora/lora_support.cpp: whatever the files hold, the radio gets settings in
-- range, and what saving new ones does.
use mathlib.Core.Path.{subst}
use project_voyager.Prelude.{
  ℕ, ◌+◌, ◌≤◌, ◌≡◌, refl, ◌∙◌, ◌⊎◌, inl, inr, Bool, true, false, ◌||◌, Option, none, some, List,
  arith, ltb, Bool-cases, Option-cases, Bytes, codes, length,
}
use project_voyager.Prelude.Int.{ℤ, ltb_ℤ, pos, negsuc}
use project_voyager.Core.Json.{Json}
use project_voyager.Core.LoraConfig.{is_bandwidth}
use project_voyager.Core.Files.{LittleFs, Access, fs_enter, read_file, write_file_atomic}
use project_voyager.Core.Files.Atomic.{Documented, write_file_atomic_lem}
use project_voyager.Lora.Receive.{before_nul}
use project_voyager.Lora.Config.Printing.{Printer, config_from_text-members}
use project_voyager.Lora.Config.Ranges.{Between, InRange}
use project_voyager.Lora.Config.{
  LoraConfig, default_config, valid_bandwidth, config_path, default_path, ConfigResult, num,
  bandwidth_of, or_fail, read_fields, config_from_json, config_from_text, members, config_to_json,
  read_config_file, chosen_config, apply_config, Saving, save_lora_config, accepted, refused,
}

within : (lo hi : ℕ) (x : ℤ) → (ltb_ℤ x (pos lo) || ltb_ℤ (pos hi) x) ≡ false → Between lo hi x
within lo hi (pos n) h = (n, refl, ground (arith, h), ground (arith, h))
within lo hi (negsuc n) h = ground (arith, h)

result-cases :
    (r : ConfigResult) → ((k : Bytes) × (r ≡ refused k)) ⊎ ((c : LoraConfig) × (r ≡ accepted c))
result-cases (refused k) = inl (k, refl)
result-cases (accepted c) = inr (c, refl)

accepted_injective : {a b : LoraConfig} → accepted a ≡ accepted b → a ≡ b
accepted_injective e = cc

pub default_config-InRange : InRange default_config
unfolding valid_bandwidth is_bandwidth
default_config-InRange = record {
  freq_in = (510000000, refl, omega arith, omega arith);
  tx_power_in = (10, refl, omega arith, omega arith);
  spreading_factor_in = (8, refl, omega arith, omega arith);
  signal_bandwidth_in = refl;
  coding_rate_in = (7, refl, omega arith, omega arith);
  sync_word_in = (52, refl, omega arith, omega arith);
}

module _ (j : Json) (is_double whole : j.Value → Bool) (to_long : j.Value → ℤ) where
  num-Between :
      (v : j.Value) (k : Bytes) (lo hi : ℕ) (x : ℤ)
      → num j is_double whole to_long v k (pos lo) (pos hi) ≡ some x
      → Between lo hi x
  unfolding num
  num-Between v k lo hi x e =
      let y = to_long (j.member v k) in
      let is : y ≡ x = ground (arith, e) in
      let ok : (ltb_ℤ y (pos lo) || ltb_ℤ (pos hi) y) ≡ false = ground (arith, e) in
      within lo hi x (rw is at ok)

  bandwidth_of-valid :
      (v : j.Value) (x : ℤ)
      → bandwidth_of j is_double whole to_long v ≡ some x
      → valid_bandwidth x ≡ true
  unfolding bandwidth_of
  bandwidth_of-valid v x e =
      elim (Option-cases
        (num j is_double whole to_long v (codes "SignalBandwidth") (pos 7800) (pos 500000))) [
          | inl n ↦ ground (arith, e, n)
          | inr (y, n) ↦ elim (Bool-cases (valid_bandwidth y)) [
            | inl ok ↦ let is : y ≡ x = ground (arith, e, n, ok) in rw is at ok
            | inr bad ↦ ground (arith, e, n, bad)
          ]
        ]

  or_fail-accepted :
      (k : Bytes) (o : Option ℤ) (next : ℤ → ConfigResult) (c : LoraConfig)
      → or_fail j is_double whole to_long k o next ≡ accepted c
      → (x : ℤ) × (o ≡ some x) × (next x ≡ accepted c)
  unfolding or_fail
  or_fail-accepted k none next c e = cc
  or_fail-accepted k (some x) next c e = (x, refl, e)

  read_fields-InRange :
      (v : j.Value) (c : LoraConfig)
      → read_fields j is_double whole to_long v ≡ accepted c
      → InRange c
  unfolding read_fields
  read_fields-InRange v c e =
      let (freq, e₁, r₁) = or_fail-accepted _ _ _ c e in
      let (txp, e₂, r₂) = or_fail-accepted _ _ _ c r₁ in
      let (sf, e₃, r₃) = or_fail-accepted _ _ _ c r₂ in
      let (bw, e₄, r₄) = or_fail-accepted _ _ _ c r₃ in
      let (cr, e₅, r₅) = or_fail-accepted _ _ _ c r₄ in
      let (sw, e₆, r₆) = or_fail-accepted _ _ _ c r₅ in
      let read : InRange (record {
        freq = freq;
        tx_power = txp;
        spreading_factor = sf;
        signal_bandwidth = bw;
        coding_rate = cr;
        sync_word = sw;
      }) =
        record {
          freq_in = num-Between v (codes "freq") 410000000 525000000 freq e₁;
          tx_power_in = num-Between v (codes "TxPower") 2 20 txp e₂;
          spreading_factor_in = num-Between v (codes "SpreadingFactor") 6 12 sf e₃;
          signal_bandwidth_in = bandwidth_of-valid v bw e₄;
          coding_rate_in = num-Between v (codes "CodingRate4") 5 8 cr e₅;
          sync_word_in = num-Between v (codes "SyncWord") 0 255 sw e₆;
        } in
      subst InRange (accepted_injective r₆) read

  config_from_json-InRange :
      (v : j.Value) (c : LoraConfig)
      → config_from_json j is_double whole to_long v ≡ accepted c
      → InRange c
  unfolding config_from_json
  config_from_json-InRange v c e = elim (Bool-cases (j.is_object v)) [
    | inl o ↦ read_fields-InRange v c (rw o at e)
    | inr o ↦ ground (arith, e, o)
  ]

  config_from_text-InRange :
      (text : Option Bytes) (c : LoraConfig)
      → config_from_text j is_double whole to_long text ≡ accepted c
      → InRange c
  unfolding config_from_text
  config_from_text-InRange none c e = cc
  config_from_text-InRange (some text) c e = elim (Option-cases (j.parse text)) [
    | inl n ↦ ground (arith, e, n)
    | inr (doc, n) ↦ config_from_json-InRange doc c (rw (config_from_text, n) at e)
  ]

  module _ (fs : LittleFs) where
    read_config_file-InRange :
        (a : Access) (s : fs.Store) (path : Bytes) (c : LoraConfig)
        → read_config_file j is_double whole to_long fs a s path ≡ some c
        → InRange c
    unfolding read_config_file
    read_config_file-InRange a s path c e = elim (Option-cases (read_file fs a s path)) [
      | inl n ↦ ground (arith, e, n)
      | inr (text, n) ↦
          let f = config_from_text-InRange (some (before_nul text)) c in ground (arith, e, n, f)
    ]

    -- Whatever the two files hold, and also when they cannot be read, the settings chosen at the start are
    -- in the ranges that the radio takes.
    pub chosen_config-InRange :
        (a b : Access) (s : fs.Store) → InRange (chosen_config j is_double whole to_long fs a b s)
    unfolding chosen_config
    chosen_config-InRange a b s =
        elim (Option-cases (read_config_file j is_double whole to_long fs a s config_path)) [
          | inr (c, e) ↦ rw (chosen_config, e) (read_config_file-InRange a s config_path c e)
          | inl e ↦
              elim (Option-cases (read_config_file j is_double whole to_long fs b s default_path)) [
                | inr (c, f) ↦
                    rw (chosen_config, e, f) (read_config_file-InRange b s default_path c f)
                | inl f ↦ rw (chosen_config, e, f) default_config-InRange
              ]
        ]

    -- What is true of a saving.
    pub record SavedAs (b : Access) (s : fs.Store) (active : LoraConfig) (value : Bytes)
        (r : Saving j is_double whole to_long fs) : Type 0 where
      pub active_in : InRange r.active
      pub success :
          r.ok ≡ true
          → (c : LoraConfig) × (config_from_text j is_double whole to_long (some (before_nul value))
              ≡ accepted c)
            × (r.active ≡ c)
            × (read_config_file j is_double whole to_long fs b r.store config_path ≡ some c)
      pub refusal :
          (k : Bytes)
          → config_from_text j is_double whole to_long (some (before_nul value)) ≡ refused k
          → (r.ok ≡ false) × (r.active ≡ active) × (r.store ≡ s)

    read_file-stored :
        (b : Access) (s : fs.Store) (path t : Bytes)
        → length t ≤ 1024
        → fs_enter b ≡ true
        → b.opens ≡ true
        → fs.lookup s path ≡ some t
        → read_file fs b s path ≡ some t
    unfolding read_file
    read_file-stored b s path t short enters opens stored =
        rw (read_file, stored, enters, opens) (ground (arith, short))

    read_config_file-text :
        (b : Access) (s : fs.Store) (path t : Bytes) (c : LoraConfig)
        → length t ≤ 1024
        → read_file fs b s path ≡ some t
        → config_from_text j is_double whole to_long (some (before_nul t)) ≡ accepted c
        → read_config_file j is_double whole to_long fs b s path ≡ some c
    unfolding read_config_file
    read_config_file-text b s path t c short file text =
        rw (read_config_file, file, text) (ground (arith, short))

    -- A file with the printed settings, in range, is read back as they were.
    read_config_file-printed :
        (print : List (Bytes × ℤ) → Bytes) (b : Access) (s : fs.Store) (c : LoraConfig)
        → Printer j is_double whole to_long print
        → InRange c
        → length (print (members c)) ≤ 1024
        → fs_enter b ≡ true
        → b.opens ≡ true
        → fs.lookup s config_path ≡ some (print (members c))
        → read_config_file j is_double whole to_long fs b s config_path ≡ some c
    read_config_file-printed print b s c printer range short enters opens stored =
        let t = print (members c) in
        read_config_file-text b s config_path t c short
          (read_file-stored b s config_path t short enters opens stored)
          (config_from_text-members j is_double whole to_long print c printer range)

    -- With a file system and a printer that keep their documented promises and a radio whose settings
    -- are in range: the settings of the radio stay in range, whatever text is saved; if the result is
    -- true, the radio has the settings of the text, and whoever then opens the file reads them from
    -- it; a text that is refused changes neither.
    pub save_lora_config_lem :
        (laws : Documented fs) (print : List (Bytes × ℤ) → Bytes) (taken : Bool) (a b : Access)
        (s : fs.Store) (active : LoraConfig) (value : Bytes)
        → Printer j is_double whole to_long print
        → fs_enter b ≡ true
        → b.opens ≡ true
        → InRange active
        → SavedAs b s active value
            (save_lora_config j is_double whole to_long fs print taken a s active value)
    unfolding save_lora_config config_to_json apply_config
    save_lora_config_lem laws print taken a b s active value printer enters opens h =
        let read = config_from_text j is_double whole to_long (some (before_nul value)) in
        let f = config_from_text-InRange (some (before_nul value)) in
        elim (result-cases read) [
          | inl (k, e) ↦
              rw (save_lora_config, e)
                (record {
                  active_in = h;
                  success = λ wrong. ground (arith, wrong);
                  refusal = λ k' e'. (refl, refl, refl);
                })
          | inr (c, e) ↦ elim (Bool-cases (ltb 192 (length (print (members c)) + 1))) [
            | inl long ↦
                rw (save_lora_config, e, long)
                  (record {
                    active_in = h;
                    success = λ wrong. ground (arith, wrong);
                    refusal = λ k' e'. ground (arith, e', e);
                  })
            | inr fits ↦
                let w = write_file_atomic_lem fs laws a s config_path (print (members c)) in
                elim (Bool-cases (write_file_atomic fs a s config_path (print (members c))).1) [
                  | inl ok ↦
                      let stored : fs.lookup
                            (write_file_atomic fs a s config_path (print (members c))).0 config_path
                          ≡ some (print (members c)) =
                        w.0 ∙ rw ok refl in
                      let back =
                        read_config_file-printed print b _ c printer (f c e) (ground arith) enters
                          opens stored in
                      elim (Bool-cases taken) [
                        | inl t ↦
                            rw (save_lora_config, e, fits, ok, t)
                              (record {
                                active_in = f c e;
                                success = λ _. (c, e, refl, back);
                                refusal = λ k' e'. ground (arith, e', e);
                              })
                        | inr t ↦
                            rw (save_lora_config, e, fits, ok, t)
                              (record {
                                active_in = h;
                                success = λ wrong. ground (arith, wrong);
                                refusal = λ k' e'. ground (arith, e', e);
                              })
                      ]
                  | inr no_write ↦
                      rw (save_lora_config, e, fits, no_write)
                        (record {
                          active_in = h;
                          success = λ wrong. ground (arith, wrong);
                          refusal = λ k' e'. ground (arith, e', e);
                        })
                ]
          ]
        ]
