-- ===== src/Core/Settings.antt =====
-- src/core/core_dispatch.h, the saved settings: each falls back to its default.
use project_voyager.Prelude.{
  ◌≤◌, ◌≡◌, Bool, true, false, not, ◌&&◌, ◌||◌, Option, none, some, arith, ltb, ◌==◌, if◌then◌else◌,
  Bytes, codes, length,
}
use project_voyager.Core.Json.{Json}
use project_voyager.Core.Request.{core_printable}

module _ (j : Json) where
  open j use {Value, parse, member, is_string, as_string, is_bool, as_bool}

  username_of : Value → Bytes → Bytes
  unfolding core_printable
  username_of u mac =
      let s = as_string u in
      if not (is_string u)
      then mac
      else if ltb (length s) 1 || ltb 32 (length s) || not (core_printable s)
      then mac
      else s

  -- A missing file is `none`.
  unfoldable pub core_parse_username : Option Bytes → Bytes → Bytes
  unfolding username_of
  core_parse_username none mac = mac
  core_parse_username (some json) mac = elim (parse json) [
    | none ↦ mac
    | some doc ↦ username_of (member doc (codes "username")) mac
  ]

  unfoldable pub core_parse_lora_serial : Option Bytes → Bool
  core_parse_lora_serial none = false
  core_parse_lora_serial (some json) = elim (parse json) [
    | none ↦ false
    | some doc ↦ let v = member doc (codes "lora_serial") in is_bool v && as_bool v
  ]

  device_mode_of : Value → Bytes
  device_mode_of v =
      if not (is_string v)
      then codes "WiFi"
      else if length (as_string v) == 0
      then codes "WiFi"
      else as_string v

  unfoldable pub core_parse_device_mode : Option Bytes → Bytes
  unfolding device_mode_of
  core_parse_device_mode none = codes "WiFi"
  core_parse_device_mode (some json) = elim (parse json) [
    | none ↦ codes "WiFi"
    | some doc ↦ device_mode_of (member doc (codes "device_mode"))
  ]

  -- Whatever file is read, the user name has 1 to 32 printable bytes, provided the address that stands
  -- in for it does.
  pub core_parse_username-valid :
      (json : Option Bytes) (mac : Bytes)
      → 1 ≤ length mac
      → length mac ≤ 32
      → core_printable mac ≡ true
      → let u = core_parse_username json mac in
        (1 ≤ length u) × (length u ≤ 32) × (core_printable u ≡ true)
  unfolding core_parse_username
  core_parse_username-valid none mac h₁ h₂ h₃ = (h₁, h₂, h₃)
  core_parse_username-valid (some json) mac h₁ h₂ h₃ = ground arith
