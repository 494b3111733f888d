-- ===== src/Wifi/Config.antt =====
-- src/wifi/wifi_config.h, `wifi_parse_config`: the saved WiFi configuration, read so that it can be used.
use project_voyager.Prelude.{
  ◌≡◌, refl, inl, inr, Bool, true, not, ◌&&◌, ◌||◌, Option, none, some, [], arith, ◌==◌,
  if◌then◌else◌, is_some, Bool-cases, Option-cases, Bytes, codes, length, str_eq,
}
use project_voyager.Core.Json.{Json}
use project_voyager.Wifi.Valid.{
  wifi_valid_ssid, wifi_valid_sta_pass, wifi_valid_ap_pass, wifi_valid_ap_pass_setting, no_control,
}

pub data WifiCfgMode : Type 0 where
  cfg_ap cfg_sta : WifiCfgMode

pub record WifiConfig : Type 0 where
  pub mode : WifiCfgMode
  pub ssid : Bytes
  pub pass : Bytes
  pub ap_pass : Bytes

pub data WifiParseResult : Type 0 where
  parse_ok parse_defaulted parse_error : WifiParseResult

abbrev pub default_ap_ssid : Bytes
default_ap_ssid = codes "Voyager"

abbrev pub default_config : WifiConfig
default_config = record { mode = cfg_ap; ssid = default_ap_ssid; pass = []; ap_pass = [] }

abbrev pub text_of : Option Bytes → Bytes
text_of none = []
text_of (some s) = s

-- The fields of a station, with the flag `defaulted`; a missing text is `none`.
unfoldable pub station : Option Bytes → Option Bytes → WifiConfig × Bool
station ssid pass =
    if wifi_valid_ssid ssid && wifi_valid_sta_pass (some (text_of pass))
    then (
      record default_config { mode = cfg_sta; ssid = text_of ssid; pass = text_of pass },
      not (is_some pass),
    )
    else (default_config, true)

-- The fields of an access point; the first argument tells that the mode was not written out.
unfoldable pub access_point : Bool → Option Bytes → Option Bytes → WifiConfig × Bool
access_point guessed ssid pass = (
  record default_config {
    ssid = if wifi_valid_ssid ssid then text_of ssid else default_ap_ssid;
    pass = if is_some pass && wifi_valid_sta_pass pass then text_of pass else [];
  },
  guessed || not (wifi_valid_ssid ssid),
)

-- The last part: the password of the access point.
unfoldable pub with_ap_pass : Option Bytes → WifiConfig × Bool → WifiConfig × WifiParseResult
with_ap_pass ap_pass (c, defaulted) =
    if is_some ap_pass && wifi_valid_ap_pass ap_pass
    then (record c { ap_pass = text_of ap_pass }, if defaulted then parse_defaulted else parse_ok)
    else (
      record c { ap_pass = [] },
      if defaulted || not (is_some ap_pass) || not (length (text_of ap_pass) == 0)
          then parse_defaulted
          else parse_ok,
    )

unfoldable pub read_fields :
    Bytes → Option Bytes → Option Bytes → Option Bytes → WifiConfig × WifiParseResult
unfolding station access_point with_ap_pass
read_fields fn ssid pass ap_pass =
    if str_eq fn (codes "STA")
    then with_ap_pass ap_pass (station ssid pass)
    else with_ap_pass ap_pass (access_point (not (str_eq fn (codes "AP"))) ssid pass)

module _ (j : Json) where
  open j use {Value, parse, member, is_object, is_string, as_string}

  -- `doc[key]` as a string, `none` if it is not one.
  abbrev field : Value → Bytes → Option Bytes
  field doc key = let v = member doc key in if is_string v then some (as_string v) else none

  -- A null pointer, as an empty file, is an error.
  unfoldable pub wifi_parse_config : Option Bytes → WifiConfig × WifiParseResult
  unfolding read_fields
  wifi_parse_config none = (default_config, parse_error)
  wifi_parse_config (some json) = elim (parse json) [
    | none ↦ (default_config, parse_error)
    | some doc ↦
        if length json == 0 || not (is_object doc)
        then (default_config, parse_error)
        else read_fields (text_of (field doc (codes "wifi_function")))
            (field doc (codes "wifi_ssid")) (field doc (codes "wifi_pass"))
            (field doc (codes "ap_pass"))
  ]

-- What the WiFi task may rely on: a valid name, a valid password to join with, and a password of its
-- own that is valid or empty.
pub record Usable (c : WifiConfig) : Type 0 where
  pub name : wifi_valid_ssid (some c.ssid) ≡ true
  pub join : wifi_valid_sta_pass (some c.pass) ≡ true
  pub own : wifi_valid_ap_pass_setting (some c.ap_pass) ≡ true

default-Usable : Usable default_config
unfolding wifi_valid_ssid wifi_valid_sta_pass wifi_valid_ap_pass_setting no_control
default-Usable = record { name = refl; join = refl; own = refl }

valid-Option :
    (s : Option Bytes) → wifi_valid_ssid s ≡ true → wifi_valid_ssid (some (text_of s)) ≡ true
unfolding wifi_valid_ssid
valid-Option none h = ground arith
valid-Option (some s) h = h

sta_pass_empty : wifi_valid_sta_pass (some []) ≡ true
unfolding wifi_valid_sta_pass
sta_pass_empty = refl

sta_pass_some :
    (s : Option Bytes)
    → (is_some s && wifi_valid_sta_pass s) ≡ true
    → wifi_valid_sta_pass (some (text_of s)) ≡ true
sta_pass_some none h = ground arith
sta_pass_some (some s) h = h

own_pass :
    (s : Option Bytes)
    → (is_some s && wifi_valid_ap_pass s) ≡ true
    → wifi_valid_ap_pass_setting (some (text_of s)) ≡ true
unfolding wifi_valid_ap_pass_setting
own_pass none h = ground arith
own_pass (some s) h = ground arith

read_fields-Usable :
    (fn : Bytes) (ssid pass ap_pass : Option Bytes) → Usable (read_fields fn ssid pass ap_pass).0
unfolding read_fields
read_fields-Usable fn ssid pass ap_pass = ground (
  arith,
  default-Usable.name,
  default-Usable.join,
  default-Usable.own,
  valid-Option ssid,
  sta_pass_empty,
  sta_pass_some pass,
  own_pass ap_pass,
)

module _ (j : Json) where
  open j use {Value, parse, is_object}

  read_document :
      (json : Bytes) (doc : Value)
      → parse json ≡ some doc
      → Usable (wifi_parse_config j (some json)).0
  unfolding wifi_parse_config
  read_document json doc e =
      rw (wifi_parse_config, e)
        (elim (Bool-cases (length json == 0 || not (is_object doc))) [
          | inl refused ↦ rw refused default-Usable
          | inr accepted ↦ rw accepted (
              read_fields-Usable (text_of (field j doc (codes "wifi_function")))
                (field j doc (codes "wifi_ssid")) (field j doc (codes "wifi_pass"))
                (field j doc (codes "ap_pass")))
        ])

  no_document : (json : Bytes) → parse json ≡ none → Usable (wifi_parse_config j (some json)).0
  unfolding wifi_parse_config
  no_document json e = rw (wifi_parse_config, e) default-Usable

  -- Whatever the file holds, the configuration read from it can be used: its name is valid, the password
  -- to join with is valid, and its own password is valid or empty.
  pub wifi_parse_config-Usable : (json : Option Bytes) → Usable (wifi_parse_config j json).0
  unfolding wifi_parse_config
  wifi_parse_config-Usable none = default-Usable
  wifi_parse_config-Usable (some json) = elim (Option-cases (parse json)) [
    | inl e ↦ no_document json e
    | inr (doc, e) ↦ read_document json doc e
  ]
