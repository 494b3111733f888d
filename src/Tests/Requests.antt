-- ===== src/Tests/Requests.antt =====
-- Runs of the checks on requests, paths and frames.
use project_voyager.Prelude.{
  ◌≡◌, ◌≢◌, Bool, true, false, some, List, [], ◌∷◌, if◌then◌else◌, Bytes, codes, str_eq,
}
use project_voyager.Prelude.Int.{ℤ, pos}
use project_voyager.Core.Json.{Json}
use project_voyager.Core.Request.{core_parse_request}
use project_voyager.Core.Request.Checked.{Checked, core_parse_request-Checked}
use project_voyager.Web.Paths.{path_is_blocked}
use project_voyager.Web.Paths.Blocked.{is_forbidden, path_is_blocked_lem}
use project_voyager.Wifi.Config.{wifi_parse_config, Usable, wifi_parse_config-Usable}
use project_voyager.Web.Access.{cookie_get, out_of_fuel}
use project_voyager.Web.Access.Cookies.{cookie_get_answers}

-- A small JSON library: a value is a string, a number, a flag or an object of strings.
data Word : Type 0 where
  nothing : Word
  text : Bytes → Word
  number : ℤ → Word
  flagged : Bool → Word
  object : List (Bytes × Bytes) → Word

abbrev find : Bytes → List (Bytes × Bytes) → Word
find k [] = nothing
find k ((key, v) ∷ rest) = if str_eq k key then text v else find k rest

abbrev member_of : Word → Bytes → Word
member_of (object fields) k = find k fields
member_of _ k = nothing

abbrev is_nothing : Word → Bool
is_nothing nothing = true
is_nothing _ = false

abbrev is_text : Word → Bool
is_text (text s) = true
is_text _ = false

abbrev text_of : Word → Bytes
text_of (text s) = s
text_of _ = []

abbrev is_fields : Word → Bool
is_fields (object fields) = true
is_fields _ = false

abbrev is_flag : Word → Bool
is_flag (flagged b) = true
is_flag _ = false

abbrev flag_of : Word → Bool
flag_of (flagged b) = b
flag_of _ = false

abbrev is_number : Word → Bool
is_number (number n) = true
is_number _ = false

abbrev number_of : Word → ℤ
number_of (number n) = n
number_of _ = pos 0

abbrev words : Json
words = record {
  Value = Word;
  parse = λ s. some (text s);
  member = member_of;
  is_null = is_nothing;
  is_object = is_fields;
  is_string = is_text;
  as_string = text_of;
  is_bool = is_flag;
  as_bool = flag_of;
  is_long = is_number;
  as_long = number_of;
}

abbrev decimal : ℤ → Bytes
decimal n = codes "1"

abbrev request : Word
request =
    object ((codes "request-type", codes "set_username") ∷ (codes "val", codes "voyager") ∷ [])

core_parse_request-Checked_example :
    Checked words
      (core_parse_request words decimal request).action
      (core_parse_request words decimal request)
core_parse_request-Checked_example = core_parse_request-Checked words decimal request

path_is_blocked_lem_example :
    path_is_blocked (some (codes "//./Config/wifi.json?x"))
    ≡ some (is_forbidden (codes "//./Config/wifi.json?x"))
path_is_blocked_lem_example = path_is_blocked_lem (codes "//./Config/wifi.json?x")

cookie_get_answers_example :
    cookie_get (some (codes "a=1; token=xy")) (some (codes "token")) (some 8) ≢ out_of_fuel
cookie_get_answers_example =
    cookie_get_answers (some (codes "a=1; token=xy")) (some (codes "token")) (some 8)

wifi_parse_config-Usable_example : Usable (wifi_parse_config words (some (codes "{}"))).0
wifi_parse_config-Usable_example = wifi_parse_config-Usable words (some (codes "{}"))
