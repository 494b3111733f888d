-- ===== src/Web/Paths.antt =====
-- src/web/web_validate.h, checks of request paths.
pub mod Blocked
use project_voyager.Prelude.{
  ℕ, zero, suc, ◌+◌, ◌-◌, ◌*◌, ◌/◌, ◌%◌, ◌^◌, ◌≤◌, ◌<◌, ◌≡◌, refl, sym, ap, ◌∙◌, ◌≢◌, ◌↔◌, ◌⊎◌, inl,
  inr, Bool, true, false, not, ◌&&◌, ◌||◌, Option, none, some, List, [], ◌∷◌, ◌++◌, map,
  append_assoc, append-nil, arith, ltb, leb, ◌==◌, ◌!=◌, if◌then◌else◌, is_some, ==_iff, Bool-cases,
  Option-cases, Bytes, codes, length, get_elem?, get_or, set, take, drop, replicate, All,
  length-append, take-length-append, drop-length-append, length-set, length-take, get_or-set_self,
  get_or-set_ne, IsByte, str_eq, str_eq_iff, str_eq_refl,
}

unfoldable pub ascii_lower : ℕ → ℕ
ascii_lower c = if leb b'A' c && leb c b'Z' then c - b'A' + b'a' else c

-- `ieq_n(a, b, n)`, where both texts have at least `n` bytes: over the bytes compared.
unfoldable pub ieq_n : Bytes → Bytes → Bool
unfolding ascii_lower
ieq_n (x ∷ a) (y ∷ b) = ascii_lower x == ascii_lower y && ieq_n a b
ieq_n _ _ = true

abbrev pub is_sep : ℕ → Bool
is_sep c = c == b'/' || c == b'\\'

-- `while (*p == '/' || *p == '\\') p++;`
unfoldable pub skip_seps : Bytes → Bytes
skip_seps [] = []
skip_seps (c ∷ p) = let rest = skip_seps p in if is_sep c then rest else c ∷ p

-- The loop over a segment: its bytes, and what follows them.
unfoldable pub take_segment : Bytes → Bytes × Bytes
take_segment [] = ([], [])
take_segment (c ∷ p) =
    let (s, rest) = take_segment p in if is_sep c || c == b'?' then ([], c ∷ p) else (c ∷ s, rest)

abbrev pub dot : Bytes
dot = codes "."

abbrev pub dot_dot : Bytes
dot_dot = codes ".."

abbrev pub is_config : Bytes → Bool
is_config s = length s == 6 && ieq_n s (codes "config")

abbrev pub starts_query : Bytes → Bool
starts_query [] = false
starts_query (c ∷ _) = c == b'?'

-- The loop of `path_is_blocked`; the flag is `first_real`. A round takes at least one byte or ends the
-- loop. `none` is a loop that has run out of fuel.
unfoldable pub blocked_loop : ℕ → Bool → Bytes → Option Bool
unfolding skip_seps take_segment
blocked_loop zero first_real p = none
blocked_loop (suc f) first_real p =
    let q = skip_seps p in
    let (s, rest) = take_segment q in
    let same = blocked_loop f first_real rest in
    let next = blocked_loop f false rest in
    elim q [
      | [] ↦ some false
      | _ ↦
          if str_eq s dot
          then same
          else if str_eq s dot_dot
          then some true
          else if first_real && is_config s
          then some true
          else if starts_query rest
          then some false
          else next
    ]

-- `none` cannot occur: the fuel is enough.
unfoldable pub path_is_blocked : Option Bytes → Option Bool
unfolding blocked_loop
path_is_blocked none = some true
path_is_blocked (some url) = blocked_loop (length url + 2) true url

-- The bytes before the query string.
unfoldable pub before_query : Bytes → Bytes
before_query [] = []
before_query (c ∷ p) = let rest = before_query p in if c == b'?' then [] else c ∷ rest

abbrev pub last_five : Bytes → Bytes
last_five p = drop (length p - 5) p

unfoldable pub is_page_request : Option Bytes → Bool
unfolding before_query
is_page_request none = false
is_page_request (some url) =
    let p = before_query url in
    let n = length p in
    if get_or url 0 0 != b'/'
    then false
    else if n == 1
    then true
    else if n == 7 && ieq_n p (codes "/update")
    then true
    else ltb 5 n && ieq_n (last_five p) (codes ".html")

abbrev fs_free_routes : List Bytes
fs_free_routes =
    codes "/update"
    ∷ codes "/update_flash"
    ∷ codes "/update_littlefs"
    ∷ codes "/hostname"
    ∷ codes "/api/auth/status"
    ∷ []

-- One of the texts.
unfoldable pub is_one_of : List Bytes → Bytes → Bool
is_one_of [] s = false
is_one_of (a ∷ texts) s = str_eq a s || is_one_of texts s

unfoldable pub allowed_while_fs_offline : Option Bytes → Bool
unfolding before_query is_one_of
allowed_while_fs_offline none = false
allowed_while_fs_offline (some url) = is_one_of fs_free_routes (before_query url)

abbrev config_names : List Bytes
config_names =
    codes "lora_config.json"
    ∷ codes "long_lora_config.json"
    ∷ codes "short_lora_config.json"
    ∷ codes "config_list.json"
    ∷ codes "lora_serial.json"
    ∷ codes "wifi_config.json"
    ∷ []

unfoldable pub is_allowed_config_name : Option Bytes → Bool
unfolding is_one_of
is_allowed_config_name none = false
is_allowed_config_name (some name) = is_one_of config_names name

unfoldable pub is_wifi_config_name : Option Bytes → Bool
is_wifi_config_name none = false
is_wifi_config_name (some name) = str_eq name (codes "wifi_config.json")
