-- ===== src/Web/Access.antt =====
-- src/web/web_validate.h, passwords, session tokens, cookies and origins.
pub mod Cookies
use project_voyager.Prelude.{
  ℕ, zero, suc, ◌+◌, ◌-◌, Bool, true, false, ◌&&◌, ◌||◌, Option, none, some, [], ◌∷◌, ltb, leb,
  ◌==◌, ◌!=◌, if◌then◌else◌, Bytes, codes, length, get_or, take, drop, str_eq,
}
use Prim.Native.Nat.{bit_or, bit_xor}
use project_voyager.Web.Paths.{ieq_n}

abbrev pub password_min_len : ℕ
password_min_len = 8

abbrev pub password_max_len : ℕ
password_max_len = 63

abbrev pub session_hex_len : ℕ
session_hex_len = 32

unfoldable pub password_valid : Option Bytes → Bool
password_valid none = false
password_valid (some p) = leb password_min_len (length p) && leb (length p) password_max_len

-- The loop of `is_session_token`.
unfoldable pub hex_only : Bytes → Bool
hex_only [] = true
hex_only (c ∷ t) = (leb b'0' c && leb c b'9' || leb b'a' c && leb c b'f') && hex_only t

-- `t` holds the `n` bytes.
unfoldable pub is_session_token : Option Bytes → Bool
unfolding hex_only
is_session_token none = false
is_session_token (some t) = length t == session_hex_len && hex_only t

-- Both texts have the same length; the flag bits gather in a byte.
unfoldable pub differences : ℕ → Bytes → Bytes → ℕ
differences d (x ∷ a) (y ∷ b) = differences (bit_or d (bit_xor x y)) a b
differences d _ _ = d

unfoldable pub ct_equal : Bytes → Bytes → Bool
unfolding differences
ct_equal a b = differences 0 a b == 0

abbrev pub is_empty_text : Option Bytes → Bool
is_empty_text none = true
is_empty_text (some s) = length s == 0

-- `ieq_n(s, prefix, n) && strlen(s) > n`, where `prefix` has `n` bytes.
unfoldable pub begins : Bytes → Bytes → Bool
unfolding ieq_n
begins s prefix = ltb (length prefix) (length s) && ieq_n s prefix

-- The last byte of a text is a slash.
unfoldable pub ends_with_slash : Bytes → Bool
ends_with_slash a = get_or a (length a - 1) 0 == b'/'

unfoldable pub same_host : Bytes → Bytes → Bool
unfolding ieq_n ends_with_slash
same_host a host =
    let alen = if ends_with_slash a then length a - 1 else length a in
    if alen != length host then false else ieq_n (take alen a) host

unfoldable pub origin_allowed : Option Bytes → Option Bytes → Bool
unfolding begins same_host
origin_allowed none host = true
origin_allowed (some origin) none = length origin == 0
origin_allowed (some origin) (some host) =
    if length origin == 0
    then true
    else if length host == 0
    then false
    else if begins origin (codes "http://")
    then same_host (drop 7 origin) host
    else if begins origin (codes "https://")
    then same_host (drop 8 origin) host
    else false

abbrev pub is_blank : ℕ → Bool
is_blank c = c == b' ' || c == b';' || c == b'\t'

unfoldable pub skip_blanks : Bytes → Bytes
skip_blanks [] = []
skip_blanks (c ∷ p) = let rest = skip_blanks p in if is_blank c then rest else c ∷ p

-- A run of bytes other than a semicolon and, for a key, an equals sign, and what follows it.
unfoldable pub take_field : Bool → Bytes → Bytes × Bytes
take_field key [] = ([], [])
take_field key (c ∷ p) =
    let (s, rest) = take_field key p in
    if c == b';' || key && c == b'=' then ([], c ∷ p) else (c ∷ s, rest)

-- Without the spaces at its end.
unfoldable pub trim_end : Bytes → Bytes
trim_end [] = []
trim_end (c ∷ s) = let rest = trim_end s in if c == b' ' && length rest == 0 then [] else c ∷ rest

-- The end of the loop: the value of the cookie that was asked for, cut off when it does not fit.
pub data Cookie : Type 0 where
  absent too_long : Cookie
  value : Bytes → Cookie
  out_of_fuel : Cookie

-- The loop of `cookie_get`; a round takes at least one byte or ends the loop.
unfoldable pub cookie_loop : ℕ → Bytes → Bytes → ℕ → Cookie
unfolding skip_blanks take_field trim_end
cookie_loop zero p name out_size = out_of_fuel
cookie_loop (suc f) p name out_size =
    let q = skip_blanks p in
    let (k, after) = take_field true q in
    let skipped = cookie_loop f after name out_size in
    let (v, rest) = take_field false (drop 1 after) in
    let next = cookie_loop f rest name out_size in
    if length q == 0
    then absent
    else if get_or after 0 0 != b'='
    then skipped
    else if str_eq (trim_end k) name
    then if ltb out_size (length (trim_end v) + 1) then too_long else value (trim_end v)
    else next

-- The result `true` with the value in `out` is `value`; `absent` and `too_long` are `false`.
unfoldable pub cookie_get : Option Bytes → Option Bytes → Option ℕ → Cookie
unfolding cookie_loop
cookie_get (some header) (some name) (some out_size) =
    if out_size == 0 then absent else cookie_loop (length header + 1) header name out_size
cookie_get _ _ _ = absent
