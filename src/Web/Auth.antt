-- ===== src/Web/Auth.antt =====
-- src/web/auth.cpp, the password of the web interface and its sessions. The flash store and the random
-- numbers are not part of the repository: what they gave a call is an argument of it, and so is MD5.
pub mod Tokens
pub mod Sessions
pub mod Checks
use project_voyager.Prelude.{
  ℕ, zero, suc, ◌+◌, ◌-◌, ◌/◌, ◌%◌, Bool, true, false, not, ◌&&◌, ◌||◌, Option, none, some, List,
  [], ◌∷◌, ◌++◌, ltb, ◌==◌, ◌!=◌, if◌then◌else◌, is_some, Bytes, codes, length, set, take,
  replicate,
}
use project_voyager.Web.Access.{password_valid, is_session_token, ct_equal, value, cookie_get}
use project_voyager.Web.Paths.{ieq_n}

abbrev pub max_sessions : ℕ
max_sessions = 4

-- `g_ha1`, empty when no password is set, `g_loaded`, `g_sessions` with an empty slot as the empty text,
-- and `g_next_slot`.
pub record Auth : Type 0 where
  pub ha1 : Bytes
  pub loaded : Bool
  pub sessions : List Bytes
  pub next_slot : ℕ

abbrev pub no_sessions : List Bytes
no_sessions = replicate max_sessions []

abbrev pub boot : Auth
boot = record { ha1 = []; loaded = false; sessions = no_sessions; next_slot = 0 }

unfoldable pub clear_sessions : Auth → Auth
clear_sessions a = record a { sessions = no_sessions; next_slot = 0 }

-- `disk` is the text under the key in flash, `none` when it could not be read.
unfoldable pub auth_init : Option Bytes → Auth → Auth
auth_init none a = record a { ha1 = []; loaded = true }
auth_init (some buf) a = record a { ha1 = if length buf != 32 then [] else buf; loaded = true }

unfoldable pub ensure_loaded : Option Bytes → Auth → Auth
unfolding auth_init
ensure_loaded disk a = if not a.loaded then auth_init disk a else a

unfoldable pub auth_is_set : Option Bytes → Auth → Auth × Bool
unfolding ensure_loaded
auth_is_set disk a = let b = ensure_loaded disk a in (b, not (length b.ha1 == 0))

abbrev pub auth_prefix : Bytes
auth_prefix = codes "admin:Voyager:"

-- `stored` tells whether flash took the whole text.
unfoldable pub auth_set : (Bytes → Bytes) → Auth → Option Bytes → Bool → Auth × Bool
unfolding clear_sessions
auth_set md5 a none stored = (a, false)
auth_set md5 a (some password) stored =
    if not (password_valid (some password))
    then (a, false)
    else if stored
    then (clear_sessions (record a { ha1 = md5 (auth_prefix ++ password); loaded = true }), true)
    else (a, false)

unfoldable pub auth_clear : Auth → Auth
unfolding clear_sessions
auth_clear a = clear_sessions (record a { ha1 = []; loaded = true })

abbrev pub hex_digit : ℕ → ℕ
hex_digit n = if ltb n 10 then b'0' + n else b'a' + (n - 10)

-- The digits of a random word, the lowest first.
unfoldable pub hex_word : ℕ → ℕ → Bytes
hex_word zero r = []
hex_word (suc n) r = hex_digit (r % 16) ∷ hex_word n (r / 16)

-- The four random words.
pub record Words : Type 0 where
  pub w₀ : ℕ
  pub w₁ : ℕ
  pub w₂ : ℕ
  pub w₃ : ℕ

unfoldable pub token_of : Words → Bytes
unfolding hex_word
token_of w = hex_word 8 w.w₀ ++ (hex_word 8 w.w₁ ++ (hex_word 8 w.w₂ ++ hex_word 8 w.w₃))

unfoldable pub auth_session_create : Option Bytes → Words → Auth → Auth × Option Bytes
unfolding auth_is_set
auth_session_create disk words a =
    let (b, is_set) = auth_is_set disk a in
    let token = token_of words in
    if not is_set then (b, none) else (
      record b {
        sessions = set b.sessions b.next_slot token;
        next_slot = (b.next_slot + 1) % max_sessions;
      },
      some token,
    )

-- The slot holds this token.
abbrev pub slot_matches : Bytes → Bytes → Bool
slot_matches token slot = not (length slot == 0) && ct_equal slot token

unfoldable pub any_slot : Bytes → List Bytes → Bool
any_slot token [] = false
any_slot token (s ∷ ss) = slot_matches token s || any_slot token ss

unfoldable pub session_valid : Auth → Bytes → Bool
unfolding any_slot
session_valid a token = is_session_token (some token) && any_slot token a.sessions

unfoldable pub forget : Bytes → List Bytes → List Bytes
forget token [] = []
forget token (s ∷ ss) = (if slot_matches token s then [] else s) ∷ forget token ss

unfoldable pub auth_session_revoke : Auth → Option Bytes → Auth
unfolding forget
auth_session_revoke a none = a
auth_session_revoke a (some token) =
    if length token != 32 then a else record a { sessions = forget token a.sessions }

-- A request: its cookie and authorization headers, and the web server's answer to a digest check
-- against a hash.
pub record Request : Type 0 where
  pub cookie : Option Bytes
  pub authorization : Option Bytes
  pub authenticate : Bytes → Bool

unfoldable pub has_session : Auth → Option Bytes → Bool
unfolding session_valid
has_session a header = elim (cookie_get header (some (codes "vsid")) (some 40)) [
  | value token ↦ session_valid a token
  | _ ↦ false
]

unfoldable pub is_digest : Option Bytes → Bool
unfolding ieq_n
is_digest none = false
is_digest (some v) = not (ltb (length v) 7) && ieq_n (take 6 v) (codes "Digest")

-- `none` is a null request. The build that skips the check for hardware tests is not this one.
unfoldable pub auth_check : Option Bytes → Option Request → Auth → Auth × Bool
unfolding auth_is_set has_session is_digest
auth_check disk none a = (a, false)
auth_check disk (some r) a =
    let (b, is_set) = auth_is_set disk a in
    if not is_set
    then (b, false)
    else if is_some r.cookie && has_session b r.cookie
    then (b, true)
    else if not (is_digest r.authorization)
    then (b, false)
    else (b, not (length b.ha1 == 0) && r.authenticate b.ha1)

pub data Answer : Type 0 where
  pass setup_required ask_credentials : Answer

unfoldable pub auth_require : Option Bytes → Option Request → Auth → Auth × Answer
unfolding auth_is_set auth_check
auth_require disk r a =
    let (b, is_set) = auth_is_set disk a in
    let (c, ok) = auth_check disk r b in
    if not is_set then (b, setup_required) else if ok then (c, pass) else (c, ask_credentials)
