-- ===== src/Web/Auth/Sessions.antt =====
-- src/web/auth.cpp, sessions: which tokens are accepted after any history of logins, logouts and changes
-- of the password, and who may pass.
use project_voyager.Prelude.{
  ℕ, zero, suc, ◌+◌, ◌%◌, ◌<◌, ◌≡◌, refl, ◌≢◌, Bool, true, false, not, ◌&&◌, ◌||◌, Option, none,
  some, List, [], ◌∷◌, arith, Bytes, length, get_or, set, All, length-set, get_or-set_self,
  get_or-set_ne, IsByte, str_eq, str_eq_iff,
}
use project_voyager.Web.Access.{password_valid, is_session_token}
use project_voyager.Web.Auth.{
  max_sessions, Auth, no_sessions, boot, auth_init, ensure_loaded, auth_set, auth_clear, Words,
  token_of, auth_session_create, slot_matches, any_slot, session_valid, forget, auth_session_revoke,
}
use project_voyager.Web.Auth.Tokens.{ct_equal_iff, hex_only-bytes, token_of-valid}

pub data AuthEvent : Type 0 where
  login : Option Bytes → Words → AuthEvent
  logout : Option Bytes → AuthEvent
  new_password : Option Bytes → Bool → AuthEvent
  no_password : AuthEvent

-- `md5` is the hash of the library.
unfoldable pub auth_step : (Bytes → Bytes) → Auth → AuthEvent → Auth
unfolding auth_session_create auth_session_revoke auth_set auth_clear
auth_step md5 a (login disk words) = (auth_session_create disk words a).0
auth_step md5 a (logout token) = auth_session_revoke a token
auth_step md5 a (new_password password stored) = (auth_set md5 a password stored).0
auth_step md5 a no_password = auth_clear a

unfoldable pub auth_run : (Bytes → Bytes) → Auth → List AuthEvent → Auth
unfolding auth_step
auth_run md5 a [] = a
auth_run md5 a (e ∷ es) = auth_run md5 (auth_step md5 a e) es

-- Whether a call of `auth_session_create` answered with this token.
abbrev pub answers : Bytes → Option Bytes → Bool
answers t none = false
answers t (some u) = str_eq u t

-- Whether a token was the answer to a login, and since then was neither logged out nor ended by a change
-- of the password; the flag tells it of the time before the event, and the state is the one before it.
abbrev pub still_live : Bytes → Auth → Bool → AuthEvent → Bool
still_live t a alive (login disk words) = alive || answers t (auth_session_create disk words a).1
still_live t a alive (logout none) = alive
still_live t a alive (logout (some u)) = alive && not (str_eq u t)
still_live t a alive (new_password password stored) =
    alive && not (password_valid password && stored)
still_live t a alive no_password = false

abbrev pub live : (Bytes → Bytes) → Bytes → Auth → Bool → List AuthEvent → Bool
live md5 t a alive [] = alive
live md5 t a alive (e ∷ es) = live md5 t (auth_step md5 a e) (still_live t a alive e) es

any_slot-set :
    (t v : Bytes) (ss : List Bytes) (i : ℕ)
    → any_slot t (set ss i v) ≡ true
    → (slot_matches t v || any_slot t ss) ≡ true
unfolding any_slot
any_slot-set t v [] i h = ground arith
any_slot-set t v (s ∷ ss) zero h = ground arith
any_slot-set t v (s ∷ ss) (suc i) h = ground (arith, any_slot-set t v ss i)

any_slot-forget :
    (t u : Bytes) (ss : List Bytes) → any_slot t (forget u ss) ≡ true → any_slot t ss ≡ true
unfolding any_slot forget
any_slot-forget t u [] h = h
any_slot-forget t u (s ∷ ss) h = ground (arith, any_slot-forget t u ss)

any_slot-forget_self : (t : Bytes) (ss : List Bytes) → any_slot t (forget t ss) ≡ false
unfolding any_slot forget
any_slot-forget_self t [] = refl
any_slot-forget_self t (s ∷ ss) = ground (arith, any_slot-forget_self t ss)

any_slot-no_sessions : (t : Bytes) → any_slot t no_sessions ≡ false
unfolding any_slot
any_slot-no_sessions t = refl

pub token-bytes : (t : Bytes) → is_session_token (some t) ≡ true → (length t ≡ 32) × All IsByte t
unfolding is_session_token
token-bytes t h = (ground arith, hex_only-bytes t (ground arith))

-- A slot with a valid token matches exactly that token.
pub token-matches :
    (t u : Bytes)
    → is_session_token (some t) ≡ true
    → is_session_token (some u) ≡ true
    → slot_matches t u ≡ true
    → u ≡ t
token-matches t u h k m =
    let (lt, bt) = token-bytes t h in
    let (lu, bu) = token-bytes u k in (ct_equal_iff u t (omega arith) bu bt).0 (ground arith)

-- A token in a slot is live, and a password is set.
abbrev IsBacked : Bytes → Auth → Bool → Type 0
IsBacked t a alive = (alive ≡ true) × (a.loaded ≡ true) × (length a.ha1 ≢ 0)

step-live :
    (md5 : Bytes → Bytes) (a : Auth) (e : AuthEvent) (t : Bytes) (alive : Bool)
    → is_session_token (some t) ≡ true
    → (any_slot t a.sessions ≡ true → IsBacked t a alive)
    → any_slot t (auth_step md5 a e).sessions ≡ true
    → IsBacked t (auth_step md5 a e) (still_live t a alive e)
unfolding auth_step ensure_loaded password_valid auth_init auth_session_create
step-live md5 a (login none words) t alive h k m = ground (
  arith,
  any_slot-set t (token_of words) a.sessions a.next_slot,
  token-matches t (token_of words) h (token_of-valid words),
  (str_eq_iff (token_of words) t).1,
)
step-live md5 a (login (some disk) words) t alive h k m = ground (
  arith,
  any_slot-set t (token_of words) a.sessions a.next_slot,
  token-matches t (token_of words) h (token_of-valid words),
  (str_eq_iff (token_of words) t).1,
)
step-live md5 a (logout none) t alive h k m = k m
step-live md5 a (logout (some u)) t alive h k m = ground (
  arith,
  any_slot-forget t u a.sessions,
  (str_eq_iff u t).0,
  any_slot-forget_self t a.sessions,
  token-bytes t h,
)
step-live md5 a (new_password none stored) t alive h k m = ground arith
step-live md5 a (new_password (some p) stored) t alive h k m =
    ground (arith, any_slot-no_sessions t)
step-live md5 a no_password t alive h k m = ground (arith, any_slot-no_sessions t)

run-live :
    (md5 : Bytes → Bytes) (es : List AuthEvent) (a : Auth) (t : Bytes) (alive : Bool)
    → is_session_token (some t) ≡ true
    → (any_slot t a.sessions ≡ true → IsBacked t a alive)
    → any_slot t (auth_run md5 a es).sessions ≡ true
    → IsBacked t (auth_run md5 a es) (live md5 t a alive es)
unfolding auth_run
run-live md5 [] a t alive h k m = k m
run-live md5 (e ∷ es) a t alive h k m =
    run-live md5 es (auth_step md5 a e) t (still_live t a alive e) h (step-live md5 a e t alive h k)
      m

-- A token that is accepted after any history since the start of the board was the answer to a login of
-- that history, and since then was neither logged out nor ended by a change of the password; and a
-- password is set.
pub session_valid_sound :
    (md5 : Bytes → Bytes) (es : List AuthEvent) (t : Bytes)
    → session_valid (auth_run md5 boot es) t ≡ true
    → (live md5 t boot false es ≡ true) × (length (auth_run md5 boot es).ha1 ≢ 0)
unfolding session_valid
session_valid_sound md5 es t h =
    let backed =
      run-live md5 es boot t false (ground arith) (λ m. ground (arith, any_slot-no_sessions t))
        (ground arith) in
    (backed.0, backed.2)

any_slot-get :
    (t : Bytes) (ss : List Bytes) (i : ℕ)
    → i < length ss
    → get_or ss i [] ≡ t
    → slot_matches t t ≡ true
    → any_slot t ss ≡ true
unfolding any_slot
any_slot-get t [] i l e m = ground arith
any_slot-get t (s ∷ ss) zero l e m = ground arith
any_slot-get t (s ∷ ss) (suc i) l e m = ground (arith, any_slot-get t ss i)

token-matches_self : (w : Words) → slot_matches (token_of w) (token_of w) ≡ true
token-matches_self w =
    let (l, b) = token-bytes (token_of w) (token_of-valid w) in
    ground (arith, (ct_equal_iff (token_of w) (token_of w) refl b b).1 refl, l)

-- Logins one after the other.
abbrev pub logins : List Words → List AuthEvent
logins [] = []
logins (w ∷ ws) = login none w ∷ logins ws

-- The token stands in its slot, `n` logins later.
record Kept (a : Auth) (t : Bytes) (slot n : ℕ) : Type 0 where
  ready : (a.loaded ≡ true) × (length a.ha1 ≢ 0)
  slots : length a.sessions ≡ max_sessions
  here : get_or a.sessions slot [] ≡ t
  in_range : slot < max_sessions
  next : a.next_slot ≡ (slot + 1 + n) % max_sessions

login-Kept :
    (md5 : Bytes → Bytes) (a : Auth) (w : Words) (t : Bytes) (slot n : ℕ)
    → n + 1 < max_sessions
    → Kept a t slot n
    → Kept (auth_step md5 a (login none w)) t slot (n + 1)
unfolding auth_step ensure_loaded
login-Kept md5 a w t slot n h k =
    let ne : a.next_slot ≢ slot = omega (arith, k.next, k.in_range) in
    ground (
      arith,
      k.ready,
      k.slots,
      k.here,
      k.in_range,
      k.next,
      length-set a.sessions a.next_slot (token_of w),
      get_or-set_ne a.sessions a.next_slot slot (token_of w) [] ne,
    )

logins-Kept :
    (md5 : Bytes → Bytes) (ws : List Words) (a : Auth) (t : Bytes) (slot n : ℕ)
    → n + length ws < max_sessions
    → Kept a t slot n
    → Kept (auth_run md5 a (logins ws)) t slot (n + length ws)
unfolding auth_run
logins-Kept md5 [] a t slot n h k = ground (arith, k)
logins-Kept md5 (w ∷ ws) a t slot n h k =
    let later =
      logins-Kept md5 ws (auth_step md5 a (login none w)) t slot (n + 1) (omega arith)
        (login-Kept md5 a w t slot n (omega arith) k) in
    ground (arith, later)

first-Kept :
    (disk : Option Bytes) (a : Auth) (w : Words) (t : Bytes)
    → length a.sessions ≡ max_sessions
    → a.next_slot < max_sessions
    → (auth_session_create disk w a).1 ≡ some t
    → (t ≡ token_of w) × Kept (auth_session_create disk w a).0 t a.next_slot 0
unfolding auth_session_create ensure_loaded auth_init
first-Kept none a w t l n e = ground (
  arith,
  length-set a.sessions a.next_slot (token_of w),
  get_or-set_self a.sessions a.next_slot (token_of w) [],
)
first-Kept (some buf) a w t l n e = ground (
  arith,
  length-set a.sessions a.next_slot (token_of w),
  get_or-set_self a.sessions a.next_slot (token_of w) [],
)

-- With four slots, a token given to a login is accepted from then on, also after up to three further
-- logins.
pub session_valid_newest :
    (md5 : Bytes → Bytes) (disk : Option Bytes) (a : Auth) (w : Words) (t : Bytes) (ws : List Words)
    → length a.sessions ≡ max_sessions
    → a.next_slot < max_sessions
    → (auth_session_create disk w a).1 ≡ some t
    → length ws < max_sessions
    → session_valid (auth_run md5 (auth_session_create disk w a).0 (logins ws)) t ≡ true
unfolding session_valid
session_valid_newest md5 disk a w t ws l n e few =
    let (is, first) = first-Kept disk a w t l n e in
    let last = auth_run md5 (auth_session_create disk w a).0 (logins ws) in
    let kept =
      logins-Kept md5 ws (auth_session_create disk w a).0 t a.next_slot 0 (omega arith) first in
    ground (
      arith,
      is,
      token_of-valid w,
      any_slot-get t last.sessions a.next_slot (omega (arith, kept.slots, kept.in_range)) kept.here
          (rw is (token-matches_self w)),
    )
