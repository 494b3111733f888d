-- ===== src/Web/Auth/Checks.antt =====
-- src/web/auth.cpp, requests: who may pass, and that the digest is the only other credential.

use mathlib.Core.Path.{subst}
use project_voyager.Prelude.{
  sym, ℕ, ◌+◌, ◌≤◌, ◌≡◌, refl, ap, ◌≢◌, ◌↔◌, ◌⊎◌, inl, inr, Bool, true, false, ◌&&◌, Option, none,
  some, List, [], ◌∷◌, arith, ◌==◌, is_some, Bytes, codes, length, All,
}
use project_voyager.Web.Auth.{
  Auth, auth_init, ensure_loaded, slot_matches, any_slot, session_valid, Request, has_session,
  is_digest, auth_require, pass, setup_required,
}
use project_voyager.Web.Access.{
  absent, too_long, out_of_fuel, hex_only, is_session_token, Cookie, cookie_get, absent, too_long,
  value, out_of_fuel,
}
use project_voyager.Web.Paths.{ascii_lower, ieq_n}
use project_voyager.Web.Auth.Sessions.{token-bytes}
use project_voyager.Web.Auth.Tokens.{ct_equal_iff}

abbrev pub IsHexDigit : ℕ → Type 0
IsHexDigit c = ((48 ≤ c) × (c ≤ 57)) ⊎ ((97 ≤ c) × (c ≤ 102))

-- Thirty-two lower-case hexadecimal digits.
abbrev pub IsToken : Bytes → Type 0
IsToken t = (length t ≡ 32) × All IsHexDigit t

-- A slot of the sessions: empty, or a token.
abbrev pub IsSlot : Bytes → Type 0
IsSlot s = (length s ≡ 0) ⊎ IsToken s

abbrev pub Among : Bytes → List Bytes → Type 0
Among t [] = ⊥
Among t (s ∷ ss) = (s ≡ t) ⊎ Among t ss

-- The letter, given in lower case, or its upper case.
abbrev pub IsLetter : ℕ → ℕ → Type 0
IsLetter l c = (c ≡ l) ⊎ (c + 32 ≡ l)

-- "Digest" in any case, and something behind it.
abbrev pub IsDigest : Bytes → Type 0
IsDigest (c₀ ∷ c₁ ∷ c₂ ∷ c₃ ∷ c₄ ∷ c₅ ∷ c₆ ∷ rest) =
    IsLetter b'd' c₀
    × (IsLetter b'i' c₁
        × (IsLetter b'g' c₂ × (IsLetter b'e' c₃ × (IsLetter b's' c₄ × IsLetter b't' c₅))))
IsDigest _ = ⊥

-- What lets a request pass: a cookie "vsid" with a token that is one of the sessions, or an
-- authorization of the digest scheme that the server confirms against the hash of the password.
abbrev pub IsSignedIn : Auth → Request → Type 0
IsSignedIn a r =
    ((header : Bytes) × (token : Bytes) × (r.cookie ≡ some header)
      × (cookie_get (some header) (some (codes "vsid")) (some 40) ≡ value token)
      × IsToken token
      × Among token a.sessions)
    ⊎ ((v : Bytes) × (r.authorization ≡ some v) × IsDigest v × (r.authenticate a.ha1 ≡ true))

hex_only_iff : (t : Bytes) → (hex_only t ≡ true) ↔ All IsHexDigit t
unfolding hex_only
hex_only_iff [] = (λ e. tt, λ u. refl)
hex_only_iff (c ∷ t) = ground (arith, hex_only_iff t)

is_session_token_iff : (t : Bytes) → (is_session_token (some t) ≡ true) ↔ IsToken t
unfolding is_session_token
is_session_token_iff t = ground (arith, hex_only_iff t)

slot_matches_iff : (t s : Bytes) → IsToken t → IsSlot s → (slot_matches t s ≡ true) ↔ (s ≡ t)
slot_matches_iff t s h (inl empty) = (
  λ e. absurd (ground (arith, e)),
  λ e. absurd (ground (arith, ap {B = ℕ} (λ (x : Bytes). length x) e, h.0)),
)
slot_matches_iff t s h (inr k) =
    let a = token-bytes t ((is_session_token_iff t).1 h) in
    let b = token-bytes s ((is_session_token_iff s).1 k) in
    ground (arith, ct_equal_iff s t (omega arith) b.1 a.1)

any_slot_iff :
    (t : Bytes) (ss : List Bytes) → IsToken t → All IsSlot ss → (any_slot t ss ≡ true) ↔ Among t ss
unfolding any_slot
any_slot_iff t [] h k = (λ e. absurd (cc), λ e. elim e [ ])
any_slot_iff t (s ∷ ss) h k = ground (arith, slot_matches_iff t s h k.0, any_slot_iff t ss h k.1)

and_iff :
    (x y : Bool) (P Q : Type 0) → ((x ≡ true) ↔ P) → ((y ≡ true) ↔ Q) → ((x && y) ≡ true) ↔ (P × Q)
and_iff true true P Q p q = (λ e. (p.0 refl, q.0 refl), λ h. refl)
and_iff true false P Q p q = (λ e. (p.0 refl, q.0 e), λ h. q.1 h.1)
and_iff false y P Q p q = (λ e. absurd (cc), λ h. p.1 h.0)

and_true_iff : (x : Bool) (P : Type 0) → ((x ≡ true) ↔ P) → ((x && true) ≡ true) ↔ P
and_true_iff true P p = p
and_true_iff false P p = p

-- A byte whose lower case is the letter `l`.
lower-IsLetter : (l c : ℕ) → b'a' ≤ l → l ≤ b'z' → ((ascii_lower c == l) ≡ true) ↔ IsLetter l c
unfolding ascii_lower
lower-IsLetter l c h k = ground arith

either : {A B C D : Type 0} → (A → C) → (B → D) → A ⊎ B → C ⊎ D
either f g (inl a) = inl (f a)
either f g (inr b) = inr (g b)

ensure_loaded_twice :
    (disk : Option Bytes) (a : Auth)
    → ensure_loaded disk (ensure_loaded disk a) ≡ ensure_loaded disk a
unfolding ensure_loaded auth_init
ensure_loaded_twice none a = ground arith
ensure_loaded_twice (some buf) a = ground arith

ensure_loaded-sessions :
    (disk : Option Bytes) (a : Auth) → (ensure_loaded disk a).sessions ≡ a.sessions
unfolding ensure_loaded auth_init
ensure_loaded-sessions none a = ground arith
ensure_loaded-sessions (some buf) a = ground arith

begins_digest :
    (c₀ c₁ c₂ c₃ c₄ c₅ : ℕ)
    → (ieq_n (c₀ ∷ c₁ ∷ c₂ ∷ c₃ ∷ c₄ ∷ c₅ ∷ []) (codes "Digest") ≡ true) ↔ (
        IsLetter b'd' c₀
        × (IsLetter b'i' c₁
            × (IsLetter b'g' c₂ × (IsLetter b'e' c₃ × (IsLetter b's' c₄ × IsLetter b't' c₅)))))
unfolding ieq_n
begins_digest c₀ c₁ c₂ c₃ c₄ c₅ =
    let is = λ (l c : ℕ) (h : b'a' ≤ l) (k : l ≤ b'z'). lower-IsLetter l c h k in
    and_iff _ _ _ _ (is b'd' c₀ (omega arith) (omega arith)) (
      and_iff _ _ _ _ (is b'i' c₁ (omega arith) (omega arith)) (
        and_iff _ _ _ _ (is b'g' c₂ (omega arith) (omega arith)) (
          and_iff _ _ _ _ (is b'e' c₃ (omega arith) (omega arith)) (
            and_iff _ _ _ _ (is b's' c₄ (omega arith) (omega arith))
              (and_true_iff _ _ (is b't' c₅ (omega arith) (omega arith)))))))

is_digest_iff : (v : Bytes) → (is_digest (some v) ≡ true) ↔ IsDigest v
unfolding is_digest
is_digest_iff (c₀ ∷ c₁ ∷ c₂ ∷ c₃ ∷ c₄ ∷ c₅ ∷ c₆ ∷ rest) =
    let is = begins_digest c₀ c₁ c₂ c₃ c₄ c₅ in
    (λ e. is.0 (ground (arith, e)), λ h. rw (is.1 h) (ground arith))
is_digest_iff [] = ground arith
is_digest_iff (c₀ ∷ []) = ground arith
is_digest_iff (c₀ ∷ c₁ ∷ []) = ground arith
is_digest_iff (c₀ ∷ c₁ ∷ c₂ ∷ []) = ground arith
is_digest_iff (c₀ ∷ c₁ ∷ c₂ ∷ c₃ ∷ []) = ground arith
is_digest_iff (c₀ ∷ c₁ ∷ c₂ ∷ c₃ ∷ c₄ ∷ []) = ground arith
is_digest_iff (c₀ ∷ c₁ ∷ c₂ ∷ c₃ ∷ c₄ ∷ c₅ ∷ []) = ground arith

session_valid_iff :
    (a : Auth) (t : Bytes)
    → All IsSlot a.sessions
    → (session_valid a t ≡ true) ↔ (IsToken t × Among t a.sessions)
unfolding session_valid
session_valid_iff a t h = (
  λ e.
      let is : IsToken t = (is_session_token_iff t).0 (ground (arith, e)) in
      (is, (any_slot_iff t a.sessions is h).0 (ground (arith, e))),
  λ p. ground (arith, (is_session_token_iff t).1 p.0, (any_slot_iff t a.sessions p.0 h).1 p.1),
)

abbrev HasCookie : Auth → Option Bytes → Type 0
HasCookie a cookie =
    (header : Bytes) × (token : Bytes) × (cookie ≡ some header)
    × (cookie_get (some header) (some (codes "vsid")) (some 40) ≡ value token)
    × IsToken token
    × Among token a.sessions

has_session-answer :
    (a : Auth) (header : Option Bytes) (c : Cookie)
    → cookie_get header (some (codes "vsid")) (some 40) ≡ c
    → has_session a header ≡ true
    → (token : Bytes) × (c ≡ value token) × (session_valid a token ≡ true)
unfolding has_session
has_session-answer a header (value token) e h = (token, refl, ground (arith, e, h))
has_session-answer a header absent e h = absurd (cc)
has_session-answer a header too_long e h = absurd (cc)
has_session-answer a header out_of_fuel e h = absurd (cc)

has_session_complete :
    (a : Auth) (header : Bytes)
    → All IsSlot a.sessions
    → HasCookie a (some header)
    → has_session a (some header) ≡ true
unfolding has_session
has_session_complete a header h (used, token, same, is, digits, among) =
    let here : cookie_get (some header) (some (codes "vsid")) (some 40) ≡ value token =
      rw same is in
    ground (arith, here, (session_valid_iff a token h).1 (digits, among))

has_session_iff :
    (a : Auth) (cookie : Option Bytes)
    → All IsSlot a.sessions
    → (((is_some cookie && has_session a cookie) ≡ true) ↔ HasCookie a cookie)
has_session_iff a none h = (λ e. absurd (cc), λ p. absurd (cc))
has_session_iff a (some header) h = (
  λ e.
      let (token, is, ok) =
        has_session-answer a (some header)
          (cookie_get (some header) (some (codes "vsid")) (some 40)) refl e in
      let (digits, among) = (session_valid_iff a token h).0 ok in
      (header, token, refl, is, digits, among),
  λ p. has_session_complete a header h p,
)

auth_require-tests :
    (disk : Option Bytes) (r : Request) (a : Auth)
    → let b = ensure_loaded disk a in
      ((auth_require disk (some r) a).1 ≡ pass ↔ (
        (length b.ha1 ≢ 0)
        × (((is_some r.cookie && has_session b r.cookie) ≡ true)
            ⊎ ((is_digest r.authorization ≡ true) × (r.authenticate b.ha1 ≡ true)))))
      × ((auth_require disk (some r) a).1 ≡ setup_required ↔ (length b.ha1 ≡ 0))
      × ((auth_require disk (some r) a).0 ≡ b)
unfolding auth_require
auth_require-tests disk r a =
    let b = ensure_loaded disk a in ground (arith, ensure_loaded_twice disk a)

is_digest-header :
    (header : Option Bytes) (ok : Bool)
    → ((is_digest header ≡ true) × (ok ≡ true))
      ↔ ((v : Bytes) × (header ≡ some v) × IsDigest v × (ok ≡ true))
unfolding is_digest
is_digest-header none ok = (λ p. absurd (cc), λ p. absurd (cc))
is_digest-header (some v) ok = (
  λ p. (v, refl, (is_digest_iff v).0 p.0, p.1),
  λ (u, e, is, k). (subst (λ x. is_digest x ≡ true) (sym e) ((is_digest_iff u).1 is), k),
)

-- Where every slot of the sessions is empty or a token, a request passes exactly when a password is set
-- and the request is signed in, by a cookie with the token of a session or by a confirmed digest;
-- exactly without a password it is told to set one up; and the state is as it was loaded.
pub auth_require_iff :
    (disk : Option Bytes) (r : Request) (a : Auth)
    → All IsSlot a.sessions
    → let b = ensure_loaded disk a in
      ((auth_require disk (some r) a).1 ≡ pass ↔ ((length b.ha1 ≢ 0) × IsSignedIn b r))
      × ((auth_require disk (some r) a).1 ≡ setup_required ↔ (length b.ha1 ≡ 0))
      × ((auth_require disk (some r) a).0 ≡ b)
auth_require_iff disk r a h =
    let b = ensure_loaded disk a in
    let (passes, setup, kept) = auth_require-tests disk r a in
    let slots : All IsSlot b.sessions = rw (ensure_loaded-sessions disk a) h in
    let cookie = has_session_iff b r.cookie slots in
    let digest = is_digest-header r.authorization (r.authenticate b.ha1) in
    (
      (
        λ e. let (given, by) = passes.0 e in (given, either cookie.0 digest.0 by),
        λ p. passes.1 (p.0, either cookie.1 digest.1 p.1),
      ),
      setup,
      kept,
    )
