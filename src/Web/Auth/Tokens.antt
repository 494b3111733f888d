-- ===== src/Web/Auth/Tokens.antt =====
-- src/web/auth.cpp, tokens: the comparison in constant time is equality, and new tokens are valid ones.
use project_voyager.Prelude.{
  ℕ, zero, suc, ◌/◌, ◌<◌, ◌≡◌, refl, sym, ap, ◌↔◌, true, some, [], ◌∷◌, ◌++◌, arith, Bytes, length,
  All, IsByte,
}
use mathlib.Core.Path.{ap₂}
use Prim.Native.Nat.{bit_or, bit_xor}
use project_voyager.Prelude.Bits.{or_zero, or-lt, xor_zero, xor_self, xor-lt}
use project_voyager.Web.Access.{hex_only, is_session_token, differences, ct_equal}
use project_voyager.Web.Auth.{hex_word, Words, token_of}

differences_zero :
    (a b : Bytes) (d : ℕ)
    → length a ≡ length b
    → d < 256
    → All IsByte a
    → All IsByte b
    → differences d a b ≡ 0
    → (d ≡ 0) × (a ≡ b)
unfolding differences
differences_zero [] [] d l hd ha hb e = (e, refl)
differences_zero [] (y ∷ b) d l hd ha hb e = ground arith
differences_zero (x ∷ a) [] d l hd ha hb e = ground arith
differences_zero (x ∷ a) (y ∷ b) d l hd ha hb e =
    let small = xor-lt x y ha.0 hb.0 in
    let more =
      differences_zero a b (bit_or d (bit_xor x y)) (omega arith) (or-lt d (bit_xor x y) hd small)
        ha.1 hb.1 e in
    let zeros = or_zero d (bit_xor x y) hd small more.0 in
    (zeros.0, ap₂ ◌∷◌ (xor_zero x y ha.0 hb.0 zeros.1) more.1)

differences_self : (a : Bytes) → All IsByte a → differences 0 a a ≡ 0
unfolding differences
differences_self [] h = refl
differences_self (x ∷ a) h = rw (xor_self x h.0) (differences_self a h.1)

-- Of two texts of one length, made of bytes, the comparison in constant time tells whether they are equal.
pub ct_equal_iff :
    (a b : Bytes)
    → length a ≡ length b
    → All IsByte a
    → All IsByte b
    → (ct_equal a b ≡ true) ↔ (a ≡ b)
unfolding ct_equal
ct_equal_iff a b l ha hb = (
  λ e. (differences_zero a b 0 l (omega arith) ha hb (ground (arith, e))).1,
  λ e. rw (sym e) (ground (arith, differences_self a ha)),
)

pub hex_only-bytes : (t : Bytes) → hex_only t ≡ true → All IsByte t
unfolding hex_only
hex_only-bytes [] h = ground arith
hex_only-bytes (c ∷ t) h = (ground arith, hex_only-bytes t (ground arith))

hex_word-hex : (n r : ℕ) → hex_only (hex_word n r) ≡ true
unfolding hex_only hex_word
hex_word-hex zero r = refl
hex_word-hex (suc n) r = ground (arith, hex_word-hex n (r / 16))

length-hex_word : (n r : ℕ) → length (hex_word n r) ≡ n
unfolding hex_word
length-hex_word zero r = refl
length-hex_word (suc n) r = ap suc (length-hex_word n (r / 16))

hex_only-append : (a b : Bytes) → hex_only a ≡ true → hex_only b ≡ true → hex_only (a ++ b) ≡ true
unfolding hex_only
hex_only-append [] b h k = k
hex_only-append (c ∷ a) b h k = ground (arith, hex_only-append a b)

token_of-hex : (w : Words) → hex_only (token_of w) ≡ true
unfolding token_of
token_of-hex w = hex_only-append (hex_word 8 w.w₀) _ (hex_word-hex 8 w.w₀) (
    hex_only-append (hex_word 8 w.w₁) _ (hex_word-hex 8 w.w₁)
      (hex_only-append (hex_word 8 w.w₂) _ (hex_word-hex 8 w.w₂) (hex_word-hex 8 w.w₃)))

pub length-token_of : (w : Words) → length (token_of w) ≡ 32
unfolding token_of
length-token_of w = refl

-- A new token is a valid one: 32 digits.
pub token_of-valid : (w : Words) → is_session_token (some (token_of w)) ≡ true
unfolding is_session_token
token_of-valid w = ground (arith, token_of-hex w, length-token_of w)
