-- ===== src/Prelude/Bits.antt =====
-- Bit operations on bytes: facts checked over all the values.
use Prim.Native.Nat.{ℕ, zero, suc, ◌<◌, bit_or, bit_xor}
use mathlib.Core.Path.{◌≡◌, refl}
use mathlib.Core.Bool.{Bool, true, false, not, ◌&&◌, ◌||◌}
use native.Mathlib.Omega.{arith}
use project_voyager.Prelude.Tests.{◌==◌, ltb, if◌then◌else◌}

-- A test on all the numbers below a limit, the largest one first.
unfoldable pub all_below : ℕ → (ℕ → Bool) → Bool
all_below (suc top) test = if test top then all_below top test else false
all_below zero _ = true

pub all_below_sound :
    (limit : ℕ) (test : ℕ → Bool) (byte : ℕ)
    → all_below limit test ≡ true
    → byte < limit
    → test byte ≡ true
unfolding all_below
all_below_sound (suc limit) test byte every small =
    let smaller = all_below_sound limit test byte in ground (arith, smaller)
all_below_sound zero test byte every small = ground arith

abbrev cancels : ℕ → ℕ → Bool
cancels a b = bit_xor (bit_xor a b) b == a && ltb (bit_xor a b) 256

undone_table : all_below 256 (λ a. all_below 256 (cancels a)) ≡ true
unfolding all_below
undone_table = refl

xor-cancels : (a b : ℕ) → a < 256 → b < 256 → cancels a b ≡ true
xor-cancels a b ha hb =
    all_below_sound 256 (cancels a) b
      (all_below_sound 256 (λ c. all_below 256 (cancels c)) a undone_table ha) hb

-- On bytes, a second `xor` by the same byte undoes the first.
pub xor-xor : (a b : ℕ) → a < 256 → b < 256 → bit_xor (bit_xor a b) b ≡ a
xor-xor a b ha hb = ground (arith, xor-cancels a b ha hb)

pub xor-lt : (a b : ℕ) → a < 256 → b < 256 → bit_xor a b < 256
xor-lt a b ha hb = ground (arith, xor-cancels a b ha hb)

abbrev vanishes : ℕ → ℕ → Bool
vanishes a b =
    (not (bit_or a b == 0) || a == 0 && b == 0)
    && ltb (bit_or a b) 256
    && (not (bit_xor a b == 0) || a == b)
    && bit_xor a a == 0

vanishing_table : all_below 256 (λ a. all_below 256 (vanishes a)) ≡ true
unfolding all_below
vanishing_table = refl

vanishes_all : (a b : ℕ) → a < 256 → b < 256 → vanishes a b ≡ true
vanishes_all a b ha hb =
    all_below_sound 256 (vanishes a) b
      (all_below_sound 256 (λ c. all_below 256 (vanishes c)) a vanishing_table ha) hb

-- On bytes, an `or` is zero only for two zeros, and an `xor` exactly for two equal bytes.
pub or_zero : (a b : ℕ) → a < 256 → b < 256 → bit_or a b ≡ 0 → (a ≡ 0) × (b ≡ 0)
or_zero a b ha hb e = ground (arith, vanishes_all a b ha hb)

pub or-lt : (a b : ℕ) → a < 256 → b < 256 → bit_or a b < 256
or-lt a b ha hb = ground (arith, vanishes_all a b ha hb)

pub xor_zero : (a b : ℕ) → a < 256 → b < 256 → bit_xor a b ≡ 0 → a ≡ b
xor_zero a b ha hb e = ground (arith, vanishes_all a b ha hb)

pub xor_self : (a : ℕ) → a < 256 → bit_xor a a ≡ 0
xor_self a h = ground (arith, vanishes_all a 0 h (omega arith))
