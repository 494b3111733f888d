-- ===== src/Tests/Printer.antt =====
-- A small JSON library for objects of numbers, with a printer that keeps its promises. A name is spelled
-- with each byte raised by one, ends at a 1, and its number follows.
use project_voyager.Prelude.{
  ℕ, ◌+◌, ◌-◌, ◌*◌, ◌/◌, ◌%◌, ◌≡◌, refl, ap, ◌≢◌, Bool, true, false, some, List, [], ◌∷◌, ◌++◌,
  append_assoc, append-nil, arith, ◌==◌, if◌then◌else◌, Bytes, All, str_eq, str_eq_iff, str_eq_refl,
}
use project_voyager.Prelude.Int.{ℤ, pos, negsuc}
use project_voyager.Core.Json.{Json}
use project_voyager.Lora.Receive.{before_nul}
use project_voyager.Lora.Config.Printing.{AreNames, IsNumber, IsObjectOf, Printer}

pub data Shown : Type 0 where
  nothing : Shown
  number : ℤ → Shown
  object : List (Bytes × ℤ) → Shown

abbrev code : ℤ → ℕ
code (pos n) = 2 * n + 1
code (negsuc n) = 2 * n + 2

abbrev uncode : ℕ → ℤ
uncode m = if m % 2 == 1 then pos (m / 2) else negsuc (m / 2 - 1)

uncode-code : (x : ℤ) → uncode (code x) ≡ x
uncode-code (pos n) = ground arith
uncode-code (negsuc n) = ground arith

abbrev spelled : Bytes → Bytes
spelled [] = []
spelled (b ∷ k) = (b + 1) ∷ spelled k

abbrev pub show : List (Bytes × ℤ) → Bytes
show [] = []
show ((k, x) ∷ ms) = spelled k ++ (1 ∷ code x ∷ show ms)

-- The name read so far, and whether a number is next.
abbrev scan : Bytes → Bool → Bytes → List (Bytes × ℤ)
scan name number_next [] = []
scan name true (n ∷ rest) = (name, uncode n) ∷ scan [] false rest
scan name false (b ∷ rest) = scan (if b == 1 then name else name ++ (b - 1) ∷ []) (b == 1) rest

scan-spelled :
    (k name : Bytes) (n : ℕ) (rest : Bytes)
    → All (λ b. b ≢ 0) k
    → scan name false (spelled k ++ (1 ∷ n ∷ rest)) ≡ (name ++ k, uncode n) ∷ scan [] false rest
scan-spelled [] name n rest h = rw append-nil refl
scan-spelled (b ∷ k) name n rest h =
    ground (arith, h, scan-spelled k (name ++ b ∷ []) n rest, append_assoc name (b ∷ []) k)

scan-show : (ms : List (Bytes × ℤ)) → AreNames ms → scan [] false (show ms) ≡ ms
scan-show [] h = refl
scan-show ((k, x) ∷ ms) h =
    ground (arith, scan-spelled k [] (code x) (show ms) h.0, uncode-code x, scan-show ms h.1.1)

before_nul-spelled :
    (k rest : Bytes) → before_nul (spelled k ++ rest) ≡ spelled k ++ before_nul rest
unfolding before_nul
before_nul-spelled [] rest = refl
before_nul-spelled (b ∷ k) rest = ground (arith, before_nul-spelled k rest)

before_nul-show : (ms : List (Bytes × ℤ)) → before_nul (show ms) ≡ show ms
unfolding before_nul
before_nul-show [] = refl
before_nul-show ((k, pos n) ∷ ms) =
    ground (arith, before_nul-spelled k (1 ∷ code (pos n) ∷ show ms), before_nul-show ms)
before_nul-show ((k, negsuc n) ∷ ms) =
    ground (arith, before_nul-spelled k (1 ∷ code (negsuc n) ∷ show ms), before_nul-show ms)

abbrev look_up : Bytes → List (Bytes × ℤ) → Shown
look_up k [] = nothing
look_up k ((key, x) ∷ ms) = if str_eq k key then number x else look_up k ms

abbrev member_of : Shown → Bytes → Shown
member_of (object ms) k = look_up k ms
member_of _ k = nothing

abbrev is_nothing : Shown → Bool
is_nothing nothing = true
is_nothing _ = false

abbrev is_number : Shown → Bool
is_number (number x) = true
is_number _ = false

abbrev pub long_of : Shown → ℤ
long_of (number x) = x
long_of _ = pos 0

abbrev pub never : Shown → Bool
never v = false

abbrev pub ever : Shown → Bool
ever v = true

abbrev pub numbers : Json
numbers = record {
  Value = Shown;
  parse = λ s. some (object (scan [] false s));
  member = member_of;
  is_null = is_nothing;
  is_object = ever;
  is_string = never;
  as_string = λ v. [];
  is_bool = never;
  as_bool = never;
  is_long = is_number;
  as_long = long_of;
}

-- Every member is found under its name.
abbrev IsFound : List (Bytes × ℤ) → List (Bytes × ℤ) → Type 0
IsFound ms found = All (λ m. look_up m.0 ms ≡ number m.1) found

IsFound-later :
    (k : Bytes) (x : ℤ) (ms found : List (Bytes × ℤ))
    → All (λ m. m.0 ≢ k) found
    → IsFound ms found
    → IsFound ((k, x) ∷ ms) found
IsFound-later k x ms [] h f = tt
IsFound-later k x ms ((key, y) ∷ found) h f =
    (ground (arith, h.0, f.0, str_eq_iff key k), IsFound-later k x ms found h.1 f.1)

IsFound-all : (ms : List (Bytes × ℤ)) → AreNames ms → IsFound ms ms
IsFound-all [] h = tt
IsFound-all ((k, x) ∷ ms) h =
    (rw (str_eq_refl k) refl, IsFound-later k x ms ms h.1.0 (IsFound-all ms h.1.1))

are_numbers :
    (ms found : List (Bytes × ℤ))
    → IsFound ms found
    → All (λ m. IsNumber numbers never ever long_of (look_up m.0 ms) m.1) found
are_numbers ms [] h = tt
are_numbers ms ((k, x) ∷ found) h =
    ((rw h.0 refl, rw h.0 refl, refl, rw h.0 refl), are_numbers ms found h.1)

reads : (ms : List (Bytes × ℤ)) → AreNames ms → IsObjectOf numbers never ever long_of ms (show ms)
reads ms h = (
  object ms,
  ap (λ found. some (object found)) (scan-show ms h),
  refl,
  are_numbers ms ms (IsFound-all ms h),
)

pub show-Printer : Printer numbers never ever long_of show
show-Printer = record { no_zero = λ ms h. before_nul-show ms; reads_back = reads }
