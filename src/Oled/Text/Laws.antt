-- ===== src/Oled/Text/Laws.antt =====
-- src/display/oled_layout.h, strings: copies and cuts fit, and folded text is safe to draw.
use project_voyager.Prelude.{
  ℕ, zero, suc, ◌+◌, ◌-◌, ◌≤◌, ◌<◌, ◌≡◌, refl, ap, ◌⊎◌, inl, inr, Bool, true, false, not, ◌&&◌,
  ◌||◌, some, [], ◌∷◌, ◌++◌, arith, ltb, leb, if◌then◌else◌, Bool-cases, Bytes, length, take,
  replicate, All, length-append, length-take, IsByte,
}
use project_voyager.Oled.Text.{copy_loop, safe_copy, fold_loop, ascii_fold, truncate_ellipsis}

pub copy_loop-take : (room : ℕ) (s : Bytes) → copy_loop room s ≡ take room s
unfolding copy_loop
copy_loop-take zero s = refl
copy_loop-take (suc room) [] = refl
copy_loop-take (suc room) (c ∷ s) = ap (◌∷◌ c) (copy_loop-take room s)

take_all : (n : ℕ) (s : Bytes) → length s ≤ n → take n s ≡ s
take_all zero [] h = refl
take_all zero (c ∷ s) h = absurd (omega arith)
take_all (suc n) [] h = refl
take_all (suc n) (c ∷ s) h = ap (◌∷◌ c) (take_all n s (omega arith))

length-replicate : (n : ℕ) → length (replicate {A = ℕ} n b'.') ≡ n
length-replicate zero = refl
length-replicate (suc n) = ap suc (length-replicate n)

-- A text that fits both the number of characters and the buffer is kept.
truncate_ellipsis_short :
    (s : Bytes) (out_size max_chars : ℕ)
    → 0 < max_chars
    → length s ≤ max_chars
    → length s < out_size
    → truncate_ellipsis (some s) out_size max_chars ≡ (s, false)
unfolding truncate_ellipsis safe_copy
truncate_ellipsis_short s out_size max_chars h k l =
    ground (arith, copy_loop-take (out_size - 1) s, take_all (out_size - 1) s)

-- The characters kept and the dots of a text that has to be cut.
abbrev limit_of : ℕ → ℕ → ℕ
limit_of out_size max_chars = if ltb max_chars (out_size - 1) then max_chars else out_size - 1

abbrev dots_of : ℕ → ℕ
dots_of limit = if ltb limit 3 then limit else 3

truncate_ellipsis_long :
    (s : Bytes) (out_size max_chars : ℕ)
    → 0 < max_chars
    → limit_of out_size max_chars < length s
    → let limit = limit_of out_size max_chars in
      truncate_ellipsis (some s) out_size max_chars
      ≡ (take (limit - dots_of limit) s ++ replicate (dots_of limit) b'.', true)
unfolding truncate_ellipsis
truncate_ellipsis_long s out_size max_chars h k = ground arith

length-cut :
    (s : Bytes) (limit : ℕ)
    → limit < length s
    → length (take (limit - dots_of limit) s ++ replicate (dots_of limit) b'.') ≡ limit
length-cut s limit h =
    let d = dots_of limit in
    let le : d ≤ limit = ground arith in
    omega (
      arith,
      length-append (take (limit - d) s) (replicate d b'.'),
      length-take (limit - d) s,
      length-replicate d,
    )

-- Of a text and a buffer and limit that are not 0: the result fits the buffer with its NUL and the number of characters asked for; it is the whole text
-- exactly when that fits, and fills the space that there is when it was cut.
pub truncate_ellipsis_fits :
    (s : Bytes) (out_size max_chars : ℕ)
    → 0 < out_size
    → 0 < max_chars
    → let (out, cut) = truncate_ellipsis (some s) out_size max_chars in
      (length out < out_size)
      × (length out ≤ max_chars)
      × (cut ≡ not (leb (length s) max_chars && ltb (length s) out_size))
      × (((cut ≡ false) × (out ≡ s))
          ⊎ ((cut ≡ true) × ((length out ≡ max_chars) ⊎ (length out + 1 ≡ out_size))))
truncate_ellipsis_fits s out_size max_chars h k =
    elim (Bool-cases (leb (length s) max_chars && ltb (length s) out_size)) [
      | inl fits ↦
          rw (truncate_ellipsis_short s out_size max_chars k (ground arith) (ground arith))
            (ground arith)
      | inr long ↦
          let l : limit_of out_size max_chars < length s = ground arith in
          let size = length-cut s (limit_of out_size max_chars) l in
          let e = truncate_ellipsis_long s out_size max_chars k l in ground (arith, e, size)
    ]

-- Every byte of a folded text is a newline or a printable ASCII character, and the text is no longer.
abbrev pub IsDrawable : ℕ → Type 0
IsDrawable c = (c ≡ b'\n') ⊎ ((0x20 ≤ c) × (c < 0x7F))

fold_loop-All :
    (s : Bytes) (in_seq : Bool)
    → All IsByte s
    → All IsDrawable (fold_loop in_seq s) × (length (fold_loop in_seq s) ≤ length s)
unfolding fold_loop
fold_loop-All [] in_seq h = (tt, omega arith)
fold_loop-All (c ∷ s) in_seq h =
    ground (arith, fold_loop-All s (leb 0xC0 c || leb 0x80 c && in_seq) h.1)

pub ascii_fold-All :
    (s : Bytes) → All IsByte s → All IsDrawable (ascii_fold s) × (length (ascii_fold s) ≤ length s)
unfolding ascii_fold
ascii_fold-All s h = fold_loop-All s false h
