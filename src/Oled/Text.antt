-- ===== src/Oled/Text.antt =====
-- src/display/oled_layout.h, the helpers on strings. A null pointer is `none`.
pub mod Laws
use project_voyager.Prelude.{
  ℕ, zero, suc, ◌+◌, ◌-◌, ◌*◌, ◌/◌, ◌%◌, ◌^◌, ◌≤◌, ◌<◌, ◌≡◌, refl, sym, ap, ◌∙◌, ◌≢◌, ◌↔◌, ◌⊎◌, inl,
  inr, Bool, true, false, not, ◌&&◌, ◌||◌, Option, none, some, List, [], ◌∷◌, ◌++◌, map,
  append_assoc, append-nil, arith, ltb, leb, ◌==◌, ◌!=◌, if◌then◌else◌, is_some, ==_iff, Bool-cases,
  Option-cases, Bytes, codes, length, get_elem?, get_or, set, take, drop, replicate, All,
  length-append, take-length-append, drop-length-append, length-set, length-take, get_or-set_self,
  get_or-set_ne, IsByte, str_eq, str_eq_iff, str_eq_refl,
}

unfoldable pub safe_len : Option Bytes → ℕ
safe_len none = 0
safe_len (some s) = length s

-- The loop `for (; i + 1 < n && src[i]; i++)`; the number is that of the bytes still free.
pub copy_loop : ℕ → Bytes → Bytes
copy_loop zero src = []
copy_loop (suc room) [] = []
copy_loop (suc room) (c ∷ src) = c ∷ copy_loop room src

-- What the destination of `n` bytes holds, for `n > 0`.
unfoldable pub safe_copy : ℕ → Option Bytes → Bytes
unfolding copy_loop
safe_copy n none = []
safe_copy n (some src) = copy_loop (n - 1) src

-- The loop of `ascii_fold`; the flag is `in_seq`.
pub fold_loop : Bool → Bytes → Bytes
fold_loop in_seq [] = []
fold_loop in_seq (c ∷ s) =
    let lead = leb 0xC0 c in
    let high = leb 0x80 c in
    let rest = fold_loop (lead || high && in_seq) s in
    if lead
    then b'?' ∷ rest
    else if high
    then (if not in_seq then b'?' ∷ rest else rest)
    else (if ltb c 0x20 && c != b'\n' || c == 0x7F then b' ' else c) ∷ rest

unfoldable pub ascii_fold : Bytes → Bytes
unfolding fold_loop
ascii_fold s = fold_loop false s

abbrev pub char_w : ℕ
char_w = 6

-- `px` is positive or 0; the source gives 0 for a negative one.
unfoldable pub chars_fit : ℕ → ℕ → ℕ
chars_fit px size =
    let size' = if size == 0 then 1 else size in if px == 0 then 0 else px / (char_w * size')

unfoldable pub text_width : Option Bytes → ℕ → ℕ
unfolding safe_len
text_width s size = safe_len s * char_w * (if size == 0 then 1 else size)

-- `out_size > 0`. The text and whether it was cut; `max_chars` 0 stands for 0 and below.
unfoldable pub truncate_ellipsis : Option Bytes → ℕ → ℕ → Bytes × Bool
unfolding safe_len safe_copy
truncate_ellipsis src out_size max_chars =
    let size = out_size - 1 in
    let limit = if ltb max_chars size then max_chars else size in
    let dots = if ltb limit 3 then limit else 3 in
    let keep = limit - dots in
    if max_chars == 0
    then ([], ltb 0 (safe_len src))
    else if leb (safe_len src) limit
    then (safe_copy out_size src, false)
    else (elim src [ none ↦ [] | some s ↦ take keep s ++ replicate dots b'.' ], true)

unfoldable pub ascii_upper : Bytes → Bytes
ascii_upper [] = []
ascii_upper (c ∷ s) = (if leb b'a' c && leb c b'z' then c - b'a' + b'A' else c) ∷ ascii_upper s
