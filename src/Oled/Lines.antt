-- ===== src/Oled/Lines.antt =====
-- src/display/oled_layout.h, texts cut into lines, and the numbers shown. Lengths and limits are not
-- negative, as in every call; the lines written are the result.
use project_voyager.Prelude.{
  ℕ, zero, suc, ◌+◌, ◌-◌, ◌*◌, ◌/◌, Bool, false, not, ◌&&◌, ◌||◌, Option, none, some, List, [], ◌∷◌,
  ◌++◌, ltb, ◌==◌, if◌then◌else◌, Bytes, length, get_or, take, drop, replicate,
}
use project_voyager.Prelude.Int.{ℤ, pos, negsuc, leb_ℤ}
use project_voyager.Oled.Text.{truncate_ellipsis}

-- `max_chars` after the test against the stride.
abbrev pub line_limit : ℕ → ℕ → ℕ
line_limit max_chars stride = if ltb (stride - 1) max_chars then stride - 1 else max_chars

-- The loop of `split_lines` over what is left of the text, with `left` lines still free. With a limit
-- of at least one character each round takes a byte; there are at most `left` rounds.
unfoldable pub split_loop : ℕ → ℕ → ℕ → Bytes → List Bytes
unfolding truncate_ellipsis
split_loop zero max_chars stride text = []
split_loop (suc left) max_chars stride [] = []
split_loop (suc left) max_chars stride (c ∷ s) =
    let text = c ∷ s in
    if left == 0 && ltb max_chars (length text)
    then (truncate_ellipsis (some text) stride max_chars).0 ∷ []
    else take max_chars text ∷ split_loop left max_chars stride (drop max_chars text)

unfoldable pub split_lines : Option Bytes → ℕ → ℕ → ℕ → List Bytes
unfolding split_loop
split_lines none max_chars max_lines stride = []
split_lines (some text) max_chars max_lines stride =
    if ltb stride 2 || max_lines == 0 || max_chars == 0
    then []
    else split_loop max_lines (line_limit max_chars stride) stride text

unfoldable pub clamp_pct : ℤ → ℕ
clamp_pct (negsuc n) = 0
clamp_pct (pos n) = if ltb 100 n then 100 else n

unfoldable pub progress_fill : ℤ → ℤ → ℕ
unfolding clamp_pct
progress_fill (negsuc n) pct = 0
progress_fill (pos inner_px) pct = inner_px * clamp_pct pct / 100

unfoldable pub rssi_to_bars : ℤ → ℕ
rssi_to_bars rssi =
    if leb_ℤ (pos 0) rssi
    then 0
    else if leb_ℤ (negsuc 54) rssi
    then 4
    else if leb_ℤ (negsuc 64) rssi
    then 3
    else if leb_ℤ (negsuc 74) rssi
    then 2
    else if leb_ℤ (negsuc 84) rssi
    then 1
    else 0

abbrev pub is_space : ℕ → Bool
is_space c = c == b' ' || c == b'\t' || c == b'\r'

-- Skip the blanks at the start of a line.
unfoldable pub skip_spaces : Bytes → Bytes
skip_spaces [] = []
skip_spaces (c ∷ p) = let rest = skip_spaces p in if is_space c then rest else c ∷ p

-- The loop that measures a line: the number of bytes that fit, and the last place of a blank among
-- them. `seen` bytes were taken before.
unfoldable pub measure : ℕ → ℕ → Option ℕ → Bytes → ℕ × Option ℕ
measure zero seen last_break p = (seen, last_break)
measure (suc room) seen last_break [] = (seen, last_break)
measure (suc room) seen last_break (c ∷ p) =
    let blank = if is_space c then some seen else last_break in
    let rest = measure room (seen + 1) blank p in if c == b'\n' then (seen, last_break) else rest

-- Tabs and carriage returns become spaces.
unfoldable pub normalise : Bytes → Bytes
normalise [] = []
normalise (c ∷ s) = (if c == b'\t' || c == b'\r' then b' ' else c) ∷ normalise s

unfoldable pub trim_spaces : Bytes → Bytes
trim_spaces [] = []
trim_spaces (c ∷ s) =
    let rest = trim_spaces s in if c == b' ' && length rest == 0 then [] else c ∷ rest

-- The byte behind the line is inside a word.
abbrev pub inside_word : Bytes → Bool
inside_word [] = false
inside_word (c ∷ _) = not (c == b'\n' || is_space c)

-- How many bytes the line takes: those that fit, or those before the last blank, when that is not the
-- first byte and the line would end inside a word.
unfoldable pub line_take : ℕ → Bytes → ℕ
unfolding measure
line_take max_chars p =
    let (len, last_break) = measure max_chars 0 none p in
    if inside_word (drop len p) && ltb 0 (elim last_break [ none ↦ 0 | some b ↦ b ])
    then elim last_break [ none ↦ len | some b ↦ b ]
    else len

abbrev pub skip_newline : Bytes → Bytes
skip_newline [] = []
skip_newline (c ∷ p) = if c == b'\n' then p else c ∷ p

-- The loop of `wrap_text`, with `left` lines still free: the lines, and the text that is left.
unfoldable pub wrap_loop : ℕ → ℕ → Bytes → List Bytes × Bytes
unfolding skip_spaces line_take normalise trim_spaces
wrap_loop zero max_chars p = ([], p)
wrap_loop (suc left) max_chars p =
    let q = skip_spaces p in
    let n = line_take max_chars q in
    let (empty_rest, end_of_empty) = wrap_loop left max_chars (drop 1 q) in
    let (lines, end) = wrap_loop left max_chars (skip_newline (drop n q)) in
    if length q == 0
    then ([], [])
    else if get_or q 0 0 == b'\n'
    then ([] ∷ empty_rest, end_of_empty)
    else (trim_spaces (normalise (take n q)) ∷ lines, end)

-- Whether anything but whitespace is left.
unfoldable pub has_more : Bytes → Bool
has_more [] = false
has_more (c ∷ p) = not (is_space c || c == b'\n') || has_more p

-- The last line ends in dots, cut where it is too long for them.
unfoldable pub mark_cut : ℕ → List Bytes → List Bytes
mark_cut max_chars [] = []
mark_cut max_chars (l ∷ ls) =
    let dots = if ltb max_chars 3 then max_chars else 3 in
    let kept = if ltb max_chars (length l + dots) then max_chars - dots else length l in
    let rest = mark_cut max_chars ls in
    if length ls == 0 then (take kept l ++ replicate dots b'.') ∷ [] else l ∷ rest

unfoldable pub wrap_text : Option Bytes → ℕ → ℕ → ℕ → List Bytes
unfolding wrap_loop has_more mark_cut
wrap_text none max_chars max_lines stride = []
wrap_text (some text) max_chars max_lines stride =
    let m = line_limit max_chars stride in
    let (lines, end) = wrap_loop max_lines m text in
    if ltb stride 2 || max_lines == 0 || max_chars == 0
    then []
    else if has_more end
    then mark_cut m lines
    else lines
