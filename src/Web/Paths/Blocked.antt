-- ===== src/Web/Paths/Blocked.antt =====
-- src/web/web_validate.h, `path_is_blocked`: exactly the paths under /config and those with a `..`.
use project_voyager.Prelude.{
  ℕ, zero, suc, ◌+◌, ◌≤◌, ◌<◌, ◌≡◌, refl, ◌⊎◌, inl, inr, Bool, true, false, ◌&&◌, ◌||◌, Option,
  some, List, [], ◌∷◌, arith, ◌==◌, if◌then◌else◌, Bool-cases, Bytes, length, str_eq, str_eq_empty,
}
use project_voyager.Web.Paths.{
  is_sep, skip_seps, take_segment, dot, dot_dot, is_config, starts_query, blocked_loop,
  path_is_blocked,
}

-- The pieces of a path between separators, up to its query string: the first one, which may be
-- empty, and the others.
abbrev split : Bytes → Bytes × List Bytes
split [] = ([], [])
split (c ∷ p) =
    if c == b'?'
    then ([], [])
    else if is_sep c
    then ([], (split p).0 ∷ (split p).1)
    else (c ∷ (split p).0, (split p).1)

-- Whether the pieces name something that is never served: a `..`, or `config` in any case as the first
-- piece that is neither empty nor a dot.
abbrev forbidden : Bool → List Bytes → Bool
forbidden first_real [] = false
forbidden first_real (s ∷ rest) =
    if length s == 0 || str_eq s dot
    then forbidden first_real rest
    else str_eq s dot_dot || first_real && is_config s || forbidden false rest

abbrev pub is_forbidden : Bytes → Bool
is_forbidden url = forbidden true ((split url).0 ∷ (split url).1)

abbrev pieces : Bytes → List Bytes
pieces p = (split p).0 ∷ (split p).1

skip-forbidden :
    (p : Bytes) (first_real : Bool)
    → forbidden first_real (pieces (skip_seps p)) ≡ forbidden first_real (pieces p)
unfolding skip_seps
skip-forbidden [] first_real = refl
skip-forbidden (c ∷ p) first_real = ground (arith, skip-forbidden p first_real)

length-skip : (p : Bytes) → length (skip_seps p) ≤ length p
unfolding skip_seps
length-skip [] = omega arith
length-skip (c ∷ p) = ground (arith, length-skip p)

skip_stops : (p q : Bytes) (c : ℕ) → skip_seps p ≡ c ∷ q → is_sep c ≡ false
unfolding skip_seps
skip_stops [] q c h = cc
skip_stops (d ∷ p) q c h = ground (arith, skip_stops p q c)

-- What follows a segment: nothing, a separator or the query string.
abbrev others : Bytes → List Bytes
others [] = []
others (c ∷ p) = if c == b'?' then [] else pieces p

record Piece (p : Bytes) : Type 0 where
  head_is : (split p).0 ≡ (take_segment p).0
  rest_is : (split p).1 ≡ others (take_segment p).1
  size : length p ≡ length (take_segment p).0 + length (take_segment p).1
  stops :
      ((take_segment p).1 ≡ [])
      ⊎ ((c : ℕ) × (r : Bytes) × ((take_segment p).1 ≡ c ∷ r) × ((is_sep c || c == b'?') ≡ true))

take_segment-Piece : (p : Bytes) → Piece p
unfolding take_segment
take_segment-Piece [] = record {
  head_is = refl;
  rest_is = refl;
  size = omega arith;
  stops = inl refl;
}
take_segment-Piece (c ∷ p) = elim (Bool-cases (is_sep c || c == b'?')) [
  | inl stop ↦ record {
    head_is = ground arith;
    rest_is = ground arith;
    size = ground arith;
    stops = inr (c, p, ground arith, stop);
  }
  | inr more ↦
      let s = take_segment-Piece p in
      record {
        head_is = ground (arith, s.head_is);
        rest_is = ground (arith, s.rest_is);
        size = ground (arith, s.size);
        stops = rw more s.stops;
      }
]

others-forbidden :
    (rest : Bytes) (first_real : Bool)
    → (rest ≡ []) ⊎ ((c : ℕ) × (r : Bytes) × (rest ≡ c ∷ r) × ((is_sep c || c == b'?') ≡ true))
    → forbidden first_real (pieces rest) ≡ forbidden first_real (others rest)
others-forbidden [] first_real s = refl
others-forbidden (c ∷ r) first_real (inl e) = cc
others-forbidden (c ∷ r) first_real (inr (d, q, e, t)) = ground arith

abbrev decided : Bool → Bytes → Bytes → Option Bool → Option Bool → Option Bool
decided first_real s rest same next =
    if str_eq s dot
    then same
    else if str_eq s dot_dot
    then some true
    else if first_real && is_config s
    then some true
    else if starts_query rest
    then some false
    else next

blocked_loop_step :
    (f c : ℕ) (p q : Bytes) (first_real : Bool)
    → skip_seps p ≡ c ∷ q
    → blocked_loop (suc f) first_real p
      ≡ decided first_real
          (take_segment (c ∷ q)).0
          (take_segment (c ∷ q)).1
          (blocked_loop f first_real (take_segment (c ∷ q)).1)
          (blocked_loop f false (take_segment (c ∷ q)).1)
unfolding blocked_loop
blocked_loop_step f c p q first_real e = ground (arith, e)

decided_right :
    (first_real : Bool) (s rest : Bytes)
    → (rest ≡ []) ⊎ ((c : ℕ) × (r : Bytes) × (rest ≡ c ∷ r) × ((is_sep c || c == b'?') ≡ true))
    → (length s ≡ 0 → starts_query rest ≡ true)
    → decided first_real s rest
        (some (forbidden first_real (pieces rest)))
        (some (forbidden false (pieces rest)))
      ≡ some (forbidden first_real (s ∷ others rest))
decided_right first_real [] rest stops empty =
    ground (arith, str_eq_empty b'.' [], str_eq_empty b'.' dot, empty refl)
decided_right first_real (c ∷ s) rest stops empty =
    ground (arith, others-forbidden rest first_real stops, others-forbidden rest false stops, stops)

decided_query :
    (first_real : Bool) (rest : Bytes) (same next : Option Bool)
    → starts_query rest ≡ true
    → decided first_real [] rest same next ≡ some (forbidden first_real ([] ∷ others rest))
decided_query first_real [] same next q =
    ground (arith, str_eq_empty b'.' [], str_eq_empty b'.' dot)
decided_query first_real (c ∷ rest) same next q =
    ground (arith, str_eq_empty b'.' [], str_eq_empty b'.' dot)

-- A segment that is empty, after the separators, is followed by the query string.
empty_segment :
    (c : ℕ) (q : Bytes)
    → is_sep c ≡ false
    → length (take_segment (c ∷ q)).0 ≡ 0
    → starts_query (take_segment (c ∷ q)).1 ≡ true
unfolding take_segment
empty_segment c q h e = ground arith

list_cases : (p : Bytes) → (p ≡ []) ⊎ ((c : ℕ) × (q : Bytes) × (p ≡ c ∷ q))
list_cases [] = inl refl
list_cases (c ∷ q) = inr (c, q, refl)

segment_right :
    (f : ℕ) (first_real : Bool) (s rest : Bytes)
    → ((rest ≡ []) ⊎ ((c : ℕ) × (r : Bytes) × (rest ≡ c ∷ r) × ((is_sep c || c == b'?') ≡ true)))
    → (length s ≡ 0 → starts_query rest ≡ true)
    → length s + length rest ≤ f
    → ((fr : Bool) → length rest < f → blocked_loop f fr rest ≡ some (forbidden fr (pieces rest)))
    → decided first_real s rest (blocked_loop f first_real rest) (blocked_loop f false rest)
      ≡ some (forbidden first_real (s ∷ others rest))
segment_right f first_real [] rest stops empty size ih =
    decided_query first_real rest (blocked_loop f first_real rest) (blocked_loop f false rest)
      (empty refl)
segment_right f first_real (c ∷ s) rest stops empty size ih =
    rw (ih first_real (omega arith), ih false (omega arith))
      (decided_right first_real (c ∷ s) rest stops empty)

loop_done :
    (f : ℕ) (first_real : Bool) (p : Bytes)
    → skip_seps p ≡ []
    → blocked_loop (suc f) first_real p ≡ some (forbidden first_real (pieces p))
unfolding blocked_loop
loop_done f first_real p e = ground (arith, e, skip-forbidden p first_real)

loop_right :
    (f : ℕ) (first_real : Bool) (p : Bytes)
    → length p < f
    → blocked_loop f first_real p ≡ some (forbidden first_real (pieces p))
loop_right zero first_real p h = ground arith
loop_right (suc f) first_real p h = elim (list_cases (skip_seps p)) [
  | inl none_left ↦ loop_done f first_real p none_left
  | inr (c, q, e) ↦
      let seg = take_segment-Piece (c ∷ q) in
      let same =
        segment_right f first_real (take_segment (c ∷ q)).0 (take_segment (c ∷ q)).1 seg.stops
          (empty_segment c q (skip_stops p q c e)) (ground (arith, seg.size, length-skip p, e))
          (λ fr. loop_right f fr (take_segment (c ∷ q)).1) in
      rw
        (
          blocked_loop_step f c p q first_real e,
          same,
          ← skip-forbidden p first_real,
          e,
          seg.head_is,
          seg.rest_is,
        )
        refl
]

-- `path_is_blocked` always answers, and its answer is that of the pieces of the path: it blocks exactly
-- the paths that have a `..` piece, or whose first piece that is neither empty nor `.` is `config` in
-- any case; what follows the first `?` plays no part.
pub path_is_blocked_lem : (url : Bytes) → path_is_blocked (some url) ≡ some (is_forbidden url)
unfolding path_is_blocked
path_is_blocked_lem url = loop_right (length url + 2) true url (omega arith)
