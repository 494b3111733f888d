-- ===== src/Button/Presses.antt =====
-- src/core/core_dispatch.h, `CoreButton`: the order of its events, and what debouncing and holding need.
use project_voyager.Prelude.{
  ℕ, ◌+◌, ◌*◌, ◌/◌, ◌≤◌, ◌<◌, ◌≡◌, refl, ◌∙◌, ◌≢◌, ◌⊎◌, inl, inr, Bool, true, false, ◌||◌, Option,
  none, some, List, [], ◌∷◌, arith, leb, if◌then◌else◌, Bool-cases, All,
}
use project_voyager.Button.{
  btn_debounce_ms, u32_mod, since, BtnEvent, BtnOutput, CoreButton, new_button, sample, edge, hold,
  settle, update, polls, idle, pressed, progress, hold_fired, short_release, long_release,
}

-- The three phases of a button, as the events show them.
pub data Phase : Type 0 where
  up down held : Phase

-- Which event may follow in a phase, and the phase then.
abbrev pub next : Phase → BtnEvent → Option Phase
next p idle = some p
next up pressed = some down
next down progress = some down
next down hold_fired = some held
next down short_release = some up
next held long_release = some up
next _ _ = none

-- A run of events, from a phase.
abbrev pub trace : Phase → List BtnOutput → Option Phase
trace p [] = some p
trace p (out ∷ outs) = elim (next p out.ev) [ none ↦ none | some q ↦ trace q outs ]

abbrev pub phase_of : Bool → Bool → Phase
phase_of false f = up
phase_of true false = down
phase_of true true = held

abbrev pub phase : CoreButton → Phase
phase b = phase_of b.stable b.fired

-- Only a held button has fired, and the percentage last shown is that of the press.
record Inv (b : CoreButton) : Type 0 where
  fired_held : (b.fired ≡ false) ⊎ (b.stable ≡ true)

record Good (b : CoreButton) (r : CoreButton × BtnOutput) : Type 0 where
  moves : next (phase b) r.1.ev ≡ some (phase r.0)
  inv : Inv r.0
  percent : r.1.pct ≤ 100
  same_hold : r.0.hold_ms ≡ b.hold_ms

edge-Good :
    (b : CoreButton) (level : Bool) (now : ℕ) → Inv b → level ≢ b.stable → Good b (edge b level now)
unfolding edge
edge-Good b true now v h = ground arith
edge-Good b false now v h = ground arith

percent-le : (h n : ℕ) → h < n → h * 100 / n ≤ 100
percent-le h n k = grind arith

hold-Good : (b : CoreButton) (now : ℕ) → b.stable ≡ true → b.fired ≡ false → Good b (hold b now)
unfolding hold
hold-Good b now s f = ground (arith, percent-le (since now b.press_start) b.hold_ms)

settle-Good : (b : CoreButton) (now : ℕ) → Inv b → Good b (settle b now)
unfolding settle
settle-Good b now v = ground (arith, edge-Good b b.raw now v, hold-Good b now)

update-Good : (b : CoreButton) (level : Bool) (now : ℕ) → Inv b → Good b (update b level now)
unfolding update sample
update-Good b level now v = let c = sample b level now in ground (arith, settle-Good c now)

polls-trace :
    (ps : List (Bool × ℕ)) (b : CoreButton)
    → Inv b
    → (trace (phase b) (polls b ps).1 ≡ some (phase (polls b ps).0))
      × All (λ out. out.pct ≤ 100) (polls b ps).1
unfolding polls
polls-trace [] b v = (refl, tt)
polls-trace ((level, now) ∷ ps) b v =
    let g = update-Good b level now v in
    let later = polls-trace ps (update b level now).0 g.inv in
    (ground (arith, g.moves, later.0), (g.percent, later.1))

-- Whatever the raw level does and whatever the clock shows, the events of a new button come in order:
-- a press, then progress, then at most one firing, then the release that tells whether it fired; and
-- no percentage exceeds 100.
pub polls_in_order :
    (hold_ms : ℕ) (ps : List (Bool × ℕ))
    → (trace up (polls (new_button hold_ms) ps).1 ≡ some (phase (polls (new_button hold_ms) ps).0))
      × All (λ out. out.pct ≤ 100) (polls (new_button hold_ms) ps).1
unfolding new_button
polls_in_order hold_ms ps = polls-trace ps (new_button hold_ms) (record { fired_held = inl refl })

-- The polls are in order of time, not before `last` and within the debounce time of `start`.
abbrev pub Within : ℕ → ℕ → List (Bool × ℕ) → Type 0
Within start last [] = Unit {0}
Within start last ((level, now) ∷ ps) =
    (last ≤ now) × (now < start + btn_debounce_ms) × Within start now ps

abbrev pub IsQuiet : BtnEvent → Type 0
IsQuiet ev = (ev ≢ pressed) × (ev ≢ short_release) × (ev ≢ long_release)

abbrev Unsettled : ℕ → ℕ → CoreButton → Type 0
Unsettled start last b = (b.raw ≡ b.stable) ⊎ ((start ≤ b.raw_since) × (b.raw_since ≤ last))

hold-IsQuiet :
    (b : CoreButton) (now : ℕ)
    → let (c, out) = hold b now in
      (c.stable ≡ b.stable) × (c.raw ≡ b.raw) × (c.raw_since ≡ b.raw_since) × IsQuiet out.ev
unfolding hold
hold-IsQuiet b now = ground arith

update_within :
    (b : CoreButton) (level : Bool) (start last now : ℕ)
    → start + btn_debounce_ms ≤ u32_mod
    → start ≤ last
    → last ≤ now
    → now < start + btn_debounce_ms
    → Unsettled start last b
    → let (c, out) = update b level now in
      (c.stable ≡ b.stable) × Unsettled start now c × IsQuiet out.ev
unfolding update sample settle
update_within b level start last now h₁ h₂ h₃ h₄ u =
    ground (arith, hold-IsQuiet b now, hold-IsQuiet (record b { raw = level; raw_since = now }) now)

polls-Within :
    (ps : List (Bool × ℕ)) (b : CoreButton) (start last : ℕ)
    → start + btn_debounce_ms ≤ u32_mod
    → start ≤ last
    → Unsettled start last b
    → Within start last ps
    → ((polls b ps).0.stable ≡ b.stable) × All (λ out. IsQuiet out.ev) (polls b ps).1
unfolding polls
polls-Within [] b start last h k u w = (refl, tt)
polls-Within ((level, now) ∷ ps) b start last h k u w =
    let one = update_within b level start last now h k w.0 w.1 u in
    let more = polls-Within ps (update b level now).0 start now h (omega arith) one.1 w.2 in
    (more.0 ∙ one.0, (one.2, more.1))

-- Bouncing is invisible: while the raw level of a settled button changes in any way for less than the
-- debounce time, by a clock that does not wrap, the debounced level stays and no press or release is
-- reported.
pub polls_bounce :
    (b : CoreButton) (start : ℕ) (ps : List (Bool × ℕ))
    → start + btn_debounce_ms ≤ u32_mod
    → b.raw ≡ b.stable
    → Within start start ps
    → ((polls b ps).0.stable ≡ b.stable) × All (λ out. IsQuiet out.ev) (polls b ps).1
polls_bounce b start ps h s w = polls-Within ps b start start h (omega arith) (inl s) w

abbrev fires : BtnEvent → ℕ
fires hold_fired = 1
fires _ = 0

-- How often the button fired.
abbrev pub firings : List BtnOutput → ℕ
firings [] = 0
firings (out ∷ outs) = fires out.ev + firings outs

-- The polls of a button that is kept pressed.
abbrev pub kept_down : List ℕ → List (Bool × ℕ)
kept_down [] = []
kept_down (now ∷ ts) = (true, now) ∷ kept_down ts

-- Whether one of the times is at least `limit` after `start`, by the wrapping clock.
abbrev pub reaches : ℕ → ℕ → List ℕ → Bool
reaches limit start [] = false
reaches limit start (now ∷ ts) = leb limit (since now start) || reaches limit start ts

polls_fired :
    (ts : List ℕ) (b : CoreButton)
    → b.stable ≡ true
    → b.raw ≡ true
    → b.fired ≡ true
    → firings (polls b (kept_down ts)).1 ≡ 0
unfolding polls update sample settle
polls_fired [] b s r f = refl
polls_fired (now ∷ ts) b s r f = ground (arith, polls_fired ts b s r f)

update_down :
    (b : CoreButton) (now : ℕ)
    → b.stable ≡ true
    → b.raw ≡ true
    → b.fired ≡ false
    → let (c, out) = update b true now in
      let late = leb b.hold_ms (since now b.press_start) in
      (c.stable ≡ true)
      × (c.raw ≡ true)
      × (c.fired ≡ late)
      × (c.press_start ≡ b.press_start)
      × (c.hold_ms ≡ b.hold_ms)
      × (fires out.ev ≡ (if late then 1 else 0))
unfolding update sample settle hold
update_down b now s r f = ground arith

-- A pressed button that has not fired and is kept pressed fires exactly once if some poll comes its hold time after the press,
-- and else never, wrapping of the clock included.
pub polls_hold :
    (ts : List ℕ) (b : CoreButton)
    → b.stable ≡ true
    → b.raw ≡ true
    → b.fired ≡ false
    → firings (polls b (kept_down ts)).1 ≡ (if reaches b.hold_ms b.press_start ts then 1 else 0)
unfolding polls
polls_hold [] b s r f = refl
polls_hold (now ∷ ts) b s r f =
    let c = (update b true now).0 in
    let (e₁, e₂, e₃, e₄, e₅, e₆) = update_down b now s r f in
    elim (Bool-cases (leb b.hold_ms (since now b.press_start))) [
      | inl late ↦ ground (arith, polls_fired ts c e₁ e₂, e₃, e₆)
      | inr early ↦ ground (arith, polls_hold ts c e₁ e₂, e₃, e₄, e₅, e₆)
    ]
