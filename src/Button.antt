-- ===== src/Button.antt =====
-- src/core/core_dispatch.h, `CoreButton`: debouncing and hold detection of one button.
pub mod Presses
use project_voyager.Prelude.{
  ℕ, zero, suc, ◌+◌, ◌-◌, ◌*◌, ◌/◌, ◌%◌, ◌^◌, ◌≤◌, ◌<◌, ◌≡◌, refl, sym, ap, ◌∙◌, ◌≢◌, ◌↔◌, ◌⊎◌, inl,
  inr, Bool, true, false, not, ◌&&◌, ◌||◌, Option, none, some, List, [], ◌∷◌, ◌++◌, map,
  append_assoc, append-nil, arith, ltb, leb, ◌==◌, ◌!=◌, if◌then◌else◌, is_some, ==_iff, Bool-cases,
  Option-cases, Bytes, codes, length, get_elem?, get_or, set, take, drop, replicate, All,
  length-append, take-length-append, drop-length-append, length-set, length-take, get_or-set_self,
  get_or-set_ne, IsByte, str_eq, str_eq_iff, str_eq_refl,
}

abbrev pub btn_debounce_ms : ℕ
btn_debounce_ms = 30

abbrev pub u32_mod : ℕ
u32_mod = 2 ^ 32

-- A difference of two `uint32_t` times.
abbrev pub since : ℕ → ℕ → ℕ
since now start = (now + u32_mod - start) % u32_mod

pub data BtnEvent : Type 0 where
  idle pressed progress hold_fired short_release long_release : BtnEvent

pub record BtnOutput : Type 0 where
  pub ev : BtnEvent
  pub pct : ℕ

pub record CoreButton : Type 0 where
  pub hold_ms : ℕ
  pub raw : Bool
  pub raw_since : ℕ
  pub stable : Bool
  pub press_start : ℕ
  pub fired : Bool
  pub last_pct : ℕ

unfoldable pub new_button : ℕ → CoreButton
new_button hold = record {
  hold_ms = hold;
  raw = false;
  raw_since = 0;
  stable = false;
  press_start = 0;
  fired = false;
  last_pct = 255;
}

abbrev pub bool_eq : Bool → Bool → Bool
bool_eq true b = b
bool_eq false b = not b

-- The first test of `update`: a change of the raw level restarts the debounce clock.
unfoldable pub sample : CoreButton → Bool → ℕ → CoreButton
sample b level now = if bool_eq level b.raw then b else record b { raw = level; raw_since = now }

-- The debounced level becomes `level`.
unfoldable pub edge : CoreButton → Bool → ℕ → CoreButton × BtnOutput
edge b true now = (
  record b { stable = true; press_start = now; fired = false; last_pct = 0 },
  record { ev = pressed; pct = 0 },
)
edge b false now = (
  record b { stable = false; fired = false; last_pct = 255 },
  record { ev = if b.fired then long_release else short_release; pct = 0 },
)

-- The last part of `update`: the button is held.
unfoldable pub hold : CoreButton → ℕ → CoreButton × BtnOutput
hold b now =
    let held = since now b.press_start in
    let pct = held * 100 / b.hold_ms % 256 in
    if leb b.hold_ms held
    then (record b { fired = true }, record { ev = hold_fired; pct = 100 })
    else if pct != b.last_pct
    then (record b { last_pct = pct }, record { ev = progress; pct = pct })
    else (b, record { ev = idle; pct = 0 })

unfoldable pub settle : CoreButton → ℕ → CoreButton × BtnOutput
unfolding edge hold
settle b now =
    if not (bool_eq b.raw b.stable) && leb btn_debounce_ms (since now b.raw_since)
    then edge b b.raw now
    else if b.stable && not b.fired
    then hold b now
    else (b, record { ev = idle; pct = 0 })

unfoldable pub update : CoreButton → Bool → ℕ → CoreButton × BtnOutput
unfolding sample settle
update b level now = settle (sample b level now) now

-- A run of polls, each a raw level and a time, with the outputs.
unfoldable pub polls : CoreButton → List (Bool × ℕ) → CoreButton × List BtnOutput
unfolding update
polls b [] = (b, [])
polls b ((level, now) ∷ ps) =
    let (b', out) = update b level now in let (last, outs) = polls b' ps in (last, out ∷ outs)
