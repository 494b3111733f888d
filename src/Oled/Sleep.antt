-- ===== src/Oled/Sleep.antt =====
-- src/display/oled_layout.h, the machine that turns the screen off and on.
pub mod Laws
use project_voyager.Prelude.{
  ℕ, zero, suc, ◌+◌, ◌-◌, ◌*◌, ◌/◌, ◌%◌, ◌^◌, ◌≤◌, ◌<◌, ◌≡◌, refl, sym, ap, ◌∙◌, ◌≢◌, ◌↔◌, ◌⊎◌, inl,
  inr, Bool, true, false, not, ◌&&◌, ◌||◌, Option, none, some, List, [], ◌∷◌, ◌++◌, map,
  append_assoc, append-nil, arith, ltb, leb, ◌==◌, ◌!=◌, if◌then◌else◌, is_some, ==_iff, Bool-cases,
  Option-cases, Bytes, codes, length, get_elem?, get_or, set, take, drop, replicate, All,
  length-append, take-length-append, drop-length-append, length-set, length-take, get_or-set_self,
  get_or-set_ne, IsByte, str_eq, str_eq_iff, str_eq_refl,
}

abbrev pub u32_mod : ℕ
u32_mod = 2 ^ 32

abbrev pub since : ℕ → ℕ → ℕ
since now start = (now + u32_mod - start) % u32_mod

abbrev pub sleep_timeout_ms : ℕ
sleep_timeout_ms = 60000

abbrev pub hold_wake_window_ms : ℕ
hold_wake_window_ms = 2500

pub record SleepState : Type 0 where
  pub on : Bool
  pub last_activity : ℕ
  pub hold_wake : Bool
  pub hold_wake_at : ℕ

unfoldable pub sleep_init : ℕ → SleepState
sleep_init now = record { on = true; last_activity = now; hold_wake = false; hold_wake_at = 0 }

pub data ButtonAction : Type 0 where
  act_none act_wake act_screen_off act_next_page act_btn1 : ButtonAction

unfoldable pub sleep_button : SleepState → ℕ → Bool → ℕ → SleepState × ButtonAction
sleep_button s btn long_press now =
    let hold_woke =
      s.hold_wake
      && btn == 1
      && not long_press
      && leb (since now s.hold_wake_at) hold_wake_window_ms in
    let s' = record s { hold_wake = false; last_activity = now } in
    if hold_woke
    then (record s' { on = true }, act_wake)
    else if btn == 2 && long_press
    then (record s' { on = not s'.on }, if not s'.on then act_wake else act_screen_off)
    else if not s'.on
    then (record s' { on = true }, act_wake)
    else if btn == 2
    then (s', act_next_page)
    else if btn == 1 && not long_press
    then (s', act_btn1)
    else (s', act_none)

unfoldable pub sleep_wake : SleepState → ℕ → SleepState × Bool
sleep_wake s now = (record s { on = true; last_activity = now }, not s.on)

unfoldable pub sleep_wake_progress : SleepState → ℕ → SleepState × Bool
unfolding sleep_wake
sleep_wake_progress s now =
    let (s', was_off) = sleep_wake s now in
    (if was_off then record s' { hold_wake = true; hold_wake_at = now } else s', was_off)

unfoldable pub sleep_tick : SleepState → ℕ → ℕ → SleepState × Bool
sleep_tick s now timeout =
    if not s.on
    then (s, false)
    else if leb timeout (since now s.last_activity)
    then (record s { on = false }, true)
    else (s, false)
