-- ===== src/Oled/Sleep/Laws.antt =====
-- src/display/oled_layout.h, sleep and wake: what a press means depends on whether the screen was on.
use project_voyager.Prelude.{
  ℕ, ◌≡◌, Bool, true, false, not, ◌&&◌, ◌||◌, List, [], ◌∷◌, arith, leb, ◌==◌, if◌then◌else◌,
}
use project_voyager.Oled.Sleep.{
  since, sleep_timeout_ms, hold_wake_window_ms, SleepState, act_none, act_wake, act_screen_off,
  act_next_page, act_btn1, sleep_button, sleep_wake, sleep_wake_progress, sleep_tick,
}

-- A press with the screen off only ever wakes it.
pub sleep_button_off :
    (s : SleepState) (btn now : ℕ) (long_press : Bool)
    → s.on ≡ false
    → ((sleep_button s btn long_press now).1 ≡ act_wake)
      × ((sleep_button s btn long_press now).0.on ≡ true)
      × ((sleep_button s btn long_press now).0.last_activity ≡ now)
unfolding sleep_button
sleep_button_off s btn now long_press h = ground arith

-- What a press does with the screen on and no pending wake by a progress bar: exactly the long press
-- of button 2 turns the screen off, a short one of button 2 turns the page, a short one of button 1
-- is the page's, and anything else means nothing; the idle timer restarts on every branch.
pub sleep_button_on :
    (s : SleepState) (btn now : ℕ) (long_press : Bool)
    → s.on ≡ true
    → s.hold_wake ≡ false
    → let (t, act) = sleep_button s btn long_press now in
      (act ≡ (
        if btn == 2
        then (if long_press then act_screen_off else act_next_page)
        else if btn == 1 && not long_press
        then act_btn1
        else act_none))
      × (t.on ≡ not (btn == 2 && long_press))
      × (t.last_activity ≡ now)
      × (t.hold_wake ≡ false)
unfolding sleep_button
sleep_button_on s btn now long_press h k = ground arith

-- What happens to the screen: a press, a progress bar, another reason to wake, and the periodic check.
pub data ScreenEvent : Type 0 where
  button : ℕ → Bool → ScreenEvent
  progress : ScreenEvent
  wake : ScreenEvent
  tick : ScreenEvent

unfoldable pub screen_step : SleepState → ScreenEvent → ℕ → SleepState
unfolding sleep_button sleep_wake sleep_wake_progress sleep_tick
screen_step s (button btn long_press) now = (sleep_button s btn long_press now).0
screen_step s progress now = (sleep_wake_progress s now).0
screen_step s wake now = (sleep_wake s now).0
screen_step s tick now = (sleep_tick s now sleep_timeout_ms).0

-- An event that counts as activity: anything but the check and the press that turns the screen off.
abbrev pub is_activity : ScreenEvent → Bool
is_activity (button btn long_press) = not (btn == 2 && long_press)
is_activity progress = true
is_activity wake = true
is_activity tick = false

-- Checks at these times.
unfoldable pub ticks : SleepState → List ℕ → SleepState
unfolding screen_step
ticks s [] = s
ticks s (now ∷ ts) = ticks (screen_step s tick now) ts

abbrev pub times_out : ℕ → List ℕ → Bool
times_out start [] = false
times_out start (now ∷ ts) = leb sleep_timeout_ms (since now start) || times_out start ts

ticks_off : (ts : List ℕ) (s : SleepState) → s.on ≡ false → (ticks s ts).on ≡ false
unfolding ticks
ticks_off [] s h = h
ticks_off (now ∷ ts) s h = ground (arith, ticks_off ts (screen_step s tick now))

ticks_on :
    (ts : List ℕ) (s : SleepState)
    → s.on ≡ true
    → (ticks s ts).on ≡ not (times_out s.last_activity ts)
unfolding ticks
ticks_on [] s h = h
ticks_on (now ∷ ts) s h =
    ground (arith, ticks_on ts (screen_step s tick now), ticks_off ts (screen_step s tick now))

-- After any activity at time `at` the screen is on, and through the checks that follow it stays on
-- exactly until one of them comes a minute after that time, by the wrapping clock.
pub ticks_after_activity :
    (s : SleepState) (e : ScreenEvent) (at : ℕ) (ts : List ℕ)
    → is_activity e ≡ true
    → (ticks (screen_step s e at) ts).on ≡ not (times_out at ts)
unfolding screen_step
ticks_after_activity s (button btn long_press) at ts h =
    ground (arith, ticks_on ts (screen_step s (button btn long_press) at))
ticks_after_activity s progress at ts h = ground (arith, ticks_on ts (screen_step s progress at))
ticks_after_activity s wake at ts h = ground (arith, ticks_on ts (screen_step s wake at))
ticks_after_activity s tick at ts h = cc

-- With no such release awaited before, the short release of button 1 behind a progress bar that woke the screen is the waking press itself,
-- if it comes within the window; without that wake, or later, it is the page's.
pub sleep_button_after_progress :
    (s : SleepState) (at now : ℕ)
    → s.hold_wake ≡ false
    → (sleep_button (sleep_wake_progress s at).0 1 false now).1
      ≡ (if not s.on && leb (since now at) hold_wake_window_ms then act_wake else act_btn1)
unfolding sleep_button sleep_wake_progress
sleep_button_after_progress s at now h = ground arith
