-- ===== src/Tests/Board.antt =====
-- Runs of the button, and of the WiFi helpers.
use mathlib.Core.List.{Perm}
use project_voyager.Prelude.{
  ◌≤◌, ◌≡◌, refl, ◌⊎◌, true, false, some, List, [], ◌∷◌, arith, if◌then◌else◌, Bytes, codes,
  replicate, All,
}
use project_voyager.Prelude.Int.{pos, negsuc}
use project_voyager.Button.{CoreButton, new_button, polls}
use project_voyager.Button.Presses.{
  trace, phase, polls_in_order, firings, kept_down, reaches, polls_hold, up,
}
use project_voyager.Wifi.Scan.{WifiScanEntry, wifi_scan_merge, wifi_scan_sort}
use project_voyager.Wifi.Scan.Laws.{Inv, wifi_scan_merge-Inv}
use project_voyager.Wifi.Scan.Sorting.{Falling, wifi_scan_sort_lem}
use project_voyager.Wifi.Select.{WifiApInfo, new_selector, set_avoid, pick, add_all}
use project_voyager.Wifi.Select.Strongest.{wanted, preferred, IsStrongest, pick-add_all}

-- A button pressed at time 100.
abbrev down : CoreButton
down = record {
  hold_ms = 1000;
  raw = true;
  raw_since = 60;
  stable = true;
  press_start = 100;
  fired = false;
  last_pct = 0;
}

abbrev seen : List WifiScanEntry
seen =
    record { ssid = codes "home"; rssi = negsuc 60 }
    ∷ record { ssid = codes "away"; rssi = negsuc 40 }
    ∷ []

empty-Inv : Inv [] 2
empty-Inv = ground arith

abbrev mac : Bytes
mac = 0x24 ∷ 0x6F ∷ 0x28 ∷ 1 ∷ 2 ∷ 3 ∷ []

-- Two nodes of one network, the stronger one to be avoided.
abbrev nodes : List WifiApInfo
nodes =
    record { ssid = some (codes "home"); rssi = negsuc 40; bssid = mac; channel = pos 6 }
    ∷ record {
      ssid = some (codes "home");
      rssi = negsuc 70;
      bssid = replicate 6 1;
      channel = pos 1;
    }
    ∷ []

polls_in_order_example :
    (trace up
        (polls
          (new_button 1000)
          ((true, 5) ∷ (true, 40) ∷ (true, 1100) ∷ (false, 1200) ∷ (false, 1300) ∷ [])).1
      ≡ some (
          phase
            (polls
              (new_button 1000)
              ((true, 5) ∷ (true, 40) ∷ (true, 1100) ∷ (false, 1200) ∷ (false, 1300) ∷ [])).0))
    × All
        (λ out. out.pct ≤ 100)
        (polls
          (new_button 1000)
          ((true, 5) ∷ (true, 40) ∷ (true, 1100) ∷ (false, 1200) ∷ (false, 1300) ∷ [])).1
polls_in_order_example =
    polls_in_order 1000 ((true, 5) ∷ (true, 40) ∷ (true, 1100) ∷ (false, 1200) ∷ (false, 1300) ∷ [])

polls_hold_example :
    firings (polls down (kept_down (500 ∷ 1100 ∷ 1200 ∷ []))).1
    ≡ (if reaches down.hold_ms down.press_start (500 ∷ 1100 ∷ 1200 ∷ []) then 1 else 0)
polls_hold_example = polls_hold (500 ∷ 1100 ∷ 1200 ∷ []) down refl refl refl

wifi_scan_merge-Inv_example : Inv (wifi_scan_merge [] 2 (some (codes "home")) (negsuc 60)) 2
wifi_scan_merge-Inv_example = wifi_scan_merge-Inv [] 2 (some (codes "home")) (negsuc 60) empty-Inv

wifi_scan_sort_lem_example : Falling (wifi_scan_sort seen) × Perm (wifi_scan_sort seen) seen
wifi_scan_sort_lem_example = wifi_scan_sort_lem seen

pick-add_all_example :
    let best = pick (add_all (set_avoid new_selector (some mac)) (some (codes "home")) nodes) in
    ((best.valid ≡ true) × IsStrongest (preferred (some (codes "home")) (some mac)) nodes best)
    ⊎ (All (λ a. preferred (some (codes "home")) (some mac) a ≡ false) nodes
        × IsStrongest (wanted (some (codes "home"))) nodes best)
pick-add_all_example = pick-add_all nodes (some (codes "home")) (some mac)
