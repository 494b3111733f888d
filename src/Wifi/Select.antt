-- ===== src/Wifi/Select.antt =====
-- src/wifi/wifi_config.h, several access points with one name: which one to join, and when to roam. A null
-- pointer is `none`; a BSSID is its six bytes.
pub mod Strongest
use project_voyager.Prelude.{
  ℕ, ◌+◌, Bool, true, false, not, ◌&&◌, ◌||◌, Option, none, some, List, [], ◌∷◌, leb, ◌==◌,
  if◌then◌else◌, is_some, Bytes, length, replicate, str_eq,
}
use project_voyager.Prelude.Int.{ℤ, pos, negsuc, ltb_ℤ, leb_ℤ, ◌-ℤ◌}
use project_voyager.Wifi.Scan.{rssi_min, clamp_rssi}

pub record WifiApCandidate : Type 0 where
  pub valid : Bool
  pub rssi : ℤ
  pub channel : ℕ
  pub bssid : Bytes

abbrev pub no_candidate : WifiApCandidate
no_candidate = record { valid = false; rssi = rssi_min; channel = 0; bssid = replicate 6 0 }

pub record WifiApInfo : Type 0 where
  pub ssid : Option Bytes
  pub rssi : ℤ
  pub bssid : Bytes
  pub channel : ℤ

abbrev pub is_channel : ℤ → Bool
is_channel channel = not (ltb_ℤ channel (pos 1) || ltb_ℤ (pos 14) channel)

abbrev pub number_of : ℤ → ℕ
number_of (pos n) = n
number_of (negsuc n) = 0

-- The first two tests: both names are there, they agree and are not empty.
unfoldable pub same_name : Option Bytes → Option Bytes → Bool
same_name (some want) (some ssid) = not (length want == 0) && str_eq want ssid
same_name _ _ = false

-- The new `best`, and whether it changed.
unfoldable pub wifi_consider_ap :
    WifiApCandidate → Option Bytes → Option Bytes → ℤ → Option Bytes → ℤ → WifiApCandidate × Bool
unfolding same_name clamp_rssi
wifi_consider_ap best want_ssid ssid rssi none channel = (best, false)
wifi_consider_ap best want_ssid ssid rssi (some bssid) channel =
    let r = clamp_rssi rssi in
    if not (same_name want_ssid ssid) || not (is_channel channel)
    then (best, false)
    else if best.valid && leb_ℤ r best.rssi
    then (best, false)
    else (record { valid = true; rssi = r; channel = number_of channel; bssid = bssid }, true)

-- `avoid` is `none` when `has_avoid` is false. `matches` counts in an `int`, without overflow.
pub record WifiApSelector : Type 0 where
  pub any : WifiApCandidate
  pub other : WifiApCandidate
  pub avoid : Option Bytes
  pub matches : ℕ

abbrev pub new_selector : WifiApSelector
new_selector = record { any = no_candidate; other = no_candidate; avoid = none; matches = 0 }

unfoldable pub set_avoid : WifiApSelector → Option Bytes → WifiApSelector
set_avoid s b = record s { avoid = b }

abbrev pub is_avoided : Option Bytes → Option Bytes → Bool
is_avoided (some avoid) (some bssid) = str_eq bssid avoid
is_avoided _ _ = false

abbrev pub names_agree : Option Bytes → Option Bytes → Bool
names_agree (some want) (some ssid) = str_eq want ssid
names_agree _ _ = false

unfoldable pub add :
    WifiApSelector → Option Bytes → Option Bytes → ℤ → Option Bytes → ℤ → WifiApSelector
unfolding wifi_consider_ap
add s want_ssid ssid rssi bssid channel =
    let all = (wifi_consider_ap s.any want_ssid ssid rssi bssid channel).0 in
    let rest = (wifi_consider_ap s.other want_ssid ssid rssi bssid channel).0 in
    if not (names_agree want_ssid ssid) then s else record s {
      any = all;
      other = if is_avoided s.avoid bssid then s.other else rest;
      matches = s.matches + 1;
    }

unfoldable pub pick : WifiApSelector → WifiApCandidate
pick s = if s.other.valid then s.other else s.any

unfoldable pub only_avoided : WifiApSelector → Bool
only_avoided s = is_some s.avoid && s.any.valid && not s.other.valid

-- The first loop of `wifi_pick_strongest`.
unfoldable pub add_all : WifiApSelector → Option Bytes → List WifiApInfo → WifiApSelector
unfolding add
add_all s want_ssid [] = s
add_all s want_ssid (a ∷ list) =
    add_all (add s want_ssid a.ssid a.rssi (some a.bssid) a.channel) want_ssid list

abbrev pub eq_ℤ : ℤ → ℤ → Bool
eq_ℤ a b = leb_ℤ a b && leb_ℤ b a

-- The second loop: the index, counted from `i`, of the first entry that agrees with the candidate.
unfoldable pub index_of : ℕ → WifiApCandidate → List WifiApInfo → Option ℕ
index_of i p [] = none
index_of i p (a ∷ list) =
    let later = index_of (i + 1) p list in
    if str_eq a.bssid p.bssid && eq_ℤ a.rssi p.rssi && eq_ℤ a.channel (pos p.channel)
    then some i
    else later

-- `none` is the result -1.
unfoldable pub wifi_pick_strongest : List WifiApInfo → Option Bytes → Option Bytes → Option ℕ
unfolding add_all set_avoid pick index_of
wifi_pick_strongest list want_ssid avoid =
    let p = pick (add_all (set_avoid new_selector avoid) want_ssid list) in
    if not p.valid then none else index_of 0 p list

unfoldable pub wifi_roam_check_due : ℤ → ℕ → ℕ → Bool
wifi_roam_check_due cur_rssi ms_connected ms_since_check =
    not (leb_ℤ (pos 0) cur_rssi || ltb_ℤ (negsuc 49) cur_rssi)
    && leb 60000 ms_connected
    && leb 300000 ms_since_check

unfoldable pub wifi_should_roam : ℤ → WifiApCandidate → Option Bytes → ℤ → Bool
wifi_should_roam cur_rssi best cur_bssid min_gain_db =
    if not best.valid || leb_ℤ (pos 0) cur_rssi || ltb_ℤ cur_rssi rssi_min
    then false
    else if is_avoided cur_bssid (some best.bssid)
    then false
    else leb_ℤ min_gain_db (best.rssi -ℤ cur_rssi)
