-- ===== src/Wifi/Scan.antt =====
-- src/wifi/wifi_config.h, the merging and sorting of scan results.
pub mod Laws
pub mod Sorting
use mathlib.Core.List.{reverse}
use project_voyager.Prelude.{
  ℕ, zero, suc, ◌+◌, ◌-◌, ◌*◌, ◌/◌, ◌%◌, ◌^◌, ◌≤◌, ◌<◌, ◌≡◌, refl, sym, ap, ◌∙◌, ◌≢◌, ◌↔◌, ◌⊎◌, inl,
  inr, Bool, true, false, not, ◌&&◌, ◌||◌, Option, none, some, List, [], ◌∷◌, ◌++◌, map,
  append_assoc, append-nil, arith, ltb, leb, ◌==◌, ◌!=◌, if◌then◌else◌, is_some, ==_iff, Bool-cases,
  Option-cases, Bytes, codes, length, get_elem?, get_or, set, take, drop, replicate, All,
  length-append, take-length-append, drop-length-append, length-set, length-take, get_or-set_self,
  get_or-set_ne, IsByte, str_eq, str_eq_iff, str_eq_refl,
}
use project_voyager.Prelude.Int.{ℤ, pos, negsuc, ltb_ℤ, leb_ℤ}
use project_voyager.Wifi.Valid.{
  wifi_printable_ascii, no_control, wifi_valid_ssid, wifi_valid_sta_pass, wifi_valid_ap_pass,
  wifi_valid_ap_pass_setting,
}

pub record WifiScanEntry : Type 0 where
  pub ssid : Bytes
  pub rssi : ℤ

-- -128, the least value of an `int8_t`.
abbrev pub rssi_min : ℤ
rssi_min = negsuc 127

unfoldable pub clamp_rssi : ℤ → ℤ
clamp_rssi rssi =
    let low = if ltb_ℤ rssi rssi_min then rssi_min else rssi in
    if ltb_ℤ (pos 0) low then pos 0 else low

-- The first loop of `wifi_scan_merge`: the entry with the same name keeps the stronger reading.
unfoldable pub merge_same : List WifiScanEntry → Bytes → ℤ → Option (List WifiScanEntry)
merge_same [] ssid rssi = none
merge_same (e ∷ es) ssid rssi =
    let later : Option (List WifiScanEntry) = elim (merge_same es ssid rssi) [
      | none ↦ none
      | some fs ↦ some (e ∷ fs)
    ] in
    if str_eq e.ssid ssid
    then some ((if ltb_ℤ e.rssi rssi then record e { rssi = rssi } else e) ∷ es)
    else later

-- The second loop: the slot of the weakest reading so far, that reading, and the index `i`.
unfoldable pub weakest_loop : List WifiScanEntry → ℕ → ℤ → ℕ → ℕ
weakest_loop [] slot weakest i = slot
weakest_loop (e ∷ es) slot weakest i =
    let less = ltb_ℤ e.rssi weakest in
    weakest_loop es (if less then i else slot) (if less then e.rssi else weakest) (i + 1)

unfoldable pub weakest_slot : List WifiScanEntry → ℕ
unfolding weakest_loop
weakest_slot [] = 0
weakest_slot (e ∷ es) = weakest_loop es 0 e.rssi 1

abbrev pub no_entry : WifiScanEntry
no_entry = record { ssid = []; rssi = pos 0 }

-- The behaviour for a name that is not in the list. `strncpy` copies 32 bytes at most.
unfoldable pub merge_new : List WifiScanEntry → ℕ → Bytes → ℤ → List WifiScanEntry
unfolding weakest_slot
merge_new list capacity ssid rssi =
    let entry : WifiScanEntry = record { ssid = take 32 ssid; rssi = rssi } in
    let slot = weakest_slot list in
    if leb capacity (length list)
    then (if leb_ℤ rssi (get_or list slot no_entry).rssi then list else set list slot entry)
    else list ++ entry ∷ []

-- `list` is not null, and is `list[0 .. count)`; the result is the list with the new count.
unfoldable pub wifi_scan_merge : List WifiScanEntry → ℕ → Option Bytes → ℤ → List WifiScanEntry
unfolding merge_same merge_new clamp_rssi
wifi_scan_merge list capacity none rssi = list
wifi_scan_merge list capacity (some ssid) rssi =
    if capacity == 0 || not (wifi_valid_ssid (some ssid))
    then list
    else (elim (merge_same list ssid (clamp_rssi rssi)) [
      | some merged ↦ merged
      | none ↦ merge_new list capacity ssid (clamp_rssi rssi)
    ])

-- The inner loop of `wifi_scan_sort`: `e` moves down past the weaker entries. The sorted part
-- `list[0 .. i)` is given from its end, so `list[j - 1]` is the head.
unfoldable pub shift : WifiScanEntry → List WifiScanEntry → List WifiScanEntry
shift e [] = e ∷ []
shift e (x ∷ before) =
    let moved = shift e before in if ltb_ℤ x.rssi e.rssi then x ∷ moved else e ∷ x ∷ before

pub sort_loop : List WifiScanEntry → List WifiScanEntry → List WifiScanEntry
unfolding shift
sort_loop sorted [] = sorted
sort_loop sorted (e ∷ es) = sort_loop (shift e sorted) es

unfoldable pub wifi_scan_sort : List WifiScanEntry → List WifiScanEntry
unfolding sort_loop
wifi_scan_sort list = reverse (sort_loop [] list)
