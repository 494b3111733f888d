-- ===== src/Wifi/Valid.antt =====
-- src/wifi/wifi_config.h, which names and passwords are accepted. A null pointer is `none`.
use project_voyager.Prelude.{
  Bool, true, false, not, ◌&&◌, ◌||◌, Option, none, some, [], ◌∷◌, ltb, leb, ◌==◌, if◌then◌else◌,
  Bytes, length,
}

-- The buffer of `len` bytes is the list.
unfoldable pub wifi_printable_ascii : Bytes → Bool
wifi_printable_ascii [] = true
wifi_printable_ascii (c ∷ s) = not (ltb c 0x20 || ltb 0x7E c) && wifi_printable_ascii s

unfoldable pub no_control : Bytes → Bool
no_control [] = true
no_control (c ∷ s) = not (ltb c 0x20 || c == 0x7F) && no_control s

unfoldable pub wifi_valid_ssid : Option Bytes → Bool
unfolding no_control
wifi_valid_ssid none = false
wifi_valid_ssid (some s) =
    let len = length s in if ltb len 1 || ltb 32 len then false else no_control s

unfoldable pub wifi_valid_sta_pass : Option Bytes → Bool
unfolding wifi_printable_ascii
wifi_valid_sta_pass none = false
wifi_valid_sta_pass (some s) =
    let len = length s in
    if len == 0 then true else leb 8 len && leb len 63 && wifi_printable_ascii s

unfoldable pub wifi_valid_ap_pass : Option Bytes → Bool
unfolding wifi_printable_ascii
wifi_valid_ap_pass none = false
wifi_valid_ap_pass (some s) =
    let len = length s in leb 8 len && leb len 63 && wifi_printable_ascii s

unfoldable pub wifi_valid_ap_pass_setting : Option Bytes → Bool
unfolding wifi_valid_ap_pass
wifi_valid_ap_pass_setting none = false
wifi_valid_ap_pass_setting (some []) = true
wifi_valid_ap_pass_setting (some (c ∷ s)) = wifi_valid_ap_pass (some (c ∷ s))
