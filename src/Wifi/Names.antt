-- ===== src/Wifi/Names.antt =====
-- src/wifi/wifi_config.h, texts derived from the MAC address.
pub mod Laws
use Prim.Native.Nat.{bit_and}
use project_voyager.Prelude.{
  ℕ, zero, suc, ◌+◌, ◌-◌, ◌*◌, ◌/◌, ◌%◌, ◌^◌, ◌≤◌, ◌<◌, ◌≡◌, refl, sym, ap, ◌∙◌, ◌≢◌, ◌↔◌, ◌⊎◌, inl,
  inr, Bool, true, false, not, ◌&&◌, ◌||◌, Option, none, some, List, [], ◌∷◌, ◌++◌, map,
  append_assoc, append-nil, arith, ltb, leb, ◌==◌, ◌!=◌, if◌then◌else◌, is_some, ==_iff, Bool-cases,
  Option-cases, Bytes, codes, length, get_elem?, get_or, set, take, drop, replicate, All,
  length-append, take-length-append, drop-length-append, length-set, length-take, get_or-set_self,
  get_or-set_ne, IsByte, str_eq, str_eq_iff, str_eq_refl,
}

abbrev pub hex : Bytes
hex = codes "0123456789ABCDEF"

-- `hex[(b >> 4) & 0x0F]` and `hex[b & 0x0F]`.
unfoldable pub hex_high : ℕ → ℕ
hex_high b = get_or hex (bit_and (b / 2 ^ 4) 0x0F) 0

unfoldable pub hex_low : ℕ → ℕ
hex_low b = get_or hex (bit_and b 0x0F) 0

-- The loop `i = 2 .. 5` over the MAC, which is a list of six bytes.
pub hex_loop : Bytes → Bytes
unfolding hex_high hex_low
hex_loop [] = []
hex_loop (b ∷ bs) = hex_high b ∷ hex_low b ∷ hex_loop bs

unfoldable pub wifi_derive_ap_pass : Bytes → Bytes
unfolding hex_loop
wifi_derive_ap_pass mac = hex_loop (take 4 (drop 2 mac))

-- The loops of `wifi_format_bssid` and `wifi_format_hostname`: the separator behind each byte but
-- the last, where the NUL stands.
pub separated : ℕ → Bytes → Bytes
unfolding hex_high hex_low
separated sep [] = []
separated sep (b ∷ []) = hex_high b ∷ hex_low b ∷ []
separated sep (b ∷ c ∷ bs) = hex_high b ∷ hex_low b ∷ sep ∷ separated sep (c ∷ bs)

unfoldable pub wifi_format_bssid : Option Bytes → Bytes
unfolding separated
wifi_format_bssid none = []
wifi_format_bssid (some b) = separated b':' (take 6 b)

unfoldable pub wifi_format_hostname : Bytes → Bytes
unfolding separated
wifi_format_hostname mac = codes "project-voyager-" ++ separated b'-' (take 6 mac)
