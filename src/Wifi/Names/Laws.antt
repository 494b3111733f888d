-- ===== src/Wifi/Names/Laws.antt =====
-- src/wifi/wifi_config.h, texts derived from the MAC address: they are valid, and tell boards apart.
use project_voyager.Prelude.{
  ℕ, zero, suc, ◌+◌, ◌-◌, ◌*◌, ◌<◌, ◌≡◌, refl, ap, Bool, true, not, ◌&&◌, ◌||◌, some, [], ◌∷◌, ◌++◌,
  arith, ltb, leb, ◌==◌, if◌then◌else◌, Bytes, codes, length, take, drop, All, IsByte,
}
use project_voyager.Prelude.Bits.{all_below, all_below_sound}
use project_voyager.Wifi.Valid.{wifi_printable_ascii, wifi_valid_ap_pass}
use project_voyager.Wifi.Names.{
  hex_high, hex_low, hex_loop, wifi_derive_ap_pass, separated, wifi_format_hostname,
}

-- The value of a digit.
abbrev value : ℕ → ℕ
value c = if leb b'A' c then c - 55 else c - 48

abbrev is_digit : ℕ → Bool
is_digit c = leb b'0' c && leb c b'9' || leb b'A' c && leb c b'F'

abbrev good_byte : ℕ → Bool
good_byte b =
    value (hex_high b) * 16 + value (hex_low b) == b
    && is_digit (hex_high b)
    && is_digit (hex_low b)

byte_table : all_below 256 good_byte ≡ true
unfolding all_below hex_high hex_low
byte_table = refl

digits_of : (b : ℕ) → b < 256 → good_byte b ≡ true
digits_of b h = all_below_sound 256 good_byte b byte_table h

hex-injective :
    (a b : ℕ) → a < 256 → b < 256 → hex_high a ≡ hex_high b → hex_low a ≡ hex_low b → a ≡ b
hex-injective a b ha hb e f = ground (arith, digits_of a ha, digits_of b hb, ap value e, ap value f)

abbrev is_printable : ℕ → Bool
is_printable c = not (ltb c 0x20 || ltb 0x7E c)

printable_table : all_below 256 (λ b. is_printable (hex_high b) && is_printable (hex_low b)) ≡ true
unfolding all_below hex_high hex_low
printable_table = refl

both : (p q : Bool) → (p && q) ≡ true → (p ≡ true) × (q ≡ true)
both p q h = ground arith

printable_pair :
    (b : ℕ) → b < 256 → (is_printable (hex_high b) ≡ true) × (is_printable (hex_low b) ≡ true)
printable_pair b h = both _ _ (
    all_below_sound 256 (λ b. is_printable (hex_high b) && is_printable (hex_low b)) b
      printable_table h)

printable-hex_loop :
    (bs : Bytes)
    → All IsByte bs
    → (wifi_printable_ascii (hex_loop bs) ≡ true) × (length (hex_loop bs) ≡ 2 * length bs)
unfolding wifi_printable_ascii
printable-hex_loop [] h = unfold hex_loop in (refl, omega arith)
printable-hex_loop (b ∷ bs) h =
    let rest = printable-hex_loop bs h.1 in
    let pair = printable_pair b h.0 in
    let step : hex_loop (b ∷ bs) ≡ hex_high b ∷ hex_low b ∷ hex_loop bs = unfold hex_loop in refl in
    rw step (rw (pair.0, pair.1) rest.0, omega (arith, rest.1))

valid_of_eight :
    (s : Bytes) → wifi_printable_ascii s ≡ true → length s ≡ 8 → wifi_valid_ap_pass (some s) ≡ true
unfolding wifi_valid_ap_pass
valid_of_eight s h l = ground arith

-- The default password of the access point is eight hexadecimal digits, so it is a valid password.
pub wifi_derive_ap_pass-valid :
    (m₀ m₁ m₂ m₃ m₄ m₅ : ℕ)
    → All IsByte (m₂ ∷ m₃ ∷ m₄ ∷ m₅ ∷ [])
    → let pass = wifi_derive_ap_pass (m₀ ∷ m₁ ∷ m₂ ∷ m₃ ∷ m₄ ∷ m₅ ∷ []) in
      (wifi_valid_ap_pass (some pass) ≡ true) × (length pass ≡ 8)
unfolding wifi_derive_ap_pass
wifi_derive_ap_pass-valid m₀ m₁ m₂ m₃ m₄ m₅ h =
    let (ascii, size) = printable-hex_loop (m₂ ∷ m₃ ∷ m₄ ∷ m₅ ∷ []) h in
    let pass = hex_loop (m₂ ∷ m₃ ∷ m₄ ∷ m₅ ∷ []) in
    let eight : length pass ≡ 8 = omega (arith, size) in (valid_of_eight pass ascii eight, eight)

separated-injective :
    (sep : ℕ) (a b : Bytes)
    → length a ≡ length b
    → All IsByte a
    → All IsByte b
    → separated sep a ≡ separated sep b
    → a ≡ b
unfolding separated
separated-injective sep [] [] l h k e = refl
separated-injective sep [] (y ∷ b) l h k e = absurd (omega arith)
separated-injective sep (x ∷ a) [] l h k e = absurd (omega arith)
separated-injective sep (x ∷ []) (y ∷ []) l h k e = ground (arith, hex-injective x y h.0 k.0)
separated-injective sep (x ∷ []) (y ∷ z ∷ b) l h k e = absurd (omega arith)
separated-injective sep (x ∷ w ∷ a) (y ∷ []) l h k e = absurd (omega arith)
separated-injective sep (x ∷ w ∷ a) (y ∷ z ∷ b) l h k e = ground (
  arith,
  hex-injective x y h.0 k.0,
  separated-injective sep (w ∷ a) (z ∷ b) (omega arith) h.1 k.1,
)

take_all : (n : ℕ) (bs : Bytes) → length bs ≡ n → take n bs ≡ bs
take_all zero [] h = refl
take_all zero (b ∷ bs) h = absurd (omega arith)
take_all (suc n) [] h = refl
take_all (suc n) (b ∷ bs) h = ap (◌∷◌ b) (take_all n bs (omega arith))

append-cancel : (xs ys zs : Bytes) → xs ++ ys ≡ xs ++ zs → ys ≡ zs
append-cancel [] ys zs e = e
append-cancel (x ∷ xs) ys zs e = append-cancel xs ys zs (ap (drop 1) e)

-- Two boards, with MAC addresses of six bytes, have the same host name only if they have the same MAC address.
pub wifi_format_hostname-injective :
    (a b : Bytes)
    → length a ≡ 6
    → length b ≡ 6
    → All IsByte a
    → All IsByte b
    → wifi_format_hostname a ≡ wifi_format_hostname b
    → a ≡ b
unfolding wifi_format_hostname
wifi_format_hostname-injective a b la lb h k e =
    let tails =
      append-cancel (codes "project-voyager-") (separated b'-' (take 6 a))
        (separated b'-' (take 6 b)) e in
    let whole : separated b'-' a ≡ separated b'-' b =
      rw (take_all 6 a la, take_all 6 b lb) at tails in
    separated-injective b'-' a b (omega arith) h k whole
