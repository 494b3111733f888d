-- ===== src/Wifi/Scan/Sorting.antt =====
-- src/wifi/wifi_config.h, `wifi_scan_sort`: the readings fall, and only the order changes.
use mathlib.Core.List.{reverse, reverse-cons, Perm, perm_middle, reverse_perm}
use mathlib.Core.List.Perm
use project_voyager.Prelude.{inl, inr, List, [], ◌∷◌, ◌++◌, append-nil, arith, Bool-cases, All}
use project_voyager.Prelude.Int.{◌≤ℤ◌, ltb_ℤ}
use project_voyager.Wifi.Scan.{WifiScanEntry, shift, sort_loop, wifi_scan_sort}

-- Each reading is at most as strong as those behind it.
abbrev Rising : List WifiScanEntry → Type 0
Rising [] = Unit {0}
Rising (e ∷ es) = All (λ x. e.rssi ≤ℤ x.rssi) es × Rising es

-- Each reading is at least as strong as those behind it.
abbrev pub Falling : List WifiScanEntry → Type 0
Falling [] = Unit {0}
Falling (e ∷ es) = All (λ x. x.rssi ≤ℤ e.rssi) es × Falling es

shift-All :
    (P : WifiScanEntry → Type 0) (es : List WifiScanEntry) (e : WifiScanEntry)
    → P e
    → All P es
    → All P (shift e es)
unfolding shift
shift-All P [] e p a = (p, tt)
shift-All P (x ∷ es) e p a = elim (Bool-cases (ltb_ℤ x.rssi e.rssi)) [
  | inl down ↦ rw down (a.0, shift-All P es e p a.1)
  | inr stay ↦ rw stay (p, (a.0, a.1))
]

Rising-mono :
    (es : List WifiScanEntry) (a b : WifiScanEntry)
    → a.rssi ≤ℤ b.rssi
    → All (λ x. b.rssi ≤ℤ x.rssi) es
    → All (λ x. a.rssi ≤ℤ x.rssi) es
Rising-mono [] a b h k = tt
Rising-mono (x ∷ es) a b h k = (omega arith, Rising-mono es a b h k.1)

shift-Rising : (es : List WifiScanEntry) (e : WifiScanEntry) → Rising es → Rising (shift e es)
unfolding shift
shift-Rising [] e r = (tt, tt)
shift-Rising (x ∷ es) e r = elim (Bool-cases (ltb_ℤ x.rssi e.rssi)) [
  | inl down ↦
      rw down (shift-All (λ y. x.rssi ≤ℤ y.rssi) es e (ground arith) r.0, shift-Rising es e r.1)
  | inr stay ↦
      let le : e.rssi ≤ℤ x.rssi = ground arith in rw stay ((le, Rising-mono es e x le r.0), r)
]

sort_loop-Rising : (es sorted : List WifiScanEntry) → Rising sorted → Rising (sort_loop sorted es)
unfolding sort_loop
sort_loop-Rising [] sorted r = r
sort_loop-Rising (e ∷ es) sorted r = sort_loop-Rising es (shift e sorted) (shift-Rising sorted e r)

All-concat :
    (P : WifiScanEntry → Type 0) (es : List WifiScanEntry) (e : WifiScanEntry)
    → All P es
    → P e
    → All P (es ++ e ∷ [])
All-concat P [] e a p = (p, tt)
All-concat P (x ∷ es) e a p = (a.0, All-concat P es e a.1 p)

Falling-concat :
    (es : List WifiScanEntry) (e : WifiScanEntry)
    → Falling es
    → All (λ x. e.rssi ≤ℤ x.rssi) es
    → Falling (es ++ e ∷ [])
Falling-concat [] e f a = (tt, tt)
Falling-concat (x ∷ es) e f a =
    (All-concat (λ y. y.rssi ≤ℤ x.rssi) es e f.0 a.0, Falling-concat es e f.1 a.1)

All-reverse : (P : WifiScanEntry → Type 0) (es : List WifiScanEntry) → All P es → All P (reverse es)
All-reverse P [] a = tt
All-reverse P (x ∷ es) a =
    rw (reverse-cons x es) (All-concat P (reverse es) x (All-reverse P es a.1) a.0)

reverse-Falling : (es : List WifiScanEntry) → Rising es → Falling (reverse es)
reverse-Falling [] r = tt
reverse-Falling (e ∷ es) r = rw (reverse-cons e es) (
    Falling-concat (reverse es) e (reverse-Falling es r.1)
      (All-reverse (λ x. e.rssi ≤ℤ x.rssi) es r.0))

shift-perm : (es : List WifiScanEntry) (e : WifiScanEntry) → Perm (shift e es) (e ∷ es)
unfolding shift
shift-perm [] e = Perm.refl (e ∷ [])
shift-perm (x ∷ es) e = elim (Bool-cases (ltb_ℤ x.rssi e.rssi)) [
  | inl down ↦ rw down (Perm.trans (Perm.cons x (shift-perm es e)) (Perm.swap e x es))
  | inr stay ↦ rw stay (Perm.refl (e ∷ x ∷ es))
]

sort_loop-perm : (es sorted : List WifiScanEntry) → Perm (sort_loop sorted es) (sorted ++ es)
unfolding sort_loop
sort_loop-perm [] sorted = rw append-nil (Perm.refl sorted)
sort_loop-perm (e ∷ es) sorted = Perm.trans (sort_loop-perm es (shift e sorted)) (
    Perm.trans (Perm.append (shift-perm sorted e) (Perm.refl es))
      (Perm.symm (perm_middle sorted es)))

-- Sorting puts the readings in falling order and changes nothing but the order of the entries.
pub wifi_scan_sort_lem :
    (list : List WifiScanEntry) → Falling (wifi_scan_sort list) × Perm (wifi_scan_sort list) list
unfolding wifi_scan_sort
wifi_scan_sort_lem list = (
  reverse-Falling (sort_loop [] list) (sort_loop-Rising list [] tt),
  Perm.trans (reverse_perm (sort_loop [] list)) (sort_loop-perm list []),
)
