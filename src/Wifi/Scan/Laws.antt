-- ===== src/Wifi/Scan/Laws.antt =====
-- src/wifi/wifi_config.h, scan results: the list keeps one entry for each name, and sorting only orders.
use project_voyager.Prelude.{
  ℕ, zero, suc, ◌≤◌, ◌<◌, ◌≡◌, refl, sym, ap, ◌≢◌, inl, inr, true, not, ◌||◌, Option, none, some,
  List, [], ◌∷◌, ◌++◌, arith, ◌==◌, if◌then◌else◌, Bool-cases, Option-cases, Bytes, length, set,
  take, All, length-append, length-set, str_eq, str_eq_iff,
}
use project_voyager.Prelude.Int.{ℤ, ◌≤ℤ◌, ltb_ℤ, pos}
use project_voyager.Wifi.Valid.{wifi_valid_ssid}
use project_voyager.Wifi.Scan.{
  WifiScanEntry, rssi_min, clamp_rssi, merge_same, weakest_slot, merge_new, wifi_scan_merge,
}

-- No entry has this name.
abbrev pub Absent : Bytes → List WifiScanEntry → Type 0
Absent s [] = Unit {0}
Absent s (e ∷ es) = (e.ssid ≢ s) × Absent s es

abbrev pub Distinct : List WifiScanEntry → Type 0
Distinct [] = Unit {0}
Distinct (e ∷ es) = Absent e.ssid es × Distinct es

-- A valid name and a reading between -128 and 0.
abbrev pub IsEntry : WifiScanEntry → Type 0
IsEntry e = (wifi_valid_ssid (some e.ssid) ≡ true) × (rssi_min ≤ℤ e.rssi) × (e.rssi ≤ℤ pos 0)

pub record Inv (list : List WifiScanEntry) (capacity : ℕ) : Type 0 where
  pub fits : length list ≤ capacity
  pub distinct : Distinct list
  pub entries : All IsEntry list

clamp_rssi-bounds : (r : ℤ) → (rssi_min ≤ℤ clamp_rssi r) × (clamp_rssi r ≤ℤ pos 0)
unfolding clamp_rssi
clamp_rssi-bounds r = ground arith

merge_same-none :
    (es : List WifiScanEntry) (s : Bytes) (r : ℤ) → merge_same es s r ≡ none → Absent s es
unfolding merge_same
merge_same-none [] s r h = tt
merge_same-none (e ∷ es) s r h = ground (arith, str_eq_iff e.ssid s, merge_same-none es s r)

merge_same-Absent :
    (es fs : List WifiScanEntry) (s t : Bytes) (r : ℤ)
    → merge_same es s r ≡ some fs
    → Absent t es
    → Absent t fs
unfolding merge_same
merge_same-Absent [] fs s t r h a = cc
merge_same-Absent (e ∷ es) fs s t r h a = elim (Option-cases (merge_same es s r)) [
  | inl n ↦ ground arith
  | inr (gs, g) ↦ ground (arith, merge_same-Absent es gs s t r g a.1)
]

-- The rest of a list of entries is kept, with the same length.
record Kept (es fs : List WifiScanEntry) : Type 0 where
  same_length : length fs ≡ length es
  distinct : Distinct fs
  entries : All IsEntry fs

merge_same-Kept :
    (es fs : List WifiScanEntry) (s : Bytes) (r : ℤ)
    → merge_same es s r ≡ some fs
    → (rssi_min ≤ℤ r) × (r ≤ℤ pos 0)
    → Distinct es
    → All IsEntry es
    → Kept es fs
unfolding merge_same
merge_same-Kept [] fs s r h b d a = cc
merge_same-Kept (e ∷ es) fs s r h b d a = elim (Option-cases (merge_same es s r)) [
  | inl n ↦ ground arith
  | inr (gs, g) ↦
      ground
        (arith, merge_same-Kept es gs s r g b d.1 a.1, merge_same-Absent es gs s e.ssid r g d.0)
]

Absent-append :
    (es : List WifiScanEntry) (s : Bytes) (e : WifiScanEntry)
    → Absent s es
    → e.ssid ≢ s
    → Absent s (es ++ e ∷ [])
Absent-append [] s e a h = (h, tt)
Absent-append (x ∷ es) s e a h = (a.0, Absent-append es s e a.1 h)

append-Kept :
    (es : List WifiScanEntry) (e : WifiScanEntry)
    → Distinct es
    → All IsEntry es
    → Absent e.ssid es
    → IsEntry e
    → Distinct (es ++ e ∷ []) × All IsEntry (es ++ e ∷ [])
append-Kept [] e d a n i = ((tt, tt), (i, tt))
append-Kept (x ∷ es) e d a n i =
    let (p, q) = append-Kept es e d.1 a.1 n.1 i in
    ((Absent-append es x.ssid e d.0 (λ f. n.0 (sym f)), p), (a.0, q))

Absent-set :
    (es : List WifiScanEntry) (k : ℕ) (s : Bytes) (e : WifiScanEntry)
    → Absent s es
    → e.ssid ≢ s
    → Absent s (set es k e)
Absent-set [] k s e a h = tt
Absent-set (x ∷ es) zero s e a h = (h, a.1)
Absent-set (x ∷ es) (suc k) s e a h = (a.0, Absent-set es k s e a.1 h)

set-Kept :
    (es : List WifiScanEntry) (k : ℕ) (e : WifiScanEntry)
    → Distinct es
    → All IsEntry es
    → Absent e.ssid es
    → IsEntry e
    → Distinct (set es k e) × All IsEntry (set es k e)
set-Kept [] k e d a n i = (tt, tt)
set-Kept (x ∷ es) zero e d a n i = ((n.1, d.1), (i, a.1))
set-Kept (x ∷ es) (suc k) e d a n i =
    let (p, q) = set-Kept es k e d.1 a.1 n.1 i in
    ((Absent-set es k x.ssid e d.0 (λ f. n.0 (sym f)), p), (a.0, q))

take_valid : (s : Bytes) → wifi_valid_ssid (some s) ≡ true → take 32 s ≡ s
unfolding wifi_valid_ssid
take_valid s h = take_all 32 s (ground arith)
  where
    take_all : (n : ℕ) (t : Bytes) → length t ≤ n → take n t ≡ t
    take_all zero [] l = refl
    take_all zero (c ∷ t) l = absurd (omega arith)
    take_all (suc n) [] l = refl
    take_all (suc n) (c ∷ t) l = ap (◌∷◌ c) (take_all n t (omega arith))

merge_new-Inv :
    (list : List WifiScanEntry) (capacity : ℕ) (s : Bytes) (r : ℤ)
    → Inv list capacity
    → Absent s list
    → wifi_valid_ssid (some s) ≡ true
    → (rssi_min ≤ℤ r) × (r ≤ℤ pos 0)
    → Inv (merge_new list capacity s r) capacity
unfolding merge_new
merge_new-Inv list capacity s r v absent valid b =
    let e : WifiScanEntry = record { ssid = s; rssi = r } in
    let added = append-Kept list e v.distinct v.entries absent (valid, b.0, b.1) in
    let replaced =
      set-Kept list (weakest_slot list) e v.distinct v.entries absent (valid, b.0, b.1) in
    ground (
      arith,
      take_valid s valid,
      added,
      replaced,
      length-append list (e ∷ []),
      length-set list (weakest_slot list) e,
    )

-- Every scan hit keeps the list within its capacity, with one entry for each name, every name valid
-- and every reading between -128 and 0.
pub wifi_scan_merge-Inv :
    (list : List WifiScanEntry) (capacity : ℕ) (ssid : Option Bytes) (rssi : ℤ)
    → Inv list capacity
    → Inv (wifi_scan_merge list capacity ssid rssi) capacity
unfolding wifi_scan_merge
wifi_scan_merge-Inv list capacity none rssi v = v
wifi_scan_merge-Inv list capacity (some s) rssi v =
    let r = clamp_rssi rssi in
    let b = clamp_rssi-bounds rssi in
    elim (Bool-cases (capacity == 0 || not (wifi_valid_ssid (some s)))) [
      | inl skip ↦ rw skip v
      | inr use_it ↦ elim (Option-cases (merge_same list s r)) [
        | inr (fs, f) ↦
            let k = merge_same-Kept list fs s r f b v.distinct v.entries in
            rw (use_it, f)
              (record {
                fits = omega (arith, k.same_length, v.fits);
                distinct = k.distinct;
                entries = k.entries;
              })
        | inl n ↦
            rw (use_it, n)
              (merge_new-Inv list capacity s r v (merge_same-none list s r n) (ground arith) b)
      ]
    ]

-- The reading on record for a name.
abbrev pub reading_of : Bytes → List WifiScanEntry → Option ℤ
reading_of s [] = none
reading_of s (e ∷ es) = if str_eq e.ssid s then some e.rssi else reading_of s es

abbrev pub stronger : ℤ → ℤ → ℤ
stronger a b = if ltb_ℤ a b then b else a

merge_same-reading_of :
    (es : List WifiScanEntry) (s : Bytes) (r old : ℤ)
    → reading_of s es ≡ some old
    → (fs : List WifiScanEntry) × (merge_same es s r ≡ some fs)
      × (reading_of s fs ≡ some (stronger old r))
unfolding merge_same
merge_same-reading_of [] s r old h = cc
merge_same-reading_of (e ∷ es) s r old h = elim (Bool-cases (str_eq e.ssid s)) [
  | inl same ↦
      ((if ltb_ℤ e.rssi r then record e { rssi = r } else e) ∷ es, ground arith, ground arith)
  | inr other ↦
      let (fs, f, g) = merge_same-reading_of es s r old (ground arith) in
      (e ∷ fs, ground arith, ground arith)
]

merge_same-reading_ne :
    (es fs : List WifiScanEntry) (s t : Bytes) (r : ℤ)
    → merge_same es s r ≡ some fs
    → s ≢ t
    → reading_of t fs ≡ reading_of t es
unfolding merge_same
merge_same-reading_ne [] fs s t r h ne = cc
merge_same-reading_ne (e ∷ es) fs s t r h ne = elim (Option-cases (merge_same es s r)) [
  | inl n ↦ ground (arith, str_eq_iff e.ssid s, str_eq_iff e.ssid t)
  | inr (gs, g) ↦
      ground
        (arith, str_eq_iff e.ssid s, str_eq_iff e.ssid t, merge_same-reading_ne es gs s t r g ne)
]

-- With room for an entry, a valid name seen again, as a mesh of access points shows it, keeps one entry with the stronger of the two
-- readings, the new one brought into the range of -128 to 0, and no other name's reading changes.
pub reading_of-merge_again :
    (list : List WifiScanEntry) (capacity : ℕ) (s t : Bytes) (rssi old : ℤ)
    → 0 < capacity
    → wifi_valid_ssid (some s) ≡ true
    → reading_of s list ≡ some old
    → s ≢ t
    → let merged = wifi_scan_merge list capacity (some s) rssi in
      (reading_of s merged ≡ some (stronger old (clamp_rssi rssi)))
      × (reading_of t merged ≡ reading_of t list)
unfolding wifi_scan_merge
reading_of-merge_again list capacity s t rssi old c v h ne =
    let (fs, f, g) = merge_same-reading_of list s (clamp_rssi rssi) old h in
    let others = merge_same-reading_ne list fs s t (clamp_rssi rssi) f ne in ground arith
