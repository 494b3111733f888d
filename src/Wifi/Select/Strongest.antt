-- ===== src/Wifi/Select/Strongest.antt =====
-- src/wifi/wifi_config.h, the choice among several access points of one name.

use project_voyager.Prelude.{
  ℕ, ◌≡◌, refl, sym, ◌∙◌, ◌⊎◌, inl, inr, Bool, true, false, not, ◌&&◌, Option, none, some, List, [],
  ◌∷◌, ◌++◌, append_assoc, append-nil, arith, leb, if◌then◌else◌, Bool-cases, Bytes, All, str_eq,
}
use project_voyager.Prelude.Int.{ℤ, leb_ℤ, pos, negsuc}
use project_voyager.Wifi.Scan.{clamp_rssi}
use project_voyager.Wifi.Select.{
  WifiApCandidate, WifiApInfo, is_channel, number_of, same_name, wifi_consider_ap, WifiApSelector,
  new_selector, set_avoid, is_avoided, names_agree, add, pick, add_all,
}
use mathlib.Core.Path.{subst}

-- The name is not empty, and the hit has it.
abbrev pub is_named : Option Bytes → Option Bytes → Bool
is_named (some (c ∷ w)) (some ssid) = str_eq (c ∷ w) ssid
is_named _ _ = false

abbrev pub in_band : ℤ → Bool
in_band (pos n) = leb 1 n && leb n 14
in_band (negsuc n) = false

-- A hit of this name, on a channel of the band.
abbrev pub wanted : Option Bytes → WifiApInfo → Bool
wanted want a = is_named want a.ssid && in_band a.channel

-- The access point to avoid.
abbrev pub barred : Option Bytes → WifiApInfo → Bool
barred none a = false
barred (some avoid) a = str_eq a.bssid avoid

abbrev pub preferred : Option Bytes → Option Bytes → WifiApInfo → Bool
preferred want avoid a = wanted want a && not (barred avoid a)

abbrev pub Among : WifiApInfo → List WifiApInfo → Type 0
Among a [] = ⊥
Among a (b ∷ bs) = (b ≡ a) ⊎ Among a bs

-- The candidate is this hit: its reading, its channel and its BSSID.
abbrev pub IsHit : WifiApCandidate → WifiApInfo → Type 0
IsHit c a =
    (c.valid ≡ true)
    × (c.rssi ≡ clamp_rssi a.rssi)
    × (pos c.channel ≡ a.channel)
    × (c.bssid ≡ a.bssid)

-- Among the hits that pass the test there is none, and so no candidate; or the candidate is one of them,
-- and none of them is stronger.
abbrev pub IsStrongest : (WifiApInfo → Bool) → List WifiApInfo → WifiApCandidate → Type 0
IsStrongest test list c =
    ((c.valid ≡ false) × All (λ b. test b ≡ false) list)
    ⊎ ((a : WifiApInfo) × Among a list
        × (test a ≡ true)
        × IsHit c a
        × All (λ b. (test b ≡ false) ⊎ (leb_ℤ (clamp_rssi b.rssi) c.rssi ≡ true)) list)

All-snoc :
    (P : WifiApInfo → Type 0) (xs : List WifiApInfo) (a : WifiApInfo)
    → All P xs
    → P a
    → All P (xs ++ a ∷ [])
All-snoc P [] a h p = (p, tt)
All-snoc P (x ∷ xs) a h p = (h.0, All-snoc P xs a h.1 p)

All-map :
    (P Q : WifiApInfo → Type 0) (xs : List WifiApInfo)
    → ((a : WifiApInfo) → P a → Q a)
    → All P xs
    → All Q xs
All-map P Q [] f h = tt
All-map P Q (x ∷ xs) f h = (f x h.0, All-map P Q xs f h.1)

Among-snoc : (xs : List WifiApInfo) (a b : WifiApInfo) → Among b xs → Among b (xs ++ a ∷ [])
Among-snoc [] a b h = absurd h
Among-snoc (x ∷ xs) a b (inl e) = inl e
Among-snoc (x ∷ xs) a b (inr h) = inr (Among-snoc xs a b h)

Among-last : (xs : List WifiApInfo) (a : WifiApInfo) → Among a (xs ++ a ∷ [])
Among-last [] a = inl refl
Among-last (x ∷ xs) a = inr (Among-last xs a)

-- One hit against the best so far, under a test.
abbrev improve : (WifiApInfo → Bool) → WifiApCandidate → WifiApInfo → WifiApCandidate
improve test c a =
    if not (test a) then c else if c.valid && leb_ℤ (clamp_rssi a.rssi) c.rssi then c else record {
      valid = true;
      rssi = clamp_rssi a.rssi;
      channel = number_of a.channel;
      bssid = a.bssid;
    }

-- The candidate made of a hit.
abbrev candidate : WifiApInfo → WifiApCandidate
candidate a = record {
  valid = true;
  rssi = clamp_rssi a.rssi;
  channel = number_of a.channel;
  bssid = a.bssid;
}

channel-cases : (x : ℤ) → in_band x ≡ true → (n : ℕ) × (x ≡ pos n)
channel-cases (pos n) h = (n, refl)
channel-cases (negsuc n) h = absurd (cc)

below_self : (x : ℤ) → leb_ℤ x x ≡ true
below_self x = ground arith

below_trans : (x y z : ℤ) → leb_ℤ x y ≡ true → leb_ℤ z y ≡ false → leb_ℤ x z ≡ true
below_trans x y z h k = ground arith

-- A hit that does not pass, or is not stronger, leaves the candidate.
skip-IsStrongest :
    (test : WifiApInfo → Bool) (seen : List WifiApInfo) (c : WifiApCandidate) (a : WifiApInfo)
    → (test a ≡ false) ⊎ ((c.valid ≡ true) × (leb_ℤ (clamp_rssi a.rssi) c.rssi ≡ true))
    → IsStrongest test seen c
    → IsStrongest test (seen ++ a ∷ []) c
skip-IsStrongest test seen c a (inl out) (inl (invalid, empty)) =
    inl (invalid, All-snoc _ seen a empty out)
skip-IsStrongest test seen c a (inr below) (inl (invalid, empty)) =
    absurd (ground (arith, below, invalid))
skip-IsStrongest test seen c a (inl out) (inr (b, among, passes, hit, all)) =
    inr (b, Among-snoc seen a b among, passes, hit, All-snoc _ seen a all (inl out))
skip-IsStrongest test seen c a (inr below) (inr (b, among, passes, hit, all)) =
    inr (b, Among-snoc seen a b among, passes, hit, All-snoc _ seen a all (inr below.1))

over_either :
    (t : Bool) (x y z : ℤ)
    → leb_ℤ z y ≡ false
    → (t ≡ false) ⊎ (leb_ℤ x y ≡ true)
    → (t ≡ false) ⊎ (leb_ℤ x z ≡ true)
over_either t x y z h (inl e) = inl e
over_either t x y z h (inr e) = inr (below_trans x y z e h)

-- Where a hit is stronger than the candidate, it is so than all that passed before.
all_below :
    (test : WifiApInfo → Bool) (seen : List WifiApInfo) (c : WifiApCandidate) (a : WifiApInfo)
    → (c.valid && leb_ℤ (clamp_rssi a.rssi) c.rssi) ≡ false
    → IsStrongest test seen c
    → All (λ b. (test b ≡ false) ⊎ (leb_ℤ (clamp_rssi b.rssi) (clamp_rssi a.rssi) ≡ true)) seen
all_below test seen c a h (inl (invalid, empty)) = All-map _ _ seen (λ b e. inl e) empty
all_below test seen c a h (inr (b, among, passes, hit, all)) =
    let over : leb_ℤ (clamp_rssi a.rssi) c.rssi ≡ false = ground (arith, h, hit.0) in
    All-map (λ b. (test b ≡ false) ⊎ (leb_ℤ (clamp_rssi b.rssi) c.rssi ≡ true))
      (λ b. (test b ≡ false) ⊎ (leb_ℤ (clamp_rssi b.rssi) (clamp_rssi a.rssi) ≡ true)) seen
      (λ b e. over_either (test b) (clamp_rssi b.rssi) c.rssi (clamp_rssi a.rssi) over e) all

candidate-IsHit : (a : WifiApInfo) → in_band a.channel ≡ true → IsHit (candidate a) a
candidate-IsHit a h = let (n, e) = channel-cases a.channel h in (refl, refl, rw e refl, refl)

improve-IsStrongest :
    (test : WifiApInfo → Bool) (seen : List WifiApInfo) (c : WifiApCandidate) (a : WifiApInfo)
    → (test a ≡ true → in_band a.channel ≡ true)
    → IsStrongest test seen c
    → IsStrongest test (seen ++ a ∷ []) (improve test c a)
improve-IsStrongest test seen c a band h = elim (Bool-cases (test a)) [
  | inr out ↦
      let same : c ≡ improve test c a = ground (arith, out) in
      subst (IsStrongest test (seen ++ a ∷ [])) same (skip-IsStrongest test seen c a (inl out) h)
  | inl passes ↦ elim (Bool-cases (c.valid && leb_ℤ (clamp_rssi a.rssi) c.rssi)) [
    | inl weaker ↦
        let same : c ≡ improve test c a = ground (arith, passes, weaker) in
        subst (IsStrongest test (seen ++ a ∷ [])) same
          (skip-IsStrongest test seen c a (inr (ground (arith, weaker))) h)
    | inr stronger ↦
        let same : candidate a ≡ improve test c a = ground (arith, passes, stronger) in
        subst (IsStrongest test (seen ++ a ∷ [])) same (
          inr (
            a,
            Among-last seen a,
            passes,
            candidate-IsHit a (band passes),
            All-snoc _ seen a (all_below test seen c a stronger h)
                (inr (ground (arith, below_self (clamp_rssi a.rssi)))),
          ))
  ]
]

-- The code's tests are these.
same_name-is_named : (want ssid : Option Bytes) → same_name want ssid ≡ is_named want ssid
unfolding same_name
same_name-is_named none ssid = refl
same_name-is_named (some []) none = refl
same_name-is_named (some []) (some s) = refl
same_name-is_named (some (c ∷ w)) none = refl
same_name-is_named (some (c ∷ w)) (some s) = ground arith

is_channel-in_band : (x : ℤ) → is_channel x ≡ in_band x
is_channel-in_band (pos n) = ground arith
is_channel-in_band (negsuc n) = ground arith

is_named-agree :
    (want ssid : Option Bytes) → is_named want ssid ≡ true → names_agree want ssid ≡ true
is_named-agree none ssid h = absurd (cc)
is_named-agree (some []) ssid h = absurd (cc)
is_named-agree (some (c ∷ w)) none h = absurd (cc)
is_named-agree (some (c ∷ w)) (some s) h = h

is_avoided-barred :
    (avoid : Option Bytes) (a : WifiApInfo) → is_avoided avoid (some a.bssid) ≡ barred avoid a
is_avoided-barred none a = refl
is_avoided-barred (some avoid) a = refl

wifi_consider_ap-improve :
    (c : WifiApCandidate) (want : Option Bytes) (a : WifiApInfo)
    → (wifi_consider_ap c want a.ssid a.rssi (some a.bssid) a.channel).0 ≡ improve (wanted want) c a
unfolding wifi_consider_ap
wifi_consider_ap-improve c want a =
    ground (arith, same_name-is_named want a.ssid, is_channel-in_band a.channel)

add-improve :
    (s : WifiApSelector) (want : Option Bytes) (a : WifiApInfo)
    → let s' = add s want a.ssid a.rssi (some a.bssid) a.channel in
      (s'.any ≡ improve (wanted want) s.any a)
      × (s'.other ≡ improve (preferred want s.avoid) s.other a)
      × (s'.avoid ≡ s.avoid)
unfolding add
add-improve s want a = ground (
  arith,
  wifi_consider_ap-improve s.any want a,
  wifi_consider_ap-improve s.other want a,
  is_named-agree want a.ssid,
  is_avoided-barred s.avoid a,
)

-- Both candidates are the strongest of what was seen.
abbrev IsSelection : Option Bytes → Option Bytes → List WifiApInfo → WifiApSelector → Type 0
IsSelection want avoid seen s =
    IsStrongest (wanted want) seen s.any
    × IsStrongest (preferred want avoid) seen s.other
    × (s.avoid ≡ avoid)

add-IsSelection :
    (want avoid : Option Bytes) (seen : List WifiApInfo) (s : WifiApSelector) (a : WifiApInfo)
    → IsSelection want avoid seen s
    → IsSelection want avoid (seen ++ a ∷ []) (add s want a.ssid a.rssi (some a.bssid) a.channel)
add-IsSelection want avoid seen s a (every, apart, same) =
    let (e, f, g) = add-improve s want a in
    let f' : improve (preferred want avoid) s.other a
        ≡ (add s want a.ssid a.rssi (some a.bssid) a.channel).other =
      rw (sym same) (sym f) in
    (
      subst (IsStrongest (wanted want) (seen ++ a ∷ [])) (sym e)
          (improve-IsStrongest (wanted want) seen s.any a (λ h. ground (arith, h)) every),
      subst (IsStrongest (preferred want avoid) (seen ++ a ∷ [])) f' (
          improve-IsStrongest (preferred want avoid) seen s.other a (λ h. ground (arith, h)) apart),
      g ∙ same,
    )

add_all-IsSelection :
    (list seen : List WifiApInfo) (want avoid : Option Bytes) (s : WifiApSelector)
    → IsSelection want avoid seen s
    → IsSelection want avoid (seen ++ list) (add_all s want list)
unfolding add_all
add_all-IsSelection [] seen want avoid s h = rw (append-nil seen) h
add_all-IsSelection (a ∷ list) seen want avoid s h =
    let s' = add s want a.ssid a.rssi (some a.bssid) a.channel in
    subst (λ l. IsSelection want avoid l (add_all s' want list)) (append_assoc seen (a ∷ []) list)
      (add_all-IsSelection list (seen ++ a ∷ []) want avoid s'
        (add-IsSelection want avoid seen s a h))

pick_either :
    (s : WifiApSelector) (list : List WifiApInfo) (want avoid : Option Bytes)
    → IsStrongest (wanted want) list s.any
    → IsStrongest (preferred want avoid) list s.other
    → (((pick s).valid ≡ true) × IsStrongest (preferred want avoid) list (pick s))
      ⊎ (All (λ a. preferred want avoid a ≡ false) list × IsStrongest (wanted want) list (pick s))
unfolding pick
pick_either s list want avoid every (inl (invalid, empty)) =
    let is : s.any ≡ pick s = ground (arith, invalid) in
    inr (empty, subst (IsStrongest (wanted want) list) is every)
pick_either s list want avoid every (inr found) =
    let valid : s.other.valid ≡ true = found.3.0 in
    let is : s.other ≡ pick s = ground (arith, valid) in
    inl (
      subst (λ c. (c.valid ≡ true) × IsStrongest (preferred want avoid) list c) is
        (valid, inr found))

-- After any list of scan hits: if a hit of the name, on a channel of the band, is not the access point to
-- avoid, the candidate picked is one of these hits, with its clamped reading, its channel and its BSSID,
-- and none of them is stronger; if all of them are to be avoided, the same holds among all hits of the
-- name in the band; and if there is none, nothing is picked.
pub pick-add_all :
    (list : List WifiApInfo) (want avoid : Option Bytes)
    → let best = pick (add_all (set_avoid new_selector avoid) want list) in
      ((best.valid ≡ true) × IsStrongest (preferred want avoid) list best)
      ⊎ (All (λ a. preferred want avoid a ≡ false) list × IsStrongest (wanted want) list best)
unfolding set_avoid
pick-add_all list want avoid =
    let s = add_all (set_avoid new_selector avoid) want list in
    let (every, apart, same) =
      add_all-IsSelection list [] want avoid (set_avoid new_selector avoid)
        (inl (refl, tt), inl (refl, tt), refl) in
    pick_either s list want avoid every apart
