-- ===== src/Wifi/Reasons.antt =====
-- src/wifi/wifi_config.h, the reasons of a disconnection, numbers that the WiFi driver gives.
use project_voyager.Prelude.{ℕ, Bool, false, ◌||◌, List, [], ◌∷◌, ◌==◌, if◌then◌else◌}
use Prim.Native.String.{String}

pub data WifiDiscKind : Type 0 where
  disc_self disc_bad_ap disc_auth disc_other : WifiDiscKind

abbrev pub one_of : List ℕ → ℕ → Bool
one_of [] r = false
one_of (x ∷ xs) r = r == x || one_of xs r

-- Over the reasons of the driver, which are not negative; any other number is `disc_other`.
unfoldable pub wifi_classify_reason : ℕ → WifiDiscKind
wifi_classify_reason r =
    if one_of (8 ∷ 36 ∷ []) r
    then disc_self
    else if one_of (2 ∷ 3 ∷ 4 ∷ 5 ∷ 6 ∷ 7 ∷ 34 ∷ 39 ∷ 200 ∷ 201 ∷ 202 ∷ 203 ∷ 205 ∷ []) r
    then disc_bad_ap
    else if one_of (14 ∷ 15 ∷ 23 ∷ 204 ∷ []) r
    then disc_auth
    else disc_other

abbrev pub reason_names : List (ℕ × String)
reason_names =
    (1, "UNSPECIFIED")
    ∷ (2, "AUTH_EXPIRE")
    ∷ (3, "AUTH_LEAVE")
    ∷ (4, "ASSOC_EXPIRE")
    ∷ (5, "ASSOC_TOOMANY")
    ∷ (6, "NOT_AUTHED")
    ∷ (7, "NOT_ASSOCED")
    ∷ (8, "ASSOC_LEAVE")
    ∷ (14, "MIC_FAILURE")
    ∷ (15, "4WAY_HANDSHAKE_TIMEOUT")
    ∷ (23, "802_1X_AUTH_FAILED")
    ∷ (34, "MISSING_ACKS")
    ∷ (36, "STA_LEAVING")
    ∷ (39, "TIMEOUT")
    ∷ (200, "BEACON_TIMEOUT")
    ∷ (201, "NO_AP_FOUND")
    ∷ (202, "AUTH_FAIL")
    ∷ (203, "ASSOC_FAIL")
    ∷ (204, "HANDSHAKE_TIMEOUT")
    ∷ (205, "CONNECTION_FAIL")
    ∷ (206, "AP_TSF_RESET")
    ∷ (207, "ROAMING")
    ∷ []

-- The `switch`.
unfoldable pub name_in : List (ℕ × String) → ℕ → String
name_in [] r = "OTHER"
name_in ((n, name) ∷ rest) r = if r == n then name else name_in rest r

unfoldable pub wifi_reason_name : ℕ → String
unfolding name_in
wifi_reason_name r = name_in reason_names r
