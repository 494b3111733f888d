-- ===== src/Improv/Calls.antt =====
-- src/core/improv.h: the contents of remote procedure calls and of their results.
use project_voyager.Prelude.{
  ℕ, zero, suc, ◌+◌, ◌≤◌, ◌<◌, ◌≡◌, refl, ap, inl, inr, ◌&&◌, none, some, List, [], ◌∷◌, ◌++◌,
  append_assoc, append-nil, arith, ltb, leb, if◌then◌else◌, Bool-cases, Bytes, length, get_or, take,
  drop, length-append, take-length-append, length-take,
}
use project_voyager.Improv.{
  version, type_rpc, type_rpc_result, max_data, Packet, result_loop, build_rpc_result, rpc_command,
  parse_wifi_settings,
}
use project_voyager.Improv.Parsing.{wire, checksum, build-wire}

take-drop : (n : ℕ) (bs : Bytes) → take n bs ++ drop n bs ≡ bs
take-drop zero bs = refl
take-drop (suc n) [] = refl
take-drop (suc n) (b ∷ bs) = ap (◌∷◌ b) (take-drop n bs)

drop-get_or : (n : ℕ) (bs : Bytes) → n < length bs → drop n bs ≡ get_or bs n 0 ∷ drop (suc n) bs
drop-get_or n [] h = absurd (omega arith)
drop-get_or zero (b ∷ bs) h = refl
drop-get_or (suc n) (b ∷ bs) h = drop-get_or n bs (omega arith)

get_or-one : (b : ℕ) (bs : Bytes) (i : ℕ) → get_or (b ∷ bs) (1 + i) 0 ≡ get_or bs i 0
get_or-one b bs i = let e : 1 + i ≡ suc i = omega arith in rw e refl

drop-two : (b : ℕ) (bs : Bytes) (i : ℕ) → drop (2 + i) (b ∷ bs) ≡ drop (suc i) bs
drop-two b bs i = let e : 2 + i ≡ suc (suc i) = omega arith in rw e refl

drop-suc-append : (xs ys : Bytes) (y : ℕ) → drop (suc (length xs)) (xs ++ y ∷ ys) ≡ ys
drop-suc-append [] ys y = refl
drop-suc-append (x ∷ xs) ys y = drop-suc-append xs ys y

get_or-length-append : (xs ys : Bytes) (y : ℕ) → get_or (xs ++ y ∷ ys) (length xs) 0 ≡ y
get_or-length-append [] ys y = refl
get_or-length-append (x ∷ xs) ys y = get_or-length-append xs ys y

-- Credentials that are accepted are a name of 1 to 32 bytes and a password of at most 64, each behind
-- its length, at the front of the payload: nothing behind it is read.
pub parse_wifi_settings_sound :
    (payload ssid pass : Bytes) (plen : ℕ)
    → plen ≤ length payload
    → parse_wifi_settings payload plen ≡ some (ssid, pass)
    → (rest : Bytes) × (payload ≡ length ssid ∷ (ssid ++ length pass ∷ (pass ++ rest)))
      × (1 ≤ length ssid)
      × (length ssid ≤ 32)
      × (length pass ≤ 64)
      × (length ssid + length pass + 2 ≤ plen)
unfolding parse_wifi_settings
parse_wifi_settings_sound [] ssid pass plen h e = ground arith
parse_wifi_settings_sound (sl ∷ body) ssid pass plen h e =
    let pl = get_or body sl 0 in
    let tail = drop (suc sl) body in
    let facts : (1 ≤ sl)
        × (sl ≤ 32)
        × (pl ≤ 64)
        × (sl + pl + 2 ≤ plen)
        × (ssid ≡ take sl body)
        × (pass ≡ take pl tail) =
      ground (arith, get_or-one sl body sl, drop-two sl body sl) in
    let (f₁, f₂, f₃, f₄, f₅, f₆) = facts in
    let split = take-drop sl body in
    let here = drop-get_or sl body (omega arith) in
    let size : length body ≡ sl + suc (length tail) = omega (
      arith,
      ap length split,
      ap length here,
      length-append (take sl body) (drop sl body),
      length-take sl body,
    ) in
    let l₁ : length ssid ≡ sl = omega (arith, ap length f₅, length-take sl body) in
    let l₂ : length pass ≡ pl = omega (arith, ap length f₆, length-take pl tail) in
    (
      drop pl tail,
      ground (arith, split, here, take-drop pl tail),
      omega arith,
      omega arith,
      omega arith,
      omega arith,
    )

-- A payload of a name of 1 to 32 bytes and a password of at most 64, each behind its length, is
-- accepted and gives the two, whatever stands behind them.
pub parse_wifi_settings_complete :
    (ssid pass rest : Bytes) (plen : ℕ)
    → 1 ≤ length ssid
    → length ssid ≤ 32
    → length pass ≤ 64
    → length ssid + length pass + 2 ≤ plen
    → parse_wifi_settings (length ssid ∷ (ssid ++ length pass ∷ (pass ++ rest))) plen
      ≡ some (ssid, pass)
unfolding parse_wifi_settings
parse_wifi_settings_complete ssid pass rest plen h₁ h₂ h₃ h₄ =
    let body = ssid ++ length pass ∷ (pass ++ rest) in
    ground (
      arith,
      get_or-one (length ssid) body (length ssid),
      drop-two (length ssid) body (length ssid),
      get_or-length-append ssid (pass ++ rest) (length pass),
      drop-suc-append ssid (pass ++ rest) (length pass),
      take-length-append ssid (length pass ∷ (pass ++ rest)),
      take-length-append pass rest,
    )

-- Strings on the wire, each cut to 255 bytes and behind its length.
abbrev pub counted : List Bytes → Bytes
counted [] = []
counted (s ∷ ss) =
    let sl = if ltb 255 (length s) then 255 else length s in (sl ∷ take sl s) ++ counted ss

length-take_le : (n : ℕ) (bs : Bytes) → n ≤ length bs → length (take n bs) ≡ n
length-take_le n bs h = omega (arith, length-take n bs)

length-cut :
    (s : Bytes) → let sl = if ltb 255 (length s) then 255 else length s in length (take sl s) ≡ sl
length-cut s = elim (Bool-cases (ltb 255 (length s))) [
  | inl long ↦ rw long (length-take_le 255 s (ground arith))
  | inr short ↦ rw short (length-take_le (length s) s (omega arith))
]

result_loop-counted :
    (ss : List Bytes) (written : Bytes)
    → length written + 2 ≤ max_data
    → result_loop written ss ≡ (
        if leb (length written + length (counted ss) + 2) max_data
        then some (written ++ counted ss)
        else none)
unfolding result_loop
result_loop-counted [] written h = ground (arith, append-nil written)
result_loop-counted (s ∷ ss) written h =
    let sl : ℕ = if ltb 255 (length s) then 255 else length s in
    let item = sl ∷ take sl s in
    elim (Bool-cases (ltb max_data (length written + 2 + 1 + sl))) [
      | inl over ↦ ground (arith, length-cut s, length-append item (counted ss))
      | inr fits ↦ ground (
        arith,
        length-cut s,
        length-append item (counted ss),
        length-append written item,
        result_loop-counted ss (written ++ item),
        append_assoc written item (counted ss),
      )
    ]

-- A result packet holds the command, the length of the rest, and the strings, each cut to 255 bytes
-- behind its length. It is built exactly when that data fits into 255 bytes and the packet into the
-- buffer.
pub build_rpc_result-wire :
    (cmd room : ℕ) (strs : List Bytes)
    → let bs = cmd ∷ length (counted strs) ∷ counted strs in
      build_rpc_result cmd strs room ≡ (
        if leb (length bs) max_data && leb (length bs + 11) room
        then some
            (wire version type_rpc_result bs (checksum version type_rpc_result bs) ++ b'\n' ∷ [])
        else none)
unfolding build_rpc_result
build_rpc_result-wire cmd room strs = ground (
  arith,
  result_loop-counted strs [],
  build-wire type_rpc_result (cmd ∷ length (counted strs) ∷ counted strs) room,
)

-- A call is taken from an RPC packet whose own length byte stays within it, and its payload is that
-- long at least.
pub rpc_command_sound :
    (p : Packet) (cmd plen : ℕ) (payload : Bytes)
    → p.len ≡ length p.bytes
    → rpc_command p ≡ some (cmd, payload, plen)
    → (p.type ≡ type_rpc) × (p.bytes ≡ cmd ∷ plen ∷ payload) × (plen ≤ length payload)
unfolding rpc_command
rpc_command_sound p cmd plen payload l e = go p.bytes refl
  where
    go :
        (bs : Bytes)
        → p.bytes ≡ bs
        → (p.type ≡ type_rpc) × (p.bytes ≡ cmd ∷ plen ∷ payload) × (plen ≤ length payload)
    go [] q = ground arith
    go (a ∷ []) q = ground arith
    go (a ∷ b ∷ rest) q = ground arith
