-- ===== src/Improv.antt =====
-- src/core/improv.h: Improv Serial packets, `"IMPROV" version type length data checksum`, the parser that
-- takes a byte at a time, and the contents of remote procedure calls.
pub mod Parsing
pub mod Calls
use project_voyager.Prelude.{
  ℕ, zero, suc, ◌+◌, ◌-◌, ◌*◌, ◌/◌, ◌%◌, ◌^◌, ◌≤◌, ◌<◌, ◌≡◌, refl, sym, ap, ◌∙◌, ◌≢◌, ◌↔◌, ◌⊎◌, inl,
  inr, Bool, true, false, not, ◌&&◌, ◌||◌, Option, none, some, List, [], ◌∷◌, ◌++◌, map,
  append_assoc, append-nil, arith, ltb, leb, ◌==◌, ◌!=◌, if◌then◌else◌, is_some, ==_iff, Bool-cases,
  Option-cases, Bytes, codes, length, get_elem?, get_or, set, take, drop, replicate, All,
  length-append, take-length-append, drop-length-append, length-set, length-take, get_or-set_self,
  get_or-set_ne, IsByte, str_eq, str_eq_iff, str_eq_refl,
}

abbrev pub version : ℕ
version = 1

abbrev pub type_current_state : ℕ
type_current_state = 0x01

abbrev pub type_error_state : ℕ
type_error_state = 0x02

abbrev pub type_rpc : ℕ
type_rpc = 0x03

abbrev pub type_rpc_result : ℕ
type_rpc_result = 0x04

abbrev pub max_data : ℕ
max_data = 255

abbrev pub u32_mod : ℕ
u32_mod = 2 ^ 32

abbrev pub header : Bytes
header = codes "IMPROV"

-- `bytes` is `data[0 .. got)`: the bytes behind those received are never read.
pub record Packet : Type 0 where
  pub type : ℕ
  pub len : ℕ
  pub bytes : Bytes

-- `got_` is the length of `pkt.bytes`.
pub record Parser : Type 0 where
  pub pos : ℕ
  pub version : ℕ
  pub sum : ℕ
  pub pkt : Packet

-- The results of `feed`: 0, -1, and 1 with the packet in `out`.
pub data Fed : Type 0 where
  more bad : Fed
  packet : Packet → Fed

-- The sum of a run of bytes.
unfoldable pub sum_bytes : Bytes → ℕ
sum_bytes [] = 0
sum_bytes (b ∷ bs) = b + sum_bytes bs

abbrev add_sum : ℕ → ℕ → ℕ
add_sum sum b = (sum + b) % u32_mod

feed_header : Parser → ℕ → Parser × Fed
unfolding sum_bytes
feed_header p b =
    let pos = if b == get_or header p.pos 0 then p.pos + 1 else (if b == b'I' then 1 else 0) in
    (record p { pos = pos; sum = sum_bytes (take pos header) }, more)

-- The last byte: `sum & 0xFF` is `sum % 256`.
feed_checksum : Parser → ℕ → Parser × Fed
feed_checksum p b =
    (record p { pos = 0 }, if b != p.sum % 256 || p.version != version then bad else packet p.pkt)

unfoldable pub feed : Parser → ℕ → Parser × Fed
unfolding feed_header feed_checksum
feed p b =
    if ltb p.pos 6
    then feed_header p b
    else if p.pos == 6
    then (record p { version = b; sum = add_sum p.sum b; pos = p.pos + 1 }, more)
    else if p.pos == 7
    then (
      record p {
        pkt = record { type = b; len = p.pkt.len; bytes = p.pkt.bytes };
        sum = add_sum p.sum b;
        pos = p.pos + 1;
      },
      more,
    )
    else if p.pos == 8
    then (
      record p {
        pkt = record { type = p.pkt.type; len = b; bytes = [] };
        sum = add_sum p.sum b;
        pos = p.pos + 1;
      },
      more,
    )
    else if ltb (length p.pkt.bytes) p.pkt.len
    then (
      record p {
        pkt = record { type = p.pkt.type; len = p.pkt.len; bytes = p.pkt.bytes ++ b ∷ [] };
        sum = add_sum p.sum b;
      },
      more,
    )
    else feed_checksum p b

abbrev pub noted : Fed → List Fed → List Fed
noted more rest = rest
noted r rest = r ∷ rest

-- A run of `feed` over a stream, with its results other than 0.
unfoldable pub feed_all : Parser → Bytes → Parser × List Fed
unfolding feed
feed_all p [] = (p, [])
feed_all p (b ∷ bs) =
    let (p', r) = feed p b in let (last, results) = feed_all p' bs in (last, noted r results)

-- The packet before the checksum.
abbrev pub body : ℕ → Bytes → Bytes
body type bytes = header ++ (version ∷ type ∷ length bytes % 256 ∷ bytes)

-- `none` is the result 0.
unfoldable pub build : ℕ → Bytes → ℕ → Option Bytes
unfolding sum_bytes
build type bytes cap =
    let len = length bytes in
    if ltb max_data len || ltb cap (6 + 3 + len + 2)
    then none
    else some (body type bytes ++ (sum_bytes (body type bytes) % 256 ∷ b'\n' ∷ []))

unfoldable pub build_state : ℕ → ℕ → Option Bytes
unfolding build
build_state state cap = build type_current_state (state ∷ []) cap

unfoldable pub build_error : ℕ → ℕ → Option Bytes
unfolding build
build_error err cap = build type_error_state (err ∷ []) cap

-- The loop of `build_rpc_result` over the strings; `strs[i]` null is the empty string. `written` is
-- `data[2 .. d)`.
result_loop : Bytes → List Bytes → Option Bytes
result_loop written [] = some written
result_loop written (s ∷ rest) =
    let sl = if ltb 255 (length s) then 255 else length s in
    let next = result_loop (written ++ (sl ∷ take sl s)) rest in
    if ltb max_data (length written + 2 + 1 + sl) then none else next

unfoldable pub build_rpc_result : ℕ → List Bytes → ℕ → Option Bytes
unfolding result_loop build
build_rpc_result cmd strs cap = elim (result_loop [] strs) [
  | none ↦ none
  | some written ↦ build type_rpc_result (cmd ∷ (length written % 256) ∷ written) cap
]

-- The command, the payload from its first byte on, and the payload's length.
unfoldable pub rpc_command : Packet → Option (ℕ × Bytes × ℕ)
rpc_command p =
    let second = get_or p.bytes 1 0 in
    if p.type != type_rpc || ltb p.len 2
    then none
    else if ltb p.len (second + 2)
    then none
    else some (get_or p.bytes 0 0, drop 2 p.bytes, second)

-- The network name and the password.
unfoldable pub parse_wifi_settings : Bytes → ℕ → Option (Bytes × Bytes)
parse_wifi_settings payload plen =
    let sl = get_or payload 0 0 in
    let pl = get_or payload (1 + sl) 0 in
    if ltb plen 2
    then none
    else if ltb sl 1 || ltb 32 sl || ltb plen (1 + sl + 1)
    then none
    else if ltb 64 pl || ltb plen (1 + sl + 1 + pl)
    then none
    else some (take sl (drop 1 payload), take pl (drop (2 + sl) payload))
