-- ===== src/Lora/Net.antt =====
-- src/lora/lora_proto.h, IPv4 over the radio: node numbers, addresses, the T_NET payload and the control
-- frames of the USB link.
pub mod Laws
use Prim.Native.Nat.{bit_and, bit_or}
use project_voyager.Prelude.{
  ℕ, zero, suc, ◌+◌, ◌-◌, ◌*◌, ◌/◌, ◌%◌, ◌^◌, ◌≤◌, ◌<◌, ◌≡◌, refl, sym, ap, ◌∙◌, ◌≢◌, ◌↔◌, ◌⊎◌, inl,
  inr, Bool, true, false, not, ◌&&◌, ◌||◌, Option, none, some, List, [], ◌∷◌, ◌++◌, map,
  append_assoc, append-nil, arith, ltb, leb, ◌==◌, ◌!=◌, if◌then◌else◌, is_some, ==_iff, Bool-cases,
  Option-cases, Bytes, codes, length, get_elem?, get_or, set, take, drop, replicate, All,
  length-append, take-length-append, drop-length-append, length-set, length-take, get_or-set_self,
  get_or-set_ne, IsByte, str_eq, str_eq_iff, str_eq_refl,
}
use project_voyager.Lora.Frame.{max_payload, Span, null, bytes, span_len, is_null, span_bytes}

abbrev pub net_prefix_a : ℕ
net_prefix_a = 10

abbrev pub net_prefix_b : ℕ
net_prefix_b = 73

abbrev pub net_hdr : ℕ
net_hdr = 4

abbrev pub net_max_ip : ℕ
net_max_ip = max_payload - net_hdr

abbrev pub net_broadcast : ℕ
net_broadcast = 0xFFFF

-- `(hi << 8) | lo`, of two bytes.
abbrev pub word16 : ℕ → ℕ → ℕ
word16 hi lo = bit_or (hi * 256) lo

unfoldable pub net_fix_octet : ℕ → ℕ
net_fix_octet b = if b == 0 then 1 else (if b == 255 then 254 else b)

-- `mac` is the array of six bytes.
unfoldable pub net_node_id : Bytes → ℕ
unfolding net_fix_octet
net_node_id mac = word16 (net_fix_octet (get_or mac 4 0)) (net_fix_octet (get_or mac 5 0))

-- `ip` is the array of four bytes; 0 stands for "not ours".
unfoldable pub net_ip_to_node : ℕ → ℕ → ℕ → ℕ → ℕ
net_ip_to_node a b c d =
    if a == 255 && b == 255 && c == 255 && d == 255
    then net_broadcast
    else if a != net_prefix_a || b != net_prefix_b
    then 0
    else if c == 255 && d == 255
    then net_broadcast
    else if c == 0 || c == 255 || d == 0 || d == 255
    then 0
    else word16 c d

unfoldable pub net_ipv4_ok : Span → Bool
net_ipv4_ok (null n) = false
net_ipv4_ok (bytes ip) =
    let len = length ip in
    let first = get_or ip 0 0 in
    if ltb len 20 || first / 2 ^ 4 != 4
    then false
    else let ihl = bit_and first 0x0F * 4 in
      let total = word16 (get_or ip 2 0) (get_or ip 3 0) in
      leb 20 ihl && leb ihl total && total == len

-- `none` is the result 0. The output buffer holds `cap` bytes.
unfoldable pub net_build : ℕ → ℕ → Span → ℕ → Option Bytes
net_build dst src ip cap =
    let len = span_len ip in
    if len == 0 || ltb net_max_ip len || ltb cap (net_hdr + len) || is_null ip
    then none
    else some (dst / 2 ^ 8 % 256 ∷ dst % 256 ∷ src / 2 ^ 8 % 256 ∷ src % 256 ∷ span_bytes ip)

pub record NetFrame : Type 0 where
  pub dst : ℕ
  pub src : ℕ
  pub ip : Bytes

-- The result `true` with the frame is `some`. (After `false` the source's callers do not read it.)
unfoldable pub net_parse : Option Bytes → Option NetFrame
unfolding net_ipv4_ok
net_parse (some (a ∷ b ∷ c ∷ d ∷ x ∷ ip)) =
    let dst = word16 a b in
    let src = word16 c d in
    if src != 0 && src != net_broadcast && dst != 0 && net_ipv4_ok (bytes (x ∷ ip))
    then some (record { dst = dst; src = src; ip = x ∷ ip })
    else none
net_parse _ = none

unfoldable pub net_dedup_key : ℕ → ℕ
net_dedup_key src = bit_or 0x4E450000 src

abbrev pub net_ctl_send_to : ℕ
net_ctl_send_to = 0x03

-- `00 03 [node hi][node lo]` and an IPv4 packet: the node and the packet.
unfoldable pub net_parse_send_to : Option Bytes → Option (ℕ × Bytes)
unfolding net_ipv4_ok
net_parse_send_to (some (a ∷ b ∷ hi ∷ lo ∷ ip)) =
    if a != 0x00 || b != net_ctl_send_to
    then none
    else let node = word16 hi lo in
      if node == 0 || node == net_broadcast
      then none
      else if net_ipv4_ok (bytes ip)
      then some (node, ip)
      else none
net_parse_send_to _ = none
