-- ===== src/Lora/Net/Laws.antt =====
-- src/lora/lora_proto.h, IPv4 over the radio: a node's address names the node, and payloads read back.
use Prim.Native.Nat.{bit_and}
use project_voyager.Prelude.{
  ℕ, zero, suc, ◌+◌, ◌*◌, ◌/◌, ◌%◌, ◌^◌, ◌≤◌, ◌<◌, ◌≡◌, refl, ◌≢◌, ◌↔◌, Bool, true, some, [], ◌∷◌,
  arith, ◌==◌, ==_iff, Bytes, length, get_or, drop, All, IsByte,
}
use project_voyager.Lora.Net.{
  net_prefix_a, net_prefix_b, net_hdr, net_broadcast, word16, net_fix_octet, net_node_id,
  net_ip_to_node, net_ipv4_ok, net_build, NetFrame, net_parse, net_parse_send_to,
}
use project_voyager.Lora.Frame.{max_payload, bytes}
use project_voyager.Prelude.Bits.{all_below, all_below_sound}

abbrev joins : ℕ → ℕ → Bool
joins hi lo = word16 hi lo == hi * 256 + lo

join_table : all_below 256 (λ hi. all_below 256 (joins hi)) ≡ true
unfolding all_below
join_table = refl

-- Two bytes joined by shift and `|` are the number that they spell.
pub word16-eq : (hi lo : ℕ) → hi < 256 → lo < 256 → word16 hi lo ≡ hi * 256 + lo
word16-eq hi lo a b = (==_iff _ _).0 (
    all_below_sound 256 (joins hi) lo
      (all_below_sound 256 (λ h. all_below 256 (joins h)) hi join_table a) b)

fix_bounds : (b : ℕ) → b < 256 → (1 ≤ net_fix_octet b) × (net_fix_octet b ≤ 254)
unfolding net_fix_octet
fix_bounds b h = ground arith

-- The address 10.73.X.Y of a board, taken from any MAC, leads to that board's node number, which is
-- neither 0 nor the broadcast number, and has no octet 0 or 255.
pub net_ip_to_node-node_id :
    (m₀ m₁ m₂ m₃ m₄ m₅ : ℕ)
    → IsByte m₄
    → IsByte m₅
    → let mac = m₀ ∷ m₁ ∷ m₂ ∷ m₃ ∷ m₄ ∷ m₅ ∷ [] in
      let node = net_node_id mac in
      (net_ip_to_node net_prefix_a net_prefix_b (node / 256) (node % 256) ≡ node)
      × (node ≢ 0)
      × (node ≢ net_broadcast)
      × (1 ≤ node / 256)
      × (node / 256 ≤ 254)
      × (1 ≤ node % 256)
      × (node % 256 ≤ 254)
unfolding net_node_id net_ip_to_node
net_ip_to_node-node_id m₀ m₁ m₂ m₃ m₄ m₅ h k =
    let x = net_fix_octet m₄ in
    let y = net_fix_octet m₅ in
    let bx = fix_bounds m₄ h in
    let by = fix_bounds m₅ k in
    let e = word16-eq x y (omega arith) (omega arith) in
    let hi : word16 x y / 256 ≡ x = omega arith in
    let lo : word16 x y % 256 ≡ y = omega arith in ground arith

-- Exactly the addresses 10.73.X.Y with X and Y in 1..254 lead to a single node, and two of them never
-- to the same one.
pub net_ip_to_node-unicast :
    (a b c d : ℕ)
    → IsByte a
    → IsByte b
    → IsByte c
    → IsByte d
    → ((net_ip_to_node a b c d ≢ 0) × (net_ip_to_node a b c d ≢ net_broadcast)) ↔ (
        (a ≡ net_prefix_a)
        × (b ≡ net_prefix_b)
        × (1 ≤ c)
        × (c ≤ 254)
        × (1 ≤ d)
        × (d ≤ 254)
        × (net_ip_to_node a b c d ≡ c * 256 + d))
unfolding net_ip_to_node
net_ip_to_node-unicast a b c d ha hb hc hd = ground (arith, word16-eq c d hc hd)

abbrev low_nibble : ℕ → Bool
low_nibble x = bit_and x 0x0F == x % 16

nibble_table : all_below 256 low_nibble ≡ true
unfolding all_below
nibble_table = refl

-- What the minimal IPv4 check accepts: version 4, a header of at least 20 bytes within the packet,
-- and a length field that is the length of the packet.
pub net_ipv4_ok_iff :
    (ip : Bytes)
    → IsByte (get_or ip 0 0)
    → IsByte (get_or ip 2 0)
    → IsByte (get_or ip 3 0)
    → (net_ipv4_ok (bytes ip) ≡ true) ↔ (
        (20 ≤ length ip)
        × (get_or ip 0 0 / 16 ≡ 4)
        × (5 ≤ get_or ip 0 0 % 16)
        × (get_or ip 0 0 % 16 * 4 ≤ length ip)
        × (get_or ip 2 0 * 256 + get_or ip 3 0 ≡ length ip))
unfolding net_ipv4_ok
net_ipv4_ok_iff ip h₀ h₂ h₃ =
    let first : bit_and (get_or ip 0 0) 0x0F ≡ get_or ip 0 0 % 16 =
      (==_iff _ _).0 (all_below_sound 256 low_nibble (get_or ip 0 0) nibble_table h₀) in
    ground (arith, word16-eq (get_or ip 2 0) (get_or ip 3 0) h₂ h₃)

word16_bytes : (n : ℕ) → n < 65536 → word16 (n / 2 ^ 8 % 256) (n % 256) ≡ n
word16_bytes n h = omega (arith, word16-eq (n / 2 ^ 8 % 256) (n % 256) (omega arith) (omega arith))

-- A payload that was built parses to its destination, source and packet, and fits the radio and the
-- buffer, provided the packet passes the IPv4 check, the numbers have 16 bits, neither is 0, and the
-- source is not the broadcast number.
pub parse-build :
    (dst src cap : ℕ) (ip payload : Bytes)
    → net_build dst src (bytes ip) cap ≡ some payload
    → dst < 65536
    → src < 65536
    → dst ≢ 0
    → src ≢ 0
    → src ≢ net_broadcast
    → net_ipv4_ok (bytes ip) ≡ true
    → (net_parse (some payload) ≡ some (record { dst = dst; src = src; ip = ip }))
      × (length payload ≡ net_hdr + length ip)
      × (length payload ≤ max_payload)
      × (length payload ≤ cap)
unfolding net_build net_parse
parse-build dst src cap [] payload e hd hs nd ns nb ok = ground arith
parse-build dst src cap (x ∷ ip) payload e hd hs nd ns nb ok =
    ground (arith, word16_bytes dst hd, word16_bytes src hs)

-- What parses came from a node, goes to a node or to all, and carries a checked IPv4 packet that is
-- the rest of the payload.
pub net_parse_sound :
    (payload : Bytes) (f : NetFrame)
    → net_parse (some payload) ≡ some f
    → (f.src ≢ 0)
      × (f.src ≢ net_broadcast)
      × (f.dst ≢ 0)
      × (net_ipv4_ok (bytes f.ip) ≡ true)
      × (f.ip ≡ drop net_hdr payload)
unfolding net_parse
net_parse_sound (a ∷ b ∷ c ∷ d ∷ x ∷ ip) f e = ground arith
net_parse_sound [] f e = cc
net_parse_sound (a ∷ []) f e = cc
net_parse_sound (a ∷ b ∷ []) f e = cc
net_parse_sound (a ∷ b ∷ c ∷ []) f e = cc
net_parse_sound (a ∷ b ∷ c ∷ d ∷ []) f e = cc

-- An IPv4 packet whose header says that it is all of `ip`: version 4, a header of at least five words
-- within the packet, and a length field that is the length of the packet.
abbrev pub IsIpv4 : Bytes → Type 0
IsIpv4 ip =
    (20 ≤ length ip)
    × (get_or ip 0 0 / 16 ≡ 4)
    × (5 ≤ get_or ip 0 0 % 16)
    × (get_or ip 0 0 % 16 * 4 ≤ length ip)
    × (get_or ip 2 0 * 256 + get_or ip 3 0 ≡ length ip)

pub get_or-IsByte : (ip : Bytes) (i : ℕ) → All IsByte ip → IsByte (get_or ip i 0)
get_or-IsByte [] i h = omega arith
get_or-IsByte (b ∷ bs) zero h = h.0
get_or-IsByte (b ∷ bs) (suc i) h = get_or-IsByte bs i h.1

long_send_to :
    (a b hi lo : ℕ) (ip : Bytes) (node : ℕ) (packet : Bytes)
    → All IsByte (a ∷ b ∷ hi ∷ lo ∷ ip)
    → (net_parse_send_to (some (a ∷ b ∷ hi ∷ lo ∷ ip)) ≡ some (node, packet)) ↔ (
        (a ∷ b ∷ hi ∷ lo ∷ ip ≡ 0x00 ∷ 0x03 ∷ node / 256 ∷ node % 256 ∷ packet)
        × (node ≢ 0)
        × (node ≢ 0xFFFF)
        × (node < 65536)
        × IsIpv4 packet)
unfolding net_parse_send_to
long_send_to a b hi lo ip node packet h =
    let word = word16-eq hi lo h.1.1.0 h.1.1.1.0 in
    let bs : All IsByte ip = h.1.1.1.1 in
    let ok =
      net_ipv4_ok_iff ip (get_or-IsByte ip 0 bs) (get_or-IsByte ip 2 bs) (get_or-IsByte ip 3 bs) in
    ground (arith, word, ok, h)

-- A frame of bytes is understood as "send this packet to that node" exactly when it is `00 03`, the
-- node in two bytes, high byte first, neither 0 nor the broadcast number, and an IPv4 packet whose
-- header fits all that follows; then it gives that node and packet.
pub net_parse_send_to_iff :
    (frame : Bytes) (node : ℕ) (packet : Bytes)
    → All IsByte frame
    → (net_parse_send_to (some frame) ≡ some (node, packet)) ↔ (
        (frame ≡ 0x00 ∷ 0x03 ∷ node / 256 ∷ node % 256 ∷ packet)
        × (node ≢ 0)
        × (node ≢ 0xFFFF)
        × (node < 65536)
        × IsIpv4 packet)
unfolding net_parse_send_to
net_parse_send_to_iff (a ∷ b ∷ hi ∷ lo ∷ ip) node packet h = long_send_to a b hi lo ip node packet h
net_parse_send_to_iff [] node packet h = ground arith
net_parse_send_to_iff (a ∷ []) node packet h = ground arith
net_parse_send_to_iff (a ∷ b ∷ []) node packet h = ground arith
net_parse_send_to_iff (a ∷ b ∷ c ∷ []) node packet h = ground arith
