-- ===== src/Core/NetSerial/Asked.antt =====
-- src/core/net_serial.cpp, what the frames of the computer ask for: the packets for the queue of the radio.
use project_voyager.Prelude.{
  ℕ, ◌+◌, ◌*◌, ◌/◌, ◌%◌, ◌^◌, ◌≤◌, ◌<◌, ◌≡◌, Bool, true, false, not, ◌&&◌, ◌||◌, none, some, List,
  [], ◌∷◌, ◌++◌, arith, leb, ◌==◌, if◌then◌else◌, Bytes, length, get_or, All, IsByte,
}
use project_voyager.Lora.Frame.{bytes, t_net}
use project_voyager.Lora.Radio.{QueueParam, Radio, send_queue_depth, lora_net_send}
use project_voyager.Lora.Net.{net_ipv4_ok, net_ip_to_node, net_build, net_parse_send_to}
use project_voyager.Lora.Net.Laws.{word16-eq, net_ipv4_ok_iff, get_or-IsByte}
use project_voyager.Core.NetSerial.{NetSerial, maybe_report_busy, forward}

-- An IPv4 header that fits the whole packet.
abbrev pub is_ipv4 : Bytes → Bool
is_ipv4 ip =
    leb 20 (length ip)
    && get_or ip 0 0 / 16 == 4
    && leb 5 (get_or ip 0 0 % 16)
    && leb (get_or ip 0 0 % 16 * 4) (length ip)
    && get_or ip 2 0 * 256 + get_or ip 3 0 == length ip

abbrev pub is_host : ℕ → Bool
is_host c = leb 1 c && leb c 254

-- The node that an address names: 10.73.X.Y is X * 256 + Y, both broadcast addresses are 65535, and any
-- other address is 0.
abbrev pub target : ℕ → ℕ → ℕ → ℕ → ℕ
target a b c d =
    if a == 255 && b == 255 && c == 255 && d == 255 || a == 10 && b == 73 && c == 255 && d == 255
    then 65535
    else if a == 10 && b == 73 && is_host c && is_host d
    then c * 256 + d
    else 0

-- A packet that a node hands to the radio: to a node, not to itself, and short enough.
abbrev pub carried : ℕ → ℕ → Bytes → Bool
carried me dst ip = is_ipv4 ip && leb (length ip) 247 && not (dst == 0) && not (dst == me)

abbrev pub item : ℕ → ℕ → Bytes → QueueParam
item me dst ip = record {
  type = t_net;
  message = dst / 2 ^ 8 % 256 ∷ dst % 256 ∷ me / 2 ^ 8 % 256 ∷ me % 256 ∷ ip;
  id = 0;
}

-- The control frame `00 03 [node] packet`, for a single node.
abbrev pub by_node : ℕ → Bytes → List QueueParam
by_node me (a ∷ b ∷ hi ∷ lo ∷ ip) =
    if a == 0 && b == 3 && not (hi * 256 + lo == 65535) && carried me (hi * 256 + lo) ip
    then item me (hi * 256 + lo) ip ∷ []
    else []
by_node me _ = []

-- A frame that is a packet itself, for the node of its destination address.
abbrev pub by_address : ℕ → Bytes → List QueueParam
by_address me f =
    let dst = target (get_or f 16 0) (get_or f 17 0) (get_or f 18 0) (get_or f 19 0) in
    if not (get_or f 0 0 == 0) && carried me dst f then item me dst f ∷ [] else []

abbrev pub asked : ℕ → List Bytes → List QueueParam
asked me [] = []
asked me (f ∷ fs) = (by_node me f ++ by_address me f) ++ asked me fs

-- The control frame that ends the network mode.
abbrev pub is_leave : Bytes → Bool
is_leave (a ∷ b ∷ rest) = a == 0 && b == 2
is_leave _ = false

abbrev pub any_leave : List Bytes → Bool
any_leave [] = false
any_leave (f ∷ fs) = is_leave f || any_leave fs

pub net_ipv4_ok-is_ipv4 : (ip : Bytes) → All IsByte ip → net_ipv4_ok (bytes ip) ≡ is_ipv4 ip
net_ipv4_ok-is_ipv4 ip h =
    let ok =
      net_ipv4_ok_iff ip (get_or-IsByte ip 0 h) (get_or-IsByte ip 2 h) (get_or-IsByte ip 3 h) in
    ground (arith, ok)

pub net_ip_to_node-target :
    (a b c d : ℕ) → IsByte c → IsByte d → net_ip_to_node a b c d ≡ target a b c d
unfolding net_ip_to_node
net_ip_to_node-target a b c d h k = ground (arith, word16-eq c d h k)

pub net_parse_send_to-tests :
    (a b hi lo : ℕ) (ip : Bytes)
    → IsByte hi
    → IsByte lo
    → All IsByte ip
    → net_parse_send_to (some (a ∷ b ∷ hi ∷ lo ∷ ip)) ≡ (
        if a == 0
          && b == 3
          && not (hi * 256 + lo == 0)
          && not (hi * 256 + lo == 65535)
          && is_ipv4 ip
        then some (hi * 256 + lo, ip)
        else none)
unfolding net_parse_send_to
net_parse_send_to-tests a b hi lo ip h k bs =
    let node = word16-eq hi lo h k in
    let ok = net_ipv4_ok-is_ipv4 ip bs in rw (node, ok) (ground arith)

pub forward-item :
    (now dst : ℕ) (ip : Bytes) (s : NetSerial) (r : Radio)
    → 1 ≤ length ip
    → length ip ≤ 247
    → length r.send_packets < send_queue_depth
    → ((forward true now dst ip s r).radio
        ≡ record r { send_packets = r.send_packets ++ item r.node_id dst ip ∷ [] })
      × ((forward true now dst ip s r).net.active ≡ s.active)
unfolding forward lora_net_send net_build maybe_report_busy
forward-item now dst ip s r h k room = ground (arith, h, k, room)
