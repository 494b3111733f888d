-- ===== src/Lora/Carry.antt =====
-- src/core/net_serial.cpp and src/lora/lora_support.cpp, an IPv4 packet on its whole way: from the port of
-- one computer over the radio to the port of another.

use project_voyager.Prelude.{
  ℕ, ◌/◌, ◌%◌, ◌^◌, ◌≤◌, ◌<◌, ◌≡◌, ◌∙◌, ◌≢◌, true, some, [], ◌∷◌, ◌++◌, arith, Bytes, length,
  get_or,
}
use project_voyager.Lora.Frame.{t_net, max_payload, bytes}
use project_voyager.Core.Json.{Json}
use project_voyager.Core.NetSerial.{decoder_cap, NetSerial, forward, handle_packet, handle_frame}
use project_voyager.Core.NetSerial.Port.{net_feed_all, net_feed_all-frames}
use project_voyager.Lora.Net.{net_max_ip, net_broadcast, net_ip_to_node, net_ipv4_ok, net_build}
use project_voyager.Lora.Slip.{reset, feed_all}
use project_voyager.Lora.Slip.RoundTrip.{framed, feed_all-framed}
use project_voyager.Lora.Radio.{send_queue_depth, QueueParam, Radio, lora_net_send}

-- A node number that a packet may come from.
abbrev pub IsNode : ℕ → Type 0
IsNode n = (n < 65536) × (n ≢ 0) × (n ≢ net_broadcast)

-- A packet for another node that fits the radio.
pub record Sendable (src dst : ℕ) (ip : Bytes) : Type 0 where
  pub from : IsNode src
  pub to : IsNode dst
  pub apart : dst ≢ src
  pub well_formed : net_ipv4_ok (bytes ip) ≡ true
  pub short : length ip ≤ net_max_ip
  pub destination :
      net_ip_to_node (get_or ip 16 0) (get_or ip 17 0) (get_or ip 18 0) (get_or ip 19 0) ≡ dst

-- The payload of the radio's frame: both node numbers and the packet.
abbrev pub net_payload : ℕ → ℕ → Bytes → Bytes
net_payload dst src ip = dst / 2 ^ 8 % 256 ∷ dst % 256 ∷ src / 2 ^ 8 % 256 ∷ src % 256 ∷ ip

abbrev pub net_item : ℕ → ℕ → Bytes → QueueParam
net_item dst src ip = record { type = t_net; message = net_payload dst src ip; id = 0 }

ipv4_first : (ip : Bytes) → net_ipv4_ok (bytes ip) ≡ true → (20 ≤ length ip) × (get_or ip 0 0 ≢ 0)
unfolding net_ipv4_ok
ipv4_first ip h = ground (arith, h)

built :
    (src dst : ℕ) (ip : Bytes)
    → Sendable src dst ip
    → net_build dst src (bytes ip) max_payload ≡ some (net_payload dst src ip)
unfolding net_build
built src dst ip k = ground (arith, k.short, ipv4_first ip k.well_formed)

-- Handing the packet to the radio.
lora_net_send_queues :
    (r : Radio) (dst : ℕ) (ip : Bytes)
    → Sendable r.node_id dst ip
    → length r.send_packets < send_queue_depth
    → lora_net_send true r dst ip
      ≡ (record r { send_packets = r.send_packets ++ net_item dst r.node_id ip ∷ [] }, true)
unfolding lora_net_send
lora_net_send_queues r dst ip k room = ground (arith, room, built r.node_id dst ip k)

handle_frame-forward :
    (now dst : ℕ) (ip : Bytes) (s : NetSerial) (r : Radio)
    → Sendable r.node_id dst ip
    → handle_frame true now ip s r ≡ forward true now dst ip (record s { last_rx = now }) r
unfolding handle_frame handle_packet
handle_frame-forward now dst ip s r k =
    ground
      (arith, k.short, k.well_formed, k.apart, k.to, k.destination, ipv4_first ip k.well_formed)

forward_queues :
    (now dst : ℕ) (ip : Bytes) (s : NetSerial) (r : Radio)
    → Sendable r.node_id dst ip
    → length r.send_packets < send_queue_depth
    → (forward true now dst ip s r).radio
      ≡ record r { send_packets = r.send_packets ++ net_item dst r.node_id ip ∷ [] }
unfolding forward
forward_queues now dst ip s r k room = ground (arith, lora_net_send_queues r dst ip k room)

-- From the port to the queue of the radio.
pub net_feed_all-queues :
    (now dst : ℕ) (ip : Bytes) (s : NetSerial) (r : Radio)
    → s.dec ≡ reset
    → Sendable r.node_id dst ip
    → length r.send_packets < send_queue_depth
    → (net_feed_all true now (framed ip) s r).radio
      ≡ record r { send_packets = r.send_packets ++ net_item dst r.node_id ip ∷ [] }
net_feed_all-queues now dst ip s r e k room =
    let one : feed_all decoder_cap s.dec (framed ip) ≡ (reset, ip ∷ []) = rw e (
      feed_all-framed decoder_cap reset ip
      ∙ ground (arith, k.short, ipv4_first ip k.well_formed)) in
    rw (net_feed_all-frames (framed ip) true now s r, one, handle_frame-forward now dst ip s r k)
      (forward_queues now dst ip (record s { last_rx = now }) r k room)
