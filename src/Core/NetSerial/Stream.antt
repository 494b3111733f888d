-- ===== src/Core/NetSerial/Stream.antt =====
-- src/core/net_serial.cpp, the port as a whole: which frames of the computer put a packet into the queue of
-- the radio, and which end the network mode.
use project_voyager.Prelude.{
  ℕ, ◌+◌, ◌*◌, ◌≤◌, ◌<◌, ◌≡◌, refl, ◌∙◌, ◌≢◌, inl, inr, Bool, true, false, not, ◌&&◌, none, some,
  List, [], ◌∷◌, ◌++◌, append_assoc, append-nil, arith, leb, ◌==◌, if◌then◌else◌, Bool-cases, Bytes,
  length, get_or, All, length-append, IsByte,
}
use project_voyager.Lora.Slip.{reset, feed_all}
use project_voyager.Lora.Slip.RoundTrip.{stream, all_delivered, feed_all-stream}
use project_voyager.Core.NetSerial.Port.{net_feed_all, handle_frames, net_feed_all-frames}
use project_voyager.Lora.Radio.{QueueParam, Radio, send_queue_depth}
use project_voyager.Lora.Net.{net_ip_to_node, net_parse_send_to}
use project_voyager.Lora.Net.Laws.{get_or-IsByte}
use project_voyager.Core.NetSerial.{
  decoder_cap, NetSerial, net_leave, Step, handle_control, handle_packet, handle_frame,
}
use project_voyager.Core.NetSerial.Asked.{
  is_ipv4, item, by_node, by_address, asked, is_leave, any_leave, net_ipv4_ok-is_ipv4,
  net_ip_to_node-target, net_parse_send_to-tests, forward-item,
}

-- What a frame does to the queue of the radio and to the mode.
abbrev IsAsked : Bytes → NetSerial → Radio → Step → Type 0
IsAsked f s r x =
    (x.radio ≡ record r {
      send_packets = r.send_packets ++ (by_node r.node_id f ++ by_address r.node_id f);
    })
    × (x.net.active ≡ (s.active && not (is_leave f)))

abbrev packet_for : Bool → ℕ → ℕ → Bytes → Bool
packet_for checked me dst ip = checked && leb (length ip) 247 && not (dst == 0) && not (dst == me)

handle_control-send :
    (now a b hi lo node : ℕ) (ip : Bytes) (s : NetSerial) (r : Radio) (checked : Bool)
    → a ≡ 0
    → (checked ≡ true → 1 ≤ length ip)
    → length r.send_packets < send_queue_depth
    → net_parse_send_to (some (a ∷ b ∷ hi ∷ lo ∷ ip)) ≡ (
        if a == 0 && b == 3 && not (node == 0) && not (node == 65535) && checked
        then some (node, ip)
        else none)
    → let x = handle_control true now (a ∷ b ∷ hi ∷ lo ∷ ip) s r in
      (x.radio ≡ record r {
        send_packets =
            r.send_packets
            ++ (if a == 0 && b == 3 && not (node == 65535) && packet_for checked r.node_id node ip
                then item r.node_id node ip ∷ []
                else []);
      })
      × (x.net.active ≡ (s.active && not (a == 0 && b == 2)))
unfolding handle_control net_leave
handle_control-send now a b hi lo node ip s r checked zero_first long room parse =
    ground (
      arith,
      zero_first,
      long,
      parse,
      forward-item now node ip s r,
      room,
      append-nil r.send_packets,
    )

handle_control-IsAsked :
    (now a b hi lo : ℕ) (ip : Bytes) (s : NetSerial) (r : Radio)
    → All IsByte (a ∷ b ∷ hi ∷ lo ∷ ip)
    → a ≡ 0
    → length r.send_packets < send_queue_depth
    → ((handle_control true now (a ∷ b ∷ hi ∷ lo ∷ ip) s r).radio
        ≡ record r { send_packets = r.send_packets ++ by_node r.node_id (a ∷ b ∷ hi ∷ lo ∷ ip) })
      × ((handle_control true now (a ∷ b ∷ hi ∷ lo ∷ ip) s r).net.active
          ≡ (s.active && not (is_leave (a ∷ b ∷ hi ∷ lo ∷ ip))))
handle_control-IsAsked now a b hi lo ip s r h zero_first room =
    handle_control-send now a b hi lo (hi * 256 + lo) ip s r (is_ipv4 ip) zero_first
      (λ e. ground (arith, e)) room
      (net_parse_send_to-tests a b hi lo ip h.1.1.0 h.1.1.1.0 h.1.1.1.1)

-- A shorter control frame sends nothing.
short_control :
    (now : ℕ) (f : Bytes) (s : NetSerial) (r : Radio)
    → length f < 4
    → get_or f 0 0 ≡ 0
    → ((handle_control true now f s r).radio ≡ r)
      × ((handle_control true now f s r).net.active ≡ (s.active && not (is_leave f)))
      × (by_node r.node_id f ≡ [])
unfolding handle_control net_leave net_parse_send_to
short_control now [] s r h e = ground arith
short_control now (a ∷ []) s r h e = ground arith
short_control now (a ∷ b ∷ []) s r h e = ground (arith, e)
short_control now (a ∷ b ∷ c ∷ []) s r h e = ground (arith, e)
short_control now (a ∷ b ∷ c ∷ d ∷ f) s r h e = absurd (omega arith)

handle_packet-IsAsked :
    (now : ℕ) (f : Bytes) (s : NetSerial) (r : Radio)
    → All IsByte f
    → get_or f 0 0 ≢ 0
    → length r.send_packets < send_queue_depth
    → ((handle_packet true now f s r).radio
        ≡ record r { send_packets = r.send_packets ++ by_address r.node_id f })
      × ((handle_packet true now f s r).net.active ≡ s.active)
unfolding handle_packet
handle_packet-IsAsked now f s r h other room =
    let a = get_or f 16 0 in
    let b = get_or f 17 0 in
    let c = get_or f 18 0 in
    let d = get_or f 19 0 in
    let dst = net_ip_to_node-target a b c d (get_or-IsByte f 18 h) (get_or-IsByte f 19 h) in
    ground (
      arith,
      dst,
      net_ipv4_ok-is_ipv4 f h,
      forward-item now (net_ip_to_node a b c d) f s r,
      other,
      room,
      append-nil r.send_packets,
    )

not_control : (me : ℕ) (f : Bytes) → get_or f 0 0 ≢ 0 → (by_node me f ≡ []) × (is_leave f ≡ false)
not_control me [] h = (refl, refl)
not_control me (a ∷ []) h = (refl, refl)
not_control me (a ∷ b ∷ []) h = (refl, ground (arith, h))
not_control me (a ∷ b ∷ c ∷ []) h = (refl, ground (arith, h))
not_control me (a ∷ b ∷ hi ∷ lo ∷ ip) h =
    let other : (a == 0) ≡ false = ground (arith, h) in (rw other refl, rw other refl)

no_address : (me : ℕ) (f : Bytes) → get_or f 0 0 ≡ 0 → by_address me f ≡ []
no_address me f h = let control : (get_or f 0 0 == 0) ≡ true = ground (arith, h) in rw control refl

short-IsAsked :
    (now : ℕ) (f : Bytes) (s : NetSerial) (r : Radio)
    → length f < 4
    → get_or f 0 0 ≡ 0
    → ((handle_control true now f s r).radio
        ≡ record r { send_packets = r.send_packets ++ by_node r.node_id f })
      × ((handle_control true now f s r).net.active ≡ (s.active && not (is_leave f)))
short-IsAsked now f s r h e =
    let (same, mode, empty) = short_control now f s r h e in
    (same ∙ rw (empty, append-nil r.send_packets) refl, mode)

at_most_one : (t : Bool) (x : QueueParam) → length (if t then x ∷ [] else []) ≤ 1
at_most_one true x = omega arith
at_most_one false x = omega arith

length-by_node : (me : ℕ) (f : Bytes) → length (by_node me f) ≤ 1
length-by_node me (a ∷ b ∷ hi ∷ lo ∷ ip) = at_most_one _ _
length-by_node me [] = omega arith
length-by_node me (a ∷ []) = omega arith
length-by_node me (a ∷ b ∷ []) = omega arith
length-by_node me (a ∷ b ∷ c ∷ []) = omega arith

length-asked_one : (me : ℕ) (f : Bytes) → length (by_node me f ++ by_address me f) ≤ 1
length-asked_one me f = elim (Bool-cases (get_or f 0 0 == 0)) [
  | inl control ↦
      let first : get_or f 0 0 ≡ 0 = ground (arith, control) in
      rw (no_address me f first, append-nil (by_node me f)) (length-by_node me f)
  | inr packet ↦
      let first : get_or f 0 0 ≢ 0 = ground (arith, packet) in
      rw (not_control me f first).0 (at_most_one _ _)
]

control-IsAsked :
    (now : ℕ) (f : Bytes) (s : NetSerial) (r : Radio)
    → All IsByte f
    → get_or f 0 0 ≡ 0
    → length r.send_packets < send_queue_depth
    → ((handle_control true now f s r).radio
        ≡ record r { send_packets = r.send_packets ++ by_node r.node_id f })
      × ((handle_control true now f s r).net.active ≡ (s.active && not (is_leave f)))
control-IsAsked now (a ∷ b ∷ hi ∷ lo ∷ ip) s r h e room =
    handle_control-IsAsked now a b hi lo ip s r h e room
control-IsAsked now [] s r h e room = short-IsAsked now [] s r (omega arith) e
control-IsAsked now (a ∷ []) s r h e room = short-IsAsked now (a ∷ []) s r (omega arith) e
control-IsAsked now (a ∷ b ∷ []) s r h e room = short-IsAsked now (a ∷ b ∷ []) s r (omega arith) e
control-IsAsked now (a ∷ b ∷ c ∷ []) s r h e room =
    short-IsAsked now (a ∷ b ∷ c ∷ []) s r (omega arith) e

handle_frame-IsAsked :
    (now : ℕ) (f : Bytes) (s : NetSerial) (r : Radio)
    → All IsByte f
    → length r.send_packets < send_queue_depth
    → IsAsked f s r (handle_frame true now f s r)
unfolding handle_frame
handle_frame-IsAsked now f s r h room = elim (Bool-cases (get_or f 0 0 == 0)) [
  | inl control ↦
      let first : get_or f 0 0 ≡ 0 = ground (arith, control) in
      let (sent, mode) = control-IsAsked now f (record s { last_rx = now }) r h first room in
      rw (handle_frame, control, append-nil (by_node r.node_id f)) (sent, mode)
  | inr packet ↦
      let first : get_or f 0 0 ≢ 0 = ground (arith, packet) in
      let (sent, mode) = handle_packet-IsAsked now f (record s { last_rx = now }) r h first room in
      let (empty, stays) = not_control r.node_id f first in
      ground (arith, packet, empty, stays, sent, mode)
]

handle_frames-asked :
    (fs : List Bytes) (now : ℕ) (s : NetSerial) (r : Radio)
    → All (λ f. All IsByte f) fs
    → length r.send_packets + length fs ≤ send_queue_depth
    → ((handle_frames true now fs s r).radio
        ≡ record r { send_packets = r.send_packets ++ asked r.node_id fs })
      × ((handle_frames true now fs s r).net.active ≡ (s.active && not (any_leave fs)))
handle_frames-asked [] now s r h room = ground (arith, append-nil r.send_packets)
handle_frames-asked (f ∷ fs) now s r h room =
    let x = handle_frame true now f s r in
    let (sent, mode) = handle_frame-IsAsked now f s r h.0 (omega arith) in
    let one = by_node r.node_id f ++ by_address r.node_id f in
    let few = length-asked_one r.node_id f in
    let (later, ends) =
      handle_frames-asked fs now x.net x.radio h.1
        (rw sent (omega (arith, length-append r.send_packets one, few))) in
    (
      later ∙ rw sent (rw (append_assoc r.send_packets one (asked r.node_id fs)) refl),
      ground (arith, mode, ends),
    )

-- A frame of the computer: bytes, at least one, and no more than the decoder holds.
abbrev pub IsFrame : Bytes → Type 0
IsFrame f = All IsByte f × (1 ≤ length f) × (length f ≤ decoder_cap)

all_delivered-frames : (fs : List Bytes) → All IsFrame fs → all_delivered decoder_cap fs ≡ fs
all_delivered-frames [] h = refl
all_delivered-frames (f ∷ fs) h = ground (arith, h.0, all_delivered-frames fs h.1)

frames-IsByte : (fs : List Bytes) → All IsFrame fs → All (λ f. All IsByte f) fs
frames-IsByte [] h = tt
frames-IsByte (f ∷ fs) h = (h.0.0, frames-IsByte fs h.1)

-- With memory, an idle decoder and room for a packet of each frame, a stream of frames that is fed to the
-- port puts exactly these packets behind the queue of the radio, in their order: that of each frame
-- `00 03 [node] packet` for a single node, and that of each frame that is a packet for the node of its
-- destination address, as long as the packet has a sound IPv4 header, at most 247 bytes, and is not for
-- the board itself. Nothing else of the radio changes, and the network mode ends exactly when a
-- frame that begins `00 02` is among them.
pub net_feed_all-asked :
    (fs : List Bytes) (now : ℕ) (s : NetSerial) (r : Radio)
    → s.dec ≡ reset
    → All IsFrame fs
    → length r.send_packets + length fs ≤ send_queue_depth
    → let x = net_feed_all true now (stream fs) s r in
      (x.radio ≡ record r { send_packets = r.send_packets ++ asked r.node_id fs })
      × (x.net.active ≡ (s.active && not (any_leave fs)))
net_feed_all-asked fs now s r idle h room =
    let decoded : feed_all decoder_cap s.dec (stream fs) ≡ (reset, fs) =
      rw idle (feed_all-stream fs decoder_cap ∙ rw (all_delivered-frames fs h) refl) in
    rw (net_feed_all-frames (stream fs) true now s r, decoded)
      (handle_frames-asked fs now s r (frames-IsByte fs h) room)
