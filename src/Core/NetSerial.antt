-- ===== src/Core/NetSerial.antt =====
-- src/core/net_serial.cpp, network mode on the USB port: packets of the computer go to the radio, and
-- packets of the radio to the computer. `now` is the clock `millis()`, and the lines of the debug log are
-- left out.
pub mod Port
pub mod Asked
pub mod Stream
use project_voyager.Prelude.{
  ℕ, ◌+◌, ◌-◌, ◌*◌, ◌%◌, ◌^◌, Bool, true, false, not, ◌&&◌, ◌||◌, none, some, List, [], ◌∷◌, ◌++◌,
  ltb, leb, ◌==◌, if◌then◌else◌, Bytes, length, get_or, set,
}
use project_voyager.Prelude.Int.{ℤ}
use project_voyager.Lora.Frame.{bytes}
use project_voyager.Lora.Net.{net_max_ip, net_ip_to_node, net_ipv4_ok, net_parse_send_to}
use project_voyager.Lora.Slip.{slip_end, slip_encode, SlipDecoder, reset, feed}
use project_voyager.Lora.Radio.{Radio, lora_net_send}

abbrev pub u32_mod : ℕ
u32_mod = 2 ^ 32

abbrev pub decoder_cap : ℕ
decoder_cap = 600

abbrev pub net_rx_queue : ℕ
net_rx_queue = 8

abbrev pub net_peers : ℕ
net_peers = 8

abbrev pub idle_timeout_ms : ℕ
idle_timeout_ms = 30000

abbrev pub busy_depth : ℕ
busy_depth = 6

pub record Peer : Type 0 where
  pub node : ℕ
  pub rssi : ℤ
  pub seen : ℕ

-- `last_busy` is the local `last` of `maybe_report_busy`, and `rx_q` holds the packets that the items of
-- the queue stand for; it exists, as after a successful `net_init`.
pub record NetSerial : Type 0 where
  pub dec : SlipDecoder
  pub active : Bool
  pub last_rx : ℕ
  pub tx : ℕ
  pub rx : ℕ
  pub drop : ℕ
  pub rx_q : List Bytes
  pub peers : List Peer
  pub last_busy : ℕ

-- What the PC is sent.
unfoldable pub net_enter : Bool → ℕ → NetSerial → NetSerial × Bool
net_enter lora_serial now s =
    if lora_serial
    then (s, false)
    else (record s { dec = reset; last_rx = now; active = true }, true)

unfoldable pub net_leave : NetSerial → NetSerial
net_leave s = record s { active = false }

unfoldable pub net_poll : ℕ → NetSerial → NetSerial
unfolding net_leave
net_poll now s =
    if s.active && ltb idle_timeout_ms ((now + u32_mod - s.last_rx) % u32_mod)
    then net_leave s
    else s

unfoldable pub maybe_report_busy : Bool → ℕ → Radio → NetSerial → NetSerial × Bytes
maybe_report_busy dropped now r s =
    let depth = length r.send_packets in
    if not dropped && ltb depth busy_depth
    then (s, [])
    else if ltb ((now + u32_mod - s.last_busy) % u32_mod) 300
    then (s, [])
    else (
      record s { last_busy = now },
      slip_end ∷ 0x00 ∷ 0x82 ∷ (if ltb 255 depth then 255 else depth) ∷ slip_end ∷ [],
    )

-- The states of the port and of the radio, and the bytes written to the port.
pub record Step : Type 0 where
  pub net : NetSerial
  pub radio : Radio
  pub out : Bytes

abbrev pub count_tx : NetSerial → NetSerial
count_tx s = record s { tx = (s.tx + 1) % u32_mod }

abbrev pub count_drop : NetSerial → NetSerial
count_drop s = record s { drop = (s.drop + 1) % u32_mod }

-- The last lines of `handle_frame`, on both ways to them: send, count, and report a full queue.
unfoldable pub forward : Bool → ℕ → ℕ → Bytes → NetSerial → Radio → Step
unfolding maybe_report_busy
forward memory now dst ip s r =
    let (r', ok) = lora_net_send memory r dst ip in
    let (sent, told) = maybe_report_busy false now r' (count_tx s) in
    let (lost, told_lost) = maybe_report_busy true now r' (count_drop s) in
    if ok
    then record { net = sent; radio = r'; out = told }
    else record { net = lost; radio = r'; out = told_lost }

abbrev pub alive_ack : Bytes
alive_ack = slip_end ∷ 0x00 ∷ 0x81 ∷ slip_end ∷ []

-- A control frame: its first byte is 0.
unfoldable pub handle_control : Bool → ℕ → Bytes → NetSerial → Radio → Step
unfolding net_leave forward
handle_control memory now f s r =
    let stay : Step = record { net = s; radio = r; out = [] } in
    let second = get_or f 1 0 in
    if leb 2 (length f) && second == 0x02
    then record { net = net_leave s; radio = r; out = [] }
    else if leb 2 (length f) && second == 0x01
    then record { net = s; radio = r; out = alive_ack }
    else elim (net_parse_send_to (some f)) [
      | none ↦ stay
      | some (node, ip) ↦
          if ltb net_max_ip (length ip) || node == r.node_id
          then record { net = count_drop s; radio = r; out = [] }
          else forward memory now node ip s r
    ]

-- A packet of the computer, from 20 bytes on.
unfoldable pub handle_packet : Bool → ℕ → Bytes → NetSerial → Radio → Step
unfolding forward
handle_packet memory now f s r =
    let dropped : Step = record { net = count_drop s; radio = r; out = [] } in
    let dst = net_ip_to_node (get_or f 16 0) (get_or f 17 0) (get_or f 18 0) (get_or f 19 0) in
    if ltb net_max_ip (length f) || not (net_ipv4_ok (bytes f))
    then dropped
    else if dst == 0 || dst == r.node_id
    then dropped
    else forward memory now dst f s r

unfoldable pub handle_frame : Bool → ℕ → Bytes → NetSerial → Radio → Step
unfolding handle_control handle_packet
handle_frame memory now f s r =
    let s' = record s { last_rx = now } in
    if get_or f 0 0 == 0x00
    then handle_control memory now f s' r
    else handle_packet memory now f s' r

unfoldable pub net_feed : Bool → ℕ → ℕ → NetSerial → Radio → Step
unfolding handle_frame
net_feed memory now b s r =
    let (dec', frame) = feed decoder_cap s.dec b in
    let s' = record s { dec = dec' } in
    elim frame [
      | none ↦ record { net = s'; radio = r; out = [] }
      | some f ↦ handle_frame memory now f s' r
    ]

unfoldable pub net_deliver : Bool → NetSerial → Bytes → NetSerial × Bool
net_deliver memory s ip =
    if not s.active || ltb net_max_ip (length ip)
    then (s, false)
    else if not memory
    then (s, false)
    else if ltb (length s.rx_q) net_rx_queue
    then (record s { rx_q = s.rx_q ++ ip ∷ []; rx = (s.rx + 1) % u32_mod }, true)
    else (count_drop s, false)

-- A round of the writer task: the bytes written to the port.
unfoldable pub writer_round : NetSerial → NetSerial × Bytes
writer_round s = elim s.rx_q [
  | [] ↦ (s, [])
  | ip ∷ rest ↦ (
    record s { rx_q = rest },
    if s.active then elim (slip_encode ip (2 * net_max_ip + 2)) [ none ↦ [] | some b ↦ b ] else [],
  )
]

-- The loop of `net_heard`: the slot of the node, if there is one, else the oldest so far and its time.
unfoldable pub peer_slot : ℕ → ℕ → ℕ → ℕ → List Peer → ℕ
peer_slot node i oldest oldest_seen [] = oldest
peer_slot node i oldest oldest_seen (p ∷ ps) =
    let older = ltb p.seen oldest_seen in
    let later =
      peer_slot node (i + 1) (if older then i else oldest) (if older then p.seen else oldest_seen)
        ps in
    if p.node == node then i else later

abbrev pub no_peer : Peer
no_peer = record { node = 0; rssi = ℤ.pos 0; seen = 0 }

-- The reading is stored as an `int16_t`, which holds every reading of the radio.
unfoldable pub net_heard : ℕ → ℤ → ℕ → NetSerial → NetSerial
unfolding peer_slot
net_heard node rssi now s =
    let slot = peer_slot node 0 0 (get_or s.peers 0 no_peer).seen s.peers in
    record s {
      peers =
          set s.peers slot
            (record { node = node; rssi = rssi; seen = if now == 0 then 1 else now });
    }
