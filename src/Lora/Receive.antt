-- ===== src/Lora/Receive.antt =====
-- src/lora/lora_support.cpp, the receiving side of the radio: what becomes of a frame that was heard. The
-- display is told the strength of the signal; that and the lines of the debug log are left out.
pub mod Once
use project_voyager.Prelude.{
  ℕ, Bool, true, false, not, ◌&&◌, Option, none, some, [], ◌∷◌, ◌++◌, ltb, ◌==◌, ◌!=◌,
  if◌then◌else◌, Bytes, length, get_or, take,
}
use project_voyager.Prelude.Int.{ℤ}
use project_voyager.Core.Json.{Json}
use project_voyager.Core.NetSerial.{NetSerial, net_deliver, net_heard}
use project_voyager.Lora.Frame.{
  t_lora_msg, t_raw_data, t_rec_akng, t_lora_serial, t_net, ack_ok, ack_retry, ParseErr, bad_crc,
  Parsed, parse_packet,
}
use project_voyager.Lora.Dedup.{RxDedupMulti, rx_is_duplicate_multi, rx_commit_multi}
use project_voyager.Lora.Net.{net_broadcast, net_parse, net_dedup_key}
use project_voyager.Lora.Message.{extract_mac_key}
use project_voyager.Lora.Radio.{
  recv_queue_depth, serial_queue_depth, ack_queue_depth, QueueParam, Radio,
}

-- The state that a frame can change.
pub record Station : Type 0 where
  pub radio : Radio
  pub net : NetSerial
  pub dedup : RxDedupMulti

-- A new state, and the acknowledgement to send: its number and its value.
abbrev pub Reply : Type 0
Reply = Station × Option (ℕ × ℕ)

-- A C string ends at the first zero byte.
unfoldable pub before_nul : Bytes → Bytes
before_nul [] = []
before_nul (c ∷ s) = let rest = before_nul s in if c == 0 then [] else c ∷ rest

abbrev pub is_bad_crc : ParseErr → Bool
is_bad_crc bad_crc = true
is_bad_crc _ = false

unfoldable pub handle_ack : Station → ℕ → Bytes → Station
handle_ack s seq body =
    if ltb (length s.radio.ack_queue) ack_queue_depth
    then record s {
      radio = record (s.radio) { ack_queue = s.radio.ack_queue ++ (seq, get_or body 0 0) ∷ [] };
    }
    else s

unfoldable pub handle_serial : Bool → Station → Bytes → Station
handle_serial memory s body =
    if memory && ltb (length s.radio.serial_rec) serial_queue_depth
    then record s { radio = record (s.radio) { serial_rec = s.radio.serial_rec ++ body ∷ [] } }
    else s

-- An IPv4 packet from another node. A broadcast is neither acknowledged nor remembered, and outside
-- network mode there is no answer.
unfoldable pub handle_net : Bool → ℤ → ℕ → Station → ℕ → Bytes → Reply
unfolding net_deliver net_heard
handle_net memory rssi now s seq body = elim (net_parse (some body)) [
  | none ↦ (s, none)
  | some f ↦
      let to_me = f.dst == s.radio.node_id in
      let heard = record s { net = net_heard f.src rssi now s.net } in
      let (net', queued) = net_deliver memory heard.net f.ip in
      let key = net_dedup_key f.src in
      if f.src == s.radio.node_id
      then (s, none)
      else if not to_me && f.dst != net_broadcast
      then (s, none)
      else if not to_me
      then (record heard { net = net' }, none)
      else if not s.net.active
      then (heard, none)
      else if rx_is_duplicate_multi s.dedup key seq
      then (heard, some (seq, ack_ok))
      else if queued
      then (
        record heard { net = net'; dedup = rx_commit_multi s.dedup key seq },
        some (seq, ack_ok),
      )
      else (record heard { net = net' }, some (seq, ack_retry))
]

-- A message for the web page, under the key of its source. It is cut at a zero byte, and then refused.
unfoldable pub handle_msg : Bool → Station → ℕ → ℕ → Bytes → Reply
unfolding before_nul
handle_msg memory s key seq body =
    let text = before_nul body in
    let q : QueueParam = record { type = t_lora_msg; message = text; id = 0 } in
    if rx_is_duplicate_multi s.dedup key seq
    then (s, some (seq, ack_ok))
    else if memory
        && length text == length body
        && ltb (length s.radio.recv_packets) recv_queue_depth
    then (
      record s {
        radio = record (s.radio) { recv_packets = s.radio.recv_packets ++ q ∷ [] };
        dedup = rx_commit_multi s.dedup key seq;
      },
      some (seq, ack_ok),
    )
    else (s, some (seq, ack_retry))

abbrev pub payload_of : Parsed → Bytes
payload_of p = elim p.payload [ none ↦ [] | some body ↦ take p.len body ]

module _ (j : Json) where
  -- `memory` tells whether the allocation of the call succeeds.
  unfoldable pub handle_rx_frame : Bool → ℤ → ℕ → Station → Bytes → Reply
  unfolding handle_ack handle_serial handle_net handle_msg
  handle_rx_frame memory rssi now s buf =
      let p = parse_packet (some buf) in
      let body = payload_of p in
      if not p.ok
      then (s, if is_bad_crc p.err && p.type == t_lora_msg then some (p.seq, ack_retry) else none)
      else if p.type == t_rec_akng
      then (handle_ack s p.seq body, none)
      else if p.type == t_lora_serial
      then (handle_serial memory s body, none)
      else if p.type == t_net
      then handle_net memory rssi now s p.seq body
      else if p.type == t_raw_data
      then (s, none)
      else handle_msg memory s (extract_mac_key j (some (before_nul body))) p.seq body
