-- ===== src/Lora/Radio.antt =====
-- src/lora/lora_support.cpp, the sending side of the radio: packets that wait, sequence numbers, and one
-- packet with its acknowledgements and retries. Lines of the debug log and the LED are left out.
pub mod Sending
use project_voyager.Prelude.{
  ℕ, ◌+◌, ◌%◌, Bool, true, false, not, ◌&&◌, Option, none, some, List, [], ◌∷◌, ◌++◌, ltb, leb,
  ◌==◌, ◌!=◌, if◌then◌else◌, is_some, Bytes, length, get_or,
}
use project_voyager.Lora.Frame.{t_lora_msg, t_net, max_payload, max_frame, frame_packet, bytes}
use project_voyager.Lora.Retry.{
  TxAction, TxRetry, tx_begin, tx_on_ack, tx_on_timeout, wait, success, fail,
}
use project_voyager.Lora.Net.{net_broadcast, word16, net_build}

abbrev pub send_queue_depth : ℕ
send_queue_depth = 20

abbrev pub recv_queue_depth : ℕ
recv_queue_depth = 20

abbrev pub serial_queue_depth : ℕ
serial_queue_depth = 20

abbrev pub ack_queue_depth : ℕ
ack_queue_depth = 4

pub record QueueParam : Type 0 where
  pub type : ℕ
  pub message : Bytes
  pub id : ℕ

-- The queues hold what their pointers stand for.
pub record Radio : Type 0 where
  pub node_id : ℕ
  pub next_seq : ℕ
  pub send_packets : List QueueParam
  pub recv_packets : List QueueParam
  pub serial_rec : List Bytes
  pub ack_queue : List (ℕ × ℕ)

unfoldable pub take_seq : Radio → Radio × ℕ
take_seq r = (record r { next_seq = (r.next_seq + 1) % 256 }, r.next_seq)

-- `memory` tells whether the allocation succeeds.
unfoldable pub lora_net_send : Bool → Radio → ℕ → Bytes → Radio × Bool
lora_net_send memory r dst ip = elim (net_build dst r.node_id (bytes ip) max_payload) [
  | none ↦ (r, false)
  | some built ↦
      if not memory
      then (r, false)
      else if ltb (length r.send_packets) send_queue_depth
      then (
        record r {
          send_packets = r.send_packets ++ record { type = t_net; message = built; id = 0 } ∷ [];
        },
        true,
      )
      else (r, false)
]

-- The frame that `LoRa_send` hands to the radio; `none` if it is refused before.
unfoldable pub frame_of : Bytes → ℕ → ℕ → Option Bytes
frame_of message type seq =
    if ltb max_payload (length message)
    then none
    else frame_packet type seq (bytes message) (some max_frame)

-- One transmission, as the environment decides it: the radio stays busy, or the packet is sent and these
-- acknowledgements, each a number and a value, are heard before the time is up.
pub data Attempt : Type 0 where
  busy : Attempt
  heard : List (ℕ × ℕ) → Attempt

abbrev pub is_wait : TxAction → Bool
is_wait wait = true
is_wait _ = false

-- The loop that waits for an acknowledgement.
unfoldable pub wait_ack : TxRetry → List (ℕ × ℕ) → TxRetry × TxAction
wait_ack t [] = tx_on_timeout t
wait_ack t ((ack_seq, val) ∷ rest) =
    let (u, a) = tx_on_ack t ack_seq val in
    let later = wait_ack u rest in if is_wait a then later else (u, a)

unfoldable pub attempt_once : TxRetry → Attempt → TxRetry × TxAction
unfolding wait_ack
attempt_once t busy = tx_on_timeout t
attempt_once t (heard acks) = wait_ack t acks

-- The loop over the attempts: whether an acknowledgement came, and how many transmissions were tried;
-- `none` if the environment says nothing more.
unfoldable pub retry_loop : TxRetry → List Attempt → Option (Bool × ℕ)
unfolding attempt_once
retry_loop t [] = none
retry_loop t (e ∷ es) =
    let (u, a) = attempt_once t e in
    let more : Option (Bool × ℕ) = elim (retry_loop u es) [
      | none ↦ none
      | some (ok, n) ↦ some (ok, n + 1)
    ] in
    elim a [ success ↦ some (true, 1) | fail ↦ some (false, 1) | _ ↦ more ]

abbrev pub is_broadcast : QueueParam → Bool
is_broadcast p =
    p.type == t_net
    && leb 2 (length p.message)
    && word16 (get_or p.message 0 0) (get_or p.message 1 0) == net_broadcast

abbrev pub first_sent : List Attempt → Bool
first_sent (heard acks ∷ _) = true
first_sent _ = false

-- The result `true`, `false`, with the number of transmissions tried. A broadcast is sent once, and its
-- result is whether it was sent.
unfoldable pub send_with_retry : Radio → QueueParam → List Attempt → Radio × Option (Bool × ℕ)
unfolding take_seq retry_loop
send_with_retry r p es =
    let (r', seq) = take_seq r in
    if p.type != t_lora_msg && p.type != t_net
    then (r, some (false, 0))
    else if is_broadcast p
    then (r', some (first_sent es && is_some (frame_of p.message p.type seq), 1))
    else if ltb max_payload (length p.message)
    then (r, some (false, 0))
    else (record r' { ack_queue = [] }, retry_loop (tx_begin seq) es)

-- A round of the sending task on the packet at the head of the queue: the number and result reported to
-- the web page, for packets that have a number.
unfoldable pub send_round : Radio → List Attempt → Radio × Option (ℕ × Bool)
unfolding send_with_retry
send_round r es = elim r.send_packets [
  | [] ↦ (r, none)
  | p ∷ rest ↦
      let (r', result) = send_with_retry (record r { send_packets = rest }) p es in
      (r', elim result [ none ↦ none | some (ok, n) ↦ if p.id != 0 then some (p.id, ok) else none ])
]
