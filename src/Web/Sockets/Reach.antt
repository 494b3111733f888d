-- ===== src/Web/Sockets/Reach.antt =====
-- src/web/web_sockets.cpp, every state that the sockets can reach keeps to the bounds of its buffers and
-- queues.
use project_voyager.Prelude.{
  ℕ, ◌-◌, ◌^◌, ◌≤◌, ◌<◌, ap, inl, inr, Bool, true, false, not, ◌&&◌, none, some, List, [], ◌∷◌,
  ◌++◌, arith, ltb, ◌==◌, if◌then◌else◌, Bool-cases, Bytes, length, drop, All, length-append,
  List-cases,
}
use project_voyager.Web.Frames.{out_queue_admit}
use project_voyager.Web.Sockets.{
  out_queue_len, out_reserved, u32_mod, OutMsg, Sockets, ws_assembly_free, WsEvent, on_event,
  on_raw_events, on_raw_events_disconnect, count_drop, enqueue_out, sender_round, connect,
  disconnect, other, data_event,
}
use project_voyager.Web.Sockets.Bounds.{IsMessage, Inv, free-Inv, if-Inv, handle-Inv}

-- What happens to the sockets: events of the clients and of the streams, messages to send, and rounds of
-- the tasks; the first argument is whether memory suffices.
pub data Happening : Type 0 where
  client_event : Bool → ℕ → WsEvent → Happening
  stream_event : Bool → Happening
  outgoing : Bool → Bool → Bytes → Bytes → Happening
  sent : Happening
  handled : Happening

-- A chunk is shorter than 4 GB.
abbrev pub IsEvent : Happening → Type 0
IsEvent (client_event memory client (data_event info d)) = length d < 2 ^ 32
IsEvent _ = Unit

unfoldable pub happen : Sockets → Happening → Sockets
unfolding on_event on_raw_events on_raw_events_disconnect enqueue_out sender_round
happen s (client_event memory client e) = (on_event memory s client e).0
happen s (stream_event true) = on_raw_events s
happen s (stream_event false) = on_raw_events_disconnect s
happen s (outgoing memory to_ws content topic) = enqueue_out memory to_ws content topic s
happen s sent = (sender_round s).0
happen s handled = record s { rx_queue = drop 1 s.rx_queue }

abbrev pub empty_sockets : Sockets
empty_sockets = record {
  assembly = λ c. none;
  rx_queue = [];
  out_queue = [];
  ws_clients = 0;
  sse_clients = 0;
  dropped_ws = 0;
  dropped_sse = 0;
}

pub data Reach : Sockets → Type 0 where
  start : Reach empty_sockets
  next : {s : Sockets} → Reach s → (h : Happening) → IsEvent h → Reach (happen s h)

drop-IsMessage : (ms : List Bytes) → All IsMessage ms → All IsMessage (drop 1 ms)
drop-IsMessage [] a = a
drop-IsMessage (m ∷ ms) a = a.1

length-drop : (ms : List Bytes) → length (drop 1 ms) ≤ length ms
length-drop [] = omega arith
length-drop (m ∷ ms) = omega arith

count_drop-Inv : (to_ws : Bool) (s : Sockets) → Inv s → Inv (count_drop to_ws s)
count_drop-Inv true s v = record {
  buffers = v.buffers;
  messages = v.messages;
  rx_fits = v.rx_fits;
  out_fits = v.out_fits;
  counters = v.counters;
}
count_drop-Inv false s v = record {
  buffers = v.buffers;
  messages = v.messages;
  rx_fits = v.rx_fits;
  out_fits = v.out_fits;
  counters = v.counters;
}

with_out-Inv :
    (s : Sockets) (ms : List OutMsg)
    → length ms ≤ out_queue_len
    → Inv s
    → Inv (record s { out_queue = ms })
with_out-Inv s ms h v = record {
  buffers = v.buffers;
  messages = v.messages;
  rx_fits = v.rx_fits;
  out_fits = h;
  counters = v.counters;
}

push-Inv :
    (to_ws : Bool) (s : Sockets) (m : OutMsg)
    → Inv s
    → Inv (
        if ltb (length s.out_queue) out_queue_len
        then record s { out_queue = s.out_queue ++ m ∷ [] }
        else count_drop to_ws s)
push-Inv to_ws s m v = elim (Bool-cases (ltb (length s.out_queue) out_queue_len)) [
  | inr full ↦ rw full (count_drop-Inv to_ws s v)
  | inl room ↦ rw room (
      with_out-Inv s (s.out_queue ++ m ∷ []) (ground (arith, length-append s.out_queue (m ∷ []))) v)
]

enqueue-Inv :
    (memory to_ws : Bool) (content topic : Bytes) (s : Sockets)
    → Inv s
    → Inv (enqueue_out memory to_ws content topic s)
unfolding enqueue_out
enqueue-Inv memory to_ws content topic s v =
    let dropped = count_drop-Inv to_ws s v in
    if-Inv (if to_ws then s.ws_clients == 0 else s.sse_clients == 0) v (
      if-Inv
        (not to_ws && not (out_queue_admit false (out_queue_len - length s.out_queue) out_reserved))
        dropped (if-Inv (not memory) dropped (push-Inv to_ws s _ v)))

round-Inv : (s : Sockets) → Inv s → Inv (sender_round s).0
unfolding sender_round
round-Inv s v = elim (List-cases s.out_queue) [
  | inl e ↦ rw (sender_round, e) v
  | inr (m, rest, e) ↦
      rw (sender_round, e) (with_out-Inv s rest (omega (arith, ap length e, v.out_fits)) v)
]

handled-Inv : (s : Sockets) → Inv s → Inv (record s { rx_queue = drop 1 s.rx_queue })
handled-Inv s v = record {
  buffers = v.buffers;
  messages = drop-IsMessage s.rx_queue v.messages;
  rx_fits = omega (arith, length-drop s.rx_queue, v.rx_fits);
  out_fits = v.out_fits;
  counters = v.counters;
}

with_counts-Inv :
    (s : Sockets) (ws sse : ℕ)
    → ws < u32_mod
    → sse < u32_mod
    → Inv s
    → Inv (record s { ws_clients = ws; sse_clients = sse })
with_counts-Inv s ws sse h k v = record {
  buffers = v.buffers;
  messages = v.messages;
  rx_fits = v.rx_fits;
  out_fits = v.out_fits;
  counters = (h, k);
}

happen-Inv : (s : Sockets) (h : Happening) → IsEvent h → Inv s → Inv (happen s h)
unfolding happen
happen-Inv s (client_event memory client connect) small v =
    with_counts-Inv s _ s.sse_clients (omega arith) v.counters.1 v
happen-Inv s (client_event memory client disconnect) small v =
    with_counts-Inv (ws_assembly_free s client) _ s.sse_clients (omega (arith, v.counters.0))
      v.counters.1 (free-Inv s client v)
happen-Inv s (client_event memory client other) small v = v
happen-Inv s (client_event memory client (data_event none d)) small v = v
happen-Inv s (client_event memory client (data_event (some info) d)) small v =
    handle-Inv memory s client info d small v
happen-Inv s (stream_event true) small v =
    with_counts-Inv s s.ws_clients _ v.counters.0 (omega arith) v
happen-Inv s (stream_event false) small v =
    with_counts-Inv s s.ws_clients _ v.counters.0 (omega (arith, v.counters.1)) v
happen-Inv s (outgoing memory to_ws content topic) small v =
    enqueue-Inv memory to_ws content topic s v
happen-Inv s sent small v = round-Inv s v
happen-Inv s handled small v = handled-Inv s v

-- In every state that the sockets can reach: no buffer holds more than was allocated for it, every message
-- that waits to be handled has 1 to 2048 bytes, both queues keep to their capacities, and the counters of
-- clients are 32-bit numbers.
pub Reach-Inv : {s : Sockets} → Reach s → Inv s
Reach-Inv start = record {
  buffers = λ c. ground arith;
  messages = ground arith;
  rx_fits = omega arith;
  out_fits = omega arith;
  counters = (omega arith, omega arith);
}
Reach-Inv (next {s} r h small) = happen-Inv s h small (Reach-Inv r)
