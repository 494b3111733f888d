-- ===== src/Web/Sockets/Bounds.antt =====
-- src/web/web_sockets.cpp, the bounds of the buffers and queues, and that the handling of a chunk keeps
-- them.
use mathlib.Core.Path.{subst}
use project_voyager.Prelude.{
  ℕ, ◌+◌, ◌^◌, ◌≤◌, ◌<◌, ◌≡◌, inl, inr, Bool, true, false, not, Option, none, some, List, [], ◌∷◌,
  ◌++◌, arith, ltb, ◌==◌, ◌!=◌, if◌then◌else◌, Bool-cases, Option-cases, Bytes, length, All,
  length-append,
}
use project_voyager.Web.Frames.{ws_max_message, ws_frame_start_ok, ws_chunk_in_order}
use project_voyager.Web.Sockets.{
  rx_queue_len, out_queue_len, u32_mod, WsAssembly, OutMsg, Sockets, FrameInfo, at_client,
  ws_assembly_free, ws_deliver, continue_frame, ws_handle_data,
}

-- A buffer holds fewer bytes than were allocated for it, at most the limit of a message.
abbrev pub IsAssembly : Option WsAssembly → Type 0
IsAssembly none = Unit
IsAssembly (some a) = (length a.buf < a.total) × (a.total ≤ ws_max_message)

-- A message that was received has 1 to 2048 bytes.
abbrev pub IsMessage : Bytes → Type 0
IsMessage m = (0 < length m) × (length m ≤ ws_max_message)

-- The messages of the event stream that wait.
abbrev pub events_in : List OutMsg → ℕ
events_in [] = 0
events_in (m ∷ ms) = (if m.to_ws then 0 else 1) + events_in ms

pub record Inv (s : Sockets) : Type 0 where
  pub buffers : (client : ℕ) → IsAssembly (s.assembly client)
  pub messages : All IsMessage s.rx_queue
  pub rx_fits : length s.rx_queue ≤ rx_queue_len
  pub out_fits : length s.out_queue ≤ out_queue_len
  pub counters : (s.ws_clients < u32_mod) × (s.sse_clients < u32_mod)

pub All-snoc :
    (ms : List Bytes) (m : Bytes) → All IsMessage ms → IsMessage m → All IsMessage (ms ++ m ∷ [])
All-snoc [] m a h = (h, ground arith)
All-snoc (x ∷ ms) m a h = (a.0, All-snoc ms m a.1 h)

at_client-IsAssembly :
    (f : ℕ → Option WsAssembly) (client c : ℕ) (a : Option WsAssembly)
    → IsAssembly (f c)
    → IsAssembly a
    → IsAssembly (at_client f client a c)
at_client-IsAssembly f client c a h k = elim (Bool-cases (c == client)) [
  | inl same ↦ rw same k
  | inr differs ↦ rw differs h
]

pub free-Inv : (s : Sockets) (client : ℕ) → Inv s → Inv (ws_assembly_free s client)
unfolding ws_assembly_free
free-Inv s client v = record {
  buffers = λ c. at_client-IsAssembly s.assembly client c none (v.buffers c) (ground arith);
  messages = v.messages;
  rx_fits = v.rx_fits;
  out_fits = v.out_fits;
  counters = v.counters;
}

pub deliver-Inv : (s : Sockets) (m : Bytes) → Inv s → IsMessage m → Inv (ws_deliver s m)
unfolding ws_deliver
deliver-Inv s m v h = elim (Bool-cases (ltb (length s.rx_queue) rx_queue_len)) [
  | inl room ↦ rw room (record {
    buffers = v.buffers;
    messages = All-snoc s.rx_queue m v.messages h;
    rx_fits = ground (arith, length-append s.rx_queue (m ∷ []));
    out_fits = v.out_fits;
    counters = v.counters;
  })
  | inr full ↦ rw full v
]

chunk_fits :
    (received total index len size : ℕ)
    → ws_chunk_in_order received total index len size ≡ true
    → received < total
    → total ≤ ws_max_message
    → size < 2 ^ 32
    → (0 < size) × (received + size ≤ total)
unfolding ws_chunk_in_order
chunk_fits received total index len size h l m k = ground arith

continue-Inv :
    (s : Sockets) (client : ℕ) (info : FrameInfo) (d : Bytes)
    → length d < 2 ^ 32
    → Inv s
    → Inv (continue_frame s client info d)
unfolding continue_frame
continue-Inv s client info d small v = elim (Option-cases (s.assembly client)) [
  | inl empty ↦ rw (continue_frame, empty) v
  | inr (a, e) ↦
      let ok = ws_chunk_in_order (length a.buf) a.total info.index info.len (length d) in
      let (l, m) : IsAssembly (some a) = subst IsAssembly e (v.buffers client) in
      let both = length-append a.buf d in
      rw (continue_frame, e)
        (elim (Bool-cases ok) [
          | inr refused ↦ rw refused (free-Inv s client v)
          | inl taken ↦
              let (some_byte, fits) =
                chunk_fits (length a.buf) a.total info.index info.len (length d) taken l m small in
              rw taken (elim (Bool-cases (ltb (length (a.buf ++ d)) a.total)) [
                | inl more ↦
                    let less : length (a.buf ++ d) < a.total = ground (arith, more) in
                    rw more (record {
                      buffers = λ c.
                          at_client-IsAssembly s.assembly client c
                            (some (record a { buf = a.buf ++ d })) (v.buffers c) (less, m);
                      messages = v.messages;
                      rx_fits = v.rx_fits;
                      out_fits = v.out_fits;
                      counters = v.counters;
                    })
                | inr last ↦ rw last (
                    deliver-Inv (ws_assembly_free s client) (a.buf ++ d) (free-Inv s client v)
                      (omega (arith, both, some_byte), omega (arith, both, fits, m)))
              ])
        ])
]

start-Inv :
    (s : Sockets) (client : ℕ) (a : WsAssembly)
    → IsAssembly (some a)
    → Inv s
    → Inv (record s { assembly = at_client s.assembly client (some a) })
start-Inv s client a h v = record {
  buffers = λ c. at_client-IsAssembly s.assembly client c (some a) (v.buffers c) h;
  messages = v.messages;
  rx_fits = v.rx_fits;
  out_fits = v.out_fits;
  counters = v.counters;
}

start_bounds :
    (final : Bool) (opcode len : ℕ)
    → ws_frame_start_ok final opcode len ws_max_message ≡ true
    → (0 < len) × (len ≤ ws_max_message)
unfolding ws_frame_start_ok
start_bounds final opcode len h = ground arith

pub if-Inv : (b : Bool) {s t : Sockets} → Inv s → Inv t → Inv (if b then s else t)
if-Inv true v w = v
if-Inv false v w = w

pair-Inv : (b : Bool) (s t : Sockets × Bool) → Inv s.0 → Inv t.0 → Inv (if b then s else t).0
pair-Inv true s t v w = v
pair-Inv false s t v w = w

pub handle-Inv :
    (memory : Bool) (s : Sockets) (client : ℕ) (info : FrameInfo) (d : Bytes)
    → length d < 2 ^ 32
    → Inv s
    → Inv (ws_handle_data memory s client (some info) d).0
unfolding ws_handle_data
handle-Inv memory s client info d small v = elim (Bool-cases (info.index != 0)) [
  | inl later ↦ rw later (continue-Inv s client info d small v)
  | inr first ↦
      let freed = free-Inv s client v in
      rw first
        (elim (Bool-cases (ws_frame_start_ok info.final info.opcode info.len ws_max_message)) [
          | inr refused ↦ rw refused freed
          | inl begun ↦
              let (some_byte, fits) = start_bounds info.final info.opcode info.len begun in
              rw begun (elim (Bool-cases (length d == info.len)) [
                | inl whole ↦
                    let size : length d ≡ info.len = ground (arith, whole) in
                    rw whole (
                      if-Inv memory
                        (deliver-Inv (ws_assembly_free s client) d freed
                          (rw size (some_byte, fits)))
                        freed)
                | inr part ↦ rw part (
                    pair-Inv (not memory) _ _ freed (
                      continue-Inv _ client info d small (
                        start-Inv (ws_assembly_free s client) client
                          (record { total = info.len; buf = [] }) (some_byte, fits) freed)))
              ])
        ])
]
