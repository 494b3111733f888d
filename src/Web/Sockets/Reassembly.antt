-- ===== src/Web/Sockets/Reassembly.antt =====
-- src/web/web_sockets.cpp, reassembly: a frame that arrives in pieces is delivered as it was sent, and
-- nothing is ever written past the end of a message.
use native.Mathlib.Decide.{dec_lt}
use project_voyager.Prelude.{
  ℕ, ◌+◌, ◌≤◌, ◌<◌, ◌≡◌, refl, ap, ◌∙◌, ◌≢◌, true, Option, none, some, List, [], ◌∷◌, ◌++◌,
  append_assoc, append-nil, arith, Bytes, length, All, length-append,
}
use project_voyager.Web.Frames.{ws_max_message, ws_frame_start_ok, ws_chunk_in_order}
use project_voyager.Web.Sockets.{
  rx_queue_len, WsAssembly, Sockets, FrameInfo, at_client, ws_assembly_free, ws_deliver,
  continue_frame, ws_handle_data,
}

-- The chunks of one text frame of `total` bytes, from an offset on.
unfoldable pub receive : Sockets → ℕ → ℕ → ℕ → List Bytes → Sockets
receive s client index total [] = s
receive s client index total (d ∷ ds) =
    receive
      (ws_handle_data true s client
        (some (record { index = index; len = total; final = true; opcode = 1 })) d).0
      client (index + length d) total ds

abbrev pub join : List Bytes → Bytes
join [] = []
join (d ∷ ds) = d ++ join ds

abbrev pub info_at : ℕ → ℕ → FrameInfo
info_at index total = record { index = index; len = total; final = true; opcode = 1 }

abbrev pub assembling : ℕ → Bytes → Option WsAssembly
assembling total got = some (record { total = total; buf = got })

handle-continue :
    (s : Sockets) (client index total : ℕ) (d : Bytes)
    → index ≢ 0
    → (ws_handle_data true s client (some (info_at index total)) d).0
      ≡ continue_frame s client (info_at index total) d
unfolding ws_handle_data
handle-continue s client index total d h = ground arith

continue_more :
    (s : Sockets) (client total : ℕ) (got d : Bytes)
    → s.assembly client ≡ assembling total got
    → length d ≢ 0
    → length got + length d < total
    → total ≤ ws_max_message
    → continue_frame s client (info_at (length got) total) d
      ≡ record s { assembly = at_client s.assembly client (assembling total (got ++ d)) }
unfolding continue_frame ws_chunk_in_order
continue_more s client total got d e n l m = ground (arith, e, length-append got d)

continue_last :
    (s : Sockets) (client total : ℕ) (got d : Bytes)
    → s.assembly client ≡ assembling total got
    → length d ≢ 0
    → length got + length d ≡ total
    → total ≤ ws_max_message
    → continue_frame s client (info_at (length got) total) d
      ≡ ws_deliver (ws_assembly_free s client) (got ++ d)
unfolding continue_frame ws_chunk_in_order
continue_last s client total got d e n l m = ground (arith, e, length-append got d)

-- What a delivery leaves behind.
pub record Delivered (before : List Bytes) (r : Sockets) (client : ℕ) (msg : Bytes) : Type 0 where
  pub queue : r.rx_queue ≡ before ++ msg ∷ []
  pub done : r.assembly client ≡ none

deliver-Delivered :
    (s : Sockets) (client : ℕ) (msg : Bytes)
    → length s.rx_queue < rx_queue_len
    → Delivered s.rx_queue (ws_deliver (ws_assembly_free s client) msg) client msg
unfolding ws_deliver ws_assembly_free
deliver-Delivered s client msg h = record { queue = ground arith; done = ground arith }

join_empty : (ds : List Bytes) → All (λ d. length d ≢ 0) ds → length (join ds) ≡ 0 → ds ≡ []
join_empty [] a h = refl
join_empty (d ∷ ds) a h = absurd (a.0 (omega (arith, h, length-append d (join ds))))

-- The rest of a frame, when the bytes `got` have been stored.
receive_rest :
    (ds : List Bytes) (s : Sockets) (client total : ℕ) (got : Bytes)
    → s.assembly client ≡ assembling total got
    → length got ≢ 0
    → length got < total
    → length got + length (join ds) ≡ total
    → total ≤ ws_max_message
    → All (λ d. length d ≢ 0) ds
    → length s.rx_queue < rx_queue_len
    → Delivered s.rx_queue (receive s client (length got) total ds) client (got ++ join ds)
unfolding receive
receive_rest [] s client total got e n l h m a q = absurd (omega arith)
receive_rest (d ∷ ds) s client total got e n l h m a q =
    rw (handle-continue s client (length got) total d n)
      (elim (dec_lt (length got + length d) total) [
        | yes less ↦
            rw
              (
                continue_more s client total got d e a.0 less m,
                ← length-append got d,
                ← append_assoc got d (join ds),
              )
              (receive_rest ds
                (record s { assembly = at_client s.assembly client (assembling total (got ++ d)) })
                client total (got ++ d) (ground arith) (omega (arith, n, length-append got d))
                (omega (arith, length-append got d))
                (omega (arith, h, length-append got d, length-append d (join ds))) m a.1 q)
        | no last ↦
            let all : length got + length d ≡ total =
              omega (arith, h, last, length-append d (join ds)) in
            rw
              (
                continue_last s client total got d e a.0 all m,
                join_empty ds a.1 (omega (arith, h, all, length-append d (join ds))),
                append-nil d,
              )
              (deliver-Delivered s client (got ++ d) q)
      ])

zero_plus : (n : ℕ) → 0 + n ≡ n
zero_plus n = omega arith

-- The first chunk.
handle-whole :
    (s : Sockets) (client : ℕ) (d : Bytes)
    → 0 < length d
    → length d ≤ ws_max_message
    → (ws_handle_data true s client (some (info_at 0 (length d))) d).0
      ≡ ws_deliver (ws_assembly_free s client) d
unfolding ws_handle_data ws_frame_start_ok
handle-whole s client d h k = ground arith

handle-start :
    (s : Sockets) (client total : ℕ) (d : Bytes)
    → 0 < length d
    → length d < total
    → total ≤ ws_max_message
    → ((ws_handle_data true s client (some (info_at 0 total)) d).0.assembly client
        ≡ assembling total d)
      × ((ws_handle_data true s client (some (info_at 0 total)) d).0.rx_queue ≡ s.rx_queue)
unfolding ws_handle_data ws_frame_start_ok continue_frame ws_chunk_in_order ws_assembly_free
handle-start s client total d h k m = ground arith

-- A text frame of 1 to 2048 bytes that arrives in chunks, none empty, however it was cut, joins the queue
-- of received messages exactly as it was sent, if the queue has room and memory suffices; nothing of it is
-- left behind, and what an earlier frame left unfinished is dropped.
pub receive-Delivered :
    (s : Sockets) (client : ℕ) (ds : List Bytes)
    → All (λ d. length d ≢ 0) ds
    → 0 < length (join ds)
    → length (join ds) ≤ ws_max_message
    → length s.rx_queue < rx_queue_len
    → Delivered s.rx_queue (receive s client 0 (length (join ds)) ds) client (join ds)
unfolding receive
receive-Delivered s client [] a h m q = absurd (omega (arith, h))
receive-Delivered s client (d ∷ []) a h m q =
    rw
      (
        append-nil d,
        handle-whole s client d (omega (arith, a.0)) (omega (arith, m, length-append d [])),
      )
      (deliver-Delivered s client d q)
receive-Delivered s client (d ∷ e ∷ ds) a h m q =
    let total = length (join (d ∷ e ∷ ds)) in
    let sum = length-append d (join (e ∷ ds)) in
    let more = length-append e (join ds) in
    let first = (ws_handle_data true s client (some (info_at 0 total)) d).0 in
    let less : length d < total = omega (arith, sum, more, a.1.0) in
    let (begun, same) = handle-start s client total d (omega (arith, a.0)) less m in
    let rest =
      receive_rest (e ∷ ds) first client total d begun a.0 less (omega (arith, sum)) m a.1
        (rw same q) in
    rw (zero_plus (length d)) (record {
      queue = rest.queue ∙ ap (λ qs. qs ++ join (d ∷ e ∷ ds) ∷ []) same;
      done = rest.done;
    })
