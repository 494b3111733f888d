-- ===== src/Web/Frames/Laws.antt =====
-- src/web/web_validate.h, frames and queues: what is accepted stays within its bounds.
use project_voyager.Prelude.{
  ℕ, zero, suc, ◌+◌, ◌-◌, ◌%◌, ◌^◌, ◌≤◌, ◌<◌, ◌≡◌, inl, inr, Bool, true, false, Option, none, some,
  List, [], ◌∷◌, arith, if◌then◌else◌, Bool-cases, Bytes, length, All,
}
use project_voyager.Web.Frames.{
  ws_max_message, ws_frame_start_ok, ws_chunk_in_order, out_queue_admit, tx_id_after, sanitize_loop,
  sanitize_for_log,
}

-- A chunk of a frame: its offset, the frame's length and the chunk's length.
pub record Chunk : Type 0 where
  pub index : ℕ
  pub total_len : ℕ
  pub chunk_len : ℕ

-- The number of bytes received when every chunk of a run continues the frame; `none` if one does not.
unfoldable pub reassemble : ℕ → ℕ → List Chunk → Option ℕ
unfolding ws_chunk_in_order
reassemble received expected [] = some received
reassemble received expected (c ∷ cs) =
    let more = reassemble (received + c.chunk_len) expected cs in
    if ws_chunk_in_order received expected c.index c.total_len c.chunk_len then more else none

-- The bytes of the chunks.
abbrev pub sizes : List Chunk → ℕ
sizes [] = 0
sizes (c ∷ cs) = c.chunk_len + sizes cs

-- Each chunk starts where the one before it ended.
abbrev pub Adjoin : ℕ → List Chunk → Type 0
Adjoin start [] = Unit {0}
Adjoin start (c ∷ cs) = (c.index ≡ start) × (0 < c.chunk_len) × Adjoin (start + c.chunk_len) cs

reassemble_from :
    (cs : List Chunk) (received expected got : ℕ)
    → expected < 2 ^ 32
    → received ≤ expected
    → All (λ c. c.chunk_len < 2 ^ 32) cs
    → reassemble received expected cs ≡ some got
    → (got ≡ received + sizes cs) × (got ≤ expected) × Adjoin received cs
unfolding reassemble
reassemble_from [] received expected got h k a e = ground arith
reassemble_from (c ∷ cs) received expected got h k a e =
    elim (Bool-cases (ws_chunk_in_order received expected c.index c.total_len c.chunk_len)) [
      | inl fits ↦
          let inside : (c.index ≡ received)
              × (0 < c.chunk_len)
              × (received + c.chunk_len ≤ expected) =
            unfold ws_chunk_in_order in (ground (arith, a.0)) in
          let rest =
            reassemble_from cs (received + c.chunk_len) expected got h inside.2 a.1
              (ground arith) in
          (omega (arith, rest.0), rest.1, (inside.0, inside.1, rest.2))
      | inr out ↦ absurd (ground arith)
    ]

-- Behind a frame start that was accepted, a run of accepted chunks fills the frame from its start without a gap or an overlap, and never
-- beyond the length announced; the buffer of a message is therefore never overrun.
pub reassemble_lem :
    (final : Bool) (opcode expected got : ℕ) (cs : List Chunk)
    → ws_frame_start_ok final opcode expected ws_max_message ≡ true
    → All (λ c. c.chunk_len < 2 ^ 32) cs
    → reassemble 0 expected cs ≡ some got
    → (got ≡ sizes cs) × (got ≤ expected) × (got ≤ ws_max_message) × Adjoin 0 cs
unfolding ws_frame_start_ok
reassemble_lem final opcode expected got cs ok a e =
    let bound : expected ≤ ws_max_message = ground arith in
    let r = reassemble_from cs 0 expected got (omega arith) (omega arith) a e in
    (omega (arith, r.0), r.1, omega (arith, r.1, bound), r.2)

-- The numbers given to transmissions.
unfoldable pub tx_ids : ℕ → ℕ → ℕ
tx_ids start zero = start
tx_ids start (suc n) = tx_id_after (tx_ids start n)

tx_ids_closed :
    (n start : ℕ) → 1 ≤ start → start < 2 ^ 32 → tx_ids start n ≡ (start - 1 + n) % (2 ^ 32 - 1) + 1
unfolding tx_ids tx_id_after
tx_ids_closed zero start h k = omega arith
tx_ids_closed (suc n) start h k = let e = tx_ids_closed n start h k in ground (arith, e)

-- From a number of 32 bits that is not 0, no transmission gets the number 0, and two transmissions share a number only if a multiple of
-- 2^32 - 1 lies between them.
pub tx_ids_distinct :
    (m n start : ℕ)
    → 1 ≤ start
    → start < 2 ^ 32
    → tx_ids start m ≡ tx_ids start n
    → (1 ≤ tx_ids start m) × (m % (2 ^ 32 - 1) ≡ n % (2 ^ 32 - 1))
tx_ids_distinct m n start h k e =
    let a = tx_ids_closed m start h k in
    let b = tx_ids_closed n start h k in (omega (arith, a), omega (arith, a, b, e))

-- While replies may use every slot, events leave the reserved slots free: events alone can never fill
-- the queue, and an event is admitted only where a reply would be.
pub out_queue_admit_reserve :
    (spaces_free reserved : ℕ)
    → out_queue_admit false spaces_free reserved ≡ true
    → (out_queue_admit true spaces_free reserved ≡ true)
      × (reserved ≤ spaces_free - 1)
      × ((k : ℕ) → out_queue_admit true spaces_free k ≡ true)
unfolding out_queue_admit
out_queue_admit_reserve spaces_free reserved h = (ground arith, ground arith, λ k. ground arith)

-- What is logged fits its buffer with the NUL and holds printable ASCII only.
sanitize_loop-All :
    (s : Bytes) (room : ℕ)
    → All (λ c. (0x20 ≤ c) × (c < 0x7f)) (sanitize_loop room s)
      × (length (sanitize_loop room s) ≤ room)
unfolding sanitize_loop
sanitize_loop-All s zero = (tt, omega arith)
sanitize_loop-All [] (suc room) = (tt, omega arith)
sanitize_loop-All (c ∷ s) (suc room) = ground (arith, sanitize_loop-All s room)

pub sanitize_for_log-All :
    (s : Option Bytes) (out_size : ℕ)
    → 0 < out_size
    → All (λ c. (0x20 ≤ c) × (c < 0x7f)) (sanitize_for_log s out_size)
      × (length (sanitize_for_log s out_size) < out_size)
unfolding sanitize_for_log
sanitize_for_log-All none out_size h = (tt, omega arith)
sanitize_for_log-All (some s) out_size h =
    let (a, l) = sanitize_loop-All s (out_size - 1) in (a, omega (arith, l))
