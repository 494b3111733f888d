-- ===== src/Lora/Slip.antt =====
-- src/lora/lora_proto.h, SLIP framing of the USB serial link: `slip_encode` and the decoder
-- `SlipDecoder<CAP>`, a byte at a time.
pub mod RoundTrip
pub mod Streams
use project_voyager.Prelude.{
  ℕ, ◌+◌, ◌-◌, Bool, true, false, ◌||◌, Option, none, some, List, [], ◌∷◌, ◌++◌, ltb, leb, ◌==◌,
  if◌then◌else◌, Bytes, length,
}

abbrev pub slip_end : ℕ
slip_end = 0xC0

abbrev pub slip_esc : ℕ
slip_esc = 0xDB

abbrev pub slip_esc_end : ℕ
slip_esc_end = 0xDC

abbrev pub slip_esc_esc : ℕ
slip_esc_esc = 0xDD

-- What the loop writes for one byte.
unfoldable pub escape_byte : ℕ → Bytes
escape_byte b =
    if b == slip_end || b == slip_esc
    then slip_esc ∷ (if b == slip_end then slip_esc_end else slip_esc_esc) ∷ []
    else b ∷ []

-- The loop; `out` holds the `o` bytes written so far. `none` is the `return 0` for a full buffer.
-- `cap - 1` is taken at `cap ≥ 2` only.
unfoldable pub encode_loop : ℕ → Bytes → Bytes → Option Bytes
unfolding escape_byte
encode_loop cap out [] = some out
encode_loop cap out (b ∷ rest) =
    let written = encode_loop cap (out ++ escape_byte b) rest in
    if ltb (cap - 1) (length out + length (escape_byte b)) then none else written

-- `none` is the result 0; `some out` the result `length out`, with the bytes written to the buffer.
unfoldable pub slip_encode : Bytes → ℕ → Option Bytes
unfolding encode_loop
slip_encode input cap = if ltb cap 2 then none else (elim (encode_loop cap (slip_end ∷ []) input) [
  | none ↦ none
  | some out ↦ some (out ++ slip_end ∷ [])
])

-- `buf` is `buf_[0 .. len_)`, so `len_` is its length.
pub record SlipDecoder : Type 0 where
  pub buf : Bytes
  pub esc : Bool
  pub bad : Bool

abbrev pub reset : SlipDecoder
reset = record { buf = []; esc = false; bad = false }

-- The last lines of `feed`: store a byte, or drop the frame when the buffer is full.
unfoldable pub store : ℕ → SlipDecoder → ℕ → SlipDecoder
store cap d b =
    if leb cap (length d.buf) then record d { bad = true } else record d { buf = d.buf ++ b ∷ [] }

unfoldable pub feed_escaped : ℕ → SlipDecoder → ℕ → SlipDecoder
unfolding store
feed_escaped cap d b =
    let d' = record d { esc = false } in
    if b == slip_esc_end
    then store cap d' slip_end
    else if b == slip_esc_esc
    then store cap d' slip_esc
    else record d' { bad = true }

-- `feed`. The result is the new state and the frame that ended, if a non-empty one did (the source
-- returns its length, 0 for none, and leaves its bytes in `frame()`).
unfoldable pub feed : ℕ → SlipDecoder → ℕ → SlipDecoder × Option Bytes
unfolding store feed_escaped
feed cap d b =
    if b == slip_end
    then (reset, if d.bad || d.esc || length d.buf == 0 then none else some d.buf)
    else if d.bad
    then (d, none)
    else if d.esc
    then (feed_escaped cap d b, none)
    else if b == slip_esc
    then (record d { esc = true }, none)
    else (store cap d b, none)

-- A run of `feed` over a byte stream, with the frames that it returned, in order.
unfoldable pub feed_all : ℕ → SlipDecoder → Bytes → SlipDecoder × List Bytes
unfolding feed
feed_all cap d [] = (d, [])
feed_all cap d (b ∷ bs) =
    let (d', frame) = feed cap d b in
    let (last, frames) = feed_all cap d' bs in
    (last, elim frame [ none ↦ frames | some f ↦ f ∷ frames ])
