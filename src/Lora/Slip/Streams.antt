-- ===== src/Lora/Slip/Streams.antt =====
-- src/lora/lora_proto.h, SLIP: packets through the encoder and back through the decoder.

use project_voyager.Prelude.{
  ℕ, ◌+◌, ◌≡◌, refl, Bool, true, ◌&&◌, ◌||◌, Option, none, some, List, [], ◌∷◌, ◌++◌, arith, leb,
  ◌==◌, if◌then◌else◌, is_some, Bytes, length, length-append,
}
use project_voyager.Lora.Slip.{slip_end, slip_esc, escape_byte, slip_encode, reset, feed_all}
use project_voyager.Lora.Slip.RoundTrip.{
  escaped, slip_encode-framed, stream, all_delivered, feed_all-stream,
}

-- How many bytes of a packet take two bytes on the wire.
abbrev pub specials : Bytes → ℕ
specials [] = 0
specials (b ∷ bs) = (if b == slip_end || b == slip_esc then 1 else 0) + specials bs

length-escape : (bs : Bytes) → length (escaped bs) ≡ length bs + specials bs
unfolding escape_byte
length-escape [] = refl
length-escape (b ∷ bs) =
    ground (arith, length-append (escape_byte b) (escaped bs), length-escape bs)

-- Two texts one after the other, if both are there.
abbrev pub followed : Option Bytes → Option Bytes → Option Bytes
followed none ys = none
followed (some xs) none = none
followed (some xs) (some ys) = some (xs ++ ys)

-- Each packet encoded into a buffer of `room` bytes and sent; `none` when one did not fit.
abbrev pub encode_all : ℕ → List Bytes → Option Bytes
encode_all room [] = some []
encode_all room (p ∷ ps) = followed (slip_encode p room) (encode_all room ps)

-- Whether each packet, with its escapes and the two END bytes, fits into `room` bytes.
abbrev pub all_fit : ℕ → List Bytes → Bool
all_fit room [] = true
all_fit room (p ∷ ps) = leb (length p + specials p + 2) room && all_fit room ps

encode_all-stream :
    (ps : List Bytes) (room : ℕ)
    → encode_all room ps ≡ (if all_fit room ps then some (stream ps) else none)
encode_all-stream [] room = refl
encode_all-stream (p ∷ ps) room = ground (
  arith,
  slip_encode-framed p room,
  length-append (escaped p) (slip_end ∷ []),
  length-escape p,
  encode_all-stream ps room,
)

-- What went out on the wire.
abbrev pub sent_bytes : Option Bytes → Bytes
sent_bytes none = []
sent_bytes (some bs) = bs

-- The encoder succeeds on every packet of a list exactly when each, with one byte more for every END
-- or ESC in it and two for the frame, fits into the buffer; then the decoder reads what was sent back
-- as those packets in order, less the empty ones and those that do not fit its own buffer, and is
-- empty again.
pub feed_all-encode_all :
    (ps : List Bytes) (room cap : ℕ)
    → (is_some (encode_all room ps) ≡ all_fit room ps)
      × (feed_all cap reset (sent_bytes (encode_all room ps))
          ≡ (reset, if all_fit room ps then all_delivered cap ps else []))
unfolding feed_all
feed_all-encode_all ps room cap = ground (arith, encode_all-stream ps room, feed_all-stream ps cap)
