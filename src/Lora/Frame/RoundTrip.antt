-- ===== src/Lora/Frame/RoundTrip.antt =====
-- src/lora/lora_proto.h, framing: what is framed parses back, what parses was framed so, and a changed
-- byte is refused.
use project_voyager.Prelude.{
  ℕ, zero, suc, ◌+◌, ◌≤◌, ◌≡◌, ◌≢◌, ◌↔◌, inl, inr, ◌⊎◌, true, false, some, [], ◌∷◌, ◌++◌, arith,
  is_some, Bytes, length, take, All, length-append, IsByte,
}
use project_voyager.Lora.Crc.{packet_crc}
use project_voyager.Lora.Crc.Detection.{packet_crc_one_byte, packet_crc_seq}
use project_voyager.Lora.Frame.{
  t_rec_akng, t_net, header_len, max_payload, max_frame, Span, bytes, null, span_len, span_bytes,
  is_null, frame_packet, frame_ack, no_error, bad_crc, Parsed, parse_packet,
}

-- A packet that was framed parses to its type, sequence number and payload, and the frame is four
-- bytes longer than the payload, within the radio's 255 bytes and the buffer.
pub parse-frame :
    (type seq : ℕ) (payload : Span) (out_cap : ℕ) (frame : Bytes)
    → frame_packet type seq payload (some out_cap) ≡ some frame
    → (parse_packet (some frame) ≡ record {
      ok = true;
      err = no_error;
      type = type;
      seq = seq;
      len = span_len payload;
      payload = some (span_bytes payload);
    })
      × (length frame ≡ header_len + span_len payload)
      × (length frame ≤ max_frame)
      × (length frame ≤ out_cap)
unfolding frame_packet parse_packet
parse-frame type seq (null zero) out_cap frame e = ground arith
parse-frame type seq (null (suc n)) out_cap frame e = ground arith
parse-frame type seq (bytes b) out_cap frame e = ground arith

-- The acknowledgement of `seq` parses to type REC_AKNG with that number and the result byte.
pub parse-frame_ack :
    (seq result out_cap : ℕ)
    → header_len + 1 ≤ out_cap
    → (frame : Bytes) × (frame_ack seq result (some out_cap) ≡ some frame)
      × (parse_packet (some frame) ≡ record {
        ok = true;
        err = no_error;
        type = t_rec_akng;
        seq = seq;
        len = 1;
        payload = some (result ∷ []);
      })
unfolding frame_ack parse_packet
parse-frame_ack seq result out_cap h =
    (1 ∷ t_rec_akng ∷ seq ∷ 0 ∷ result ∷ [], ground arith, ground arith)

-- Framing succeeds exactly for data types, payloads of at most 251 bytes that are there, and a buffer
-- that holds the header and the payload.
pub frame_packet-succeeds :
    (type seq : ℕ) (payload : Span) (out_cap : ℕ)
    → (is_some (frame_packet type seq payload (some out_cap)) ≡ true) ↔ (
        (span_len payload ≤ max_payload)
        × (type ≢ t_rec_akng)
        × (type ≤ t_net)
        × (header_len + span_len payload ≤ out_cap)
        × ((is_null payload ≡ false) ⊎ (span_len payload ≡ 0)))
unfolding frame_packet
frame_packet-succeeds type seq (null n) out_cap = ground arith
frame_packet-succeeds type seq (bytes b) out_cap = ground arith

-- A data packet that parses, of at most 251 payload bytes, is the frame of what it parses to.
pub frame-parse :
    (input : Bytes) (p : Parsed)
    → parse_packet (some input) ≡ p
    → p.ok ≡ true
    → p.type ≢ t_rec_akng
    → p.len ≤ max_payload
    → (body : Bytes) × (p.payload ≡ some body)
      × (frame_packet p.type p.seq (bytes body) (some (length input)) ≡ some input)
unfolding frame_packet parse_packet
frame-parse (len ∷ type ∷ seq ∷ crc ∷ body) p e k t l = (body, ground arith, ground arith)
frame-parse [] p e k t l = ground arith
frame-parse (a ∷ []) p e k t l = ground arith
frame-parse (a ∷ b ∷ []) p e k t l = ground arith
frame-parse (a ∷ b ∷ c ∷ []) p e k t l = ground arith

-- A framed packet of bytes in which one payload byte was replaced by another is refused with a CRC
-- error.
pub parse_corrupt_payload :
    (type seq out_cap x y : ℕ) (pre post frame : Bytes)
    → frame_packet type seq (bytes (pre ++ x ∷ post)) (some out_cap) ≡ some frame
    → IsByte seq
    → All IsByte pre
    → All IsByte post
    → IsByte x
    → IsByte y
    → x ≢ y
    → (parse_packet (some (take header_len frame ++ (pre ++ y ∷ post)))).err ≡ bad_crc
unfolding frame_packet parse_packet
parse_corrupt_payload type seq out_cap x y pre post frame e hs k l hx hy ne = ground (
  arith,
  length-append pre (x ∷ post),
  length-append pre (y ∷ post),
  packet_crc_one_byte seq pre post x y hs k l hx hy ne,
)

-- A framed packet of bytes in which the sequence number, or the CRC, was replaced by another is refused
-- with a CRC error.
pub parse_corrupt_header :
    (type seq out_cap seq' crc : ℕ) (body frame : Bytes)
    → frame_packet type seq (bytes body) (some out_cap) ≡ some frame
    → IsByte seq
    → IsByte seq'
    → All IsByte body
    → (((seq' ≢ seq) × (crc ≡ packet_crc seq body)) ⊎ ((seq' ≡ seq) × (crc ≢ packet_crc seq body)))
    → (parse_packet (some (length body ∷ type ∷ seq' ∷ crc ∷ body))).err ≡ bad_crc
unfolding frame_packet parse_packet
parse_corrupt_header type seq out_cap seq' crc body frame e hs ht k (inl (ne, c)) =
    ground (arith, packet_crc_seq seq seq' body hs ht k)
parse_corrupt_header type seq out_cap seq' crc body frame e hs ht k (inr (c, ne)) = ground arith
