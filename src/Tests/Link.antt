-- ===== src/Tests/Link.antt =====
-- Runs of the framing and of the SLIP link on concrete bytes.
use project_voyager.Prelude.{
  ◌+◌, ◌≤◌, ◌≡◌, refl, true, some, List, [], ◌∷◌, ◌++◌, arith, if◌then◌else◌, is_some, Bytes,
  length, take,
}
use project_voyager.Lora.Slip.{reset, feed_all}
use project_voyager.Lora.Slip.RoundTrip.{all_delivered}
use project_voyager.Lora.Slip.Streams.{encode_all, all_fit, sent_bytes, feed_all-encode_all}
use project_voyager.Lora.Crc.{crc_round, crc_rounds, crc8_update, packet_crc}
use project_voyager.Lora.Frame.{
  header_len, max_frame, span_len, span_bytes, frame_packet, Parsed, parse_packet, bytes, no_error,
  bad_crc,
}
use project_voyager.Lora.Frame.RoundTrip.{parse-frame, frame-parse, parse_corrupt_payload}

abbrev payload : Bytes
payload = 1 ∷ 2 ∷ []

abbrev two_packets : List Bytes
two_packets = (0xC0 ∷ 5 ∷ []) ∷ (0xDB ∷ []) ∷ []

-- The frame of `payload` with type 0 and number 7.
abbrev frame : Bytes
frame = 2 ∷ 0 ∷ 7 ∷ 13 ∷ 1 ∷ 2 ∷ []

abbrev parsed : Parsed
parsed = record { ok = true; err = no_error; type = 0; seq = 7; len = 2; payload = some payload }

frame_packet-frame : frame_packet 0 7 (bytes payload) (some 64) ≡ some frame
unfolding frame_packet packet_crc crc8_update crc_rounds crc_round
frame_packet-frame = refl

feed_all-encode_all_example :
    (is_some (encode_all 64 two_packets) ≡ all_fit 64 two_packets)
    × (feed_all 64 reset (sent_bytes (encode_all 64 two_packets))
        ≡ (reset, if all_fit 64 two_packets then all_delivered 64 two_packets else []))
feed_all-encode_all_example = feed_all-encode_all two_packets 64 64

parse-frame_example :
    (parse_packet (some frame) ≡ record {
      ok = true;
      err = no_error;
      type = 0;
      seq = 7;
      len = span_len (bytes payload);
      payload = some (span_bytes (bytes payload));
    })
    × (length frame ≡ header_len + span_len (bytes payload))
    × (length frame ≤ max_frame)
    × (length frame ≤ 64)
unfolding frame_packet packet_crc crc8_update crc_rounds crc_round
parse-frame_example = parse-frame 0 7 (bytes payload) 64 frame refl

frame-parse_example :
    (body : Bytes) × (parsed.payload ≡ some body)
    × (frame_packet parsed.type parsed.seq (bytes body) (some (length frame)) ≡ some frame)
frame-parse_example =
    frame-parse frame parsed (parse-frame 0 7 (bytes payload) 64 frame frame_packet-frame).0 refl
      (omega arith) (omega arith)

parse_corrupt_payload_example :
    (parse_packet (some (take header_len frame ++ ((1 ∷ []) ++ 9 ∷ [])))).err ≡ bad_crc
parse_corrupt_payload_example =
    parse_corrupt_payload 0 7 64 2 9 (1 ∷ []) [] frame frame_packet-frame (omega arith)
      (ground arith) (ground arith) (omega arith) (omega arith) (omega arith)
