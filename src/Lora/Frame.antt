-- ===== src/Lora/Frame.antt =====
-- src/lora/lora_proto.h, framing: `[len][type][seq][crc8]` and the payload.
pub mod RoundTrip
use project_voyager.Prelude.{
  ℕ, zero, suc, ◌+◌, ◌-◌, ◌*◌, ◌/◌, ◌%◌, ◌^◌, ◌≤◌, ◌<◌, ◌≡◌, refl, sym, ap, ◌∙◌, ◌≢◌, ◌↔◌, ◌⊎◌, inl,
  inr, Bool, true, false, not, ◌&&◌, ◌||◌, Option, none, some, List, [], ◌∷◌, ◌++◌, map,
  append_assoc, append-nil, arith, ltb, leb, ◌==◌, ◌!=◌, if◌then◌else◌, is_some, ==_iff, Bool-cases,
  Option-cases, Bytes, codes, length, get_elem?, get_or, set, take, drop, replicate, All,
  length-append, take-length-append, drop-length-append, length-set, length-take, get_or-set_self,
  get_or-set_ne, IsByte, str_eq, str_eq_iff, str_eq_refl,
}
use project_voyager.Lora.Crc.{packet_crc}

abbrev pub t_lora_msg : ℕ
t_lora_msg = 0

abbrev pub t_raw_data : ℕ
t_raw_data = 1

abbrev pub t_rec_akng : ℕ
t_rec_akng = 2

abbrev pub t_lora_serial : ℕ
t_lora_serial = 3

abbrev pub t_net : ℕ
t_net = 4

abbrev pub header_len : ℕ
header_len = 4

abbrev pub max_payload : ℕ
max_payload = 251

abbrev pub max_frame : ℕ
max_frame = header_len + max_payload

abbrev pub ack_ok : ℕ
ack_ok = 1

abbrev pub ack_retry : ℕ
ack_retry = 0

-- A pointer and a length: the bytes, or a null pointer with the length claimed for it.
pub data Span : Type 0 where
  null : ℕ → Span
  bytes : Bytes → Span

abbrev pub span_len : Span → ℕ
span_len (null n) = n
span_len (bytes b) = length b

abbrev pub span_bytes : Span → Bytes
span_bytes (null n) = []
span_bytes (bytes b) = b

abbrev pub is_null : Span → Bool
is_null (null n) = true
is_null (bytes b) = false

-- `out` is the capacity of the output buffer, `none` for a null pointer. `none` is the result 0, and
-- `some frame` the bytes written, whose number is the result.
unfoldable pub frame_packet : ℕ → ℕ → Span → Option ℕ → Option Bytes
frame_packet type seq payload none = none
frame_packet type seq payload (some out_cap) =
    let len = span_len payload in
    if ltb max_payload len || type == t_rec_akng || ltb t_net type
    then none
    else if ltb out_cap (header_len + len)
    then none
    else if ltb 0 len && is_null payload
    then none
    else some (len % 256 ∷ type ∷ seq ∷ packet_crc seq (span_bytes payload) ∷ span_bytes payload)

unfoldable pub frame_ack : ℕ → ℕ → Option ℕ → Option Bytes
frame_ack seq result none = none
frame_ack seq result (some out_cap) =
    if ltb out_cap (header_len + 1) then none else some (1 ∷ t_rec_akng ∷ seq ∷ 0 ∷ result ∷ [])

pub data ParseErr : Type 0 where
  no_error too_short len_mismatch bad_type bad_crc bad_ack : ParseErr

-- `payload` is the pointer into the input, as the bytes from there to the end of the input.
pub record Parsed : Type 0 where
  pub ok : Bool
  pub err : ParseErr
  pub type : ℕ
  pub seq : ℕ
  pub len : ℕ
  pub payload : Option Bytes

abbrev pub unparsed : Parsed
unparsed = record { ok = false; err = no_error; type = 0; seq = 0; len = 0; payload = none }

-- The tests behind the header; `n` is the length of the input, `crc` its byte 3.
check_parsed : ℕ → ℕ → Bytes → Parsed → Parsed
check_parsed n crc body p =
    if n != header_len + p.len
    then record p { err = len_mismatch }
    else if ltb t_net p.type
    then record p { err = bad_type }
    else if p.type == t_rec_akng
    then (if p.len != 1 then record p { err = bad_ack } else record p { ok = true })
    else if crc != packet_crc p.seq body
    then record p { err = bad_crc }
    else record p { ok = true }

-- A null buffer is `none`.
unfoldable pub parse_packet : Option Bytes → Parsed
unfolding check_parsed
parse_packet (some (len ∷ type ∷ seq ∷ crc ∷ body)) =
    check_parsed (header_len + length body) crc body (record {
      ok = false;
      err = no_error;
      type = type;
      seq = seq;
      len = len;
      payload = some body;
    })
parse_packet _ = record unparsed { err = too_short }
