-- ===== src/Lora/Crc.antt =====
-- src/lora/lora_proto.h, the CRC-8 of the LoRa frames: polynomial 0x07, initial value 0.
pub mod Detection
use Prim.Native.Nat.{bit_and, bit_xor}
use project_voyager.Prelude.{
  ℕ, zero, suc, ◌+◌, ◌-◌, ◌*◌, ◌/◌, ◌%◌, ◌^◌, ◌≤◌, ◌<◌, ◌≡◌, refl, sym, ap, ◌∙◌, ◌≢◌, ◌↔◌, ◌⊎◌, inl,
  inr, Bool, true, false, not, ◌&&◌, ◌||◌, Option, none, some, List, [], ◌∷◌, ◌++◌, map,
  append_assoc, append-nil, arith, ltb, leb, ◌==◌, ◌!=◌, if◌then◌else◌, is_some, ==_iff, Bool-cases,
  Option-cases, Bytes, codes, length, get_elem?, get_or, set, take, drop, replicate, All,
  length-append, take-length-append, drop-length-append, length-set, length-take, get_or-set_self,
  get_or-set_ne, IsByte, str_eq, str_eq_iff, str_eq_refl,
}

-- One round of the inner loop: `crc << 1`, with the polynomial where bit 7 was set.
unfoldable pub crc_round : ℕ → ℕ
crc_round crc = if bit_and crc 0x80 != 0 then bit_xor (crc * 2) 0x07 % 256 else crc * 2 % 256

unfoldable pub crc_rounds : ℕ → ℕ → ℕ
unfolding crc_round
crc_rounds zero crc = crc
crc_rounds (suc b) crc = crc_rounds b (crc_round crc)

-- The buffer `data[0 .. len)` is the list of its bytes.
unfoldable pub crc8_update : ℕ → Bytes → ℕ
unfolding crc_rounds
crc8_update crc [] = crc
crc8_update crc (b ∷ rest) = crc8_update (crc_rounds 8 (bit_xor crc b)) rest

unfoldable pub crc8 : Bytes → ℕ
unfolding crc8_update
crc8 bytes = crc8_update 0 bytes

-- The CRC of a packet: over the sequence byte, then the payload.
unfoldable pub packet_crc : ℕ → Bytes → ℕ
unfolding crc8_update
packet_crc seq payload = let c = crc8_update 0 (seq ∷ []) in crc8_update c payload
