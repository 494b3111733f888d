-- ===== src/Web/Frames.antt =====
-- src/web/web_validate.h, frames and queues: inbound WebSocket frames, outbound admission, TX numbers, and
-- the files kept across an update.
pub mod Laws
use project_voyager.Prelude.{
  ℕ, zero, suc, ◌+◌, ◌-◌, ◌*◌, ◌/◌, ◌%◌, ◌^◌, ◌≤◌, ◌<◌, ◌≡◌, refl, sym, ap, ◌∙◌, ◌≢◌, ◌↔◌, ◌⊎◌, inl,
  inr, Bool, true, false, not, ◌&&◌, ◌||◌, Option, none, some, List, [], ◌∷◌, ◌++◌, map,
  append_assoc, append-nil, arith, ltb, leb, ◌==◌, ◌!=◌, if◌then◌else◌, is_some, ==_iff, Bool-cases,
  Option-cases, Bytes, codes, length, get_elem?, get_or, set, take, drop, replicate, All,
  length-append, take-length-append, drop-length-append, length-set, length-take, get_or-set_self,
  get_or-set_ne, IsByte, str_eq, str_eq_iff, str_eq_refl,
}

abbrev pub ws_max_message : ℕ
ws_max_message = 2048

unfoldable pub ws_frame_start_ok : Bool → ℕ → ℕ → ℕ → Bool
ws_frame_start_ok final opcode total_len max_len =
    final && opcode == 1 && ltb 0 total_len && leb total_len max_len

-- `received + chunk_len` is a `uint64_t` sum.
unfoldable pub ws_chunk_in_order : ℕ → ℕ → ℕ → ℕ → ℕ → Bool
ws_chunk_in_order received expected_total index total_len chunk_len =
    index == received
    && total_len == expected_total
    && ltb 0 chunk_len
    && leb ((received + chunk_len) % 2 ^ 64) expected_total

abbrev pub ota_keep_max_bytes : ℕ
ota_keep_max_bytes = 2048

unfoldable pub ota_keep_size_ok : Bool → ℕ → Bool
ota_keep_size_ok exists size = exists && ltb 0 size && leb size ota_keep_max_bytes

unfoldable pub out_queue_admit : Bool → ℕ → ℕ → Bool
out_queue_admit to_ws spaces_free reserved =
    if spaces_free == 0 then false else to_ws || ltb reserved spaces_free

unfoldable pub tx_id_after : ℕ → ℕ
tx_id_after cur = let n = (cur + 1) % 2 ^ 32 in if n == 0 then 1 else n

-- `out_size` counts the NUL.
pub sanitize_loop : ℕ → Bytes → Bytes
sanitize_loop zero s = []
sanitize_loop (suc room) [] = []
sanitize_loop (suc room) (c ∷ s) =
    (if leb 0x20 c && ltb c 0x7f then c else b'?') ∷ sanitize_loop room s

unfoldable pub sanitize_for_log : Option Bytes → ℕ → Bytes
unfolding sanitize_loop
sanitize_for_log none out_size = []
sanitize_for_log (some s) out_size = sanitize_loop (out_size - 1) s

pub data TxCheck : Type 0 where
  tx_ok tx_missing tx_bad_json tx_too_large : TxCheck

unfoldable pub tx_check_status : TxCheck → ℕ
tx_check_status tx_missing = 400
tx_check_status tx_bad_json = 400
tx_check_status tx_too_large = 413
tx_check_status tx_ok = 0
