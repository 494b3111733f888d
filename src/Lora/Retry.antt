-- ===== src/Lora/Retry.antt =====
-- src/lora/lora_proto.h, the sender's retry and acknowledgement state machine.
pub mod Runs
use project_voyager.Prelude.{
  ℕ, zero, suc, ◌+◌, ◌-◌, ◌*◌, ◌/◌, ◌%◌, ◌^◌, ◌≤◌, ◌<◌, ◌≡◌, refl, sym, ap, ◌∙◌, ◌≢◌, ◌↔◌, ◌⊎◌, inl,
  inr, Bool, true, false, not, ◌&&◌, ◌||◌, Option, none, some, List, [], ◌∷◌, ◌++◌, map,
  append_assoc, append-nil, arith, ltb, leb, ◌==◌, ◌!=◌, if◌then◌else◌, is_some, ==_iff, Bool-cases,
  Option-cases, Bytes, codes, length, get_elem?, get_or, set, take, drop, replicate, All,
  length-append, take-length-append, drop-length-append, length-set, length-take, get_or-set_self,
  get_or-set_ne, IsByte, str_eq, str_eq_iff, str_eq_refl,
}
use project_voyager.Lora.Frame.{ack_ok}

abbrev pub max_retries : ℕ
max_retries = 3

pub data TxAction : Type 0 where
  wait retransmit success fail : TxAction

-- `attempts` counts the transmissions made so far, as a byte.
pub record TxRetry : Type 0 where
  pub seq : ℕ
  pub attempts : ℕ
  pub done : Bool

unfoldable pub tx_begin : ℕ → TxRetry
tx_begin seq = record { seq = seq; attempts = 1; done = false }

unfoldable pub tx_next_attempt_or_fail : TxRetry → TxRetry × TxAction
tx_next_attempt_or_fail t =
    if ltb max_retries t.attempts
    then (record t { done = true }, fail)
    else (record t { attempts = (t.attempts + 1) % 256 }, retransmit)

unfoldable pub tx_on_ack : TxRetry → ℕ → ℕ → TxRetry × TxAction
unfolding tx_next_attempt_or_fail
tx_on_ack t ack_seq value =
    if t.done
    then (t, wait)
    else if ack_seq != t.seq
    then (t, wait)
    else if value == ack_ok
    then (record t { done = true }, success)
    else tx_next_attempt_or_fail t

unfoldable pub tx_on_timeout : TxRetry → TxRetry × TxAction
unfolding tx_next_attempt_or_fail
tx_on_timeout t = if t.done then (t, wait) else tx_next_attempt_or_fail t

-- What the sender hears while it waits.
pub data TxEvent : Type 0 where
  ack : ℕ → ℕ → TxEvent
  timeout : TxEvent

unfoldable pub tx_step : TxRetry → TxEvent → TxRetry × TxAction
unfolding tx_on_ack tx_on_timeout
tx_step t (ack ack_seq value) = tx_on_ack t ack_seq value
tx_step t timeout = tx_on_timeout t

-- A history of events, with the action each one called for.
unfoldable pub tx_run : TxRetry → List TxEvent → TxRetry × List TxAction
unfolding tx_step
tx_run t [] = (t, [])
tx_run t (e ∷ es) =
    let (t', a) = tx_step t e in let (last, actions) = tx_run t' es in (last, a ∷ actions)
