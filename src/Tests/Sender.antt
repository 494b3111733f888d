-- ===== src/Tests/Sender.antt =====
-- Runs of the sender and of the receiver's table.
use project_voyager.Prelude.{
  ℕ, ◌+◌, ◌*◌, ◌≤◌, ◌<◌, ◌≡◌, refl, List, [], ◌∷◌, arith, if◌then◌else◌, length,
}
use project_voyager.Lora.Retry.{
  max_retries, tx_begin, tx_next_attempt_or_fail, tx_on_ack, tx_on_timeout, TxEvent, tx_step,
  tx_run, retransmit, success, fail, ack, timeout,
}
use project_voyager.Lora.Retry.Runs.{count, tx_run_bounds, acked, tx_run_success}
use project_voyager.Lora.Dedup.{
  dedup_window, fresh, key_slot, free_slot, rx_dedup_lookup, rx_dedup_find, rx_is_duplicate_multi,
  rx_commit_multi,
}
use project_voyager.Lora.Dedup.Table.{Inv}
use project_voyager.Lora.Dedup.Laws.{rx_commit_multi-Inv, commit_all, rx_is_duplicate_window}

abbrev history : List TxEvent
history = timeout ∷ ack 3 1 ∷ ack 7 0 ∷ timeout ∷ timeout ∷ []

abbrev heard : List TxEvent
heard = timeout ∷ ack 7 1 ∷ []

abbrev others : List (ℕ × ℕ)
others = (12, 7) ∷ (13, 8) ∷ []

abbrev number : ℕ
number = 7

fresh-Inv : Inv fresh
fresh-Inv = ground arith

tx_run_bounds_example :
    let (t, actions) = tx_run (tx_begin 7) history in
    (count retransmit actions ≤ max_retries)
    × (t.attempts ≡ 1 + count retransmit actions)
    × (count success actions + count fail actions ≡ (if t.done then 1 else 0))
    × (max_retries * count fail actions ≤ count retransmit actions)
tx_run_bounds_example = tx_run_bounds 7 history

tx_run_success_example : 0 < acked 7 heard
unfolding tx_run tx_step tx_on_ack tx_on_timeout tx_next_attempt_or_fail tx_begin
tx_run_success_example = tx_run_success 7 heard (ground arith)

rx_is_duplicate_window_example : (number ≡ number) × (length others + 1 < dedup_window)
unfolding commit_all rx_is_duplicate_multi rx_commit_multi rx_dedup_lookup rx_dedup_find key_slot
    free_slot
rx_is_duplicate_window_example =
    rx_is_duplicate_window fresh 11 number number others fresh-Inv (ground arith) (omega arith) refl

rx_commit_multi-Inv_example : Inv (rx_commit_multi fresh 11 7)
rx_commit_multi-Inv_example = rx_commit_multi-Inv fresh 11 7 fresh-Inv
