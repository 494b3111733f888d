-- ===== src/Lora/Retry/Runs.antt =====
-- src/lora/lora_proto.h, the sender: what any history of acknowledgements and timeouts leads to.
use project_voyager.Prelude.{
  ℕ, ◌+◌, ◌*◌, ◌≤◌, ◌<◌, ◌≡◌, refl, Bool, true, false, ◌&&◌, List, [], ◌∷◌, arith, ◌==◌,
  if◌then◌else◌,
}
use project_voyager.Lora.Frame.{ack_ok}
use project_voyager.Lora.Retry.{
  max_retries, TxAction, wait, retransmit, success, fail, TxRetry, tx_begin, TxEvent, ack, timeout,
  tx_step, tx_run,
}

abbrev counted : TxAction → TxAction → ℕ
counted retransmit retransmit = 1
counted success success = 1
counted fail fail = 1
counted wait wait = 1
counted _ _ = 0

-- How often an action was called for.
abbrev pub count : TxAction → List TxAction → ℕ
count a [] = 0
count a (b ∷ bs) = counted a b + count a bs

-- The events that a sender waiting for `seq` does not ignore.
abbrev matters : ℕ → TxEvent → ℕ
matters seq (ack s v) = if s == seq then 1 else 0
matters seq timeout = 1

abbrev pub relevant : ℕ → List TxEvent → ℕ
relevant seq [] = 0
relevant seq (e ∷ es) = matters seq e + relevant seq es

abbrev bit : Bool → ℕ
bit true = 1
bit false = 0

-- The ledger of a sender: attempts made so far, and one verdict when it is done.
record Ledger (t u : TxRetry) (actions : List TxAction) : Type 0 where
  same_seq : u.seq ≡ t.seq
  sends : u.attempts ≡ t.attempts + count retransmit actions
  within : u.attempts ≤ max_retries + 1
  verdict : count success actions + count fail actions + bit t.done ≡ bit u.done
  exhausted : (max_retries + 1) * count fail actions ≤ u.attempts

tx_step-Ledger :
    (t : TxRetry) (e : TxEvent)
    → t.attempts ≤ max_retries + 1
    → Ledger t (tx_step t e).0 ((tx_step t e).1 ∷ [])
unfolding tx_step
tx_step-Ledger t (ack s v) h = ground arith
tx_step-Ledger t timeout h = ground arith

Ledger-cons :
    (t u v : TxRetry) (a : TxAction) (later : List TxAction)
    → Ledger t u (a ∷ [])
    → Ledger u v later
    → Ledger t v (a ∷ later)
Ledger-cons t u v a later l m = ground arith

tx_run-Ledger :
    (es : List TxEvent) (t : TxRetry)
    → t.attempts ≤ max_retries + 1
    → Ledger t (tx_run t es).0 (tx_run t es).1
unfolding tx_run
tx_run-Ledger [] t h = ground arith
tx_run-Ledger (e ∷ es) t h =
    let l = tx_step-Ledger t e h in
    Ledger-cons t (tx_step t e).0 _ (tx_step t e).1 _ l (tx_run-Ledger es (tx_step t e).0 l.within)

-- From the first transmission on, whatever is heard: at most three retransmissions, at most one
-- verdict, which is given exactly when the sender is done, and a failure only after the fourth
-- transmission.
pub tx_run_bounds :
    (seq : ℕ) (es : List TxEvent)
    → let (t, actions) = tx_run (tx_begin seq) es in
      (count retransmit actions ≤ max_retries)
      × (t.attempts ≡ 1 + count retransmit actions)
      × (count success actions + count fail actions ≡ (if t.done then 1 else 0))
      × (max_retries * count fail actions ≤ count retransmit actions)
unfolding tx_begin
tx_run_bounds seq es = ground (arith, tx_run-Ledger es (tx_begin seq) (omega arith))

tx_step_progress :
    (t : TxRetry) (e : TxEvent)
    → t.attempts ≤ max_retries + 1
    → (tx_step t e).0.done ≡ false
    → t.attempts + matters t.seq e ≤ (tx_step t e).0.attempts
unfolding tx_step
tx_step_progress t (ack s v) h d = ground arith
tx_step_progress t timeout h d = ground arith

tx_run_progress :
    (es : List TxEvent) (t : TxRetry)
    → t.attempts ≤ max_retries + 1
    → (tx_run t es).0.done ≡ false
    → t.attempts + relevant t.seq es ≤ (tx_run t es).0.attempts
unfolding tx_run
tx_run_progress [] t h d = omega arith
tx_run_progress (e ∷ es) t h d =
    let u = (tx_step t e).0 in
    let l = tx_step-Ledger t e h in
    let later = tx_run-Ledger es u l.within in
    let more = tx_run_progress es u l.within d in ground (arith, tx_step_progress t e h)

-- The sender never waits for ever: the fourth timeout or answer to its packet, at the latest, brings
-- the verdict, and there is then exactly one.
pub tx_run_terminates :
    (seq : ℕ) (es : List TxEvent)
    → max_retries + 1 ≤ relevant seq es
    → let (t, actions) = tx_run (tx_begin seq) es in
      (t.done ≡ true) × (count success actions + count fail actions ≡ 1)
unfolding tx_begin
tx_run_terminates seq es h =
    let l = tx_run-Ledger es (tx_begin seq) (omega arith) in
    ground (arith, tx_run_progress es (tx_begin seq))

abbrev waits : List TxEvent → List TxAction
waits [] = []
waits (e ∷ es) = wait ∷ waits es

-- After the verdict every event is ignored: no retransmission, no second verdict, no change.
pub tx_run_done : (es : List TxEvent) (t : TxRetry) → t.done ≡ true → tx_run t es ≡ (t, waits es)
unfolding tx_run tx_step
tx_run_done [] t d = refl
tx_run_done (ack s v ∷ es) t d = ground (arith, tx_run_done es t d)
tx_run_done (timeout ∷ es) t d = ground (arith, tx_run_done es t d)

-- How many of the events are a positive acknowledgement of `seq`.
abbrev pub acked : ℕ → List TxEvent → ℕ
acked seq [] = 0
acked seq (ack s v ∷ es) = (if s == seq && v == ack_ok then 1 else 0) + acked seq es
acked seq (timeout ∷ es) = acked seq es

tx_run-acked : (es : List TxEvent) (t : TxRetry) → count success (tx_run t es).1 ≤ acked t.seq es
unfolding tx_run tx_step
tx_run-acked [] t = omega arith
tx_run-acked (ack s v ∷ es) t = ground (arith, tx_run-acked es (tx_step t (ack s v)).0)
tx_run-acked (timeout ∷ es) t = ground (arith, tx_run-acked es (tx_step t timeout).0)

-- Success is reported only if the receiver acknowledged this packet with the value 1.
pub tx_run_success :
    (seq : ℕ) (es : List TxEvent)
    → 0 < count success (tx_run (tx_begin seq) es).1
    → 0 < acked seq es
unfolding tx_begin
tx_run_success seq es h = omega (arith, tx_run-acked es (tx_begin seq))
