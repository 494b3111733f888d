-- ===== src/Lora/Radio/Sending.antt =====
-- src/lora/lora_support.cpp, `send_with_retry`: which verdict a packet gets from what is heard after each of
-- its transmissions.
use project_voyager.Prelude.{
  ℕ, zero, suc, ◌+◌, ◌%◌, ◌≤◌, ◌<◌, ◌≡◌, ◌∙◌, ◌⊎◌, inl, inr, Bool, true, false, ◌||◌, Option, none,
  some, List, [], ◌∷◌, arith, ◌==◌, if◌then◌else◌, Bool-cases, length, take,
}
use project_voyager.Lora.Frame.{t_lora_msg, t_net, max_payload, ack_ok}
use project_voyager.Lora.Retry.{
  max_retries, TxAction, TxRetry, tx_begin, tx_on_ack, tx_on_timeout, retransmit, success, fail,
}
use project_voyager.Lora.Radio.{
  QueueParam, Radio, take_seq, Attempt, wait_ack, attempt_once, retry_loop, is_broadcast,
  send_with_retry, busy, heard,
}

-- The value of the first acknowledgement that has the number of the packet.
abbrev pub answer : ℕ → List (ℕ × ℕ) → Option ℕ
answer seq [] = none
answer seq ((ack_seq, val) ∷ rest) = if ack_seq == seq then some val else answer seq rest

abbrev pub is_ok : Option ℕ → Bool
is_ok none = false
is_ok (some val) = val == ack_ok

-- Whether the packet was confirmed after this transmission.
abbrev pub confirmed : ℕ → Attempt → Bool
confirmed seq busy = false
confirmed seq (heard acks) = is_ok (answer seq acks)

abbrev pub any_confirmed : ℕ → List Attempt → Bool
any_confirmed seq [] = false
any_confirmed seq (e ∷ es) = confirmed seq e || any_confirmed seq es

-- What one transmission leads to, for a packet without a verdict.
record Attempted (t u : TxRetry) (a : TxAction) (ok : Bool) : Type 0 where
  same_seq : u.seq ≡ t.seq
  confirmed_lem : ok ≡ true → a ≡ success
  last : ok ≡ false → max_retries < t.attempts → a ≡ fail
  again :
      ok ≡ false
      → t.attempts ≤ max_retries
      → (a ≡ retransmit) × (u.done ≡ false) × (u.attempts ≡ t.attempts + 1)

wait_ack-Attempted :
    (acks : List (ℕ × ℕ)) (t : TxRetry)
    → t.done ≡ false
    → Attempted t (wait_ack t acks).0 (wait_ack t acks).1 (is_ok (answer t.seq acks))
unfolding wait_ack tx_on_ack tx_on_timeout
wait_ack-Attempted [] t d = ground arith
wait_ack-Attempted ((ack_seq, val) ∷ rest) t d = ground (arith, wait_ack-Attempted rest t d)

attempt_once-Attempted :
    (e : Attempt) (t : TxRetry)
    → t.done ≡ false
    → Attempted t (attempt_once t e).0 (attempt_once t e).1 (confirmed t.seq e)
unfolding attempt_once tx_on_timeout
attempt_once-Attempted busy t d = ground arith
attempt_once-Attempted (heard acks) t d = wait_ack-Attempted acks t d

abbrev with_one : Option (Bool × ℕ) → Option (Bool × ℕ)
with_one none = none
with_one (some (ok, n)) = some (ok, n + 1)

loop_success :
    (t : TxRetry) (e : Attempt) (es : List Attempt)
    → (attempt_once t e).1 ≡ success
    → retry_loop t (e ∷ es) ≡ some (true, 1)
unfolding retry_loop
loop_success t e es h = ground (arith, h)

loop_fail :
    (t : TxRetry) (e : Attempt) (es : List Attempt)
    → (attempt_once t e).1 ≡ fail
    → retry_loop t (e ∷ es) ≡ some (false, 1)
unfolding retry_loop
loop_fail t e es h = ground (arith, h)

loop_again :
    (t : TxRetry) (e : Attempt) (es : List Attempt)
    → (attempt_once t e).1 ≡ retransmit
    → retry_loop t (e ∷ es) ≡ with_one (retry_loop (attempt_once t e).0 es)
unfolding retry_loop
loop_again t e es h = ground (arith, h)

-- The verdict with its number of transmissions, when so many more may follow.
record Decided (seq left : ℕ) (es : List Attempt) (result : Option (Bool × ℕ)) : Type 0 where
  tries : ℕ
  result_is : result ≡ some (any_confirmed seq (take left es), tries)
  within : (0 < tries) × (tries ≤ left)
  found : any_confirmed seq (take tries es) ≡ any_confirmed seq (take left es)
  all_tried : any_confirmed seq (take left es) ≡ false → tries ≡ left

retry_loop-Decided :
    (es : List Attempt) (t : TxRetry) (left : ℕ)
    → t.done ≡ false
    → t.attempts + left ≡ max_retries + 1
    → left + 1 ≤ length es
    → Decided t.seq (left + 1) es (retry_loop t es)
retry_loop-Decided [] t left d h l = ground arith
retry_loop-Decided (e ∷ es) t zero d h l =
    let a = attempt_once-Attempted e t d in
    elim (Bool-cases (confirmed t.seq e)) [
      | inl c ↦ record {
        tries = 1;
        result_is = loop_success t e es (a.confirmed_lem c) ∙ ground (arith, c);
        within = ground arith;
        found = ground (arith, c);
        all_tried = ground (arith, c);
      }
      | inr c ↦ record {
        tries = 1;
        result_is = loop_fail t e es (a.last c (ground arith)) ∙ ground (arith, c);
        within = ground arith;
        found = ground (arith, c);
        all_tried = ground (arith, c);
      }
    ]
retry_loop-Decided (e ∷ es) t (suc left) d h l =
    let a = attempt_once-Attempted e t d in
    elim (Bool-cases (confirmed t.seq e)) [
      | inl c ↦ record {
        tries = 1;
        result_is = loop_success t e es (a.confirmed_lem c) ∙ ground (arith, c);
        within = ground arith;
        found = ground (arith, c);
        all_tried = ground (arith, c);
      }
      | inr c ↦
          let (again, open_still, count) = a.again c (ground arith) in
          let u = (attempt_once t e).0 in
          let later = retry_loop-Decided es u left open_still (ground arith) (ground arith) in
          record {
            tries = later.tries + 1;
            result_is = loop_again t e es again ∙ ground (arith, c, later.result_is, a.same_seq);
            within = ground (arith, later.within);
            found = ground (arith, c, later.found, a.same_seq);
            all_tried = ground (arith, c, later.all_tried, a.same_seq);
          }
    ]

-- A packet that is sent with acknowledgements: a message or a packet of the network that is no broadcast
-- and fits a frame.
pub record Acknowledged (p : QueueParam) : Type 0 where
  pub type_is : (p.type ≡ t_lora_msg) ⊎ (p.type ≡ t_net)
  pub for_one : is_broadcast p ≡ false
  pub fits : length p.message ≤ max_payload

-- A packet sent with acknowledgements always gets a verdict within four transmissions, whatever the
-- environment does: success exactly if, after one of them, the first acknowledgement with the packet's
-- number has the value 1 (it then came after the last one that was made), and failure only when all four were used. The packet takes the next number,
-- and older acknowledgements are thrown away.
pub send_with_retry_verdict :
    (r : Radio) (p : QueueParam) (es : List Attempt)
    → Acknowledged p
    → max_retries + 1 ≤ length es
    → (tries : ℕ) × (send_with_retry r p es ≡ (
      record r { next_seq = (r.next_seq + 1) % 256; ack_queue = [] },
      some (any_confirmed r.next_seq (take (max_retries + 1) es), tries),
    ))
      × (0 < tries)
      × (tries ≤ max_retries + 1)
      × (any_confirmed r.next_seq (take tries es)
          ≡ any_confirmed r.next_seq (take (max_retries + 1) es))
      × (any_confirmed r.next_seq (take (max_retries + 1) es) ≡ false → tries ≡ max_retries + 1)
unfolding send_with_retry take_seq tx_begin
send_with_retry_verdict r p es k l =
    let d =
      retry_loop-Decided es (tx_begin r.next_seq) max_retries (ground arith) (ground arith) l in
    (
      d.tries,
      ground (arith, k.type_is, k.for_one, k.fits, d.result_is),
      d.within.0,
      d.within.1,
      d.found,
      d.all_tried,
    )
