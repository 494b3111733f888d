-- ===== src/Lora/Exchange.antt =====
-- src/lora/lora_support.cpp, a sender and a receiver over a channel that loses, delays, repeats and
-- reorders: `send_with_retry` on the one side and `handle_rx_frame` on the other.
use project_voyager.Prelude.{
  ℕ, zero, suc, ◌+◌, ◌≤◌, ◌<◌, ◌≡◌, refl, ◌⊎◌, inl, inr, Bool, true, false, ◌&&◌, ◌||◌, Option,
  none, some, List, [], ◌∷◌, ◌++◌, append_assoc, arith, ◌==◌, Bool-cases, Bytes, length, take, All,
}
use project_voyager.Lora.Retry.{max_retries}
use project_voyager.Lora.Radio.Sending.{
  answer, is_ok, confirmed, any_confirmed, Acknowledged, send_with_retry_verdict,
}
use project_voyager.Core.Json.{Json}
use project_voyager.Lora.Frame.{
  t_lora_msg, max_payload, max_frame, ack_ok, ack_retry, frame_packet, bytes,
}
use project_voyager.Lora.Dedup.{rx_is_duplicate_multi}
use project_voyager.Lora.Dedup.Table.{Inv}
use project_voyager.Lora.Message.{extract_mac_key}
use project_voyager.Lora.Radio.{Radio, frame_of, Attempt, send_with_retry, busy, heard}
use project_voyager.Lora.Receive.{Station}
use project_voyager.Lora.Receive.Once.{
  NonZero, item, has_room, accepted, Arrival, hear_all, some_memory, answers, hear_all_once,
}

-- One transmission of the sender: whether the frame arrives, and what the sender hears.
pub record Trial : Type 0 where
  pub arrival : Option Arrival
  pub attempt : Attempt

abbrev pub attempts : List Trial → List Attempt
attempts [] = []
attempts (t ∷ ts) = t.attempt ∷ attempts ts

abbrev pub arrival_list : Option Arrival → List Arrival
arrival_list none = []
arrival_list (some a) = a ∷ []

abbrev pub arrivals : List Trial → List Arrival
arrivals [] = []
arrivals (t ∷ ts) = arrival_list t.arrival ++ arrivals ts

abbrev pub acks_of : Attempt → List (ℕ × ℕ)
acks_of busy = []
acks_of (heard acks) = acks

-- The acknowledgement is one of the replies.
abbrev pub Sent : ℕ × ℕ → List (Option (ℕ × ℕ)) → Type 0
Sent given [] = ⊥
Sent given (reply ∷ replies) = (reply ≡ some given) ⊎ Sent given replies

-- Acknowledgements with the number of the packet come from the receiver: it sent them for an arrival of
-- the frame up to now. They may be late, missing or repeated, and others may be heard too.
abbrev pub Honest : Json → Station → Bytes → ℕ → List Arrival → List Trial → Type 0
Honest j s frame seq before [] = Unit {0}
Honest j s frame seq before (t ∷ ts) =
    let so_far = before ++ arrival_list t.arrival in
    All (λ given. given.0 ≡ seq → Sent given (hear_all j s frame so_far).1) (acks_of t.attempt)
    × Honest j s frame seq so_far ts

answer-Sent :
    (seq : ℕ) (replies : List (Option (ℕ × ℕ))) (acks : List (ℕ × ℕ))
    → All (λ given. given.0 ≡ seq → Sent given replies) acks
    → is_ok (answer seq acks) ≡ true
    → Sent (seq, ack_ok) replies
answer-Sent seq replies [] k h = ground arith
answer-Sent seq replies ((ack_seq, val) ∷ rest) (k, ks) h = elim (Bool-cases (ack_seq == seq)) [
  | inl e ↦
      let same : ack_seq ≡ seq = ground (arith, e) in
      let ok : val ≡ ack_ok = ground (arith, e, h) in rw (same, ok) at (k same)
  | inr e ↦ answer-Sent seq replies rest ks (ground (arith, e, h))
]

Sent-answers :
    (room : Bool) (seq : ℕ) (arrived : List Arrival)
    → Sent (seq, ack_ok) (answers room seq arrived)
    → (some_memory arrived && room) ≡ true
Sent-answers room seq [] h = ground arith
Sent-answers room seq (a ∷ rest) h = elim (Bool-cases (a.memory && room)) [
  | inl e ↦ ground (arith, e)
  | inr e ↦
      let k : Sent (seq, ack_ok) (some (seq, ack_retry) ∷ answers room seq rest) = rw e at h in
      elim k [
        | inl wrong ↦ ground (arith, wrong)
        | inr later ↦ ground (arith, Sent-answers room seq rest later)
      ]
]

some_memory-append :
    (xs ys : List Arrival) → some_memory (xs ++ ys) ≡ (some_memory xs || some_memory ys)
some_memory-append [] ys = refl
some_memory-append (a ∷ xs) ys = ground (arith, some_memory-append xs ys)

confirmed-Sent :
    (seq : ℕ) (replies : List (Option (ℕ × ℕ))) (e : Attempt)
    → All (λ given. given.0 ≡ seq → Sent given replies) (acks_of e)
    → confirmed seq e ≡ true
    → Sent (seq, ack_ok) replies
confirmed-Sent seq replies busy k h = ground (arith, h)
confirmed-Sent seq replies (heard acks) k h = answer-Sent seq replies acks k h

-- Once the sender takes the packet for confirmed, the receiver has queued it.
confirmed_queued :
    (j : Json) (s : Station) (text frame : Bytes) (seq : ℕ)
    → Inv s.dedup
    → All NonZero text
    → frame_packet t_lora_msg seq (bytes text) (some max_frame) ≡ some frame
    → rx_is_duplicate_multi s.dedup (extract_mac_key j (some text)) seq ≡ false
    → (n : ℕ) (ts : List Trial) (before : List Arrival) → Honest j s frame seq before ts
    → any_confirmed seq (take n (attempts ts)) ≡ true
    → (some_memory (before ++ arrivals (take n ts)) && has_room s) ≡ true
confirmed_queued j s text frame seq v k e d zero ts before hs c = ground (arith, c)
confirmed_queued j s text frame seq v k e d (suc n) [] before hs c = ground (arith, c)
confirmed_queued j s text frame seq v k e d (suc n) (t ∷ ts) before (h, hs) c =
    let so_far = before ++ arrival_list t.arrival in
    let assoc = append_assoc before (arrival_list t.arrival) (arrivals (take n ts)) in
    let all = some_memory-append so_far (arrivals (take n ts)) in
    elim (Bool-cases (confirmed seq t.attempt)) [
      | inl c₁ ↦
          let sent = confirmed-Sent seq (hear_all j s frame so_far).1 t.attempt h c₁ in
          let queued =
            Sent-answers (has_room s) seq so_far
              (rw (hear_all_once j so_far s seq text frame v k e d) at sent) in
          ground (arith, assoc, all, queued)
      | inr c₁ ↦
          let later =
            confirmed_queued j s text frame seq v k e d n ts so_far hs (ground (arith, c₁, c)) in
          ground (arith, assoc, later)
    ]

length-attempts : (ts : List Trial) → length (attempts ts) ≡ length ts
length-attempts [] = refl
length-attempts (t ∷ ts) = ground (arith, length-attempts ts)

frame_of-framed :
    (text frame : Bytes) (seq : ℕ)
    → frame_of text t_lora_msg seq ≡ some frame
    → (length text ≤ max_payload)
      × (frame_packet t_lora_msg seq (bytes text) (some max_frame) ≡ some frame)
unfolding frame_of
frame_of-framed text frame seq e = (ground (arith, e), ground (arith, e))

-- A message without zero bytes that fits a frame, sent over a channel that may lose the frame and
-- lose, delay, repeat or reorder the acknowledgements, to a receiver whose table `Inv` describes
-- and which does not take the message for a repeated one. The acknowledgements with its number that
-- the sender hears were sent by this receiver, and nothing else reaches the receiver or empties its
-- queue meanwhile. Then the sender comes to a verdict within four transmissions; if the verdict is
-- success, the receiver has queued the message exactly once, and if it is failure, at most once.
pub exchange_once :
    (j : Json) (r : Radio) (s : Station) (text frame : Bytes) (ts : List Trial)
    → All NonZero text
    → frame_of text t_lora_msg r.next_seq ≡ some frame
    → Inv s.dedup
    → rx_is_duplicate_multi s.dedup (extract_mac_key j (some text)) r.next_seq ≡ false
    → max_retries + 1 ≤ length ts
    → Honest j s frame r.next_seq [] ts
    → (ok : Bool) × (tries : ℕ) × ((send_with_retry r (item text) (attempts ts)).1
        ≡ some (ok, tries))
      × (0 < tries)
      × (tries ≤ max_retries + 1)
      × (let last = (hear_all j s frame (arrivals (take tries ts))).0 in
          let after = accepted s (extract_mac_key j (some text)) r.next_seq text in
          (ok ≡ true → last ≡ after) × ((last ≡ after) ⊎ (last ≡ s)))
exchange_once j r s text frame ts k e v d l hs =
    let (fits, framed) = frame_of-framed text frame r.next_seq e in
    let sendable : Acknowledged (item text) = record {
      type_is = inl refl;
      for_one = ground arith;
      fits = fits;
    } in
    let (tries, verdict, some_try, within, found, all_tried) =
      send_with_retry_verdict r (item text) (attempts ts) sendable (rw (length-attempts ts) l) in
    let once = hear_all_once j (arrivals (take tries ts)) s r.next_seq text frame v k framed d in
    let queued = confirmed_queued j s text frame r.next_seq v k framed d tries ts [] hs in
    (
      any_confirmed r.next_seq (take (max_retries + 1) (attempts ts)),
      tries,
      ground (arith, verdict),
      some_try,
      within,
      (λ ok. ground (arith, once, queued, found, ok), ground (arith, once)),
    )
