-- ===== src/Lora/Receive/Once.antt =====
-- src/lora/lora_support.cpp, `handle_rx_frame`: a message whose frame is heard several times, since the
-- sender transmits it again while it has no acknowledgement.
use project_voyager.Prelude.{
  ℕ, ◌+◌, ◌≡◌, refl, ◌∙◌, ◌≢◌, inl, inr, Bool, true, false, ◌&&◌, ◌||◌, Option, some, List, [], ◌∷◌,
  ◌++◌, arith, ltb, if◌then◌else◌, Bool-cases, Bytes, length, take, replicate, All,
}
use project_voyager.Prelude.Int.{ℤ}
use project_voyager.Lora.Dedup.Table.{Inv}
use project_voyager.Lora.Dedup.Laws.{rx_is_duplicate-commit}
use project_voyager.Core.Json.{Json}
use project_voyager.Lora.Frame.{t_lora_msg, max_frame, ack_ok, ack_retry, frame_packet, bytes}
use project_voyager.Lora.Frame.RoundTrip.{parse-frame}
use project_voyager.Lora.Dedup.{rx_is_duplicate_multi, rx_commit_multi}
use project_voyager.Lora.Message.{extract_mac_key}
use project_voyager.Lora.Radio.{recv_queue_depth, QueueParam}
use project_voyager.Lora.Receive.{Station, before_nul, handle_msg, handle_rx_frame}

-- A message holds no zero byte.
abbrev pub NonZero : ℕ → Type 0
NonZero c = c ≢ 0

pub before_nul_all : (text : Bytes) → All NonZero text → before_nul text ≡ text
unfolding before_nul
before_nul_all [] k = refl
before_nul_all (c ∷ text) (h, k) = ground (arith, before_nul_all text k)

pub take_all : (xs : Bytes) → take (length xs) xs ≡ xs
take_all [] = refl
take_all (x ∷ xs) = ground (arith, take_all xs)

-- The item that is queued for a message.
abbrev pub item : Bytes → QueueParam
item text = record { type = t_lora_msg; message = text; id = 0 }

-- The queue has a place.
abbrev pub has_room : Station → Bool
has_room s = ltb (length s.radio.recv_packets) recv_queue_depth

-- The station after a message from a source was accepted.
abbrev pub accepted : Station → ℕ → ℕ → Bytes → Station
accepted s key seq text = record s {
  radio = record (s.radio) { recv_packets = s.radio.recv_packets ++ item text ∷ [] };
  dedup = rx_commit_multi s.dedup key seq;
}

handle_msg_new :
    (memory : Bool) (s : Station) (key seq : ℕ) (text : Bytes)
    → All NonZero text
    → rx_is_duplicate_multi s.dedup key seq ≡ false
    → handle_msg memory s key seq text ≡ (
        if memory && has_room s
        then (accepted s key seq text, some (seq, ack_ok))
        else (s, some (seq, ack_retry)))
unfolding handle_msg
handle_msg_new memory s key seq text k d = ground (arith, d, before_nul_all text k)

handle_msg_repeated :
    (memory : Bool) (s : Station) (key seq : ℕ) (text : Bytes)
    → rx_is_duplicate_multi s.dedup key seq ≡ true
    → handle_msg memory s key seq text ≡ (s, some (seq, ack_ok))
unfolding handle_msg
handle_msg_repeated memory s key seq text d = ground (arith, d)

-- One arrival of a frame: whether the allocation succeeds, the strength of the signal, and the clock.
pub record Arrival : Type 0 where
  pub memory : Bool
  pub rssi : ℤ
  pub at : ℕ

module _ (j : Json) where
  -- A frame that arrives so many times, and the replies.
  abbrev pub hear_all : Station → Bytes → List Arrival → Station × List (Option (ℕ × ℕ))
  hear_all s frame [] = (s, [])
  hear_all s frame (a ∷ rest) =
      let (s', reply) = handle_rx_frame j a.memory a.rssi a.at s frame in
      let (last, replies) = hear_all s' frame rest in (last, reply ∷ replies)

  handle_rx_frame-message :
      (a : Arrival) (s : Station) (seq : ℕ) (text frame : Bytes)
      → All NonZero text
      → frame_packet t_lora_msg seq (bytes text) (some max_frame) ≡ some frame
      → handle_rx_frame j a.memory a.rssi a.at s frame
        ≡ handle_msg a.memory s (extract_mac_key j (some text)) seq text
  unfolding handle_rx_frame
  handle_rx_frame-message a s seq text frame k e =
      let p = parse-frame t_lora_msg seq (bytes text) max_frame frame e in
      rw (p.0, take_all text, before_nul_all text k) refl

-- Whether the allocation succeeds at one of the arrivals.
abbrev pub some_memory : List Arrival → Bool
some_memory [] = false
some_memory (a ∷ rest) = a.memory || some_memory rest

-- The replies that the sender of a message should get: the value 0 until it was queued, then the value 1.
abbrev pub answers : Bool → ℕ → List Arrival → List (Option (ℕ × ℕ))
answers room seq [] = []
answers room seq (a ∷ rest) =
    if a.memory && room
    then replicate (length rest + 1) (some (seq, ack_ok))
    else some (seq, ack_retry) ∷ answers room seq rest

module _ (j : Json) where
  hear_all_repeated :
      (arrivals : List Arrival) (s : Station) (seq : ℕ) (text frame : Bytes)
      → All NonZero text
      → frame_packet t_lora_msg seq (bytes text) (some max_frame) ≡ some frame
      → rx_is_duplicate_multi s.dedup (extract_mac_key j (some text)) seq ≡ true
      → hear_all j s frame arrivals ≡ (s, replicate (length arrivals) (some (seq, ack_ok)))
  hear_all_repeated [] s seq text frame k e d = refl
  hear_all_repeated (a ∷ rest) s seq text frame k e d =
      rw
        (
          handle_rx_frame-message j a s seq text frame k e,
          handle_msg_repeated a.memory s (extract_mac_key j (some text)) seq text d,
          hear_all_repeated rest s seq text frame k e d,
        )
        refl

  -- A message without zero bytes that a receiver, with a table as `Inv` describes it, does not take
  -- for a repeated one, and that arrives several times with nothing else between: it is queued for
  -- the web page once if the queue has a place and memory was found at one of the arrivals, and
  -- otherwise nothing changes. The replies have its number, and the value 1 from the arrival on at
  -- which it was queued.
  pub hear_all_once :
      (arrivals : List Arrival) (s : Station) (seq : ℕ) (text frame : Bytes)
      → Inv s.dedup
      → All NonZero text
      → frame_packet t_lora_msg seq (bytes text) (some max_frame) ≡ some frame
      → rx_is_duplicate_multi s.dedup (extract_mac_key j (some text)) seq ≡ false
      → hear_all j s frame arrivals ≡ (
        if some_memory arrivals && has_room s
            then accepted s (extract_mac_key j (some text)) seq text
            else s,
        answers (has_room s) seq arrivals,
      )
  hear_all_once [] s seq text frame v k e d = refl
  hear_all_once (a ∷ rest) s seq text frame v k e d =
      let key = extract_mac_key j (some text) in
      let s' = accepted s key seq text in
      elim (Bool-cases (a.memory && has_room s)) [
        | inl h ↦
            let dup : rx_is_duplicate_multi s'.dedup key seq ≡ true =
              rx_is_duplicate-commit s.dedup key seq seq v ∙ ground arith in
            rw
              (
                handle_rx_frame-message j a s seq text frame k e,
                handle_msg_new a.memory s key seq text k d,
                h,
              )
              (rw (hear_all_repeated rest s' seq text frame k e dup) (ground (arith, h)))
        | inr h ↦
            rw
              (
                handle_rx_frame-message j a s seq text frame k e,
                handle_msg_new a.memory s key seq text k d,
                h,
                hear_all_once rest s seq text frame v k e d,
              )
              (ground (arith, h))
      ]
