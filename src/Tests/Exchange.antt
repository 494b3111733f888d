-- ===== src/Tests/Exchange.antt =====
-- A message that crosses a channel with losses, and an IPv4 packet on its whole way.
use mathlib.Core.Path.{subst}
use project_voyager.Prelude.{
  ℕ, ◌+◌, ◌%◌, ◌≤◌, ◌<◌, ◌≡◌, refl, sym, ap, ◌⊎◌, inl, inr, Bool, true, false, ◌&&◌, none, some,
  List, [], ◌∷◌, ◌++◌, arith, if◌then◌else◌, Bytes, codes, take, replicate, All,
}
use project_voyager.Tests.Fakes.{texts, radio, fresh-Inv, station}
use project_voyager.Prelude.Int.{ℤ}
use project_voyager.Lora.Crc.{crc_round, crc_rounds, crc8_update, packet_crc}
use project_voyager.Lora.Frame.{t_lora_msg, max_frame, frame_packet, bytes}
use project_voyager.Lora.Retry.{max_retries}
use project_voyager.Lora.Dedup.{
  fresh, key_slot, free_slot, rx_dedup_lookup, rx_dedup_find, rx_is_duplicate_multi,
}
use project_voyager.Lora.Message.{extract_mac_key}
use project_voyager.Lora.Radio.{frame_of, send_with_retry, busy, heard}
use project_voyager.Lora.Radio.Sending.{any_confirmed, send_with_retry_verdict}
use project_voyager.Lora.Receive.Once.{
  NonZero, item, has_room, accepted, Arrival, hear_all, some_memory, answers, hear_all_once,
}
use project_voyager.Lora.Exchange.{Trial, attempts, arrivals, Sent, Honest, exchange_once}

abbrev message : Bytes
message = codes "hi"

abbrev frame : Bytes
frame = 2 ∷ 0 ∷ 7 ∷ 83 ∷ message

framed_message : frame_of message t_lora_msg 7 ≡ some frame
unfolding frame_of frame_packet packet_crc crc8_update crc_rounds crc_round
framed_message = refl

new_message : rx_is_duplicate_multi fresh (extract_mac_key texts (some message)) 7 ≡ false
unfolding rx_is_duplicate_multi rx_dedup_lookup rx_dedup_find key_slot free_slot
new_message = refl

abbrev poor : Arrival
poor = record { memory = false; rssi = ℤ.pos 0; at = 1 }

abbrev good : Arrival
good = record { memory = true; rssi = ℤ.pos 0; at = 2 }

-- The frame is lost; it arrives without memory and its reply is lost; it arrives and the reply is late;
-- it arrives again, and both replies are heard.
abbrev trials : List Trial
trials =
    record { arrival = none; attempt = busy }
    ∷ record { arrival = some poor; attempt = heard ((3, 1) ∷ []) }
    ∷ record { arrival = some good; attempt = heard [] }
    ∷ record { arrival = some good; attempt = heard ((7, 1) ∷ (7, 1) ∷ []) }
    ∷ []

not_zero : All NonZero message
not_zero = ground arith

framed_7 : frame_packet t_lora_msg 7 (bytes message) (some max_frame) ≡ some frame
unfolding frame_packet packet_crc crc8_update crc_rounds crc_round
framed_7 = refl

heard_three : hear_all texts station frame (poor ∷ good ∷ good ∷ []) ≡ (
  accepted station (extract_mac_key texts (some message)) 7 message,
  some (7, 0) ∷ some (7, 1) ∷ some (7, 1) ∷ [],
)
heard_three =
    hear_all_once texts (poor ∷ good ∷ good ∷ []) station 7 message frame fresh-Inv not_zero
      framed_7 new_message

replies_Sent : Sent (7, 1) (hear_all texts station frame (poor ∷ good ∷ good ∷ [])).1
replies_Sent = subst (λ rs. Sent (7, 1) rs) (sym (ap (λ x. x.1) heard_three)) (inr (inl refl))

trials-Honest : Honest texts station frame 7 [] trials
trials-Honest = (
  tt,
  (((λ e. ground (arith, e)), tt), (tt, (((λ _. replies_Sent), ((λ _. replies_Sent), tt)), tt))),
)

send_with_retry_verdict_example :
    (tries : ℕ) × (send_with_retry radio (item message) (attempts trials) ≡ (
      record radio { next_seq = (radio.next_seq + 1) % 256; ack_queue = [] },
      some (any_confirmed radio.next_seq (take (max_retries + 1) (attempts trials)), tries),
    ))
    × (0 < tries)
    × (tries ≤ max_retries + 1)
    × (any_confirmed radio.next_seq (take tries (attempts trials))
        ≡ any_confirmed radio.next_seq (take (max_retries + 1) (attempts trials)))
    × (any_confirmed radio.next_seq (take (max_retries + 1) (attempts trials)) ≡ false
        → tries ≡ max_retries + 1)
send_with_retry_verdict_example =
    send_with_retry_verdict radio (item message) (attempts trials)
      (record { type_is = inl refl; for_one = refl; fits = omega arith }) (omega arith)

hear_all_once_example : hear_all texts station frame (poor ∷ good ∷ []) ≡ (
  if some_memory (poor ∷ good ∷ []) && has_room station
      then accepted station (extract_mac_key texts (some message)) 7 message
      else station,
  answers (has_room station) 7 (poor ∷ good ∷ []),
)
hear_all_once_example =
    hear_all_once texts (poor ∷ good ∷ []) station 7 message frame fresh-Inv not_zero framed_7
      new_message

exchange_once_example :
    (ok : Bool) × (tries : ℕ) × ((send_with_retry radio (item message) (attempts trials)).1
      ≡ some (ok, tries))
    × (0 < tries)
    × (tries ≤ max_retries + 1)
    × (let last = (hear_all texts station frame (arrivals (take tries trials))).0 in
        let after =
          accepted station (extract_mac_key texts (some message)) radio.next_seq message in
        (ok ≡ true → last ≡ after) × ((last ≡ after) ⊎ (last ≡ station)))
exchange_once_example =
    exchange_once texts radio station message frame trials not_zero framed_message fresh-Inv
      new_message (omega arith) trials-Honest

-- A packet of 20 bytes for board 3.4.
abbrev packet : Bytes
packet = 0x45 ∷ 0 ∷ 0 ∷ 20 ∷ (replicate 12 1 ++ (10 ∷ 73 ∷ 3 ∷ 4 ∷ []))
