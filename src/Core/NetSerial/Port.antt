-- ===== src/Core/NetSerial/Port.antt =====
-- src/core/net_serial.cpp, the port as a stream: what the bytes of the computer do, in terms of the frames
-- that they make up.
use project_voyager.Prelude.{
  ℕ, ◌≡◌, refl, ◌∙◌, inl, inr, Bool, none, some, List, [], ◌∷◌, ◌++◌, arith, Option-cases, Bytes,
}
use project_voyager.Lora.Slip.{SlipDecoder, feed, feed_all}
use project_voyager.Lora.Radio.{Radio}
use project_voyager.Core.NetSerial.{
  decoder_cap, NetSerial, net_leave, maybe_report_busy, Step, forward, handle_control,
  handle_packet, handle_frame, net_feed,
}

-- A run of `net_feed` over the bytes that were read.
abbrev pub net_feed_all : Bool → ℕ → Bytes → NetSerial → Radio → Step
net_feed_all memory now [] s r = record { net = s; radio = r; out = [] }
net_feed_all memory now (b ∷ bs) s r =
    let x = net_feed memory now b s r in
    let y = net_feed_all memory now bs x.net x.radio in
    record { net = y.net; radio = y.radio; out = x.out ++ y.out }

-- A run of `handle_frame` over whole frames.
abbrev pub handle_frames : Bool → ℕ → List Bytes → NetSerial → Radio → Step
handle_frames memory now [] s r = record { net = s; radio = r; out = [] }
handle_frames memory now (f ∷ fs) s r =
    let x = handle_frame memory now f s r in
    let y = handle_frames memory now fs x.net x.radio in
    record { net = y.net; radio = y.radio; out = x.out ++ y.out }

-- The outcome with another state of the decoder.
abbrev pub with_dec : SlipDecoder → Step → Step
with_dec d x = record x { net = record (x.net) { dec = d } }

forward_dec :
    (memory : Bool) (now dst : ℕ) (ip : Bytes) (d : SlipDecoder) (s : NetSerial) (r : Radio)
    → forward memory now dst ip (record s { dec = d }) r
      ≡ with_dec d (forward memory now dst ip s r)
unfolding forward maybe_report_busy
forward_dec memory now dst ip d s r = ground arith

handle_frame_dec :
    (memory : Bool) (now : ℕ) (f : Bytes) (d : SlipDecoder) (s : NetSerial) (r : Radio)
    → handle_frame memory now f (record s { dec = d }) r
      ≡ with_dec d (handle_frame memory now f s r)
unfolding handle_frame handle_control handle_packet net_leave
handle_frame_dec memory now f d s r = ground (arith, forward_dec memory now)

handle_frames_dec :
    (fs : List Bytes) (memory : Bool) (now : ℕ) (d : SlipDecoder) (s : NetSerial) (r : Radio)
    → handle_frames memory now fs (record s { dec = d }) r
      ≡ with_dec d (handle_frames memory now fs s r)
handle_frames_dec [] memory now d s r = refl
handle_frames_dec (f ∷ fs) memory now d s r =
    let x = handle_frame memory now f s r in
    rw (handle_frame_dec memory now f d s r, handle_frames_dec fs memory now d x.net x.radio) refl

net_feed_quiet :
    (memory : Bool) (now b : ℕ) (s : NetSerial) (r : Radio)
    → (feed decoder_cap s.dec b).1 ≡ none
    → net_feed memory now b s r
      ≡ record { net = record s { dec = (feed decoder_cap s.dec b).0 }; radio = r; out = [] }
unfolding net_feed
net_feed_quiet memory now b s r e = ground (arith, e)

net_feed_frame :
    (memory : Bool) (now b : ℕ) (s : NetSerial) (r : Radio) (f : Bytes)
    → (feed decoder_cap s.dec b).1 ≡ some f
    → net_feed memory now b s r
      ≡ handle_frame memory now f (record s { dec = (feed decoder_cap s.dec b).0 }) r
unfolding net_feed
net_feed_frame memory now b s r f e = ground (arith, e)

feed_all_end : (cap : ℕ) (d : SlipDecoder) → feed_all cap d [] ≡ (d, [])
unfolding feed_all
feed_all_end cap d = refl

feed_all_quiet :
    (cap b : ℕ) (d : SlipDecoder) (bs : Bytes)
    → (feed cap d b).1 ≡ none
    → feed_all cap d (b ∷ bs) ≡ feed_all cap (feed cap d b).0 bs
unfolding feed_all
feed_all_quiet cap b d bs e = ground (arith, e)

feed_all_frame :
    (cap b : ℕ) (d : SlipDecoder) (bs f : Bytes)
    → (feed cap d b).1 ≡ some f
    → feed_all cap d (b ∷ bs)
      ≡ ((feed_all cap (feed cap d b).0 bs).0, f ∷ (feed_all cap (feed cap d b).0 bs).1)
unfolding feed_all
feed_all_frame cap b d bs f e = ground (arith, e)

-- Reading bytes from the port has the same outcome as taking the frames that the decoder finds in them one
-- after the other, in the order in which they end: the same packets for the radio, counters and
-- answers. The decoder keeps what it has of the next frame.
pub net_feed_all-frames :
    (bs : Bytes) (memory : Bool) (now : ℕ) (s : NetSerial) (r : Radio)
    → let (d, fs) = feed_all decoder_cap s.dec bs in
      net_feed_all memory now bs s r ≡ with_dec d (handle_frames memory now fs s r)
net_feed_all-frames [] memory now s r = rw (feed_all_end decoder_cap s.dec) refl
net_feed_all-frames (b ∷ bs) memory now s r =
    let d = (feed decoder_cap s.dec b).0 in
    elim (Option-cases (feed decoder_cap s.dec b).1) [
      | inl e ↦
          let step = net_feed_quiet memory now b s r e in
          let rest = net_feed_all-frames bs memory now (record s { dec = d }) r in
          let fs = (feed_all decoder_cap d bs).1 in
          rw
            (
              step,
              feed_all_quiet decoder_cap b s.dec bs e,
              rest,
              handle_frames_dec fs memory now d s r,
            )
            refl
      | inr (f, e) ↦
          let step = net_feed_frame memory now b s r f e ∙ handle_frame_dec memory now f d s r in
          let x = handle_frame memory now f s r in
          let rest = net_feed_all-frames bs memory now (record (x.net) { dec = d }) x.radio in
          let fs = (feed_all decoder_cap d bs).1 in
          rw
            (
              step,
              feed_all_frame decoder_cap b s.dec bs f e,
              rest,
              handle_frames_dec fs memory now d x.net x.radio,
            )
            refl
    ]
