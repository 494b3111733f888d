-- ===== src/Lora/Slip/RoundTrip.antt =====
-- src/lora/lora_proto.h, SLIP: what the encoder writes, and that the decoder reads it back.
use project_voyager.Prelude.{
  ℕ, ◌+◌, ◌-◌, ◌*◌, ◌≤◌, ◌<◌, ◌≡◌, refl, ◌∙◌, inl, inr, true, false, ◌||◌, none, some, List, [],
  ◌∷◌, ◌++◌, append_assoc, append-nil, arith, leb, ◌==◌, if◌then◌else◌, Bool-cases, Bytes, length,
  length-append,
}
use project_voyager.Lora.Slip.{
  slip_end, escape_byte, encode_loop, slip_encode, SlipDecoder, reset, store, feed, feed_all,
}

-- The body of a frame: every byte escaped.
abbrev pub escaped : Bytes → Bytes
escaped [] = []
escaped (b ∷ bs) = escape_byte b ++ escaped bs

-- One frame on the wire.
abbrev pub framed : Bytes → Bytes
framed input = slip_end ∷ (escaped input ++ slip_end ∷ [])

length-escape_byte : (b : ℕ) → (1 ≤ length (escape_byte b)) × (length (escape_byte b) ≤ 2)
unfolding escape_byte
length-escape_byte b = ground arith

length-escaped : (bs : Bytes) → length (escaped bs) ≤ 2 * length bs
length-escaped [] = omega arith
length-escaped (b ∷ bs) =
    omega
      (arith, length-escape_byte b, length-append (escape_byte b) (escaped bs), length-escaped bs)

encode_loop-fits :
    (input : Bytes) (cap : ℕ) (out : Bytes)
    → length out + length (escaped input) ≤ cap - 1
    → encode_loop cap out input ≡ some (out ++ escaped input)
unfolding encode_loop
encode_loop-fits [] cap out h = rw append-nil
encode_loop-fits (b ∷ bs) cap out h =
    let joined = length-append (escape_byte b) (escaped bs) in
    let step = length-append out (escape_byte b) in
    ground (
      arith,
      joined,
      step,
      encode_loop-fits bs cap (out ++ escape_byte b),
      append_assoc out (escape_byte b) (escaped bs),
    )

encode_loop-overflows :
    (input : Bytes) (cap : ℕ) (out : Bytes)
    → length out ≤ cap - 1
    → cap - 1 < length out + length (escaped input)
    → encode_loop cap out input ≡ none
unfolding encode_loop
encode_loop-overflows [] cap out fits h = absurd (omega arith)
encode_loop-overflows (b ∷ bs) cap out fits h =
    let joined = length-append (escape_byte b) (escaped bs) in
    let step = length-append out (escape_byte b) in
    ground (arith, joined, step, encode_loop-overflows bs cap (out ++ escape_byte b))

-- The encoder writes END, the escaped bytes and END when they fit into `cap` bytes, and reports
-- failure exactly when they do not.
pub slip_encode-framed :
    (input : Bytes) (cap : ℕ)
    → slip_encode input cap
      ≡ (if leb (length (framed input)) cap then some (framed input) else none)
unfolding slip_encode
slip_encode-framed input cap = ground (
  arith,
  length-append (escaped input) (slip_end ∷ []),
  encode_loop-fits input cap (slip_end ∷ []),
  encode_loop-overflows input cap (slip_end ∷ []),
)

-- The documented worst case: a buffer of twice the length and two bytes always suffices.
pub slip_encode_worst_case :
    (input : Bytes) (cap : ℕ)
    → 2 * length input + 2 ≤ cap
    → slip_encode input cap ≡ some (framed input)
slip_encode_worst_case input cap h =
    rw (slip_encode-framed input cap)
      (ground (arith, length-append (escaped input) (slip_end ∷ []), length-escaped input))

feed_all-escape_byte :
    (cap b : ℕ) (d : SlipDecoder) (rest : Bytes)
    → d.esc ≡ false
    → d.bad ≡ false
    → feed_all cap d (escape_byte b ++ rest) ≡ feed_all cap (store cap d b) rest
unfolding feed_all escape_byte
feed_all-escape_byte cap b d rest e k = ground arith

feed_all_bad_byte :
    (cap b : ℕ) (d : SlipDecoder) (rest : Bytes)
    → d.bad ≡ true
    → feed_all cap d (escape_byte b ++ rest) ≡ feed_all cap d rest
unfolding feed_all escape_byte
feed_all_bad_byte cap b d rest k = ground arith

feed_all_bad :
    (input : Bytes) (cap : ℕ) (d : SlipDecoder) (rest : Bytes)
    → d.bad ≡ true
    → feed_all cap d (escaped input ++ rest) ≡ feed_all cap d rest
feed_all_bad [] cap d rest k = refl
feed_all_bad (b ∷ bs) cap d rest k =
    rw (append_assoc (escape_byte b) (escaped bs) rest)
      (feed_all_bad_byte cap b d (escaped bs ++ rest) k ∙ feed_all_bad bs cap d rest k)

-- The state after storing the bytes of `input` one by one.
abbrev store_all : ℕ → SlipDecoder → Bytes → SlipDecoder
store_all cap d [] = d
store_all cap d (b ∷ bs) = store_all cap (store cap d b) bs

feed_all-escaped :
    (input : Bytes) (cap : ℕ) (d : SlipDecoder) (rest : Bytes)
    → d.esc ≡ false
    → d.bad ≡ false
    → length d.buf + length input ≤ cap
    → feed_all cap d (escaped input ++ rest)
      ≡ feed_all cap (record { buf = d.buf ++ input; esc = false; bad = false }) rest
unfolding store
feed_all-escaped [] cap d rest e k h = ground (arith, append-nil d.buf)
feed_all-escaped (b ∷ bs) cap d rest e k h = ground (
  arith,
  append_assoc (escape_byte b) (escaped bs) rest,
  feed_all-escape_byte cap b d (escaped bs ++ rest),
  feed_all-escaped bs cap (record d { buf = d.buf ++ b ∷ [] }) rest,
  length-append d.buf (b ∷ []),
  append_assoc d.buf (b ∷ []) bs,
)

feed_all_overflow :
    (input : Bytes) (cap : ℕ) (d : SlipDecoder) (rest : Bytes)
    → d.esc ≡ false
    → d.bad ≡ false
    → cap < length d.buf + length input
    → length d.buf ≤ cap
    → (d' : SlipDecoder) × (d'.bad ≡ true)
      × (feed_all cap d (escaped input ++ rest) ≡ feed_all cap d' rest)
unfolding store
feed_all_overflow [] cap d rest e k h l = absurd (omega arith)
feed_all_overflow (b ∷ bs) cap d rest e k h l = elim (Bool-cases (leb cap (length d.buf))) [
  | inl full ↦ (
    record d { bad = true },
    refl,
    ground (
      arith,
      append_assoc (escape_byte b) (escaped bs) rest,
      feed_all-escape_byte cap b d (escaped bs ++ rest),
      feed_all_bad bs cap (record d { bad = true }) rest,
    ),
  )
  | inr room ↦
      let d₁ = record d { buf = d.buf ++ b ∷ [] } in
      let size = length-append d.buf (b ∷ []) in
      let (d', k', e') = feed_all_overflow bs cap d₁ rest e k (ground arith) (ground arith) in
      (
        d',
        k',
        ground (
          arith,
          append_assoc (escape_byte b) (escaped bs) rest,
          feed_all-escape_byte cap b d (escaped bs ++ rest),
          e',
        ),
      )
]

-- What the END in front of a frame releases of the bytes before it.
abbrev pub flushed : SlipDecoder → List Bytes
flushed d = if d.bad || d.esc || length d.buf == 0 then [] else d.buf ∷ []

-- The frames that one encoded packet yields.
abbrev pub delivered : ℕ → Bytes → List Bytes
delivered cap input =
    if length input == 0 then [] else if leb (length input) cap then input ∷ [] else []

feed_all-append :
    (xs ys : Bytes) (cap : ℕ) (d : SlipDecoder)
    → feed_all cap d (xs ++ ys) ≡ (
      (feed_all cap (feed_all cap d xs).0 ys).0,
      (feed_all cap d xs).1 ++ (feed_all cap (feed_all cap d xs).0 ys).1,
    )
unfolding feed_all
feed_all-append [] ys cap d = refl
feed_all-append (x ∷ xs) ys cap d = ground (arith, feed_all-append xs ys cap (feed cap d x).0)

feed_all-reset :
    (input : Bytes) (cap : ℕ)
    → feed_all cap reset (escaped input ++ slip_end ∷ []) ≡ (reset, delivered cap input)
unfolding feed_all
feed_all-reset input cap = elim (Bool-cases (leb (length input) cap)) [
  | inl fits ↦ ground (arith, feed_all-escaped input cap reset (slip_end ∷ []))
  | inr over ↦
      let (d, k, e) =
        feed_all_overflow input cap reset (slip_end ∷ []) refl refl (ground arith) (omega arith) in
      ground (arith, e)
]

-- Feeding one encoded packet to the decoder, whatever state line noise left it in, releases what was
-- pending, then the packet itself if it is non-empty and fits the decoder's buffer, and leaves the
-- decoder empty.
pub feed_all-framed :
    (cap : ℕ) (d : SlipDecoder) (input : Bytes)
    → feed_all cap d (framed input) ≡ (reset, flushed d ++ delivered cap input)
unfolding feed_all
feed_all-framed cap d input = ground (arith, feed_all-reset input cap)

abbrev pub stream : List Bytes → Bytes
stream [] = []
stream (p ∷ ps) = framed p ++ stream ps

abbrev pub all_delivered : ℕ → List Bytes → List Bytes
all_delivered cap [] = []
all_delivered cap (p ∷ ps) = delivered cap p ++ all_delivered cap ps

-- A stream of encoded packets decodes to those packets in order, less the empty ones and those
-- that do not fit the decoder's buffer.
pub feed_all-stream :
    (ps : List Bytes) (cap : ℕ) → feed_all cap reset (stream ps) ≡ (reset, all_delivered cap ps)
unfolding feed_all
feed_all-stream [] cap = refl
feed_all-stream (p ∷ ps) cap = ground (
  arith,
  feed_all-append (framed p) (stream ps) cap reset,
  feed_all-framed cap reset p,
  feed_all-stream ps cap,
)
