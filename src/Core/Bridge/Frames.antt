-- ===== src/Core/Bridge/Frames.antt =====
-- src/core/support_method.cpp, the bridge from the serial port to the radio: how the bytes are cut into
-- frames.

use project_voyager.Prelude.{
  ℕ, ◌+◌, ◌≤◌, ◌<◌, ◌≡◌, refl, sym, ap, ◌∙◌, ◌≢◌, ◌⊎◌, inl, inr, Bool, true, false, ◌||◌, List, [],
  ◌∷◌, ◌++◌, append_assoc, append-nil, arith, leb, ◌==◌, Bool-cases, Bytes, length, All,
  length-append,
}
use project_voyager.Lora.Frame.{max_payload}
use project_voyager.Core.Bridge.{Heard, Bridge, finish, bridge_step, bridge_run, char, quiet}

abbrev pub NotCr : ℕ → Type 0
NotCr c = c ≢ b'\r'

-- A carriage return ends a frame.
abbrev pub CrLast : Bytes → Type 0
CrLast [] = Unit {0}
CrLast (c ∷ m) = ((c ≢ b'\r') ⊎ (m ≡ [])) × CrLast m

-- A frame that the radio takes, with no carriage return but at its end.
abbrev pub IsCut : Bytes → Type 0
IsCut m = (0 < length m) × (length m ≤ max_payload) × CrLast m

abbrev pub heard_bytes : List (Bool × Heard) → Bytes
heard_bytes [] = []
heard_bytes ((full, char c) ∷ hs) = c ∷ heard_bytes hs
heard_bytes ((full, quiet) ∷ hs) = heard_bytes hs

abbrev pub NeverFull : List (Bool × Heard) → Type 0
NeverFull [] = Unit {0}
NeverFull ((full, h) ∷ hs) = (full ≡ false) × NeverFull hs

abbrev pub joined : List Bytes → Bytes
joined [] = []
joined (m ∷ ms) = m ++ joined ms

-- Between two rounds: the message is no frame yet, and the queue holds frames.
pub record Cutting (s : Bridge) : Type 0 where
  pub short : length s.message < max_payload
  pub no_cr : All NotCr s.message
  pub queued : All IsCut s.packet_send

CrLast-append : (m : Bytes) (c : ℕ) → All NotCr m → CrLast (m ++ c ∷ [])
CrLast-append [] c k = (inr refl, tt)
CrLast-append (d ∷ m) c (h, k) = (inl h, CrLast-append m c k)

CrLast-all : (m : Bytes) → All NotCr m → CrLast m
CrLast-all [] k = tt
CrLast-all (d ∷ m) (h, k) = (inl h, CrLast-all m k)

All-append :
    {A : Type 0} → (P : A → Type 0) (xs : List A) (x : A) → All P xs → P x → All P (xs ++ x ∷ [])
All-append P [] x k h = (h, tt)
All-append P (y ∷ xs) x (k, ks) h = (k, All-append P xs x ks h)

joined-append : (ms : List Bytes) (m : Bytes) → joined (ms ++ m ∷ []) ≡ joined ms ++ m
joined-append [] m = append-nil m
joined-append (n ∷ ms) m = rw (joined-append ms m, append_assoc n (joined ms) m) refl

finish-Cutting :
    (full : Bool) (s : Bridge) (m : Bytes) → Cutting s → IsCut m → Cutting (finish full s m)
unfolding finish
finish-Cutting true s m k h = record { short = omega arith; no_cr = tt; queued = k.queued }
finish-Cutting false s m k h = record {
  short = omega arith;
  no_cr = tt;
  queued = All-append IsCut s.packet_send m k.queued h;
}

bridge_step-Cutting :
    (full : Bool) (s : Bridge) (h : Heard) → Cutting s → Cutting (bridge_step full s h)
unfolding bridge_step
bridge_step-Cutting full s (char c) k =
    let m = s.message ++ c ∷ [] in
    let len : length m ≡ length s.message + 1 = length-append s.message (c ∷ []) in
    elim (Bool-cases (c == b'\r' || leb max_payload (length m))) [
      | inl e ↦ rw e (
          finish-Cutting full s m k
            (ground (arith, len), omega (arith, len, k.short), CrLast-append s.message c k.no_cr))
      | inr e ↦
          let ne : c ≢ b'\r' = ground (arith, e) in
          rw e (record {
            short = ground (arith, e);
            no_cr = All-append NotCr s.message c k.no_cr ne;
            queued = k.queued;
          })
    ]
bridge_step-Cutting full s quiet k = elim (Bool-cases (length s.message == 0)) [
  | inl e ↦ rw e k
  | inr e ↦ rw e (
      finish-Cutting full s s.message k
        (ground (arith, e), omega (arith, k.short), CrLast-all s.message k.no_cr))
]

pub bridge_run-Cutting :
    (hs : List (Bool × Heard)) (s : Bridge) → Cutting s → Cutting (bridge_run s hs)
unfolding bridge_run
bridge_run-Cutting [] s k = k
bridge_run-Cutting ((full, h) ∷ hs) s k =
    bridge_run-Cutting hs (bridge_step full s h) (bridge_step-Cutting full s h k)

abbrev pub all_bytes : Bridge → Bytes
all_bytes s = joined s.packet_send ++ s.message

bridge_step_bytes :
    (s : Bridge) (h : Heard)
    → all_bytes (bridge_step false s h) ≡ all_bytes s ++ heard_bytes ((false, h) ∷ [])
unfolding bridge_step finish
bridge_step_bytes s (char c) =
    let m = s.message ++ c ∷ [] in
    let assoc = append_assoc (joined s.packet_send) s.message (c ∷ []) in
    elim (Bool-cases (c == b'\r' || leb max_payload (length m))) [
      | inl e ↦
          rw (e, joined-append s.packet_send m, append-nil (joined s.packet_send ++ m)) (sym assoc)
      | inr e ↦ rw e (sym assoc)
    ]
bridge_step_bytes s quiet = elim (Bool-cases (length s.message == 0)) [
  | inl e ↦ rw (e, append-nil (all_bytes s)) refl
  | inr e ↦ rw (e, joined-append s.packet_send s.message, append-nil (all_bytes s)) refl
]

bridge_run_bytes :
    (hs : List (Bool × Heard)) (s : Bridge)
    → NeverFull hs
    → all_bytes (bridge_run s hs) ≡ all_bytes s ++ heard_bytes hs
unfolding bridge_run
bridge_run_bytes [] s f = sym (append-nil (all_bytes s))
bridge_run_bytes ((full, char c) ∷ hs) s (e, f) =
    rw (e, bridge_run_bytes hs (bridge_step false s (char c)) f, bridge_step_bytes s (char c))
      (append_assoc (all_bytes s) (c ∷ []) (heard_bytes hs))
bridge_run_bytes ((full, quiet) ∷ hs) s (e, f) =
    rw
      (
        e,
        bridge_run_bytes hs (bridge_step false s quiet) f,
        bridge_step_bytes s quiet,
        append-nil (all_bytes s),
      )
      refl

-- However the bytes and the silences come, from a state between two rounds and while the queue takes
-- every message: no byte is lost, added or moved, and every message in the queue has 1 to 251 bytes, with a carriage
-- return at its end at most.
pub bridge_run_cuts :
    (hs : List (Bool × Heard)) (s : Bridge)
    → Cutting s
    → NeverFull hs
    → let t = bridge_run s hs in
      (joined t.packet_send ++ t.message ≡ (joined s.packet_send ++ s.message) ++ heard_bytes hs)
      × All IsCut t.packet_send
      × (length t.message < max_payload)
bridge_run_cuts hs s k f =
    let t = bridge_run-Cutting hs s k in (bridge_run_bytes hs s f, t.queued, t.short)

-- Bytes that come without a silence between them, and a queue that takes messages.
abbrev pub burst : Bytes → List (Bool × Heard)
burst [] = []
burst (c ∷ cs) = (false, char c) ∷ burst cs

bridge_step_inside :
    (s : Bridge) (c : ℕ)
    → c ≢ b'\r'
    → length s.message + 1 < max_payload
    → bridge_step false s (char c) ≡ record s { message = s.message ++ c ∷ [] }
unfolding bridge_step
bridge_step_inside s c ne l = ground (arith, ne, l, length-append s.message (c ∷ []))

bridge_step_cr :
    (s : Bridge)
    → bridge_step false s (char b'\r')
      ≡ record { message = []; packet_send = s.packet_send ++ (s.message ++ b'\r' ∷ []) ∷ [] }
unfolding bridge_step finish
bridge_step_cr s = refl

-- Bytes without a carriage return and then one, read without a silence while the queue takes messages:
-- if they stay, before the last, below 251 bytes together with the message read so far, they end that
-- message and the queue gets exactly one. So a packet of a transfer program, of at most 250 bytes and
-- its carriage return, is one frame when it is read between two messages.
pub bridge_run_packet :
    (text : Bytes) (s : Bridge)
    → All NotCr text
    → length s.message + length text < max_payload
    → bridge_run s (burst (text ++ b'\r' ∷ [])) ≡ record {
      message = [];
      packet_send = s.packet_send ++ (s.message ++ (text ++ b'\r' ∷ [])) ∷ [];
    }
unfolding bridge_run
bridge_run_packet [] s k l = bridge_step_cr s
bridge_run_packet (c ∷ text) s (h, k) l =
    let s' : Bridge = record s { message = s.message ++ c ∷ [] } in
    let size = length-append s.message (c ∷ []) in
    let rest = text ++ b'\r' ∷ [] in
    ap (λ x. bridge_run x (burst rest)) (bridge_step_inside s c h (ground arith))
    ∙ bridge_run_packet text s' k (omega (arith, l, size))
    ∙ ap (λ x. record { message = []; packet_send = s.packet_send ++ x ∷ [] })
        (append_assoc s.message (c ∷ []) rest)
