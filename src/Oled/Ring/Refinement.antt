-- ===== src/Oled/Ring/Refinement.antt =====
-- src/display/oled_layout.h, the message ring is a list of the last five messages, newest first.
use project_voyager.Prelude.{
  ℕ, zero, suc, ◌+◌, ◌-◌, ◌%◌, ◌≤◌, ◌<◌, ◌≡◌, refl, sym, ap, ◌∙◌, ◌≢◌, ◌⊎◌, inl, inr, Option, some,
  List, [], ◌∷◌, arith, ltb, if◌then◌else◌, Bytes, length, take, length-set, get_or-set_self,
  get_or-set_ne,
}
use project_voyager.Oled.Text.{safe_copy}
use project_voyager.Oled.Ring.{
  msg_ring_size, msg_from_len, msg_text_len, MsgRing, ring_init, ring_push, ring_slot, ring_from,
  ring_text,
}

-- The messages from the `i`-th newest on, `n` of them.
abbrev listed : MsgRing → ℕ → ℕ → List (Bytes × Bytes)
listed r i zero = []
listed r i (suc n) = (ring_from r i, ring_text r i) ∷ listed r (suc i) n

-- What a reader sees: the messages, newest first.
abbrev pub contents : MsgRing → List (Bytes × Bytes)
contents r = listed r 0 r.count

pub record Inv (r : MsgRing) : Type 0 where
  pub head_in : r.head < msg_ring_size
  pub count_in : r.count ≤ msg_ring_size
  pub from_slots : length r.from ≡ msg_ring_size
  pub text_slots : length r.text ≡ msg_ring_size

pub ring_init-Inv : Inv ring_init
unfolding ring_init
ring_init-Inv = ground arith

pub ring_push-Inv : (r : MsgRing) (from text : Option Bytes) → Inv r → Inv (ring_push r from text)
unfolding ring_push
ring_push-Inv r from text v = ground (
  arith,
  length-set r.from r.head (safe_copy msg_from_len from),
  length-set r.text r.head (safe_copy msg_text_len text),
)

-- The newest message after a push, and the older ones one place further back.
slot_newest :
    (r : MsgRing) (from text : Option Bytes)
    → Inv r
    → ring_slot (ring_push r from text) 0 ≡ some r.head
unfolding ring_push ring_slot
slot_newest r from text v = ground arith

slot_older :
    (r : MsgRing) (from text : Option Bytes) (i : ℕ)
    → Inv r
    → i < r.count
    → i + 1 < msg_ring_size
    → (k : ℕ) × (ring_slot r i ≡ some k)
      × (ring_slot (ring_push r from text) (suc i) ≡ some k)
      × (k ≢ r.head)
unfolding ring_push ring_slot
slot_older r from text i v h l =
    ((r.head + msg_ring_size - 1 - i) % msg_ring_size, ground arith, ground arith, ground arith)

abbrev cut : Bytes × Bytes → ℕ → List (Bytes × Bytes) → List (Bytes × Bytes)
cut m n ms = m ∷ take n ms

listed_older :
    (n : ℕ) (r : MsgRing) (from text : Option Bytes) (i : ℕ)
    → Inv r
    → i + n ≤ r.count
    → i + n < msg_ring_size
    → listed (ring_push r from text) (suc i) n ≡ listed r i n
unfolding ring_push ring_from ring_text
listed_older zero r from text i v h l = refl
listed_older (suc n) r from text i v h l =
    let (k, e₁, e₂, ne) = slot_older r from text i v (omega arith) (omega arith) in
    let f = get_or-set_ne r.from r.head k (safe_copy msg_from_len from) [] (λ e. ne (sym e)) in
    let t = get_or-set_ne r.text r.head k (safe_copy msg_text_len text) [] (λ e. ne (sym e)) in
    ground (arith, e₁, e₂, f, t, listed_older n r from text (suc i) v)

length-listed : (n : ℕ) (r : MsgRing) (i : ℕ) → length (listed r i n) ≡ n
length-listed zero r i = refl
length-listed (suc n) r i = ap suc (length-listed n r (suc i))

take-listed : (m n : ℕ) (r : MsgRing) (i : ℕ) → m ≤ n → take m (listed r i n) ≡ listed r i m
take-listed zero n r i h = refl
take-listed (suc m) zero r i h = absurd (omega arith)
take-listed (suc m) (suc n) r i h =
    ap (◌∷◌ (ring_from r i, ring_text r i)) (take-listed m n r (suc i) (omega arith))

newest :
    (r : MsgRing) (from text : Option Bytes)
    → Inv r
    → (ring_from (ring_push r from text) 0 ≡ safe_copy msg_from_len from)
      × (ring_text (ring_push r from text) 0 ≡ safe_copy msg_text_len text)
unfolding ring_push ring_from ring_text
newest r from text v =
    let e = slot_newest r from text v in
    let f = get_or-set_self r.from r.head (safe_copy msg_from_len from) [] (ground arith) in
    let t = get_or-set_self r.text r.head (safe_copy msg_text_len text) [] (ground arith) in
    (ground (arith, e, f), ground (arith, e, t))

take-listed_all : (m n : ℕ) (r : MsgRing) (i : ℕ) → n ≤ m → take m (listed r i n) ≡ listed r i n
take-listed_all zero zero r i h = refl
take-listed_all zero (suc n) r i h = absurd (omega arith)
take-listed_all (suc m) zero r i h = refl
take-listed_all (suc m) (suc n) r i h =
    ap (◌∷◌ (ring_from r i, ring_text r i)) (take-listed_all m n r (suc i) (omega arith))

count-push :
    (r : MsgRing) (from text : Option Bytes)
    → Inv r
    → (n : ℕ) × ((ring_push r from text).count ≡ suc n)
      × (n ≤ r.count)
      × (n ≤ 4)
      × ((n ≡ r.count) ⊎ ((n ≡ 4) × (r.count ≡ 5)))
unfolding ring_push
count-push r from text v = (
  if ltb r.count msg_ring_size then r.count else 4,
  ground arith,
  ground arith,
  ground arith,
  ground arith,
)

-- A push puts the message, with name and text cut to their fields, in front, and keeps the four
-- newest of the others: the ring is a list of the last five messages.
pub contents-push :
    (r : MsgRing) (from text : Option Bytes)
    → Inv r
    → contents (ring_push r from text)
      ≡ (safe_copy msg_from_len from, safe_copy msg_text_len text) ∷ take 4 (contents r)
contents-push r from text v =
    let (n, count, e₁, e₂, e₃) = count-push r from text v in
    let new = newest r from text v in
    let older = listed_older n r from text 0 v (omega arith) (omega arith) in
    let kept : take 4 (contents r) ≡ listed r 0 n = elim e₃ [
      | inl e ↦ rw e (take-listed_all 4 r.count r 0 (omega arith))
      | inr (e, f) ↦ rw e (take-listed 4 r.count r 0 (omega arith))
    ] in
    ap (listed (ring_push r from text) 0) count ∙ ground (arith, kept, older, new.0, new.1)

-- A run of pushes, oldest first.
unfoldable pub push_all : MsgRing → List (Option Bytes × Option Bytes) → MsgRing
push_all r [] = r
push_all r ((from, text) ∷ ms) = push_all (ring_push r from text) ms

abbrev pub shown : List (Option Bytes × Option Bytes) → List (Bytes × Bytes) → List (Bytes × Bytes)
shown [] seen = seen
shown ((from, text) ∷ ms) seen =
    shown ms ((safe_copy msg_from_len from, safe_copy msg_text_len text) ∷ seen)

take-take : (n : ℕ) (xs : List (Bytes × Bytes)) → take n (take (suc n) xs) ≡ take n xs
take-take zero xs = refl
take-take (suc n) [] = refl
take-take (suc n) (x ∷ xs) = ap (◌∷◌ x) (take-take n xs)

take_self : (n : ℕ) (xs : List (Bytes × Bytes)) → take n (take n xs) ≡ take n xs
take_self zero xs = refl
take_self (suc n) [] = refl
take_self (suc n) (x ∷ xs) = ap (◌∷◌ x) (take_self n xs)

take-shown :
    (ms : List (Option Bytes × Option Bytes)) (n : ℕ) (xs : List (Bytes × Bytes))
    → take (suc n) (shown ms (take (suc n) xs)) ≡ take (suc n) (shown ms xs)
take-shown [] n xs = take_self (suc n) xs
take-shown ((from, text) ∷ ms) n xs =
    let m : Bytes × Bytes = (safe_copy msg_from_len from, safe_copy msg_text_len text) in
    sym (take-shown ms n (m ∷ take (suc n) xs))
    ∙ ap (λ ys. take (suc n) (shown ms (m ∷ ys))) (take-take n xs)
    ∙ take-shown ms n (m ∷ xs)

push_all-Inv : (ms : List (Option Bytes × Option Bytes)) (r : MsgRing) → Inv r → Inv (push_all r ms)
unfolding push_all
push_all-Inv [] r v = v
push_all-Inv ((from, text) ∷ ms) r v =
    push_all-Inv ms (ring_push r from text) (ring_push-Inv r from text v)

contents-short : (r : MsgRing) → Inv r → take 5 (contents r) ≡ contents r
contents-short r v = take-listed_all 5 r.count r 0 v.count_in

contents-push_all_from :
    (ms : List (Option Bytes × Option Bytes)) (r : MsgRing)
    → Inv r
    → contents (push_all r ms) ≡ take 5 (shown ms (contents r))
unfolding push_all
contents-push_all_from [] r v = sym (contents-short r v)
contents-push_all_from ((from, text) ∷ ms) r v =
    let m : Bytes × Bytes = (safe_copy msg_from_len from, safe_copy msg_text_len text) in
    contents-push_all_from ms (ring_push r from text) (ring_push-Inv r from text v)
    ∙ ap (λ ys. take 5 (shown ms ys)) (contents-push r from text v)
    ∙ take-shown ms 4 (m ∷ contents r)

-- After any run of pushes to an empty ring, a reader sees the last five of them, newest first, each
-- with its name cut to 32 bytes and its text to 96.
pub contents-push_all :
    (ms : List (Option Bytes × Option Bytes))
    → contents (push_all ring_init ms) ≡ take msg_ring_size (shown ms [])
unfolding ring_init
contents-push_all ms = contents-push_all_from ms ring_init ring_init-Inv
