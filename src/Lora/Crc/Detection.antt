-- ===== src/Lora/Crc/Detection.antt =====
-- src/lora/lora_proto.h, CRC-8: which changes of a packet the check finds.
use Prim.Native.Nat.{bit_xor}
use project_voyager.Prelude.{
  ℕ, zero, suc, ◌+◌, ◌/◌, ◌%◌, ◌<◌, ◌≡◌, refl, ap, ◌∙◌, ◌≢◌, Bool, true, ◌&&◌, [], ◌∷◌, ◌++◌, arith,
  ltb, ◌==◌, if◌then◌else◌, ==_iff, Bytes, All, IsByte,
}
use project_voyager.Prelude.Bits.{all_below, all_below_sound, xor-xor, xor-lt}
use project_voyager.Lora.Crc.{crc_rounds, crc8_update, crc8, packet_crc}

-- A round run backwards: bit 0 tells whether the polynomial was added.
back_round : ℕ → ℕ
back_round crc = if crc % 2 == 1 then bit_xor crc 0x07 / 2 + 128 else crc / 2

back_rounds : ℕ → ℕ → ℕ
unfolding back_round
back_rounds zero crc = crc
back_rounds (suc b) crc = back_round (back_rounds b crc)

abbrev is_undone : ℕ → Bool
is_undone x = back_rounds 8 (crc_rounds 8 x) == x && ltb (crc_rounds 8 x) 256

undo_table : all_below 256 is_undone ≡ true
unfolding all_below back_rounds crc_rounds
undo_table = refl

crc_rounds-undone : (x : ℕ) → x < 256 → is_undone x ≡ true
crc_rounds-undone x h = all_below_sound 256 is_undone x undo_table h

crc_rounds-lt : (x : ℕ) → x < 256 → crc_rounds 8 x < 256
crc_rounds-lt x h = ground (arith, crc_rounds-undone x h)

crc_rounds-injective : (x y : ℕ) → x < 256 → y < 256 → crc_rounds 8 x ≡ crc_rounds 8 y → x ≡ y
crc_rounds-injective x y hx hy e =
    ground (arith, crc_rounds-undone x hx, crc_rounds-undone y hy, ap (back_rounds 8) e)

xor-injective_left : (a b c : ℕ) → a < 256 → b < 256 → c < 256 → bit_xor a c ≡ bit_xor b c → a ≡ b
xor-injective_left a b c ha hb hc e =
    omega (arith, xor-xor a c ha hc, xor-xor b c hb hc, ap (λ (x : ℕ). bit_xor x c) e)

xor_comm_table : all_below 256 (λ a. all_below 256 (λ b. bit_xor a b == bit_xor b a)) ≡ true
unfolding all_below
xor_comm_table = refl

xor_comm : (a b : ℕ) → a < 256 → b < 256 → bit_xor a b ≡ bit_xor b a
xor_comm a b ha hb = (==_iff _ _).0 (
    all_below_sound 256 (λ b. bit_xor a b == bit_xor b a) b
      (all_below_sound 256 (λ a. all_below 256 (λ b. bit_xor a b == bit_xor b a)) a xor_comm_table
        ha)
      hb)

pub crc8_update-lt : (bs : Bytes) (crc : ℕ) → crc < 256 → All IsByte bs → crc8_update crc bs < 256
unfolding crc8_update
crc8_update-lt [] crc h k = h
crc8_update-lt (b ∷ bs) crc h k = crc8_update-lt bs _ (crc_rounds-lt _ (xor-lt crc b h k.0)) k.1

-- Running over two pieces is running over the whole.
pub crc8_update-append :
    (xs ys : Bytes) (crc : ℕ) → crc8_update crc (xs ++ ys) ≡ crc8_update (crc8_update crc xs) ys
unfolding crc8_update
crc8_update-append [] ys crc = refl
crc8_update-append (x ∷ xs) ys crc = crc8_update-append xs ys (crc_rounds 8 (bit_xor crc x))

-- Two registers that differ still differ after the same bytes.
crc8_update-injective :
    (bs : Bytes) (a b : ℕ)
    → a < 256
    → b < 256
    → All IsByte bs
    → crc8_update a bs ≡ crc8_update b bs
    → a ≡ b
unfolding crc8_update
crc8_update-injective [] a b ha hb k e = e
crc8_update-injective (c ∷ bs) a b ha hb k e =
    let la = xor-lt a c ha k.0 in
    let lb = xor-lt b c hb k.0 in
    xor-injective_left a b c ha hb k.0 (
      crc_rounds-injective _ _ la lb
        (crc8_update-injective bs _ _ (crc_rounds-lt _ la) (crc_rounds-lt _ lb) k.1 e))

-- The bytes of a packet that the CRC covers, with one of them replaced.
pub crc8_update_one_byte :
    (pre post : Bytes) (crc x y : ℕ)
    → crc < 256
    → All IsByte pre
    → All IsByte post
    → IsByte x
    → IsByte y
    → crc8_update crc (pre ++ x ∷ post) ≡ crc8_update crc (pre ++ y ∷ post)
    → x ≡ y
unfolding crc8_update
crc8_update_one_byte [] post crc x y h k l hx hy e =
    let lx = xor-lt crc x h hx in
    let ly = xor-lt crc y h hy in
    let same =
      crc_rounds-injective _ _ lx ly
        (crc8_update-injective post _ _ (crc_rounds-lt _ lx) (crc_rounds-lt _ ly) l e) in
    xor-injective_left x y crc hx hy h (xor_comm x crc hx h ∙ same ∙ xor_comm crc y h hy)
crc8_update_one_byte (p ∷ pre) post crc x y h k l hx hy e =
    crc8_update_one_byte pre post _ x y (crc_rounds-lt _ (xor-lt crc p h k.0)) k.1 l hx hy e

-- The CRC of a packet tells apart any two packets that differ in exactly one byte of the payload.
pub packet_crc_one_byte :
    (seq : ℕ) (pre post : Bytes) (x y : ℕ)
    → IsByte seq
    → All IsByte pre
    → All IsByte post
    → IsByte x
    → IsByte y
    → x ≢ y
    → packet_crc seq (pre ++ x ∷ post) ≢ packet_crc seq (pre ++ y ∷ post)
unfolding packet_crc
packet_crc_one_byte seq pre post x y hs k l hx hy ne e = ne (
    crc8_update_one_byte pre post _ x y (crc8_update-lt (seq ∷ []) 0 (omega arith) (hs, tt)) k l hx
      hy e)

-- Nor do two sequence numbers give one payload the same CRC.
pub packet_crc_seq :
    (s t : ℕ) (payload : Bytes)
    → IsByte s
    → IsByte t
    → All IsByte payload
    → packet_crc s payload ≡ packet_crc t payload
    → s ≡ t
unfolding packet_crc crc8_update
packet_crc_seq s t payload hs ht k e =
    crc8_update_one_byte [] payload 0 s t (omega arith) tt k hs ht e

pub packet_crc-lt :
    (seq : ℕ) (payload : Bytes) → IsByte seq → All IsByte payload → packet_crc seq payload < 256
unfolding packet_crc
packet_crc-lt seq payload h k =
    crc8_update-lt payload _ (crc8_update-lt (seq ∷ []) 0 (omega arith) (h, tt)) k

self_table : all_below 256 (λ a. crc_rounds 8 (bit_xor a a) == 0) ≡ true
unfolding all_below crc_rounds
self_table = refl

-- A message followed by its own CRC has CRC 0.
pub crc8_residue : (bs : Bytes) → All IsByte bs → crc8 (bs ++ crc8 bs ∷ []) ≡ 0
unfolding crc8 crc8_update
crc8_residue bs k =
    crc8_update-append bs (crc8 bs ∷ []) 0
    ∙ (==_iff _ _).0 (
        all_below_sound 256 (λ a. crc_rounds 8 (bit_xor a a) == 0) (crc8 bs) self_table
          (crc8_update-lt bs 0 (omega arith) k))
