-- ===== src/Improv/Parsing.antt =====
-- src/core/improv.h: what is built parses back, and a damaged packet is reported.
use project_voyager.Prelude.{
  ℕ, ◌+◌, ◌%◌, ◌≤◌, ◌≡◌, refl, ap, ◌∙◌, ◌≢◌, ◌&&◌, ◌||◌, none, some, List, [], ◌∷◌, ◌++◌,
  append_assoc, append-nil, arith, leb, ◌==◌, ◌!=◌, if◌then◌else◌, Bytes, length, All,
  length-append, IsByte,
}
use project_voyager.Improv.{
  version, max_data, u32_mod, header, Packet, Parser, Fed, more, bad, packet, sum_bytes, feed,
  feed_all, body, build, noted,
}

-- Waiting for the first byte of a packet; the other fields hold what was there before.
abbrev pub idle : ℕ → ℕ → Packet → Parser
idle v s k = record { pos = 0; version = v; sum = s; pkt = k }

-- Behind the length byte of a packet, with the bytes seen of its data.
abbrev reading : ℕ → ℕ → ℕ → ℕ → Bytes → Parser
reading v sum type len seen = record {
  pos = 9;
  version = v;
  sum = sum;
  pkt = record { type = type; len = len; bytes = seen };
}

-- The checksum register behind the header fields, and behind more bytes.
abbrev header_sum : ℕ → ℕ → ℕ → ℕ
header_sum v type len = (((sum_bytes header + v) % u32_mod + type) % u32_mod + len) % u32_mod

abbrev add_all : ℕ → Bytes → ℕ
add_all sum [] = sum
add_all sum (b ∷ bs) = add_all ((sum + b) % u32_mod) bs

add_all-mod : (bs : Bytes) (sum : ℕ) → add_all sum bs % 256 ≡ (sum + sum_bytes bs) % 256
unfolding sum_bytes
add_all-mod [] sum = omega arith
add_all-mod (b ∷ bs) sum = omega (arith, add_all-mod bs ((sum + b) % u32_mod))

sum_bytes-append : (xs ys : Bytes) → sum_bytes (xs ++ ys) ≡ sum_bytes xs + sum_bytes ys
unfolding sum_bytes
sum_bytes-append [] ys = omega arith
sum_bytes-append (x ∷ xs) ys = omega (arith, sum_bytes-append xs ys)

feed_all-header :
    (v s : ℕ) (k : Packet) (ver type len : ℕ) (rest : Bytes)
    → feed_all (idle v s k) (header ++ (ver ∷ type ∷ len ∷ rest))
      ≡ feed_all (reading ver (header_sum ver type len) type len []) rest
unfolding feed_all sum_bytes
feed_all-header v s k ver type len rest = refl

feed_all_bytes :
    (bs : Bytes) (v sum type len : ℕ) (seen rest : Bytes)
    → length seen + length bs ≤ len
    → feed_all (reading v sum type len seen) (bs ++ rest)
      ≡ feed_all (reading v (add_all sum bs) type len (seen ++ bs)) rest
unfolding feed_all
feed_all_bytes [] v sum type len seen rest h = rw append-nil
feed_all_bytes (b ∷ bs) v sum type len seen rest h = ground (
  arith,
  feed_all_bytes bs v ((sum + b) % u32_mod) type len (seen ++ b ∷ []) rest,
  length-append seen (b ∷ []),
  append_assoc seen (b ∷ []) bs,
)

abbrev verdict : ℕ → ℕ → ℕ → Packet → Fed
verdict v sum check k = if check != sum % 256 || v != version then bad else packet k

feed_all_check :
    (v sum type len : ℕ) (seen : Bytes) (check : ℕ) (rest : Bytes)
    → length seen ≡ len
    → (feed_all (reading v sum type len seen) (check ∷ rest)).1
      ≡ verdict v sum check (record { type = type; len = len; bytes = seen })
        ∷ (feed_all (idle v sum (record { type = type; len = len; bytes = seen })) rest).1
unfolding feed_all
feed_all_check v sum type len seen check rest h = ground arith

feed_all_check_state :
    (v sum type len : ℕ) (seen : Bytes) (check : ℕ) (rest : Bytes)
    → length seen ≡ len
    → (feed_all (reading v sum type len seen) (check ∷ rest)).0
      ≡ (feed_all (idle v sum (record { type = type; len = len; bytes = seen })) rest).0
unfolding feed_all
feed_all_check_state v sum type len seen check rest h = ground arith

-- A packet on the wire, whatever its version byte and checksum.
abbrev pub wire : ℕ → ℕ → Bytes → ℕ → Bytes
wire ver type bs check = header ++ (ver ∷ type ∷ length bs ∷ (bs ++ check ∷ []))

-- The right checksum of such a packet.
abbrev pub checksum : ℕ → ℕ → Bytes → ℕ
checksum ver type bs = (sum_bytes header + ver + type + length bs + sum_bytes bs) % 256

-- A complete packet, read from an idle state, gives one result and leaves the parser idle: the packet
-- if the version is 1 and the checksum right, and else the report of a bad one.
pub feed_all-wire :
    (v s : ℕ) (k : Packet) (ver type : ℕ) (bs : Bytes) (check : ℕ)
    → let (p, results) = feed_all (idle v s k) (wire ver type bs check) in
      (results
        ≡ (if check == checksum ver type bs && ver == version
            then packet (record { type = type; len = length bs; bytes = bs })
            else bad)
          ∷ [])
      × (p.pos ≡ 0)
unfolding feed_all
feed_all-wire v s k ver type bs check =
    let sum = header_sum ver type (length bs) in
    let pkt : Packet = record { type = type; len = length bs; bytes = bs } in
    let start = feed_all-header v s k ver type (length bs) (bs ++ check ∷ []) in
    let middle = feed_all_bytes bs ver sum type (length bs) [] (check ∷ []) (omega arith) in
    let last = feed_all_check ver (add_all sum bs) type (length bs) bs check [] refl in
    let state = feed_all_check_state ver (add_all sum bs) type (length bs) bs check [] refl in
    rw (start, middle) ((ground (arith, last, add_all-mod bs sum)), ground (arith, state))

-- A newline, or any byte but `I`, leaves an idle parser idle.
feed_all_noise :
    (v s : ℕ) (k : Packet) (b : ℕ) (rest : Bytes)
    → b ≢ b'I'
    → feed_all (idle v s k) (b ∷ rest) ≡ feed_all (idle v 0 k) rest
unfolding feed_all sum_bytes
feed_all_noise v s k b rest h = ground arith

-- Bytes in which no packet can begin.
abbrev pub IsNoise : Bytes → Type 0
IsNoise = All (λ b. b ≢ b'I')

feed_all-IsNoise :
    (bs : Bytes) (v s : ℕ) (k : Packet) (rest : Bytes)
    → IsNoise bs
    → (s' : ℕ) × (feed_all (idle v s k) (bs ++ rest) ≡ feed_all (idle v s' k) rest)
feed_all-IsNoise [] v s k rest n = (s, refl)
feed_all-IsNoise (b ∷ bs) v s k rest n =
    let (s', e) = feed_all-IsNoise bs v 0 k rest n.1 in
    (s', feed_all_noise v s k b (bs ++ rest) n.0 ∙ e)

sum_bytes-body :
    (type : ℕ) (bs : Bytes)
    → length bs ≤ max_data
    → sum_bytes (body type bs) % 256 ≡ checksum version type bs
unfolding sum_bytes
sum_bytes-body type bs h = omega arith

-- A packet is built exactly when its data is at most 255 bytes and the buffer holds it, and is then
-- the packet on the wire with version 1, the right checksum and a newline.
pub build-wire :
    (type : ℕ) (bs : Bytes) (cap : ℕ)
    → build type bs cap ≡ (
        if leb (length bs) max_data && leb (length bs + 11) cap
        then some (wire version type bs (checksum version type bs) ++ b'\n' ∷ [])
        else none)
unfolding build
build-wire type bs cap =
    ground
      (arith, sum_bytes-body type bs, append_assoc bs (checksum version type bs ∷ []) (b'\n' ∷ []))

noted-append : (r : Fed) (xs ys : List Fed) → noted r (xs ++ ys) ≡ noted r xs ++ ys
noted-append more xs ys = refl
noted-append bad xs ys = refl
noted-append (packet k) xs ys = refl

feed_all-append :
    (xs ys : Bytes) (p : Parser)
    → feed_all p (xs ++ ys)
      ≡ ((feed_all (feed_all p xs).0 ys).0, (feed_all p xs).1 ++ (feed_all (feed_all p xs).0 ys).1)
unfolding feed_all
feed_all-append [] ys p = refl
feed_all-append (x ∷ xs) ys p = ground (
  arith,
  feed_all-append xs ys (feed p x).0,
  noted-append (feed p x).1 (feed_all (feed p x).0 xs).1
      (feed_all (feed_all (feed p x).0 xs).0 ys).1,
)

-- The wire bytes of some packets, each with its type and data.
abbrev pub stream : List (ℕ × Bytes) → Bytes
stream [] = []
stream ((type, bs) ∷ ps) = wire version type bs (checksum version type bs) ++ stream ps

abbrev pub packets : List (ℕ × Bytes) → List Fed
packets [] = []
packets ((type, bs) ∷ ps) =
    packet (record { type = type; len = length bs; bytes = bs }) ∷ packets ps

feed_all-idle :
    (p : Parser) (rest : Bytes)
    → p.pos ≡ 0
    → feed_all p rest ≡ feed_all (idle p.version p.sum p.pkt) rest
feed_all-idle p rest h = ap (λ (n : ℕ). feed_all (record p { pos = n }) rest) h

-- A run of packets, read from an idle state, gives exactly those packets in order.
pub feed_all-packets :
    (ps : List (ℕ × Bytes)) (v s : ℕ) (k : Packet)
    → (feed_all (idle v s k) (stream ps)).1 ≡ packets ps
unfolding feed_all
feed_all-packets [] v s k = refl
feed_all-packets ((type, bs) ∷ ps) v s k =
    let w = wire version type bs (checksum version type bs) in
    let one = feed_all-wire v s k version type bs (checksum version type bs) in
    let p = (feed_all (idle v s k) w).0 in
    let back = feed_all-idle p (stream ps) one.1 in
    let more = feed_all-packets ps p.version p.sum p.pkt in
    rw (feed_all-append w (stream ps) (idle v s k), back, more) (ground (arith, one.0))

feed_all_nil : (p : Parser) → feed_all p [] ≡ (p, [])
unfolding feed_all
feed_all_nil p = refl

feed_all_newline :
    (p : Parser)
    → p.pos ≡ 0
    → ((feed_all p (b'\n' ∷ [])).1 ≡ []) × ((feed_all p (b'\n' ∷ [])).0.pos ≡ 0)
feed_all_newline p h =
    let ended = feed_all_noise p.version p.sum p.pkt b'\n' [] (omega arith) in
    let done = feed_all_nil (idle p.version 0 p.pkt) in
    ground (arith, feed_all-idle p (b'\n' ∷ []) h, ended, done)

feed_all_built :
    (v s : ℕ) (k : Packet) (type : ℕ) (bs : Bytes)
    → let (p, results) =
        feed_all (idle v s k) (wire version type bs (checksum version type bs) ++ b'\n' ∷ []) in
      (results ≡ packet (record { type = type; len = length bs; bytes = bs }) ∷ []) × (p.pos ≡ 0)
feed_all_built v s k type bs =
    let w = wire version type bs (checksum version type bs) in
    let one = feed_all-wire v s k version type bs (checksum version type bs) in
    let joined = feed_all-append w (b'\n' ∷ []) (idle v s k) in
    let ended = feed_all_newline (feed_all (idle v s k) w).0 one.1 in
    rw joined (ground (arith, one.0, ended.0), ended.1)

-- A built packet, behind bytes in which no packet begins, is read back as that packet, and the parser
-- is then idle again.
pub feed_all-build :
    (type room v s : ℕ) (k : Packet) (bs noise out : Bytes)
    → build type bs room ≡ some out
    → IsNoise noise
    → ((feed_all (idle v s k) (noise ++ out)).1
        ≡ packet (record { type = type; len = length bs; bytes = bs }) ∷ [])
      × ((feed_all (idle v s k) (noise ++ out)).0.pos ≡ 0)
feed_all-build type room v s k bs noise out e n =
    let w = wire version type bs (checksum version type bs) in
    let built : out ≡ w ++ b'\n' ∷ [] = ground (arith, build-wire type bs room) in
    rw built (
      let (s', skipped) = feed_all-IsNoise noise v s k (w ++ b'\n' ∷ []) n in
      rw skipped (feed_all_built v s' k type bs))

-- A packet in which one byte of the data was replaced by another is reported as bad.
pub feed_all_damaged :
    (v s : ℕ) (k : Packet) (type x y : ℕ) (pre post : Bytes)
    → IsByte x
    → IsByte y
    → x ≢ y
    → (feed_all
        (idle v s k)
        (wire version type (pre ++ y ∷ post) (checksum version type (pre ++ x ∷ post)))).1
      ≡ bad ∷ []
feed_all_damaged v s k type x y pre post hx hy ne =
    let one =
      feed_all-wire v s k version type (pre ++ y ∷ post)
        (checksum version type (pre ++ x ∷ post)) in
    let sums : checksum version type (pre ++ x ∷ post) ≢ checksum version type (pre ++ y ∷ post) =
      (unfold sum_bytes in
        (omega (
          arith,
          sum_bytes-append pre (x ∷ post),
          sum_bytes-append pre (y ∷ post),
          length-append pre (x ∷ post),
          length-append pre (y ∷ post),
        ))) in
    ground (arith, one.0, sums)
