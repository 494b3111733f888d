-- ===== src/Tests/Net.antt =====
-- Runs of the addresses and payloads of IPv4 over the radio.
use project_voyager.Prelude.{
  ℕ, zero, ◌+◌, ◌/◌, ◌%◌, ◌≤◌, ◌<◌, ◌≡◌, refl, ◌≢◌, ◌↔◌, some, ◌∷◌, arith, Bytes, length, replicate,
}
use project_voyager.Lora.Frame.{max_payload}
use project_voyager.Lora.Net.{net_hdr, net_ipv4_ok, net_build, net_parse, net_parse_send_to}
use project_voyager.Lora.Net.Laws.{parse-build, IsIpv4, net_parse_send_to_iff}

-- A header of twenty bytes, with its length, and nothing behind it.
abbrev packet : Bytes
packet = 0x45 ∷ 0 ∷ 0 ∷ 20 ∷ replicate 16 1

abbrev node_number : ℕ
node_number = 0x0102

abbrev built : Bytes
built = 1 ∷ 2 ∷ 3 ∷ 4 ∷ packet

parse-build_example :
    (net_parse (some built) ≡ some (record { dst = 0x0102; src = 0x0304; ip = packet }))
    × (length built ≡ net_hdr + length packet)
    × (length built ≤ max_payload)
    × (length built ≤ 64)
unfolding net_build net_ipv4_ok
parse-build_example =
    parse-build 0x0102 0x0304 64 packet built refl (omega arith) (omega arith) (omega arith)
      (omega arith) (omega arith) refl

net_parse_send_to_iff_example :
    (net_parse_send_to (some (zero ∷ 3 ∷ 1 ∷ 2 ∷ packet)) ≡ some (node_number, packet)) ↔ (
      ((zero ∷ 3 ∷ 1 ∷ 2 ∷ packet) ≡ 0x00 ∷ 0x03 ∷ node_number / 256 ∷ node_number % 256 ∷ packet)
      × (node_number ≢ 0)
      × (node_number ≢ 0xFFFF)
      × (node_number < 65536)
      × IsIpv4 packet)
net_parse_send_to_iff_example =
    net_parse_send_to_iff (zero ∷ 3 ∷ 1 ∷ 2 ∷ packet) node_number packet (ground arith)
