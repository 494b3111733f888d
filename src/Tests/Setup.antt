-- ===== src/Tests/Setup.antt =====
-- Runs of the setup protocol.
use project_voyager.Prelude.{◌≡◌, refl, some, [], ◌∷◌, ◌++◌, arith, Bytes, codes, length}
use project_voyager.Improv.{
  version, header, Packet, sum_bytes, feed_all, build, parse_wifi_settings, bad, packet,
}
use project_voyager.Improv.Parsing.{idle, wire, checksum, feed_all-build, feed_all_damaged}
use project_voyager.Improv.Calls.{parse_wifi_settings_complete}

abbrev state_data : Bytes
state_data = 2 ∷ []

abbrev no_packet : Packet
no_packet = record { type = 0; len = 0; bytes = [] }

abbrev built : Bytes
built = header ++ (1 ∷ 1 ∷ 1 ∷ 2 ∷ 226 ∷ 10 ∷ [])

feed_all-build_example :
    ((feed_all (idle 0 0 no_packet) ((codes "boot") ++ built)).1
      ≡ packet (record { type = 1; len = length state_data; bytes = state_data }) ∷ [])
    × ((feed_all (idle 0 0 no_packet) ((codes "boot") ++ built)).0.pos ≡ 0)
unfolding build sum_bytes
feed_all-build_example =
    feed_all-build 1 64 0 0 no_packet state_data (codes "boot") built refl (ground arith)

feed_all_damaged_example :
    (feed_all
      (idle 0 0 no_packet)
      (wire version 1 ((5 ∷ []) ++ 9 ∷ []) (checksum version 1 ((5 ∷ []) ++ 2 ∷ [])))).1
    ≡ bad ∷ []
feed_all_damaged_example =
    feed_all_damaged 0 0 no_packet 1 2 9 (5 ∷ []) [] (omega arith) (omega arith) (omega arith)

parse_wifi_settings_complete_example :
    parse_wifi_settings
      (length (codes "home")
        ∷ ((codes "home") ++ length (codes "secret") ∷ ((codes "secret") ++ (0 ∷ []))))
      12
    ≡ some ((codes "home"), (codes "secret"))
parse_wifi_settings_complete_example =
    parse_wifi_settings_complete (codes "home") (codes "secret") (0 ∷ []) 12 (omega arith)
      (omega arith) (omega arith) (omega arith)
