-- ===== src/Tests/Fakes.antt =====
-- Concrete stations, and stand-ins for the libraries that are parameters.

use project_voyager.Prelude.{ℕ, true, false, some, [], arith, Bytes, codes, replicate}
use project_voyager.Prelude.Int.{ℤ}
use project_voyager.Core.Json.{Json}
use project_voyager.Lora.Slip.{reset}
use project_voyager.Lora.Dedup.{fresh}
use project_voyager.Lora.Dedup.Table.{Inv}
use project_voyager.Lora.Radio.{Radio}
use project_voyager.Lora.Receive.{Station}
use project_voyager.Core.NetSerial.{NetSerial, no_peer}

-- A JSON library in which each text is the string of its bytes.
abbrev pub texts : Json
texts = record {
  Value = Bytes;
  parse = λ s. some s;
  member = λ v k. v;
  is_null = λ v. false;
  is_object = λ v. true;
  is_string = λ v. true;
  as_string = λ v. v;
  is_bool = λ v. false;
  as_bool = λ v. false;
  is_long = λ v. false;
  as_long = λ v. ℤ.pos 0;
}

abbrev pub decimal : ℤ → Bytes
decimal n = codes "1"

abbrev pub hex4 : ℕ → Bytes
hex4 n = codes "0102"

-- Board 1.2 with an empty queue, and the number 7 next.
abbrev pub radio : Radio
radio = record {
  node_id = 0x0102;
  next_seq = 7;
  send_packets = [];
  recv_packets = [];
  serial_rec = [];
  ack_queue = [];
}

abbrev pub network : NetSerial
network = record {
  dec = reset;
  active = true;
  last_rx = 0;
  tx = 0;
  rx = 0;
  drop = 0;
  rx_q = [];
  peers = replicate 8 no_peer;
  last_busy = 0;
}

pub fresh-Inv : Inv fresh
fresh-Inv = ground arith

-- Board 3.4, in network mode.
abbrev pub station : Station
station = record { radio = record radio { node_id = 0x0304 }; net = network; dedup = fresh }
