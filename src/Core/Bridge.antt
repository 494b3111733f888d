-- ===== src/Core/Bridge.antt =====
-- src/core/support_method.cpp, the serial port: which part gets the bytes that are read, and the bridge
-- from the port to the radio and back. The port is the USB port, as in a build without Bluetooth.
pub mod Frames
use project_voyager.Prelude.{
  ℕ, zero, suc, ◌+◌, ◌-◌, ◌*◌, ◌/◌, ◌%◌, ◌^◌, ◌≤◌, ◌<◌, ◌≡◌, refl, sym, ap, ◌∙◌, ◌≢◌, ◌↔◌, ◌⊎◌, inl,
  inr, Bool, true, false, not, ◌&&◌, ◌||◌, Option, none, some, List, [], ◌∷◌, ◌++◌, map,
  append_assoc, append-nil, arith, ltb, leb, ◌==◌, ◌!=◌, if◌then◌else◌, is_some, ==_iff, Bool-cases,
  Option-cases, Bytes, codes, length, get_elem?, get_or, set, take, drop, replicate, All,
  length-append, take-length-append, drop-length-append, length-set, length-take, get_or-set_self,
  get_or-set_ne, IsByte, str_eq, str_eq_iff, str_eq_refl, str_eq_empty, List-cases,
}
use project_voyager.Prelude.Int.{ℤ}
use project_voyager.Lora.Frame.{t_lora_serial, max_payload}
use project_voyager.Lora.Radio.{Radio, serial_queue_depth, frame_of}
use project_voyager.Core.NetSerial.{NetSerial, net_poll, Step}
use project_voyager.Core.NetSerial.Port.{net_feed_all}
use project_voyager.Core.ImprovSerial.{ImprovPort, Surroundings, improv_feed}
use project_voyager.Core.ImprovSerial.Talk.{improv_feed_all}

-- What the loop sees next: a byte, or `SERIAL_FRAME_IDLE_MS` without one.
pub data Heard : Type 0 where
  char : ℕ → Heard
  quiet : Heard

-- The message that is being read, and the queue of finished ones.
pub record Bridge : Type 0 where
  pub message : Bytes
  pub packet_send : List Bytes

-- The send to the queue. A message that finds it full for 100 ms is deleted; `full` tells this.
unfoldable pub finish : Bool → Bridge → Bytes → Bridge
finish full s m =
    if full
    then record { message = []; packet_send = s.packet_send }
    else record { message = []; packet_send = s.packet_send ++ m ∷ [] }

-- A round of the inner loop, which ends at a CR, at `LORA_MAX_PAYLOAD` bytes, and after a silence. With no
-- byte read yet there is no message to end.
unfoldable pub bridge_step : Bool → Bridge → Heard → Bridge
unfolding finish
bridge_step full s (char c) =
    let m = s.message ++ c ∷ [] in
    if c == b'\r' || leb max_payload (length m) then finish full s m else record s { message = m }
bridge_step full s quiet = if length s.message == 0 then s else finish full s s.message

unfoldable pub bridge_run : Bridge → List (Bool × Heard) → Bridge
unfolding bridge_step
bridge_run s [] = s
bridge_run s ((full, h) ∷ hs) = bridge_run (bridge_step full s h) hs

-- A round of `send_to_lora`: the frame that is transmitted, if any.
unfoldable pub send_to_lora : Bool → Bridge → Bridge × Option Bytes
send_to_lora lora_serial s = elim s.packet_send [
  | [] ↦ (s, none)
  | m ∷ rest ↦
      (record s { packet_send = rest }, if lora_serial then frame_of m t_lora_serial 0 else none)
]

-- A round of `send_to_serial`: the bytes written to the port.
unfoldable pub send_to_serial : Bool → Radio → Radio × Bytes
send_to_serial lora_serial r = elim r.serial_rec [
  | [] ↦ (r, [])
  | m ∷ rest ↦ (record r { serial_rec = rest }, if lora_serial then m else [])
]

-- The port's whole state.
pub record UsbPort : Type 0 where
  pub lora_serial : Bool
  pub improv : ImprovPort
  pub radio : Radio

module _ (decimal : ℤ → Bytes) (hex4 : ℕ → Bytes) (date : Bytes) where
  -- A round of `serial_to_lora` with the bridge off, on the bytes that are available: all go to the part
  -- that was on when the round began. They are read at one time of the clock.
  unfoldable pub serial_round_off : Surroundings → UsbPort → Bytes → UsbPort × List Bytes
  serial_round_off w s burst =
      let w' : Surroundings = record w { lora_serial = s.lora_serial; node_id = s.radio.node_id } in
      let x : Step = net_feed_all w.memory w.now burst s.improv.net s.radio in
      let i = improv_feed_all decimal hex4 date w' s.improv burst in
      if s.improv.net.active
      then (
        record s { improv = record (s.improv) { net = net_poll w.now x.net }; radio = x.radio },
        x.out ∷ [],
      )
      else (record s { improv = i.0 }, i.1)
