-- ===== src/Core/Dispatch/Exclusive.antt =====
-- src/core: the serial port belongs to the bridge or to the network, never to both.

use project_voyager.Prelude.{ℕ, ◌≡◌, Bool, true, false, ◌&&◌, arith, Bytes}
use project_voyager.Prelude.Int.{ℤ}
use project_voyager.Core.Json.{Json}
use project_voyager.Core.Request.{CoreCommand, core_parse_request}
use project_voyager.Core.NetSerial.{
  NetSerial, net_leave, net_poll, maybe_report_busy, Step, forward, handle_control, handle_packet,
  handle_frame, net_feed,
}
use project_voyager.Lora.Radio.{Radio}
use project_voyager.Core.ImprovSerial.{
  ImprovPort, Surroundings, start_job, handle_settings, handle_net_start, handle_command,
  handle_rpc, improv_feed,
}
use project_voyager.Core.Bridge.{UsbPort}
use project_voyager.Core.Dispatch.{
  Outcome, send_invite, set_serial, start_file_tx, run_command, handle_operations,
}

-- The port after a step of the network.
abbrev pub after_net : UsbPort → Step → UsbPort
after_net s x = record s { improv = record (s.improv) { net = x.net }; radio = x.radio }

-- Bridge mode and network mode are not both on.
abbrev pub IsExclusive : UsbPort → Type 0
IsExclusive s = (s.lora_serial && s.improv.net.active) ≡ false

set_serial-IsExclusive :
    (o : Outcome) (s : UsbPort) (on : Bool) → IsExclusive s → IsExclusive (set_serial o s on).0
unfolding set_serial
set_serial-IsExclusive o s on h = ground (arith, h)

start_file_tx-IsExclusive : (s : UsbPort) → IsExclusive s → IsExclusive (start_file_tx s).0
unfolding start_file_tx
start_file_tx-IsExclusive s h = ground (arith, h)

send_invite-IsExclusive :
    (o : Outcome) (s : UsbPort) (payload no_memory queue_full : Bytes)
    → IsExclusive s
    → IsExclusive (send_invite o s payload no_memory queue_full).0
unfolding send_invite
send_invite-IsExclusive o s payload no_memory queue_full h = ground (arith, h)

forward-active :
    (memory : Bool) (now dst : ℕ) (ip : Bytes) (s : NetSerial) (r : Radio)
    → (forward memory now dst ip s r).net.active ≡ s.active
unfolding forward maybe_report_busy
forward-active memory now dst ip s r = ground arith

net_feed-active :
    (memory : Bool) (now b : ℕ) (s : NetSerial) (r : Radio)
    → (net_feed memory now b s r).net.active ≡ true
    → s.active ≡ true
unfolding net_feed handle_frame handle_control handle_packet net_leave
net_feed-active memory now b s r h = ground (arith, h, forward-active memory now)

net_poll-active : (now : ℕ) (s : NetSerial) → (net_poll now s).active ≡ true → s.active ≡ true
unfolding net_poll net_leave
net_poll-active now s h = ground (arith, h)

module _ (decimal : ℤ → Bytes) (hex4 : ℕ → Bytes) (date : Bytes) where
  improv_feed-active :
      (w : Surroundings) (s : ImprovPort) (b : ℕ)
      → w.lora_serial ≡ true
      → (improv_feed decimal hex4 date w s b).0.net ≡ s.net
  unfolding improv_feed handle_rpc handle_command handle_settings handle_net_start start_job
  improv_feed-active w s b on = ground (arith, on)

module _ (invite join : Bytes → Bytes → Bytes) where
  run_command-IsExclusive :
      (o : Outcome) (s : UsbPort) (c : CoreCommand)
      → IsExclusive s
      → IsExclusive (run_command invite join o s c).0
  unfolding run_command
  run_command-IsExclusive o s c h = ground (
    arith,
    h,
    set_serial-IsExclusive o s c.flag h,
    start_file_tx-IsExclusive s h,
    send_invite-IsExclusive o s,
  )

module _ (decimal : ℤ → Bytes) (hex4 : ℕ → Bytes) (date : Bytes)
    (invite join : Bytes → Bytes → Bytes) (j : Json) (to_string : ℤ → Bytes) where
  open j use {Value}

  -- What can happen to the port: the start with the saved mode, a request of the web page, a byte for the
  -- setup or for the network, and the watch over an idle network, in any order. The setup reads the mode
  -- as it is when the byte comes.
  pub data Reached : UsbPort → Type 0 where
    booted : (s : UsbPort) → s.improv.net.active ≡ false → Reached s
    requested :
        (s : UsbPort) (o : Outcome) (doc : Value)
        → Reached s
        → Reached (handle_operations invite join j to_string o s doc).0
    set_up :
        (s : UsbPort) (w : Surroundings) (b : ℕ)
        → Reached s
        → Reached (record s {
          improv =
              (improv_feed decimal hex4 date
                (record w { lora_serial = s.lora_serial })
                s.improv
                b).0;
        })
    fed :
        (s : UsbPort) (memory : Bool) (now b : ℕ)
        → Reached s
        → Reached (after_net s (net_feed memory now b s.improv.net s.radio))
    polled :
        (s : UsbPort) (now : ℕ)
        → Reached s
        → Reached (record s { improv = record (s.improv) { net = net_poll now s.improv.net } })

  -- In every order of requests, of bytes for the setup and of bytes for the network, from a start with
  -- network mode off: the bridge and network mode are never both on.
  pub Reached-IsExclusive : {s : UsbPort} → Reached s → IsExclusive s
  unfolding handle_operations
  Reached-IsExclusive (booted s h) = ground (arith, h)
  Reached-IsExclusive (requested s o doc r) =
      run_command-IsExclusive invite join o s (core_parse_request j to_string doc)
        (Reached-IsExclusive r)
  Reached-IsExclusive (set_up s w b r) = ground (
    arith,
    Reached-IsExclusive r,
    improv_feed-active decimal hex4 date (record w { lora_serial = s.lora_serial }) s.improv b,
  )
  Reached-IsExclusive (fed s memory now b r) =
      ground (arith, Reached-IsExclusive r, net_feed-active memory now b s.improv.net s.radio)
  Reached-IsExclusive (polled s now r) =
      ground (arith, Reached-IsExclusive r, net_poll-active now s.improv.net)
