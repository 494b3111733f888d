-- ===== src/Core/Dispatch.antt =====
-- src/core/support_method.cpp, `handle_operations`: what each request of the web page does. The lines of
-- the debug log are left out.
pub mod Exclusive
use project_voyager.Prelude.{
  ℕ, zero, suc, ◌+◌, ◌-◌, ◌*◌, ◌/◌, ◌%◌, ◌^◌, ◌≤◌, ◌<◌, ◌≡◌, refl, sym, ap, ◌∙◌, ◌≢◌, ◌↔◌, ◌⊎◌, inl,
  inr, Bool, true, false, not, ◌&&◌, ◌||◌, Option, none, some, List, [], ◌∷◌, ◌++◌, map,
  append_assoc, append-nil, arith, ltb, leb, ◌==◌, ◌!=◌, if◌then◌else◌, is_some, ==_iff, Bool-cases,
  Option-cases, Bytes, codes, length, get_elem?, get_or, set, take, drop, replicate, All,
  length-append, take-length-append, drop-length-append, length-set, length-take, get_or-set_self,
  get_or-set_ne, IsByte, str_eq, str_eq_iff, str_eq_refl, str_eq_empty, List-cases,
}
use project_voyager.Prelude.Int.{ℤ}
use project_voyager.Core.Json.{Json}
use project_voyager.Core.Request.{
  CoreAction, missing, unknown, invalid, wifi_scan, connect_wifi, wifi_ap_mode, set_ap_pass,
  reset_device, restart_device, set_username, get_username, set_lora_config, set_serial_mode,
  get_serial_mode, get_net_status, get_wifi_scan, get_bt_config, set_bt_mode, reboot_to_bt,
  file_tx_invite, file_tx_join, file_tx_start, file_tx_end, CoreCommand, core_parse_request,
}
use project_voyager.Lora.Frame.{t_lora_msg}
use project_voyager.Lora.Radio.{Radio, QueueParam, send_queue_depth}
use project_voyager.Core.Bridge.{UsbPort}

-- The tasks that a request starts.
pub data Task : Type 0 where
  scan_ssid reset restart save_serial_mode enable_bt : Task
  bt_mode : Bool → Task

-- What a request does to the rest of the program, in order: alerts and messages to the web page, tasks,
-- and calls with their arguments.
pub data Effect : Type 0 where
  alert : Bytes → Effect
  tell_username tell_bt_config tell_net_status tell_wifi_scan : Effect
  tell_serial_mode : Bool → Effect
  start : Task → Effect
  save_sta : Bytes → Bytes → Effect
  switch_to_ap : Effect
  save_ap_pass : Bytes → Effect
  save_username : Bytes → Effect
  save_lora : Bytes → Effect

-- What the calls answer: whether a task starts, an allocation succeeds, and the call that saves succeeds;
-- whether Bluetooth is compiled in, and whether a complete scan of the networks is there.
pub record Outcome : Type 0 where
  pub task_starts : Bool
  pub memory : Bool
  pub saved : Bool
  pub bt_available : Bool
  pub scanned : Bool

abbrev pub Handled : Type 0
Handled = UsbPort × List Effect

abbrev pub start_task : Outcome → Task → List Effect
start_task o t = if o.task_starts then start t ∷ [] else []

-- A payload for the radio, with the alerts for its two failures.
unfoldable pub send_invite : Outcome → UsbPort → Bytes → Bytes → Bytes → Handled
send_invite o s payload no_memory queue_full =
    let p : QueueParam = record { type = t_lora_msg; message = payload; id = 0 } in
    if not o.memory
    then (s, alert no_memory ∷ [])
    else if ltb (length s.radio.send_packets) send_queue_depth
    then (
      record s { radio = record (s.radio) { send_packets = s.radio.send_packets ++ p ∷ [] } },
      [],
    )
    else (s, alert queue_full ∷ [])

unfoldable pub set_serial : Outcome → UsbPort → Bool → Handled
set_serial o s on =
    if on && s.improv.net.active
    then (
      s,
      alert (codes "The serial port is in LoRa network mode (Voyager Link).")
          ∷ tell_serial_mode s.lora_serial
          ∷ [],
    )
    else (record s { lora_serial = on }, start_task o save_serial_mode ++ tell_serial_mode on ∷ [])

unfoldable pub start_file_tx : UsbPort → Handled
start_file_tx s =
    if s.improv.net.active
    then (
      s,
      alert (
            codes
              "The serial port is in LoRa network mode (Voyager Link). Leave the network first.")
          ∷ tell_serial_mode s.lora_serial
          ∷ [],
    )
    else (record s { lora_serial = true }, tell_serial_mode true ∷ [])

abbrev no_bt : Bytes
no_bt = codes "BT not available (firmware not compiled with VOYAGER_BT_ENABLED)"

unfoldable pub switch_bt : Outcome → Bool → List Effect
switch_bt o on =
    if on && not o.bt_available
    then alert no_bt ∷ tell_bt_config ∷ []
    else if not o.memory
    then alert (codes "Failed: out of memory") ∷ []
    else start_task o (bt_mode on)

-- `invite` and `join` are the messages that the JSON library builds from the two arguments, the user name
-- and the address of the board.
module _ (invite join : Bytes → Bytes → Bytes) where
  unfoldable pub run_command : Outcome → UsbPort → CoreCommand → Handled
  unfolding send_invite set_serial start_file_tx switch_bt
  run_command o s c = elim c.action [
    | missing ↦ (s, [])
    | unknown ↦ (s, [])
    | invalid ↦ (s, alert (codes "Request rejected: " ++ c.error) ∷ [])
    | wifi_scan ↦ (s, start_task o scan_ssid)
    | connect_wifi ↦ (s, save_sta c.arg1 c.arg2 ∷ [])
    | wifi_ap_mode ↦ (s, switch_to_ap ∷ [])
    | set_ap_pass ↦ (s, save_ap_pass c.arg1 ∷ [])
    | reset_device ↦ (s, start_task o reset)
    | restart_device ↦ (s, start_task o restart)
    | set_username ↦ (
      s,
      save_username c.arg1
          ∷ alert (if o.saved then codes "Username saved" else codes "Username could not be saved")
          ∷ tell_username
          ∷ [],
    )
    | get_username ↦ (s, tell_username ∷ [])
    | set_lora_config ↦
        (s, save_lora c.arg1 ∷ (if o.saved then [] else alert (codes "LoRa config rejected") ∷ []))
    | set_serial_mode ↦ set_serial o s c.flag
    | get_serial_mode ↦ (s, tell_serial_mode s.lora_serial ∷ [])
    | get_net_status ↦ (s, tell_net_status ∷ [])
    | get_wifi_scan ↦ (s, if o.scanned then tell_wifi_scan ∷ [] else [])
    | get_bt_config ↦ (s, tell_bt_config ∷ [])
    | set_bt_mode ↦ (s, switch_bt o c.flag)
    | reboot_to_bt ↦ (
      s,
      if not o.bt_available then alert no_bt ∷ tell_bt_config ∷ [] else start_task o enable_bt,
    )
    | file_tx_invite ↦
        send_invite o s (invite c.arg1 c.arg2) (codes "File invite failed: no memory")
          (codes "File invite failed: queue full")
    | file_tx_join ↦
        send_invite o s (join c.arg1 c.arg2) (codes "File join failed: no memory")
          (codes "File join failed: queue full")
    | file_tx_start ↦ start_file_tx s
    | file_tx_end ↦ (record s { lora_serial = false }, tell_serial_mode false ∷ [])
  ]

  module _ (j : Json) (to_string : ℤ → Bytes) where
    open j use {Value}

    unfoldable pub handle_operations : Outcome → UsbPort → Value → Handled
    unfolding run_command
    handle_operations o s doc = run_command o s (core_parse_request j to_string doc)
