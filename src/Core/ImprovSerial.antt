-- ===== src/Core/ImprovSerial.antt =====
-- src/core/improv_serial.cpp, WiFi setup over the USB port: the answer to each packet, and the two tasks
-- for a connection and for a scan. Each list of bytes is one write to the port.

pub mod Talk
use project_voyager.Prelude.{
  ℕ, ◌+◌, ◌/◌, ◌%◌, Bool, true, false, not, ◌||◌, Option, none, some, List, [], ◌∷◌, ◌++◌, ◌==◌,
  if◌then◌else◌, Bytes, codes, length, take,
}
use project_voyager.Prelude.Int.{ℤ}
use project_voyager.Lora.Net.{net_prefix_a, net_prefix_b}
use project_voyager.Improv.{
  type_rpc, Packet, Parser, feed, build_state, build_error, build_rpc_result, rpc_command,
  parse_wifi_settings, more, bad, packet,
}
use project_voyager.Core.NetSerial.{NetSerial, net_enter}

abbrev pub max_packet : ℕ
max_packet = 6 + 3 + 255 + 2

abbrev pub state_ready : ℕ
state_ready = 0x02

abbrev pub state_provisioning : ℕ
state_provisioning = 0x03

abbrev pub state_provisioned : ℕ
state_provisioned = 0x04

abbrev pub error_none : ℕ
error_none = 0x00

abbrev pub error_invalid_rpc : ℕ
error_invalid_rpc = 0x01

abbrev pub error_unknown_rpc : ℕ
error_unknown_rpc = 0x02

abbrev pub error_unable_to_connect : ℕ
error_unable_to_connect = 0x03

abbrev pub error_unknown : ℕ
error_unknown = 0xFF

abbrev pub cmd_wifi_settings : ℕ
cmd_wifi_settings = 0x01

abbrev pub cmd_get_current_state : ℕ
cmd_get_current_state = 0x02

abbrev pub cmd_get_device_info : ℕ
cmd_get_device_info = 0x03

abbrev pub cmd_get_wifi_networks : ℕ
cmd_get_wifi_networks = 0x04

abbrev pub cmd_voyager_net_start : ℕ
cmd_voyager_net_start = 0xF0

abbrev pub voyager_net_proto : Bytes
voyager_net_proto = codes "2"

pub record WifiNet : Type 0 where
  pub ssid : Bytes
  pub rssi : ℤ
  pub secure : Bool

-- The task that runs, with its arguments. `s_busy` tells whether there is one.
pub data Job : Type 0 where
  no_job : Job
  connecting : Bytes → Bytes → Job
  scanning : Job

abbrev pub is_busy : Job → Bool
is_busy no_job = false
is_busy _ = true

pub record ImprovPort : Type 0 where
  pub parser : Parser
  pub job : Job
  pub net : NetSerial

-- What the code reads elsewhere when a byte arrives; the two airtimes are of a full and of a minimal
-- packet, and the last two tell whether the allocation and the start of a task succeed.
pub record Surroundings : Type 0 where
  pub lora_serial : Bool
  pub sta_url : Bytes
  pub hostname : Bytes
  pub node_id : ℕ
  pub full_airtime : ℕ
  pub small_airtime : ℕ
  pub now : ℕ
  pub memory : Bool
  pub task_starts : Bool

unfoldable pub send : Bool → Option Bytes → List Bytes
send lora_serial none = []
send lora_serial (some b) = if lora_serial then [] else b ∷ []

abbrev pub send_state : Bool → ℕ → List Bytes
send_state lora_serial state = send lora_serial (build_state state 16)

abbrev pub send_error : Bool → ℕ → List Bytes
send_error lora_serial err = send lora_serial (build_error err 16)

abbrev pub send_result : Bool → ℕ → List Bytes → List Bytes
send_result lora_serial cmd strs = send lora_serial (build_rpc_result cmd strs max_packet)

abbrev pub send_current_state : Surroundings → List Bytes
send_current_state w =
    if length w.sta_url == 0
    then send_state w.lora_serial state_ready
    else send_state w.lora_serial state_provisioned
      ++ send_result w.lora_serial cmd_get_current_state (w.sta_url ∷ [])

abbrev pub Done : Type 0
Done = ImprovPort × List Bytes

unfoldable pub start_job : Bool → ImprovPort → Job → ImprovPort × Bool
start_job starts s job =
    if starts then (record s { job = job }, true) else (record s { job = no_job }, false)

-- The command with a network's name and password.
unfoldable pub handle_settings : Surroundings → ImprovPort → Bytes → ℕ → Done
unfolding start_job
handle_settings w s payload plen =
    let tell = send_error w.lora_serial in
    let parsed : Done = elim (parse_wifi_settings payload plen) [
      | none ↦ (s, tell error_invalid_rpc)
      | some (ssid, pass) ↦
          let (s', ok) = start_job w.task_starts s (connecting ssid pass) in
          (
            s',
            tell error_none
                ++ send_state w.lora_serial state_provisioning
                ++ (if ok then [] else tell error_unknown ++ send_state w.lora_serial state_ready),
          )
    ] in
    if is_busy s.job
    then (s, tell error_unknown)
    else if not w.memory
    then (s, tell error_invalid_rpc)
    else parsed

-- `decimal` and `hex4` are the formats `%d` and `%04X`, `date` the day of the build.
module _ (decimal : ℤ → Bytes) (hex4 : ℕ → Bytes) (date : Bytes) where
  abbrev pub ip_text : ℕ → Bytes
  ip_text node =
      decimal (ℤ.pos net_prefix_a)
      ++ codes "."
      ++ decimal (ℤ.pos net_prefix_b)
      ++ codes "."
      ++ decimal (ℤ.pos (node / 256))
      ++ codes "."
      ++ decimal (ℤ.pos (node % 256))

  -- The command of the adapter: answer, then switch the port to packets.
  unfoldable pub handle_net_start : Surroundings → ImprovPort → Done
  handle_net_start w s =
      let (net', entered) = net_enter w.lora_serial w.now s.net in
      let told = send_result w.lora_serial cmd_voyager_net_start (
        ip_text w.node_id
        ∷ hex4 w.node_id
        ∷ voyager_net_proto
        ∷ decimal (ℤ.pos w.full_airtime)
        ∷ decimal (ℤ.pos w.small_airtime)
        ∷ []) in
      if w.lora_serial || is_busy s.job then (s, send_error w.lora_serial error_unknown) else (
        record s { net = net' },
        told ++ (if entered then [] else send_error w.lora_serial error_unknown),
      )

  unfoldable pub handle_command : Surroundings → ImprovPort → ℕ → Bytes → ℕ → Done
  unfolding handle_settings handle_net_start start_job
  handle_command w s cmd payload plen =
      let name : Bytes = if length w.hostname == 0 then codes "Project Voyager" else w.hostname in
      let no_networks = send_result w.lora_serial cmd_get_wifi_networks [] in
      if cmd == cmd_get_current_state
      then (s, send_current_state w)
      else if cmd == cmd_get_device_info
      then (
        s,
        send_result w.lora_serial cmd_get_device_info
            (codes "Project Voyager" ∷ date ∷ codes "ESP32" ∷ name ∷ []),
      )
      else if cmd == cmd_wifi_settings
      then handle_settings w s payload plen
      else if cmd == cmd_voyager_net_start
      then handle_net_start w s
      else if cmd == cmd_get_wifi_networks
      then (if is_busy s.job
          then (s, no_networks)
          else let (s', ok) = start_job w.task_starts s scanning in
            (s', if ok then [] else no_networks))
      else (s, send_error w.lora_serial error_unknown_rpc)

  unfoldable pub handle_rpc : Surroundings → ImprovPort → Packet → Done
  unfolding handle_command
  handle_rpc w s p = elim (rpc_command p) [
    | none ↦ (s, send_error w.lora_serial error_invalid_rpc)
    | some (cmd, payload, plen) ↦ handle_command w s cmd payload plen
  ]

  unfoldable pub improv_feed : Surroundings → ImprovPort → ℕ → Done
  unfolding handle_rpc
  improv_feed w s b =
      let (parser', r) = feed s.parser b in
      let s' = record s { parser = parser' } in
      elim r [
        | more ↦ (s', [])
        | bad ↦ (s', send_error w.lora_serial error_invalid_rpc)
        | packet p ↦ if p.type == type_rpc then handle_rpc w s' p else (s', [])
      ]

  abbrev scan_lines : Bool → List WifiNet → List Bytes
  scan_lines lora_serial [] = []
  scan_lines lora_serial (n ∷ ns) =
      send_result lora_serial cmd_get_wifi_networks
        (n.ssid ∷ take 7 (decimal n.rssi) ∷ (if n.secure then codes "YES" else codes "NO") ∷ [])
      ++ scan_lines lora_serial ns

  -- The task that scans, from the networks found on.
  unfoldable pub scan_task : Bool → Bool → List WifiNet → ImprovPort → Done
  scan_task lora_serial memory nets s = (
    record s { job = no_job },
    (if memory then scan_lines lora_serial nets else [])
        ++ send_result lora_serial cmd_get_wifi_networks [],
  )

-- The task that connects, from the result on: the address of the board if it is connected.
unfoldable pub provision_task : Bool → Option Bytes → ImprovPort → Done
provision_task lora_serial none s = (
  record s { job = no_job },
  send_error lora_serial error_unable_to_connect ++ send_state lora_serial state_ready,
)
provision_task lora_serial (some url) s = (
  record s { job = no_job },
  send_state lora_serial state_provisioned ++ send_result lora_serial cmd_wifi_settings (url ∷ []),
)
