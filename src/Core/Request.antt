-- ===== src/Core/Request.antt =====
-- src/core/core_dispatch.h, requests: the JSON of a request becomes a command with checked arguments.
pub mod Checked
use Prim.Native.String.{String}
use project_voyager.Prelude.{
  ℕ, zero, suc, ◌+◌, ◌-◌, ◌*◌, ◌/◌, ◌%◌, ◌^◌, ◌≤◌, ◌<◌, ◌≡◌, refl, sym, ap, ◌∙◌, ◌≢◌, ◌↔◌, ◌⊎◌, inl,
  inr, Bool, true, false, not, ◌&&◌, ◌||◌, Option, none, some, List, [], ◌∷◌, ◌++◌, map,
  append_assoc, append-nil, arith, ltb, leb, ◌==◌, ◌!=◌, if◌then◌else◌, is_some, ==_iff, Bool-cases,
  Option-cases, Bytes, codes, length, get_elem?, get_or, set, take, drop, replicate, All,
  length-append, take-length-append, drop-length-append, length-set, length-take, get_or-set_self,
  get_or-set_ne, IsByte, str_eq, str_eq_iff, str_eq_refl,
}
use project_voyager.Prelude.Int.{ℤ}
use project_voyager.Core.Json.{Json}
use project_voyager.Core.LoraConfig.{core_lora_config_string_valid}

pub data CoreAction : Type 0 where
  missing unknown invalid wifi_scan connect_wifi wifi_ap_mode set_ap_pass reset_device : CoreAction
  restart_device set_username get_username set_lora_config set_serial_mode : CoreAction
  get_serial_mode get_net_status get_wifi_scan get_bt_config set_bt_mode reboot_to_bt : CoreAction
  file_tx_invite file_tx_join file_tx_start file_tx_end : CoreAction

pub record CoreCommand : Type 0 where
  pub action : CoreAction
  pub arg1 : Bytes
  pub arg2 : Bytes
  pub flag : Bool
  pub error : Bytes

abbrev pub new_command : CoreCommand
new_command = record { action = missing; arg1 = []; arg2 = []; flag = false; error = [] }

unfoldable pub core_action_name : CoreAction → String
core_action_name missing = "missing"
core_action_name unknown = "unknown"
core_action_name invalid = "invalid"
core_action_name wifi_scan = "wifi_ssid_scan"
core_action_name connect_wifi = "connect_wifi"
core_action_name wifi_ap_mode = "wifi_ap_mode"
core_action_name set_ap_pass = "set_ap_pass"
core_action_name reset_device = "reset_device"
core_action_name restart_device = "restart_device"
core_action_name set_username = "set_username"
core_action_name get_username = "get_username"
core_action_name set_lora_config = "set_lora_config"
core_action_name set_serial_mode = "set_serial_mode"
core_action_name get_serial_mode = "get_serial_mode"
core_action_name get_net_status = "get_net_status"
core_action_name get_wifi_scan = "get_wifi_scan"
core_action_name get_bt_config = "get_bt_config"
core_action_name set_bt_mode = "set_bt_mode"
core_action_name reboot_to_bt = "reboot_to_bt"
core_action_name file_tx_invite = "file_tx_invite"
core_action_name file_tx_join = "file_tx_join"
core_action_name file_tx_start = "file_tx_start"
core_action_name file_tx_end = "file_tx_end"

unfoldable pub core_printable : Bytes → Bool
core_printable [] = true
core_printable (c ∷ s) = not (ltb c 0x20 || c == 0x7F) && core_printable s

unfoldable pub core_invalid : String → CoreCommand
core_invalid why = record new_command { action = invalid; error = codes why }

abbrev pub command : CoreAction → CoreCommand
command a = record new_command { action = a }

-- A passphrase that is not empty has 8 to 63 bytes.
abbrev pub bad_pass_len : Bytes → Bool
bad_pass_len pass = not (length pass == 0) && (ltb (length pass) 8 || ltb 63 (length pass))

-- `to_string` is the library's decimal form of a number.
module _ (j : Json) (to_string : ℤ → Bytes) where
  open j use {Value, member, is_null, is_string, as_string, is_bool, as_bool, is_long, as_long}

  unfoldable pub parse_connect_wifi : Value → CoreCommand
  unfolding core_invalid
  parse_connect_wifi doc =
      let s = member doc (codes "wifi_ssid") in
      let p = member doc (codes "wifi_pass") in
      let ssid = as_string s in
      let pass : Bytes = if not (is_null p) then as_string p else [] in
      if not (is_string s)
      then core_invalid "wifi_ssid missing"
      else if length ssid == 0 || ltb 32 (length ssid)
      then core_invalid "wifi_ssid length"
      else if not (is_null p) && not (is_string p)
      then core_invalid "wifi_pass type"
      else if bad_pass_len pass
      then core_invalid "wifi_pass length"
      else record (command connect_wifi) { arg1 = ssid; arg2 = pass }

  unfoldable pub parse_set_ap_pass : Value → CoreCommand
  unfolding core_invalid core_printable
  parse_set_ap_pass doc =
      let v = member doc (codes "val") in
      let pass = as_string v in
      if not (is_string v)
      then core_invalid "val missing"
      else if bad_pass_len pass
      then core_invalid "ap_pass length"
      else if not (core_printable pass)
      then core_invalid "ap_pass chars"
      else record (command set_ap_pass) { arg1 = pass }

  unfoldable pub parse_set_username : Value → CoreCommand
  unfolding core_invalid core_printable
  parse_set_username doc =
      let v = member doc (codes "val") in
      let u = as_string v in
      if not (is_string v)
      then core_invalid "val missing"
      else if ltb (length u) 1 || ltb 32 (length u)
      then core_invalid "username length"
      else if not (core_printable u)
      then core_invalid "username chars"
      else record (command set_username) { arg1 = u }

  unfoldable pub parse_set_lora_config : Value → CoreCommand
  unfolding core_invalid
  parse_set_lora_config doc =
      let v = member doc (codes "val") in
      if not (is_string v)
      then core_invalid "val missing"
      else if not (core_lora_config_string_valid j (as_string v))
      then core_invalid "lora config out of range"
      else record (command set_lora_config) { arg1 = as_string v }

  -- `set_serial_mode` and `set_bt_mode`.
  unfoldable pub parse_switch : CoreAction → Value → CoreCommand
  unfolding core_invalid
  parse_switch a doc =
      let v = member doc (codes "value") in
      if not (is_bool v)
      then core_invalid "value must be bool"
      else record (command a) { flag = as_bool v }

  unfoldable pub parse_file_tx_invite : Value → CoreCommand
  unfolding core_invalid
  parse_file_tx_invite doc =
      let fn = member doc (codes "fileName") in
      let fs = member doc (codes "fileSize") in
      if not (is_string fn)
      then core_invalid "fileName missing"
      else if not (is_long fs) && not (is_string fs)
      then core_invalid "fileSize missing"
      else record (command file_tx_invite) {
        arg1 = as_string fn;
        arg2 = if is_long fs then to_string (as_long fs) else as_string fs;
      }

  unfoldable pub parse_file_tx_join : Value → CoreCommand
  unfolding core_invalid
  parse_file_tx_join doc =
      let sm = member doc (codes "sender_mac") in
      let m = member doc (codes "mode") in
      let mode = as_string m in
      if not (is_string sm)
      then core_invalid "sender_mac missing"
      else if not (is_string m)
      then core_invalid "mode missing"
      else if not (str_eq mode (codes "usb")) && not (str_eq mode (codes "bt"))
      then core_invalid "mode must be usb or bt"
      else record (command file_tx_join) { arg1 = as_string sm; arg2 = mode }

  -- The request types, in the order of the tests, each with the command that it gives.
  abbrev pub handlers : Value → List (Bytes × CoreCommand)
  handlers doc =
      (codes "wifi_ssid_scan", command wifi_scan)
      ∷ (codes "wifi_ap_mode", command wifi_ap_mode)
      ∷ (codes "reset_device", command reset_device)
      ∷ (codes "restart_device", command restart_device)
      ∷ (codes "get_username", command get_username)
      ∷ (codes "get_serial_mode", command get_serial_mode)
      ∷ (codes "get_net_status", command get_net_status)
      ∷ (codes "get_wifi_scan", command get_wifi_scan)
      ∷ (codes "connect_wifi", parse_connect_wifi doc)
      ∷ (codes "set_ap_pass", parse_set_ap_pass doc)
      ∷ (codes "set_username", parse_set_username doc)
      ∷ (codes "set_lora_config", parse_set_lora_config doc)
      ∷ (codes "set_serial_mode", parse_switch set_serial_mode doc)
      ∷ (codes "get_bt_config", command get_bt_config)
      ∷ (codes "reboot_to_bt", command reboot_to_bt)
      ∷ (codes "set_bt_mode", parse_switch set_bt_mode doc)
      ∷ (codes "file_tx_invite", parse_file_tx_invite doc)
      ∷ (codes "file_tx_join", parse_file_tx_join doc)
      ∷ (codes "file_tx_start", command file_tx_start)
      ∷ (codes "file_tx_end", command file_tx_end)
      ∷ []

  -- The chain of `strcmp` tests.
  unfoldable pub select : Bytes → List (Bytes × CoreCommand) → CoreCommand
  select t [] = record new_command { action = unknown; error = codes "unknown request-type" }
  select t ((name, c) ∷ rest) = if str_eq t name then c else select t rest

  unfoldable pub core_parse_request : Value → CoreCommand
  unfolding select
  core_parse_request doc =
      let rt = member doc (codes "request-type") in
      if not (is_string rt)
      then record new_command { action = missing; error = codes "missing request-type" }
      else select (as_string rt) (handlers doc)
