-- ===== src/Web/Sockets.antt =====
-- src/web/web_sockets.cpp, the WebSocket and the event stream: the gate of handshakes, the reassembly of
-- messages, and the queues in both directions. Lines of the debug log are left out.
pub mod Reassembly
pub mod Bounds
pub mod Reach
use project_voyager.Prelude.{
  ℕ, zero, suc, ◌+◌, ◌-◌, ◌*◌, ◌/◌, ◌%◌, ◌^◌, ◌≤◌, ◌<◌, ◌≡◌, refl, sym, ap, ◌∙◌, ◌≢◌, ◌↔◌, ◌⊎◌, inl,
  inr, Bool, true, false, not, ◌&&◌, ◌||◌, Option, none, some, List, [], ◌∷◌, ◌++◌, map,
  append_assoc, append-nil, arith, ltb, leb, ◌==◌, ◌!=◌, if◌then◌else◌, is_some, ==_iff, Bool-cases,
  Option-cases, Bytes, codes, length, get_elem?, get_or, set, take, drop, replicate, All,
  length-append, take-length-append, drop-length-append, length-set, length-take, get_or-set_self,
  get_or-set_ne, IsByte, str_eq, str_eq_iff, str_eq_refl, str_eq_empty,
}
use project_voyager.Core.Json.{Json}
use project_voyager.Lora.Receive.{before_nul}
use project_voyager.Core.Request.{
  CoreAction, CoreCommand, new_command, core_action_name, core_printable, core_invalid, command,
  bad_pass_len, parse_connect_wifi, parse_set_ap_pass, parse_set_username, parse_set_lora_config,
  parse_switch, parse_file_tx_invite, parse_file_tx_join, handlers, select, core_parse_request,
  missing, unknown, invalid, wifi_scan, connect_wifi, wifi_ap_mode, set_ap_pass, reset_device,
  restart_device, set_username, get_username, set_lora_config, set_serial_mode, get_serial_mode,
  get_net_status, get_wifi_scan, get_bt_config, set_bt_mode, reboot_to_bt, file_tx_invite,
  file_tx_join, file_tx_start, file_tx_end,
}
use project_voyager.Prelude.Int.{
  ℤ, pos_part, neg_part, sub_ℕ, ◌+ℤ◌, ◌-ℤ◌, ◌≤ℤ◌, ◌<ℤ◌, ltb_ℤ, leb_ℤ, pos, negsuc,
}
use project_voyager.Web.Access.{
  password_min_len, password_max_len, session_hex_len, password_valid, hex_only, is_session_token,
  differences, ct_equal, is_empty_text, begins, ends_with_slash, same_host, origin_allowed,
  is_blank, skip_blanks, take_field, trim_end, Cookie, cookie_loop, cookie_get, absent, too_long,
  value, out_of_fuel,
}
use project_voyager.Web.Frames.{
  ws_max_message, ws_frame_start_ok, ws_chunk_in_order, ota_keep_max_bytes, ota_keep_size_ok,
  out_queue_admit, tx_id_after, sanitize_loop, sanitize_for_log, TxCheck, tx_check_status, tx_ok,
  tx_missing, tx_bad_json, tx_too_large,
}
use project_voyager.Web.Auth.{
  max_sessions, Auth, no_sessions, boot, clear_sessions, auth_init, ensure_loaded, auth_is_set,
  auth_prefix, auth_set, auth_clear, hex_digit, hex_word, Words, token_of, auth_session_create,
  slot_matches, any_slot, session_valid, forget, auth_session_revoke, Request, has_session,
  is_digest, auth_check, Answer, auth_require, pass, setup_required, ask_credentials,
}

abbrev pub rx_queue_len : ℕ
rx_queue_len = 8

abbrev pub out_queue_len : ℕ
out_queue_len = 32

abbrev pub out_reserved : ℕ
out_reserved = 8

abbrev pub u32_mod : ℕ
u32_mod = 2 ^ 32

-- A message being reassembled: `total`, and the first `received` bytes of `buf`.
pub record WsAssembly : Type 0 where
  pub total : ℕ
  pub buf : Bytes

pub record OutMsg : Type 0 where
  pub to_ws : Bool
  pub content : Bytes
  pub topic : Bytes

-- `assembly` is the `_tempObject` of each client. The queues hold the messages that their pointers stand
-- for; they exist, as after a successful `initWebSocket`.
pub record Sockets : Type 0 where
  pub assembly : ℕ → Option WsAssembly
  pub rx_queue : List Bytes
  pub out_queue : List OutMsg
  pub ws_clients : ℕ
  pub sse_clients : ℕ
  pub dropped_ws : ℕ
  pub dropped_sse : ℕ

-- The parts of `AwsFrameInfo` that are read.
pub record FrameInfo : Type 0 where
  pub index : ℕ
  pub len : ℕ
  pub final : Bool
  pub opcode : ℕ

abbrev pub at_client : (ℕ → Option WsAssembly) → ℕ → Option WsAssembly → ℕ → Option WsAssembly
at_client f client a c = if c == client then a else f c

unfoldable pub ws_assembly_free : Sockets → ℕ → Sockets
ws_assembly_free s client = record s { assembly = at_client s.assembly client none }

unfoldable pub ws_deliver : Sockets → Bytes → Sockets
ws_deliver s msg =
    if ltb (length s.rx_queue) rx_queue_len
    then record s { rx_queue = s.rx_queue ++ msg ∷ [] }
    else s

-- A chunk of a frame being reassembled.
unfoldable pub continue_frame : Sockets → ℕ → FrameInfo → Bytes → Sockets
unfolding ws_assembly_free ws_deliver
continue_frame s client info chunk = elim (s.assembly client) [
  | none ↦ s
  | some a ↦
      let buf = a.buf ++ chunk in
      if not (ws_chunk_in_order (length a.buf) a.total info.index info.len (length chunk))
      then ws_assembly_free s client
      else if ltb (length buf) a.total
      then record s { assembly = at_client s.assembly client (some (record a { buf = buf })) }
      else ws_deliver (ws_assembly_free s client) buf
]

-- `memory` tells whether the allocation of the call succeeds. The second result is true when the client
-- is closed because its message is too big. A null `info` is `none`.
unfoldable pub ws_handle_data : Bool → Sockets → ℕ → Option FrameInfo → Bytes → Sockets × Bool
unfolding continue_frame
ws_handle_data memory s client none chunk = (s, false)
ws_handle_data memory s client (some info) chunk =
    let freed = ws_assembly_free s client in
    let started = record freed {
      assembly = at_client freed.assembly client (some (record { total = info.len; buf = [] }));
    } in
    if info.index != 0
    then (continue_frame s client info chunk, false)
    else if not (ws_frame_start_ok info.final info.opcode info.len ws_max_message)
    then (freed, ltb ws_max_message info.len)
    else if length chunk == info.len
    then (if memory then ws_deliver freed chunk else freed, false)
    else if not memory
    then (freed, false)
    else (continue_frame started client info chunk, false)

pub data WsEvent : Type 0 where
  connect disconnect other : WsEvent
  data_event : Option FrameInfo → Bytes → WsEvent

unfoldable pub on_event : Bool → Sockets → ℕ → WsEvent → Sockets × Bool
unfolding ws_handle_data
on_event memory s client connect = (record s { ws_clients = (s.ws_clients + 1) % u32_mod }, false)
on_event memory s client disconnect =
    (record (ws_assembly_free s client) { ws_clients = s.ws_clients - 1 }, false)
on_event memory s client (data_event info chunk) = ws_handle_data memory s client info chunk
on_event memory s client other = (s, false)

unfoldable pub on_raw_events : Sockets → Sockets
on_raw_events s = record s { sse_clients = (s.sse_clients + 1) % u32_mod }

unfoldable pub on_raw_events_disconnect : Sockets → Sockets
on_raw_events_disconnect s = record s { sse_clients = s.sse_clients - 1 }

abbrev pub count_drop : Bool → Sockets → Sockets
count_drop to_ws s =
    if to_ws
    then record s { dropped_ws = (s.dropped_ws + 1) % u32_mod }
    else record s { dropped_sse = (s.dropped_sse + 1) % u32_mod }

-- The queue is full when the wait of the call ends, if it is full here.
unfoldable pub enqueue_out : Bool → Bool → Bytes → Bytes → Sockets → Sockets
unfolding out_queue_admit
enqueue_out memory to_ws content topic s =
    let free = out_queue_len - length s.out_queue in
    let m : OutMsg = record {
      to_ws = to_ws;
      content = content;
      topic = if to_ws then [] else topic;
    } in
    if (if to_ws then s.ws_clients == 0 else s.sse_clients == 0)
    then s
    else if not to_ws && not (out_queue_admit false free out_reserved)
    then count_drop to_ws s
    else if not memory
    then count_drop to_ws s
    else if ltb (length s.out_queue) out_queue_len
    then record s { out_queue = s.out_queue ++ m ∷ [] }
    else count_drop to_ws s

unfoldable pub send_to_ws : Bool → Bytes → Sockets → Sockets
unfolding enqueue_out
send_to_ws memory message s = enqueue_out memory true message [] s

unfoldable pub send_to_events : Bool → Bytes → Bytes → Sockets → Sockets
unfolding enqueue_out
send_to_events memory content topic s = enqueue_out memory false content topic s

-- A round of the sender task: the message that it hands to the library, if any.
unfoldable pub sender_round : Sockets → Sockets × Option OutMsg
sender_round s = elim s.out_queue [
  | [] ↦ (s, none)
  | m ∷ rest ↦ (
    record s { out_queue = rest },
    if (if m.to_ws then ltb 0 s.ws_clients else ltb 0 s.sse_clients) then some m else none,
  )
]

pub data GateResult : Type 0 where
  gate_ok gate_setup gate_origin gate_unauth : GateResult

-- The origin and host headers, and the rest of the request.
unfoldable pub gate_check :
    Option Bytes → Option Bytes → Option Bytes → Request → Auth → Auth × GateResult
gate_check disk origin host r a =
    let (b, is_set) = auth_is_set disk a in
    let (c, ok) = auth_check disk (some r) b in
    if not (origin_allowed origin host)
    then (a, gate_origin)
    else if not is_set
    then (b, gate_setup)
    else if not ok
    then (c, gate_unauth)
    else (c, gate_ok)

-- Whether the gate takes a request, so that the stream handlers do not see it.
unfoldable pub can_handle :
    Option Bytes → Option Bytes → Option Bytes → Bool → Bytes → Request → Auth → Bool
unfolding gate_check
can_handle disk origin host is_get url r a =
    is_get
    && (str_eq url (codes "/ws") || str_eq url (codes "/rawEvents"))
    && elim (gate_check disk origin host r a).1 [ gate_ok ↦ false | _ ↦ true ]

module _ (j : Json) (to_string : ℤ → Bytes) where
  open j use {parse, is_object}

  -- A round of the worker task: the command that a message gives, if it is handled at all. It is read up to its first zero byte.
  unfoldable pub worker_round : Bool → Sockets → Sockets × Option CoreCommand
  worker_round fs_offline s = elim s.rx_queue [
    | [] ↦ (s, none)
    | msg ∷ rest ↦ (
      record s { rx_queue = rest },
      if fs_offline then none else elim (parse (before_nul msg)) [
        | none ↦ none
        | some doc ↦ if is_object doc then some (core_parse_request j to_string doc) else none
      ],
    )
  ]
