-- ===== src/Core/ImprovSerial/Talk.antt =====
-- src/core/improv_serial.cpp: what whole packets of the browser lead to, and that one task runs at a time.

use project_voyager.Prelude.{
  ℕ, ◌+◌, ◌≤◌, ◌≡◌, refl, ap, ◌∙◌, true, false, some, List, [], ◌∷◌, ◌++◌, append-nil, arith, ◌==◌,
  if◌then◌else◌, Bytes, length, length-append,
}
use project_voyager.Prelude.Int.{ℤ}
use project_voyager.Improv.{
  type_rpc, Packet, Parser, Fed, feed, noted, feed_all, build, build_state, build_error,
  rpc_command, more, bad, packet,
}
use project_voyager.Core.ImprovSerial.{
  state_provisioning, error_none, error_invalid_rpc, cmd_wifi_settings, is_busy, ImprovPort,
  Surroundings, send, send_state, send_error, Done, start_job, handle_settings, handle_net_start,
  handle_command, handle_rpc, improv_feed, no_job, connecting,
}
use project_voyager.Improv.Parsing.{idle, IsNoise, feed_all-build}
use project_voyager.Improv.Calls.{parse_wifi_settings_complete}

-- The data of the packet that asks for a connection.
abbrev pub settings_data : Bytes → Bytes → Bytes
settings_data ssid pass =
    cmd_wifi_settings
    ∷ (length ssid + length pass + 2)
    ∷ length ssid
    ∷ (ssid ++ length pass ∷ (pass ++ []))

abbrev pub settings_payload : Bytes → Bytes → Bytes
settings_payload ssid pass = length ssid ∷ (ssid ++ length pass ∷ (pass ++ []))

module _ (decimal : ℤ → Bytes) (hex4 : ℕ → Bytes) (date : Bytes) where
  -- While a task runs, nothing that arrives starts another one, ends it, changes its arguments or
  -- switches the port to network mode.
  pub improv_feed_busy :
      (w : Surroundings) (s : ImprovPort) (b : ℕ)
      → is_busy s.job ≡ true
      → let (s', out) = improv_feed decimal hex4 date w s b in (s'.job ≡ s.job) × (s'.net ≡ s.net)
  unfolding improv_feed handle_rpc handle_command handle_settings handle_net_start
  improv_feed_busy w s b h = ground (arith, h)

  -- A run of `improv_feed` over the bytes that were read.
  abbrev pub improv_feed_all : Surroundings → ImprovPort → Bytes → Done
  improv_feed_all w s [] = (s, [])
  improv_feed_all w s (b ∷ bs) =
      let (s', out) = improv_feed decimal hex4 date w s b in
      let (last, outs) = improv_feed_all w s' bs in (last, out ++ outs)

  -- The answer to what the parser found.
  abbrev pub handle_fed : Surroundings → ImprovPort → Fed → Done
  handle_fed w s more = (s, [])
  handle_fed w s bad = (s, send_error w.lora_serial error_invalid_rpc)
  handle_fed w s (packet p) =
      if p.type == type_rpc then handle_rpc decimal hex4 date w s p else (s, [])

  abbrev pub handle_all : Surroundings → ImprovPort → List Fed → Done
  handle_all w s [] = (s, [])
  handle_all w s (r ∷ rs) =
      let (s', out) = handle_fed w s r in
      let (last, outs) = handle_all w s' rs in (last, out ++ outs)

  -- The outcome with another state of the parser.
  abbrev pub with_parser : Parser → Done → Done
  with_parser p x = (record (x.0) { parser = p }, x.1)

  improv_feed-fed :
      (w : Surroundings) (s : ImprovPort) (b : ℕ)
      → let (p, r) = feed s.parser b in
        improv_feed decimal hex4 date w s b ≡ handle_fed w (record s { parser = p }) r
  unfolding improv_feed
  improv_feed-fed w s b = refl

  handle_fed_parser :
      (w : Surroundings) (s : ImprovPort) (p : Parser) (r : Fed)
      → handle_fed w (record s { parser = p }) r ≡ with_parser p (handle_fed w s r)
  unfolding handle_rpc handle_command handle_settings handle_net_start
  handle_fed_parser w s p more = refl
  handle_fed_parser w s p bad = refl
  handle_fed_parser w s p (packet k) = ground arith

  handle_all_parser :
      (rs : List Fed) (w : Surroundings) (s : ImprovPort) (p : Parser)
      → handle_all w (record s { parser = p }) rs ≡ with_parser p (handle_all w s rs)
  handle_all_parser [] w s p = refl
  handle_all_parser (r ∷ rs) w s p =
      rw (handle_fed_parser w s p r, handle_all_parser rs w (handle_fed w s r).0 p) refl

  abbrev then_all : Surroundings → Done → List Fed → Done
  then_all w x rs = let y = handle_all w x.0 rs in (y.0, x.1 ++ y.1)

  handle_all-noted :
      (w : Surroundings) (s : ImprovPort) (r : Fed) (rs : List Fed)
      → handle_all w s (noted r rs) ≡ then_all w (handle_fed w s r) rs
  handle_all-noted w s more rs = refl
  handle_all-noted w s bad rs = refl
  handle_all-noted w s (packet p) rs = refl

  -- Reading bytes from the port has the same outcome as handling, one after the other, the packets that
  -- the parser finds in them.
  pub improv_feed_all-packets :
      (bs : Bytes) (w : Surroundings) (s : ImprovPort)
      → let (p, rs) = feed_all s.parser bs in
        improv_feed_all w s bs ≡ with_parser p (handle_all w s rs)
  unfolding feed_all
  improv_feed_all-packets [] w s = refl
  improv_feed_all-packets (b ∷ bs) w s =
      let p = (feed s.parser b).0 in
      let r = (feed s.parser b).1 in
      let x = handle_fed w s r in
      let rs = (feed_all p bs).1 in
      let step = improv_feed-fed w s b ∙ handle_fed_parser w s p r in
      let rest = improv_feed_all-packets bs w (record (x.0) { parser = p }) in
      rw (step, rest, handle_all_parser rs w x.0 p, handle_all-noted w s r rs) refl

  rpc_command-settings :
      (ssid pass : Bytes)
      → let bs = settings_data ssid pass in
        rpc_command (record { type = type_rpc; len = length bs; bytes = bs })
        ≡ some (cmd_wifi_settings, settings_payload ssid pass, length ssid + length pass + 2)
  unfolding rpc_command
  rpc_command-settings ssid pass =
      ground (arith, length-append ssid (length pass ∷ (pass ++ [])), length-append pass [])

  handle_settings-accepts :
      (w : Surroundings) (s : ImprovPort) (ssid pass : Bytes)
      → 1 ≤ length ssid
      → length ssid ≤ 32
      → length pass ≤ 64
      → s.job ≡ no_job
      → w.lora_serial ≡ false
      → w.memory ≡ true
      → w.task_starts ≡ true
      → handle_settings w s (settings_payload ssid pass) (length ssid + length pass + 2) ≡ (
        record s { job = connecting ssid pass },
        send_error false error_none ++ send_state false state_provisioning,
      )
  unfolding handle_settings start_job send build_error build_state
  handle_settings-accepts w s ssid pass h₁ h₂ h₃ free off memory starts =
      let k =
        parse_wifi_settings_complete ssid pass [] (length ssid + length pass + 2) h₁ h₂ h₃
          (omega arith) in
      rw (k, free, off, memory, starts) refl

  handle_rpc-settings :
      (w : Surroundings) (s : ImprovPort) (p : Packet) (payload : Bytes) (plen : ℕ)
      → rpc_command p ≡ some (cmd_wifi_settings, payload, plen)
      → handle_rpc decimal hex4 date w s p ≡ handle_settings w s payload plen
  unfolding handle_rpc handle_command
  handle_rpc-settings w s p payload plen e = rw (handle_rpc, e) refl

  handle_fed-settings :
      (w : Surroundings) (s : ImprovPort) (ssid pass : Bytes)
      → 1 ≤ length ssid
      → length ssid ≤ 32
      → length pass ≤ 64
      → s.job ≡ no_job
      → w.lora_serial ≡ false
      → w.memory ≡ true
      → w.task_starts ≡ true
      → let bs = settings_data ssid pass in
        handle_fed w s (packet (record { type = type_rpc; len = length bs; bytes = bs })) ≡ (
          record s { job = connecting ssid pass },
          send_error false error_none ++ send_state false state_provisioning,
        )
  handle_fed-settings w s ssid pass h₁ h₂ h₃ free off memory starts =
      let bs = settings_data ssid pass in
      handle_rpc-settings w s (record { type = type_rpc; len = length bs; bytes = bs })
        (settings_payload ssid pass) (length ssid + length pass + 2)
        (rpc_command-settings ssid pass)
      ∙ handle_settings-accepts w s ssid pass h₁ h₂ h₃ free off memory starts

  -- A browser that writes a packet with the name of a network, of 1 to 32 bytes, and a password, of
  -- at most 64, behind bytes in which no packet begins, while no task runs, the bridge is off,
  -- memory suffices and tasks can be started: the task that connects is started with this name and
  -- password, the parser is ready for the next packet, and the answer is "no error" and
  -- "provisioning".
  pub improv_settings :
      (w : Surroundings) (s : ImprovPort) (room v sum : ℕ) (k : Packet)
      (ssid pass noise out : Bytes)
      → build type_rpc (settings_data ssid pass) room ≡ some out
      → IsNoise noise
      → s.parser ≡ idle v sum k
      → 1 ≤ length ssid
      → length ssid ≤ 32
      → length pass ≤ 64
      → s.job ≡ no_job
      → w.lora_serial ≡ false
      → w.memory ≡ true
      → w.task_starts ≡ true
      → let (s', told) = improv_feed_all w s (noise ++ out) in
        (s'.job ≡ connecting ssid pass)
        × (s'.parser.pos ≡ 0)
        × (told ≡ send_error false error_none ++ send_state false state_provisioning)
  improv_settings w s room v sum k ssid pass noise out e n idle_now h₁ h₂ h₃ free off memory
        starts =
      let bs = settings_data ssid pass in
      let p : Packet = record { type = type_rpc; len = length bs; bytes = bs } in
      let found : ((feed_all s.parser (noise ++ out)).1 ≡ packet p ∷ [])
          × ((feed_all s.parser (noise ++ out)).0.pos ≡ 0) =
        rw idle_now (feed_all-build type_rpc room v sum k bs noise out e n) in
      let one = handle_fed-settings w s ssid pass h₁ h₂ h₃ free off memory starts in
      let all : handle_all w s (packet p ∷ []) ≡ (
        record s { job = connecting ssid pass },
        (send_error false error_none ++ send_state false state_provisioning) ++ [],
      ) =
        rw one refl in
      let run : improv_feed_all w s (noise ++ out)
          ≡ with_parser (feed_all s.parser (noise ++ out)).0 (handle_all w s (packet p ∷ [])) =
        improv_feed_all-packets (noise ++ out) w s ∙ rw found.0 refl in
      let done = run ∙ ap (with_parser (feed_all s.parser (noise ++ out)).0) all in
      (
        ap (λ x. x.0.job) done,
        ap (λ x. x.0.parser.pos) done ∙ found.1,
        ap (λ x. x.1) done ∙ append-nil _,
      )
