-- ===== src/Tests/Port.antt =====
-- The serial port: bytes for the network, for the setup and for the bridge, files, and the mode of the
-- port.

use project_voyager.Prelude.{
  ◌<◌, ◌≡◌, refl, ◌∙◌, ◌≢◌, Bool, true, false, not, ◌&&◌, Option, none, some, List, [], ◌∷◌, ◌++◌,
  arith, if◌then◌else◌, Bytes, codes, length, replicate, All, str_eq, str_eq_iff, str_eq_refl,
}
use project_voyager.Tests.Fakes.{texts, decimal, hex4, radio, network}
use project_voyager.Prelude.Int.{ℤ, pos}
use project_voyager.Core.Json.{Json}
use project_voyager.Lora.Frame.{max_payload}
use project_voyager.Improv.{type_rpc, Parser, sum_bytes, build}
use project_voyager.Improv.Parsing.{idle, wire, checksum}
use project_voyager.Lora.Slip.RoundTrip.{stream}
use project_voyager.Core.NetSerial.Port.{net_feed_all}
use project_voyager.Core.NetSerial.Asked.{asked, any_leave}
use project_voyager.Core.NetSerial.Stream.{IsFrame, net_feed_all-asked}
use project_voyager.Core.NetSerial.{net_poll}
use project_voyager.Core.ImprovSerial.{
  state_provisioning, error_none, ImprovPort, Surroundings, send_state, send_error, no_job,
  connecting,
}
use project_voyager.Core.ImprovSerial.Talk.{settings_data, improv_feed_all, improv_settings}
use project_voyager.Core.Bridge.{Heard, Bridge, bridge_run, UsbPort, char, quiet}
use project_voyager.Core.Bridge.Frames.{
  IsCut, heard_bytes, joined, Cutting, bridge_run_cuts, burst, bridge_run_packet,
}
use project_voyager.Core.Files.{LittleFs, Access, fs_enter, tmp_of, write_file_atomic}
use project_voyager.Core.Files.Atomic.{Documented, write_file_atomic_lem}
use project_voyager.Core.Dispatch.Exclusive.{
  IsExclusive, Reached, booted, polled, Reached-IsExclusive,
}
use project_voyager.Lora.Config.Ranges.{InRange}
use project_voyager.Lora.Config.Saved.{
  default_config-InRange, chosen_config-InRange, SavedAs, save_lora_config_lem,
}
use project_voyager.Lora.Config.{default_config, members, chosen_config, save_lora_config}
use project_voyager.Tests.Printer.{show, never, ever, long_of, numbers, show-Printer}

-- A packet of 20 bytes for the node 1.3, and the frame that ends the network mode.
abbrev from_pc : List Bytes
from_pc = (0 ∷ 3 ∷ 1 ∷ 3 ∷ 0x45 ∷ 0 ∷ 0 ∷ 20 ∷ replicate 16 1) ∷ (0 ∷ 2 ∷ []) ∷ []

from_pc-IsFrame : All IsFrame from_pc
from_pc-IsFrame = ground arith

net_feed_all-asked_example :
    let x = net_feed_all true 5 (stream from_pc) network radio in
    (x.radio ≡ record radio { send_packets = radio.send_packets ++ asked radio.node_id from_pc })
    × (x.net.active ≡ (network.active && not (any_leave from_pc)))
net_feed_all-asked_example =
    net_feed_all-asked from_pc 5 network radio refl from_pc-IsFrame (omega arith)

abbrev setup_parser : Parser
setup_parser = idle 0 0 (record { type = 0; len = 0; bytes = [] })

abbrev setup : ImprovPort
setup = record { parser = setup_parser; job = no_job; net = record network { active = false } }

abbrev around : Surroundings
around = record {
  lora_serial = false;
  sta_url = [];
  hostname = [];
  node_id = 0x0102;
  full_airtime = 400;
  small_airtime = 60;
  now = 5;
  memory = true;
  task_starts = true;
}

abbrev name : Bytes
name = codes "home"

abbrev pass : Bytes
pass = codes "secret"

abbrev settings : Bytes
settings = settings_data name pass

abbrev settings_packet : Bytes
settings_packet = wire 1 type_rpc settings (checksum 1 type_rpc settings) ++ b'\n' ∷ []

settings_packet-built : build type_rpc settings 64 ≡ some settings_packet
unfolding build sum_bytes
settings_packet-built = refl

improv_settings_example :
    let (s', told) = improv_feed_all decimal hex4 [] around setup ([] ++ settings_packet) in
    (s'.job ≡ connecting name pass)
    × (s'.parser.pos ≡ 0)
    × (told ≡ send_error false error_none ++ send_state false state_provisioning)
improv_settings_example =
    improv_settings decimal hex4 [] around setup 64 0 0 (record { type = 0; len = 0; bytes = [] })
      name pass [] settings_packet settings_packet-built (ground arith) refl (omega arith)
      (omega arith) (omega arith) refl refl refl refl

abbrev bridge : Bridge
bridge = record { message = []; packet_send = [] }

abbrev typed : List (Bool × Heard)
typed = (false, char 65) ∷ (false, quiet) ∷ (false, char 13) ∷ (false, char 66) ∷ []

bridge-Cutting : Cutting bridge
bridge-Cutting = record { short = omega arith; no_cr = tt; queued = tt }

bridge_run_cuts_example :
    let t = bridge_run bridge typed in
    (joined t.packet_send ++ t.message
      ≡ (joined bridge.packet_send ++ bridge.message) ++ heard_bytes typed)
    × All IsCut t.packet_send
    × (length t.message < max_payload)
bridge_run_cuts_example =
    bridge_run_cuts typed bridge bridge-Cutting (refl, (refl, (refl, (refl, tt))))

bridge_run_packet_example : bridge_run bridge (burst (name ++ b'\r' ∷ [])) ≡ record {
  message = [];
  packet_send = bridge.packet_send ++ (bridge.message ++ (name ++ b'\r' ∷ [])) ∷ [];
}
bridge_run_packet_example = bridge_run_packet name bridge (ground arith) (omega arith)

-- A file system as a function from paths, which keeps every promise.
abbrev put : (Bytes → Option Bytes) → Bytes → Option Bytes → Bytes → Option Bytes
put s path content p = if str_eq p path then content else s p

abbrev files : LittleFs
files = record {
  Store = Bytes → Option Bytes;
  lookup = λ s p. s p;
  write = λ s path content. (put s path (some content), some (length content));
  rename = λ s from to. (put (put s from none) to (s from), true);
  remove = λ s path. (put s path none, true);
}

put_self : (s : Bytes → Option Bytes) (path : Bytes) (c : Option Bytes) → put s path c path ≡ c
put_self s path c = rw (str_eq_refl path) refl

put_ne :
    (s : Bytes → Option Bytes) (path p : Bytes) (c : Option Bytes) → p ≢ path → put s path c p ≡ s p
put_ne s path p c ne = ground (arith, str_eq_iff p path)

files-Documented : Documented files
files-Documented = record {
  write_other = λ s path p content ne. put_ne s path p (some content) ne;
  write_all = λ s path content e. put_self s path (some content);
  rename_to = λ s from to e. put_self (put s from none) to (s from);
  rename_other =
      λ s from to p a b. put_ne (put s from none) to p (s from) b ∙ put_ne s from p none a;
  rename_failed = λ s from to p e. ground (arith, e);
  remove_other = λ s path p ne. put_ne s path p none ne;
}

abbrev access : Access
access = record {
  mounted = true;
  has_mutex = true;
  mine = false;
  offline = false;
  taken = true;
  offline_then = false;
  opens = true;
}

abbrev no_files : Bytes → Option Bytes
no_files p = none

write_file_atomic_lem_example :
    let (s', ok) = write_file_atomic files access no_files (codes "/a") (codes "x") in
    (s' (codes "/a") ≡ (if ok then some (codes "x") else none))
    × ((p : Bytes) → p ≢ codes "/a" → p ≢ tmp_of (codes "/a") → s' p ≡ none)
write_file_atomic_lem_example =
    write_file_atomic_lem files files-Documented access no_files (codes "/a") (codes "x")

abbrev usb : UsbPort
usb = record { lora_serial = true; improv = setup; radio = radio }

abbrev payload_of_two : Bytes → Bytes → Bytes
payload_of_two a b = a ++ b

usb-Reached :
    Reached decimal hex4 [] payload_of_two payload_of_two texts decimal
      (record usb { improv = record setup { net = net_poll 5 setup.net } })
usb-Reached = polled usb 5 (booted usb refl)

Reached-IsExclusive_example :
    IsExclusive (record usb { improv = record setup { net = net_poll 5 setup.net } })
Reached-IsExclusive_example =
    Reached-IsExclusive decimal hex4 [] payload_of_two payload_of_two texts decimal usb-Reached

-- A JSON library whose values are the keys, and numbers for the settings of the radio.
abbrev keys : Json
keys = record texts { member = λ v k. k }

abbrev always : Bytes → Bool
always v = true

abbrev setting : Bytes → ℤ
setting k =
    if str_eq k (codes "freq")
    then pos 433000000
    else if str_eq k (codes "SignalBandwidth")
    then pos 125000
    else pos 7

chosen_config-InRange_example :
    InRange (chosen_config keys always always setting files access access no_files)
chosen_config-InRange_example =
    chosen_config-InRange keys always always setting files access access no_files

abbrev new_settings : Bytes
new_settings = show (members default_config)

save_lora_config_lem_example :
    SavedAs numbers never ever long_of files access no_files default_config new_settings (
      save_lora_config numbers never ever long_of files show true access no_files default_config
        new_settings)
unfolding fs_enter
save_lora_config_lem_example =
    save_lora_config_lem numbers never ever long_of files files-Documented show true access access
      no_files default_config new_settings show-Printer refl refl default_config-InRange
