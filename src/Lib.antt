-- ===== src/Lib.antt =====
-- The rules of the Project Voyager firmware: the parts of it that decide, without the hardware.
--
-- The firmware turns an ESP32 board into a LoRa messenger and a radio network card. Its rules stand
-- in headers without hardware, and the tasks in the `.cpp` files call them. Both are the subject here:
--   Lora    src/lora/lora_proto.h: the CRC-8 (Crc), frames of the radio (Frame), the sender's retries
--           (Retry), the receiver's table against repeated packets (Dedup), IPv4 over the radio (Net),
--           SLIP on the USB link (Slip), the JSON of messages (Message). src/lora/lora_support.cpp:
--           the sending task (Radio), what becomes of a frame that is heard (Receive) and, with
--           lora_proto.h, the settings of the radio and their files (Config). Exchange
--           joins a sender and a receiver over a channel, Carry follows an IPv4 packet from one
--           computer to another.
--   Improv  src/core/improv.h: the setup protocol of the serial port.
--   Core    src/core/core_dispatch.h: requests of the web page (LoraConfig, Request) and saved
--           settings (Settings). src/core/net_serial.cpp: network mode of the USB port (NetSerial).
--           src/core/improv_serial.cpp: setup over the USB port (ImprovSerial).
--           src/core/support_method.cpp: the serial bridge (Bridge), files (Files), and what each
--           request does (Dispatch).
--   Button  src/core/core_dispatch.h: the button machine.
--   Wifi    src/wifi/wifi_config.h: which names and passwords are valid (Valid), names derived from
--           the MAC address (Names), the reconnect delay (Backoff), the scan list (Scan), the choice
--           of an access point and roaming (Select), the saved configuration (Config), reasons of a
--           disconnection (Reasons).
--   Web     src/web/web_validate.h: paths (Paths), cookies, tokens and origins (Access), frames,
--           queues and log texts (Frames). src/web/auth.cpp: sessions and the check of requests
--           (Auth). src/web/web_sockets.cpp: the sockets and the event stream (Sockets).
--   Oled    src/display/oled_layout.h: texts (Text), lines (Lines), positions (Layout), sleep and wake
--           (Sleep), the last messages (Ring).
--
-- The parts meet so: a request of the web page arrives in chunks (Web.Sockets), is checked
-- (Core.Request) and dispatched (Core.Dispatch); messages and packets wait in the queues of the state
-- `Radio`, which Core.NetSerial and Core.Dispatch fill and the sending task empties; a frame that is
-- heard changes the state `Station`, and with it the queues to the web page and to the computer. The
-- bytes of the USB port go to the bridge, to the network or to the setup, as Core.Bridge says.
--
--   Prelude is shared by all; Tests applies each theorem to concrete values.
--
-- A type or function has the source's name in the spelling of this language. An object that a method
-- or a function changes is an argument and a result. A byte is a number below 256 and a string the
-- list of its bytes without the NUL; an output buffer is its capacity, and the bytes written are the
-- result. Unsigned arithmetic wraps by an explicit remainder. A null pointer, and a result that says
-- that nothing was written, is `none`. Loops are structural recursion. Two
-- loops run on fuel, those of `path_is_blocked` and `cookie_get`: the length of the text and one or
-- two, since a round takes at least one byte or ends the loop. Their theorems show that it is enough.
--
-- The JSON library is not part of the repository: its calls are the fields of the record `Json`,
-- a parameter of the functions that read JSON. Nothing is assumed of it but, where settings are saved,
-- `Printer`: an object of numbers that the library printed reads back. The file system LittleFS is
-- the record `LittleFs`, and `Documented` says what its documentation promises. Other libraries (MD5,
-- random numbers, the digest check, formats of numbers) are arguments.
--
-- A task's loop is a function for one round, and a queue is a list with its capacity; what the
-- environment decides (whether an allocation succeeds, what is heard in time, what the clock says) is
-- an argument. A handler runs as a whole: the orders of rounds are modelled, an interruption within
-- one is not. The debug log, the LED and the display are left out of the tasks.
--
-- Not modelled: drawing, the WiFi task, the web server and its updates, the start and the small tasks,
-- whose code mostly calls hardware libraries; registers and interrupts of the radio; the airtime
-- formulas, in floating point; and the web pages and tools in other languages.
pub mod Prelude
pub mod Lora
pub mod Improv
pub mod Button
pub mod Oled
pub mod Wifi
pub mod Core
pub mod Web
pub mod Tests
