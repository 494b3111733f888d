-- ===== src/Lora.antt =====
-- src/lora/lora_proto.h, the radio protocol: framing, retries, repeated packets, IPv4 and SLIP.
pub mod Crc
pub mod Frame
pub mod Retry
pub mod Dedup
pub mod Net
pub mod Slip
pub mod Message
pub mod Radio
pub mod Receive
pub mod Exchange
pub mod Carry
pub mod Config
