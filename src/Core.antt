-- ===== src/Core.antt =====
-- src/core/core_dispatch.h, the parts that read JSON: requests of the web page, and the saved settings.
pub mod Json
pub mod LoraConfig
pub mod Request
pub mod Settings
pub mod NetSerial
pub mod ImprovSerial
pub mod Bridge
pub mod Files
pub mod Dispatch
