-- ===== src/Wifi.antt =====
-- src/wifi/wifi_config.h: the pure helpers of the WiFi component.
pub mod Valid
pub mod Backoff
pub mod Names
pub mod Scan
pub mod Select
pub mod Reasons
pub mod Config
