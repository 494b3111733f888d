-- ===== src/Oled.antt =====
-- src/display/oled_layout.h: the logic of the OLED display that draws nothing.
pub mod Text
pub mod Sleep
pub mod Ring
pub mod Layout
pub mod Lines
