-- ===== src/Oled/Layout/Bands.antt =====
-- src/display/oled_layout.h, positions: everything stays in its band of the screen.
use project_voyager.Prelude.{ℕ, ◌<◌, ◌≡◌, true, false, arith}
use project_voyager.Prelude.Int.{◌+ℤ◌, ◌-ℤ◌, ltb_ℤ, pos}
use project_voyager.Oled.Layout.{
  dots_y, content_lines, alert_lines, msgov_text_lines, splash_frames, Box, box_bottom, box_right,
  box_in_header, box_in_body, box_on_screen_x, boxes_overlap, band_text_y, header_title_box,
  icon_wifi_box, content_line_box, alert_line_box, msgov_text_box, splash_ring_r, splash_ring_box,
}

-- A box that lies in the body of the screen.
abbrev pub IsBody : Box → Type 0
IsBody b = (box_in_body b ≡ true) × (box_on_screen_x b ≡ true)

abbrev pub IsHeader : Box → Type 0
IsHeader b = (box_in_header b ≡ true) × (box_on_screen_x b ≡ true)

titles_fit :
    (size : ℕ)
    → IsHeader (header_title_box size)
      × (boxes_overlap (header_title_box size) icon_wifi_box ≡ false)
unfolding header_title_box band_text_y box_in_header box_on_screen_x boxes_overlap box_bottom
    box_right ◌+ℤ◌ ◌-ℤ◌
titles_fit size = ground arith

content_fits :
    (i : ℕ)
    → i < content_lines
    → IsBody (content_line_box i) × (ltb_ℤ (box_bottom (content_line_box i)) (pos dots_y) ≡ true)
unfolding box_in_body box_on_screen_x box_bottom box_right content_line_box ◌+ℤ◌ ◌-ℤ◌
content_fits i h = ground arith

alerts_fit : (i : ℕ) → i < alert_lines → IsBody (alert_line_box i)
unfolding box_in_body box_on_screen_x box_bottom box_right alert_line_box ◌+ℤ◌ ◌-ℤ◌
alerts_fit i h = ground arith

texts_fit : (i : ℕ) → i < msgov_text_lines → IsBody (msgov_text_box i)
unfolding box_in_body box_on_screen_x box_bottom box_right msgov_text_box ◌+ℤ◌ ◌-ℤ◌
texts_fit i h = ground arith

rings_fit : (i : ℕ) → i < splash_frames → IsBody (splash_ring_box i)
unfolding box_in_body box_on_screen_x box_bottom box_right splash_ring_box splash_ring_r ◌+ℤ◌ ◌-ℤ◌
rings_fit i h = ground arith

-- Titles of every size stay in the header and clear of the WiFi icon; the lines of a page, of an alert
-- and of a message, and the rings of the splash, as many as the layout has of each, stay in the body;
-- and the lines of a page end above the page dots.
pub layout_bands :
    (size line alert text ring : ℕ)
    → line < content_lines
    → alert < alert_lines
    → text < msgov_text_lines
    → ring < splash_frames
    → IsHeader (header_title_box size)
      × (boxes_overlap (header_title_box size) icon_wifi_box ≡ false)
      × IsBody (content_line_box line)
      × (ltb_ℤ (box_bottom (content_line_box line)) (pos dots_y) ≡ true)
      × IsBody (alert_line_box alert)
      × IsBody (msgov_text_box text)
      × IsBody (splash_ring_box ring)
layout_bands size line alert text ring h₁ h₂ h₃ h₄ =
    let titles = titles_fit size in
    let content = content_fits line h₁ in
    (
      titles.0,
      titles.1,
      content.0,
      content.1,
      alerts_fit alert h₂,
      texts_fit text h₃,
      rings_fit ring h₄,
    )
