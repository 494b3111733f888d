-- ===== src/Oled/Layout.antt =====
-- src/display/oled_layout.h, positions on the screen of 128 by 64 pixels, and small numbers. Indices of
-- lines and frames are not negative, as in every call; coordinates are signed.
pub mod Bands
use project_voyager.Prelude.{ℕ, ◌+◌, ◌-◌, ◌*◌, ◌/◌, Bool, ◌&&◌, Option, leb, if◌then◌else◌, Bytes}
use project_voyager.Prelude.Int.{ℤ, pos, ◌+ℤ◌, ◌-ℤ◌, ltb_ℤ, leb_ℤ}
use project_voyager.Oled.Text.{char_w, text_width}

abbrev pub screen_w : ℕ
screen_w = 128

abbrev pub screen_h : ℕ
screen_h = 64

abbrev pub char_h : ℕ
char_h = 8

abbrev pub oled_header_h : ℕ
oled_header_h = 16

abbrev pub header_sep_y : ℕ
header_sep_y = oled_header_h - 1

abbrev pub band_text_y2 : ℕ
band_text_y2 = (header_sep_y - 7 * 2) / 2

abbrev pub band_text_y1 : ℕ
band_text_y1 = (header_sep_y - 7) / 2

abbrev pub icon_base_y : ℕ
icon_base_y = header_sep_y - 2

abbrev pub icon_top_y : ℕ
icon_top_y = icon_base_y - 11

abbrev pub icon_wifi_x : ℕ
icon_wifi_x = 86

abbrev pub header_title_px : ℕ
header_title_px = icon_wifi_x - 2

abbrev pub header_title_max2 : ℕ
header_title_max2 = header_title_px / (char_w * 2)

abbrev pub header_title_max1 : ℕ
header_title_max1 = header_title_px / char_w

abbrev pub dots_h : ℕ
dots_h = 3

abbrev pub dots_y : ℕ
dots_y = screen_h - dots_h

abbrev pub dots_spacing : ℕ
dots_spacing = 6

abbrev pub content_y : ℕ
content_y = oled_header_h + 1

abbrev pub line_step : ℕ
line_step = 9

abbrev pub content_lines : ℕ
content_lines = (dots_y - char_h - content_y) / line_step + 1

abbrev pub overlay_margin : ℕ
overlay_margin = 4

abbrev pub alert_text_y : ℕ
alert_text_y = oled_header_h + 3

abbrev pub alert_lines : ℕ
alert_lines = (screen_h - 1 - char_h - alert_text_y) / line_step + 1

abbrev pub prog_bar_y : ℕ
prog_bar_y = oled_header_h + 8

abbrev pub prog_bar_h : ℕ
prog_bar_h = 12

abbrev pub prog_pct_y : ℕ
prog_pct_y = prog_bar_y + prog_bar_h + 6

abbrev pub msgov_from_y2 : ℕ
msgov_from_y2 = oled_header_h + 4

abbrev pub msgov_from_y1 : ℕ
msgov_from_y1 = oled_header_h + 8

abbrev pub msgov_text_y : ℕ
msgov_text_y = oled_header_h + 26

abbrev pub msgov_text_lines : ℕ
msgov_text_lines = 2

abbrev pub splash_frames : ℕ
splash_frames = 6

abbrev pub splash_cx : ℕ
splash_cx = screen_w / 2

abbrev pub splash_cy : ℕ
splash_cy = oled_header_h + (screen_h - oled_header_h) / 2

abbrev pub splash_tag_y : ℕ
splash_tag_y = splash_cy - char_h / 2

pub record Box : Type 0 where
  pub x : ℤ
  pub y : ℤ
  pub w : ℤ
  pub h : ℤ

-- A box with its corner on the screen.
abbrev pub at : ℕ → ℕ → ℕ → ℕ → Box
at x y w h = record { x = pos x; y = pos y; w = pos w; h = pos h }

unfoldable pub box_bottom : Box → ℤ
unfolding ◌+ℤ◌ ◌-ℤ◌
box_bottom b = b.y +ℤ b.h -ℤ pos 1

unfoldable pub box_right : Box → ℤ
unfolding ◌+ℤ◌ ◌-ℤ◌
box_right b = b.x +ℤ b.w -ℤ pos 1

unfoldable pub box_in_header : Box → Bool
unfolding box_bottom
box_in_header b = leb_ℤ (pos 0) b.y && ltb_ℤ (box_bottom b) (pos oled_header_h)

unfoldable pub box_in_body : Box → Bool
unfolding box_bottom
box_in_body b = leb_ℤ (pos oled_header_h) b.y && ltb_ℤ (box_bottom b) (pos screen_h)

unfoldable pub box_on_screen_x : Box → Bool
unfolding box_right
box_on_screen_x b = leb_ℤ (pos 0) b.x && ltb_ℤ (box_right b) (pos screen_w)

unfoldable pub boxes_overlap : Box → Box → Bool
unfolding box_right box_bottom
boxes_overlap a b =
    leb_ℤ a.x (box_right b)
    && leb_ℤ b.x (box_right a)
    && leb_ℤ a.y (box_bottom b)
    && leb_ℤ b.y (box_bottom a)

unfoldable pub band_text_size : Option Bytes → ℕ → ℕ
unfolding text_width
band_text_size s avail_px = if leb (text_width s 2) avail_px then 2 else 1

unfoldable pub band_text_y : ℕ → ℕ
band_text_y size = if leb 2 size then band_text_y2 else band_text_y1

abbrev pub header_sep_box : Box
header_sep_box = at 0 header_sep_y screen_w 1

unfoldable pub header_title_box : ℕ → Box
unfolding band_text_y
header_title_box size =
    at 0 (band_text_y size)
      (if leb 2 size then header_title_max2 * char_w * 2 else header_title_max1 * char_w)
      (char_h * (if leb 2 size then 2 else 1))

abbrev pub icon_wifi_box : Box
icon_wifi_box = at icon_wifi_x icon_top_y 13 (icon_base_y - icon_top_y + 1)

abbrev pub icon_lora_box : Box
icon_lora_box = at 102 icon_top_y 9 (icon_base_y - icon_top_y + 1)

abbrev pub icon_bars_box : Box
icon_bars_box = at 116 icon_top_y 12 (icon_base_y - icon_top_y + 1)

unfoldable pub content_line_box : ℕ → Box
content_line_box i = at 0 (content_y + i * line_step) screen_w char_h

abbrev pub alert_band_box : Box
alert_band_box = at 0 0 screen_w oled_header_h

abbrev pub alert_frame_box : Box
alert_frame_box = at 0 oled_header_h screen_w (screen_h - oled_header_h)

unfoldable pub alert_line_box : ℕ → Box
alert_line_box i =
    at overlay_margin (alert_text_y + i * line_step) (screen_w - 2 * overlay_margin) char_h

abbrev pub progress_bar_box : Box
progress_bar_box = at (2 * overlay_margin) prog_bar_y (screen_w - 4 * overlay_margin) prog_bar_h

abbrev pub progress_pct_box : Box
progress_pct_box = at 0 prog_pct_y screen_w (2 * char_h)

unfoldable pub msgov_from_box : ℕ → Box
msgov_from_box size =
    at 0 (if leb 2 size then msgov_from_y2 else msgov_from_y1) screen_w
      (char_h * (if leb 2 size then 2 else 1))

unfoldable pub msgov_text_box : ℕ → Box
msgov_text_box i =
    at overlay_margin (msgov_text_y + i * line_step) (screen_w - 2 * overlay_margin) char_h

unfoldable pub splash_ring_r : ℕ → ℕ
splash_ring_r frame = 3 + frame * 3

unfoldable pub splash_ring_box : ℕ → Box
unfolding splash_ring_r ◌-ℤ◌
splash_ring_box frame =
    let r = splash_ring_r frame in
    record {
      x = pos splash_cx -ℤ pos r;
      y = pos splash_cy -ℤ pos r;
      w = pos (2 * r + 1);
      h = pos (2 * r + 1);
    }

abbrev pub splash_tag_box : Box
splash_tag_box = at 0 splash_tag_y screen_w char_h
