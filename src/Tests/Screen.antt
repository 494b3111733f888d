-- ===== src/Tests/Screen.antt =====
-- Runs of the message ring, the sleeping screen and the cut of long texts.
use project_voyager.Prelude.{◌≡◌, Option, none, some, List, [], ◌∷◌, Bytes, codes, take}
use project_voyager.Oled.Ring.{msg_ring_size, ring_init}
use project_voyager.Oled.Ring.Refinement.{contents, push_all, shown, contents-push_all}

abbrev messages : List (Option Bytes × Option Bytes)
messages = (some (codes "ada"), some (codes "one")) ∷ (none, some (codes "two")) ∷ []

contents-push_all_example :
    contents (push_all ring_init messages) ≡ take msg_ring_size (shown messages [])
contents-push_all_example = contents-push_all messages
