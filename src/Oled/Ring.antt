-- ===== src/Oled/Ring.antt =====
-- src/display/oled_layout.h, the ring of the last five messages received, and the pages that show it.
pub mod Refinement
use project_voyager.Prelude.{
  ℕ, zero, suc, ◌+◌, ◌-◌, ◌*◌, ◌/◌, ◌%◌, ◌^◌, ◌≤◌, ◌<◌, ◌≡◌, refl, sym, ap, ◌∙◌, ◌≢◌, ◌↔◌, ◌⊎◌, inl,
  inr, Bool, true, false, not, ◌&&◌, ◌||◌, Option, none, some, List, [], ◌∷◌, ◌++◌, map,
  append_assoc, append-nil, arith, ltb, leb, ◌==◌, ◌!=◌, if◌then◌else◌, is_some, ==_iff, Bool-cases,
  Option-cases, Bytes, codes, length, get_elem?, get_or, set, take, drop, replicate, All,
  length-append, take-length-append, drop-length-append, length-set, length-take, get_or-set_self,
  get_or-set_ne, IsByte, str_eq, str_eq_iff, str_eq_refl,
}
use project_voyager.Oled.Text.{safe_copy}

abbrev pub msg_ring_size : ℕ
msg_ring_size = 5

abbrev pub msg_from_len : ℕ
msg_from_len = 33

abbrev pub msg_text_len : ℕ
msg_text_len = 97

-- `from` and `text` are the arrays of `msg_ring_size` strings.
pub record MsgRing : Type 0 where
  pub from : List Bytes
  pub text : List Bytes
  pub head : ℕ
  pub count : ℕ
  pub total : ℕ

unfoldable pub ring_init : MsgRing
ring_init = record {
  from = replicate msg_ring_size [];
  text = replicate msg_ring_size [];
  head = 0;
  count = 0;
  total = 0;
}

-- A null pointer is `none`.
unfoldable pub ring_push : MsgRing → Option Bytes → Option Bytes → MsgRing
unfolding safe_copy
ring_push r from text = record {
  from = set r.from r.head (safe_copy msg_from_len from);
  text = set r.text r.head (safe_copy msg_text_len text);
  head = (r.head + 1) % msg_ring_size;
  count = if ltb r.count msg_ring_size then r.count + 1 else r.count;
  total = (r.total + 1) % 2 ^ 32;
}

-- `none` is the result -1, of an index that is out of range; a negative one is not modelled.
unfoldable pub ring_slot : MsgRing → ℕ → Option ℕ
ring_slot r i =
    if leb r.count i then none else some ((r.head + msg_ring_size - 1 - i) % msg_ring_size)

unfoldable pub ring_from : MsgRing → ℕ → Bytes
unfolding ring_slot
ring_from r i = elim (ring_slot r i) [ none ↦ [] | some k ↦ get_or r.from k [] ]

unfoldable pub ring_text : MsgRing → ℕ → Bytes
unfolding ring_slot
ring_text r i = elim (ring_slot r i) [ none ↦ [] | some k ↦ get_or r.text k [] ]

-- The selection: `none` is -1, the list of messages.
unfoldable pub msg_select_next : Option ℕ → ℕ → Option ℕ
msg_select_next sel count =
    let next : ℕ = elim sel [ none ↦ 0 | some i ↦ i + 1 ] in
    if count == 0 then none else if leb count next then none else some next

abbrev pub page_count : ℕ
page_count = 5

unfoldable pub next_page : ℕ → ℕ → ℕ
next_page cur count = if count == 0 then 0 else (cur + 1) % count % 256
