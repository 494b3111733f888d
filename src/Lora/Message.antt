-- ===== src/Lora/Message.antt =====
-- src/lora/lora_proto.h, the payload of a LORA_MSG frame: JSON in which `data` holds JSON again.
use project_voyager.Prelude.{
  ℕ, Option, none, some, [], ◌==◌, if◌then◌else◌, Bytes, codes, length, str_eq,
}
use project_voyager.Core.Json.{Json}
use project_voyager.Lora.Dedup.{hash_mac}

pub data MsgKind : Type 0 where
  no_message text_message sos other_action : MsgKind

pub record LoraMsgInfo : Type 0 where
  pub kind : MsgKind
  pub from : Bytes
  pub text : Bytes

abbrev pub no_info : LoraMsgInfo
no_info = record { kind = no_message; from = []; text = [] }

module _ (j : Json) where
  open j use {Value, parse, member, is_string, as_string}

  -- `doc[key] | nullptr`.
  abbrev pub string_at : Value → Bytes → Option Bytes
  string_at doc key = let v = member doc key in if is_string v then some (as_string v) else none

  -- `doc[key] | ""`.
  abbrev pub string_or_empty : Value → Bytes → Bytes
  string_or_empty doc key = let v = member doc key in if is_string v then as_string v else []

  unfoldable pub extract_mac_key : Option Bytes → ℕ
  extract_mac_key none = 1
  extract_mac_key (some payload) = elim (parse payload) [
    | none ↦ 1
    | some doc ↦ hash_mac (string_at doc (codes "mac"))
  ]

  -- The part on the inner document.
  unfoldable pub read_inner : LoraMsgInfo → Value → LoraMsgInfo
  read_inner info inner =
      let pt = string_or_empty inner (codes "pack_type") in
      if str_eq pt (codes "msg")
      then elim (string_at inner (codes "data")) [
        | none ↦ info
        | some t ↦ record info { text = t; kind = text_message }
      ]
      else if str_eq pt (codes "action")
      then record info {
        kind =
            if str_eq (string_or_empty inner (codes "data")) (codes "sos")
            then sos
            else other_action;
      }
      else info

  unfoldable pub read_outer : Value → LoraMsgInfo
  unfolding read_inner
  read_outer outer =
      let name = string_or_empty outer (codes "name") in
      let mac = string_or_empty outer (codes "mac") in
      let info = record no_info { from = if length name == 0 then mac else name } in
      elim (string_at outer (codes "data")) [
        | none ↦ info
        | some inner_txt ↦ elim (parse inner_txt) [
          | none ↦ info
          | some inner ↦ read_inner info inner
        ]
      ]

  unfoldable pub parse_lora_msg : Option Bytes → LoraMsgInfo
  unfolding read_outer
  parse_lora_msg none = no_info
  parse_lora_msg (some payload) = elim (parse payload) [
    | none ↦ no_info
    | some outer ↦ read_outer outer
  ]
