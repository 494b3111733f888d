-- ===== src/Core/Request/Checked.antt =====
-- src/core/core_dispatch.h, requests: what reaches the dispatcher was checked, and is what was asked for.

use project_voyager.Prelude.{
  ◌≤◌, ◌≡◌, refl, sym, ap, ◌≢◌, ◌⊎◌, inl, inr, true, List, [], ◌∷◌, arith, Bool-cases, Bytes, codes,
  length, All, str_eq, str_eq_iff,
}
use project_voyager.Core.Json.{Json}
use project_voyager.Prelude.Int.{ℤ}
use project_voyager.Core.LoraConfig.Ranges.{
  IsConfigText, core_lora_config_string_valid-IsConfigText,
}
use project_voyager.Core.Request.{
  CoreAction, CoreCommand, new_command, core_action_name, core_printable, parse_connect_wifi,
  parse_set_ap_pass, parse_set_username, parse_set_lora_config, parse_switch, parse_file_tx_invite,
  parse_file_tx_join, handlers, select, core_parse_request, missing, unknown, invalid, connect_wifi,
  set_ap_pass, set_username, set_lora_config, set_serial_mode, set_bt_mode, file_tx_invite,
  file_tx_join,
}

abbrev IsPass : Bytes → Type 0
IsPass s = (length s ≡ 0) ⊎ ((8 ≤ length s) × (length s ≤ 63))

-- No control characters.
abbrev IsPrintable : Bytes → Type 0
IsPrintable s = All (λ c. (32 ≤ c) × (c ≢ 127)) s

core_printable-IsPrintable : (s : Bytes) → core_printable s ≡ true → IsPrintable s
unfolding core_printable
core_printable-IsPrintable [] e = tt
core_printable-IsPrintable (c ∷ s) e =
    ((ground arith, ground arith), core_printable-IsPrintable s (ground (arith, e)))

-- What holds of the arguments of a command, by its action.
abbrev pub Checked : Json → CoreAction → CoreCommand → Type 0
Checked j connect_wifi c = (1 ≤ length c.arg1) × (length c.arg1 ≤ 32) × IsPass c.arg2
Checked j set_ap_pass c = IsPass c.arg1 × IsPrintable c.arg1
Checked j set_username c = (1 ≤ length c.arg1) × (length c.arg1 ≤ 32) × IsPrintable c.arg1
Checked j set_lora_config c = IsConfigText j c.arg1
Checked j file_tx_join c = (c.arg2 ≡ codes "usb") ⊎ (c.arg2 ≡ codes "bt")
Checked j missing c = c.error ≢ []
Checked j unknown c = c.error ≢ []
Checked j invalid c = c.error ≢ []
Checked j _ c = c.error ≡ []

module _ (j : Json) (to_string : ℤ → Bytes) where
  open j use {Value, member, is_string, as_string}

  parse_connect_wifi-Checked :
      (doc : Value)
      → Checked j (parse_connect_wifi j to_string doc).action (parse_connect_wifi j to_string doc)
  unfolding parse_connect_wifi
  parse_connect_wifi-Checked doc = ground arith

  parse_set_ap_pass-Checked :
      (doc : Value)
      → Checked j (parse_set_ap_pass j to_string doc).action (parse_set_ap_pass j to_string doc)
  unfolding parse_set_ap_pass
  parse_set_ap_pass-Checked doc =
      ground (arith, core_printable-IsPrintable (as_string (member doc (codes "val"))))

  parse_set_username-Checked :
      (doc : Value)
      → Checked j (parse_set_username j to_string doc).action (parse_set_username j to_string doc)
  unfolding parse_set_username
  parse_set_username-Checked doc =
      ground (arith, core_printable-IsPrintable (as_string (member doc (codes "val"))))

  parse_set_lora_config-Checked :
      (doc : Value)
      → Checked j
          (parse_set_lora_config j to_string doc).action
          (parse_set_lora_config j to_string doc)
  unfolding parse_set_lora_config
  parse_set_lora_config-Checked doc =
      ground
        (arith, core_lora_config_string_valid-IsConfigText j (as_string (member doc (codes "val"))))

  parse_set_serial_mode-Checked :
      (doc : Value)
      → Checked j
          (parse_switch j to_string set_serial_mode doc).action
          (parse_switch j to_string set_serial_mode doc)
  unfolding parse_switch
  parse_set_serial_mode-Checked doc = ground arith

  parse_set_bt_mode-Checked :
      (doc : Value)
      → Checked j
          (parse_switch j to_string set_bt_mode doc).action
          (parse_switch j to_string set_bt_mode doc)
  unfolding parse_switch
  parse_set_bt_mode-Checked doc = ground arith

  parse_file_tx_invite-Checked :
      (doc : Value)
      → Checked j
          (parse_file_tx_invite j to_string doc).action
          (parse_file_tx_invite j to_string doc)
  unfolding parse_file_tx_invite
  parse_file_tx_invite-Checked doc = ground arith

  parse_file_tx_join-Checked :
      (doc : Value)
      → Checked j (parse_file_tx_join j to_string doc).action (parse_file_tx_join j to_string doc)
  unfolding parse_file_tx_join
  parse_file_tx_join-Checked doc =
      let m = as_string (member doc (codes "mode")) in
      ground (arith, str_eq_iff m (codes "usb"), str_eq_iff m (codes "bt"))

  select-All :
      (P : CoreCommand → Type 0) (hs : List (Bytes × CoreCommand)) (t : Bytes)
      → All (λ h. P h.1) hs
      → P (record new_command { action = unknown; error = codes "unknown request-type" })
      → P (select j to_string t hs)
  unfolding select
  select-All P [] t a u = u
  select-All P ((name, c) ∷ rest) t a u = elim (Bool-cases (str_eq t name)) [
    | inl same ↦ rw same a.0
    | inr other ↦ rw other (select-All P rest t a.1 u)
  ]

  -- Every command that a request gives was checked. The name of a network has 1 to 32 bytes, and a
  -- password none or 8 to 63. A password of the board's own network and a user name have no control
  -- characters, and a user name has 1 to 32 bytes. A LoRa configuration is the text of an object with
  -- six numbers, each in its range, the bandwidth one of ten. A mode of file transfer is one of the two.
  -- A request that gives no action carries an error, and the commands not named here carry none.
  pub core_parse_request-Checked :
      (doc : Value)
      → Checked j (core_parse_request j to_string doc).action (core_parse_request j to_string doc)
  unfolding core_parse_request
  core_parse_request-Checked doc =
      let t = as_string (member doc (codes "request-type")) in
      let all =
        select-All (λ c. Checked j c.action c) (handlers j to_string doc) t
          (
            refl,
            (
              refl,
              (
                refl,
                (
                  refl,
                  (
                    refl,
                    (
                      refl,
                      (
                        refl,
                        (
                          refl,
                          (
                            parse_connect_wifi-Checked doc,
                            (
                              parse_set_ap_pass-Checked doc,
                              (
                                parse_set_username-Checked doc,
                                (
                                  parse_set_lora_config-Checked doc,
                                  (
                                    parse_set_serial_mode-Checked doc,
                                    (
                                      refl,
                                      (
                                        refl,
                                        (
                                          parse_set_bt_mode-Checked doc,
                                          (
                                            parse_file_tx_invite-Checked doc,
                                            (parse_file_tx_join-Checked doc, (refl, (refl, (tt)))),
                                          ),
                                        ),
                                      ),
                                    ),
                                  ),
                                ),
                              ),
                            ),
                          ),
                        ),
                      ),
                    ),
                  ),
                ),
              ),
            ),
          )
          (λ e. cc) in
      elim (Bool-cases (is_string (member doc (codes "request-type")))) [
        | inl text ↦ rw text all
        | inr other ↦ rw other (λ e. cc)
      ]

  -- The command is of the kind that was asked for, or is refused.
  abbrev pub Asked : Bytes → CoreCommand → Type 0
  Asked t c =
      (c.action ≡ missing)
      ⊎ ((c.action ≡ unknown) ⊎ ((c.action ≡ invalid) ⊎ (t ≡ codes (core_action_name c.action))))

  select-Asked :
      (hs : List (Bytes × CoreCommand)) (t : Bytes)
      → All (λ h. Asked h.0 h.1) hs
      → Asked t (select j to_string t hs)
  unfolding select
  select-Asked [] t a = inr (inl refl)
  select-Asked ((name, c) ∷ rest) t a = elim (Bool-cases (str_eq t name)) [
    | inl same ↦ rw (same, (str_eq_iff t name).0 same) a.0
    | inr other ↦ rw other (select-Asked rest t a.1)
  ]

  action-Asked :
      (a : CoreAction) (c : CoreCommand)
      → (c.action ≡ invalid) ⊎ (c.action ≡ a)
      → Asked (codes (core_action_name a)) c
  action-Asked a c (inl e) = inr (inr (inl e))
  action-Asked a c (inr e) = inr (inr (inr (ap (λ b. codes (core_action_name b)) (sym e))))

  parse_connect_wifi-action :
      (doc : Value)
      → ((parse_connect_wifi j to_string doc).action ≡ invalid)
        ⊎ ((parse_connect_wifi j to_string doc).action ≡ connect_wifi)
  unfolding parse_connect_wifi
  parse_connect_wifi-action doc = ground arith

  parse_set_ap_pass-action :
      (doc : Value)
      → ((parse_set_ap_pass j to_string doc).action ≡ invalid)
        ⊎ ((parse_set_ap_pass j to_string doc).action ≡ set_ap_pass)
  unfolding parse_set_ap_pass
  parse_set_ap_pass-action doc = ground arith

  parse_set_username-action :
      (doc : Value)
      → ((parse_set_username j to_string doc).action ≡ invalid)
        ⊎ ((parse_set_username j to_string doc).action ≡ set_username)
  unfolding parse_set_username
  parse_set_username-action doc = ground arith

  parse_set_lora_config-action :
      (doc : Value)
      → ((parse_set_lora_config j to_string doc).action ≡ invalid)
        ⊎ ((parse_set_lora_config j to_string doc).action ≡ set_lora_config)
  unfolding parse_set_lora_config
  parse_set_lora_config-action doc = ground arith

  parse_file_tx_invite-action :
      (doc : Value)
      → ((parse_file_tx_invite j to_string doc).action ≡ invalid)
        ⊎ ((parse_file_tx_invite j to_string doc).action ≡ file_tx_invite)
  unfolding parse_file_tx_invite
  parse_file_tx_invite-action doc = ground arith

  parse_file_tx_join-action :
      (doc : Value)
      → ((parse_file_tx_join j to_string doc).action ≡ invalid)
        ⊎ ((parse_file_tx_join j to_string doc).action ≡ file_tx_join)
  unfolding parse_file_tx_join
  parse_file_tx_join-action doc = ground arith

  parse_switch-action :
      (a : CoreAction) (doc : Value)
      → ((parse_switch j to_string a doc).action ≡ invalid)
        ⊎ ((parse_switch j to_string a doc).action ≡ a)
  unfolding parse_switch
  parse_switch-action a doc = ground arith

  -- A command that is not refused is the one whose name is the text of the request's type.
  pub core_parse_request-Asked :
      (doc : Value)
      → Asked (as_string (member doc (codes "request-type"))) (core_parse_request j to_string doc)
  unfolding core_parse_request core_action_name
  core_parse_request-Asked doc =
      let t = as_string (member doc (codes "request-type")) in
      let all = select-Asked (handlers j to_string doc) t (
        inr (inr (inr refl)),
        (
          inr (inr (inr refl)),
          (
            inr (inr (inr refl)),
            (
              inr (inr (inr refl)),
              (
                inr (inr (inr refl)),
                (
                  inr (inr (inr refl)),
                  (
                    inr (inr (inr refl)),
                    (
                      inr (inr (inr refl)),
                      (
                        action-Asked connect_wifi (parse_connect_wifi j to_string doc)
                            (parse_connect_wifi-action doc),
                        (
                          action-Asked set_ap_pass (parse_set_ap_pass j to_string doc)
                              (parse_set_ap_pass-action doc),
                          (
                            action-Asked set_username (parse_set_username j to_string doc)
                                (parse_set_username-action doc),
                            (
                              action-Asked set_lora_config (parse_set_lora_config j to_string doc)
                                  (parse_set_lora_config-action doc),
                              (
                                action-Asked set_serial_mode
                                    (parse_switch j to_string set_serial_mode doc)
                                    (parse_switch-action set_serial_mode doc),
                                (
                                  inr (inr (inr refl)),
                                  (
                                    inr (inr (inr refl)),
                                    (
                                      action-Asked set_bt_mode
                                          (parse_switch j to_string set_bt_mode doc)
                                          (parse_switch-action set_bt_mode doc),
                                      (
                                        action-Asked file_tx_invite
                                            (parse_file_tx_invite j to_string doc)
                                            (parse_file_tx_invite-action doc),
                                        (
                                          action-Asked file_tx_join
                                              (parse_file_tx_join j to_string doc)
                                              (parse_file_tx_join-action doc),
                                          (inr (inr (inr refl)), (inr (inr (inr refl)), (tt))),
                                        ),
                                      ),
                                    ),
                                  ),
                                ),
                              ),
                            ),
                          ),
                        ),
                      ),
                    ),
                  ),
                ),
              ),
            ),
          ),
        ),
      ) in
      elim (Bool-cases (is_string (member doc (codes "request-type")))) [
        | inl text ↦ rw text all
        | inr other ↦ rw other (inl refl)
      ]
