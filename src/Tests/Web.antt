-- ===== src/Tests/Web.antt =====
-- Sessions of the web page and its sockets.

use project_voyager.Prelude.{
  ◌≡◌, refl, ◌≢◌, ◌↔◌, true, false, Option, none, some, List, [], ◌∷◌, ◌++◌, arith, Bytes, codes,
  length, replicate, All,
}
use project_voyager.Web.Auth.{
  Auth, boot, auth_init, ensure_loaded, auth_is_set, Words, token_of, auth_session_create,
  session_valid, Request, auth_require, pass, setup_required,
}
use project_voyager.Web.Auth.Sessions.{
  AuthEvent, auth_step, auth_run, live, session_valid_sound, logins, session_valid_newest, login,
}
use project_voyager.Web.Auth.Checks.{IsSlot, IsSignedIn, auth_require_iff}
use project_voyager.Web.Sockets.{connect}
use project_voyager.Web.Sockets.Bounds.{Inv}
use project_voyager.Web.Sockets.Reassembly.{receive, join, Delivered, receive-Delivered}
use project_voyager.Web.Sockets.Reach.{
  happen, empty_sockets, Reach, Reach-Inv, client_event, start, next,
}

abbrev md5 : Bytes → Bytes
md5 b = replicate 32 b'a'

abbrev first_words : Words
first_words = record { w₀ = 1; w₁ = 2; w₂ = 3; w₃ = 4 }

abbrev other_words : Words
other_words = record { w₀ = 5; w₁ = 6; w₂ = 7; w₃ = 8 }

abbrev secured : Auth
secured = record {
  ha1 = replicate 32 b'a';
  loaded = true;
  sessions = replicate 4 [];
  next_slot = 0;
}

login_given : (auth_session_create none first_words secured).1 ≡ some (token_of first_words)
unfolding auth_session_create auth_is_set ensure_loaded
login_given = refl

session_valid_newest_example :
    session_valid
      (auth_run md5
        (auth_session_create none first_words secured).0
        (logins (other_words ∷ other_words ∷ [])))
      (token_of first_words)
    ≡ true
session_valid_newest_example =
    session_valid_newest md5 none secured first_words (token_of first_words)
      (other_words ∷ other_words ∷ []) refl (omega arith) login_given (omega arith)

abbrev token : Bytes
token = replicate 32 b'a'

abbrev signed_in : Auth
signed_in = record secured { sessions = token ∷ [] ∷ [] ∷ [] ∷ [] }

abbrev request : Request
request = record {
  cookie = some (codes "vsid=" ++ token);
  authorization = some (codes "Digest x");
  authenticate = λ h. false;
}

slots : All IsSlot signed_in.sessions
slots = ground arith

auth_require_iff_example :
    let b = ensure_loaded none signed_in in
    ((auth_require none (some request) signed_in).1 ≡ pass
      ↔ ((length b.ha1 ≢ 0) × IsSignedIn b request))
    × ((auth_require none (some request) signed_in).1 ≡ setup_required ↔ (length b.ha1 ≡ 0))
    × ((auth_require none (some request) signed_in).0 ≡ b)
auth_require_iff_example = auth_require_iff none request signed_in slots

abbrev pieces : List Bytes
pieces = codes "{\"a\"" ∷ codes ":1" ∷ codes "}" ∷ []

receive-Delivered_example :
    Delivered empty_sockets.rx_queue
      (receive empty_sockets 3 0 (length (join pieces)) pieces)
      3
      (join pieces)
receive-Delivered_example =
    receive-Delivered empty_sockets 3 pieces (ground arith) (omega arith) (omega arith)
      (omega arith)

one_client : Reach (happen empty_sockets (client_event true 3 connect))
one_client = next start (client_event true 3 connect) tt

Reach-Inv_example : Inv (happen empty_sockets (client_event true 3 connect))
Reach-Inv_example = Reach-Inv one_client

-- The hash that is stored, and a login after which another browser logs in.
abbrev stored : Option Bytes
stored = some (replicate 32 b'a')

boot_login : (auth_session_create stored first_words boot).1 ≡ some (token_of first_words)
unfolding auth_session_create auth_is_set ensure_loaded auth_init
boot_login = refl

abbrev visits : List AuthEvent
visits = login stored first_words ∷ login none other_words ∷ []

still_valid : session_valid (auth_run md5 boot visits) (token_of first_words) ≡ true
unfolding auth_run auth_step
still_valid =
    session_valid_newest md5 stored boot first_words (token_of first_words) (other_words ∷ []) refl
      (omega arith) boot_login (omega arith)

session_valid_sound_example :
    (live md5 (token_of first_words) boot false visits ≡ true)
    × (length (auth_run md5 boot visits).ha1 ≢ 0)
session_valid_sound_example = session_valid_sound md5 visits (token_of first_words) still_valid
