-- ===== src/Admin/Tests.antt =====
-- The administrator's theorems at one login and one change of the password.
use placegame_mcp.Prelude.{◌+◌, ◌<◌, ◌≡◌, refl, none, some, List, [], ◌∷◌}
use placegame_mcp.Text.{Text, codes, text_eq, strip, is_space}
use placegame_mcp.Admin.{
  granted, AdminSession, Tables, Service, setup, login, change_password, validate, is_session_token,
  has_password, store_setup, read_password_hash, update_password_hash, create_session, find_session,
  delete_all_sessions,
}
use placegame_mcp.Admin.Sessions.{AdminCall, sets_up, logs_in, validates, call, calls}
use placegame_mcp.Admin.Sessions.Validity.{change_password_revokes, validate-Limited}

abbrev service : Service
service = record { hash = λ p. p; verify = text_eq; digest = λ p. p; idle = 1800; absolute = 43200 }

abbrev token : Text
token = codes "abcdefghijklmnopqrstuvwxyzABCDEFGHIJKLMNOPQ"

abbrev empty : Tables
empty = record { admin = none; sessions = []; next_id = 0 }

abbrev logged_in : Tables
logged_in = calls service (sets_up (codes "old") 0 ∷ logs_in (codes "old") token 1 ∷ []) empty

changed : (change_password service (codes "old") (codes "new") 2 logged_in).1 ≡ granted tt
unfolding change_password calls call setup login store_setup create_session has_password strip
    is_space read_password_hash update_password_hash delete_all_sessions
changed = refl

change_password_revokes_example :
    (validate service token 4 (
      calls service
        (logs_in (codes "new") (codes "other") 3 ∷ [])
        (change_password service (codes "old") (codes "new") 2 logged_in).0)).1
    ≡ none
change_password_revokes_example =
    change_password_revokes service (codes "old") (codes "new") token 2 4
      (logs_in (codes "new") (codes "other") 3 ∷ []) logged_in changed (refl, tt)

abbrev session : AdminSession
session = record {
  id = 0;
  token_digest = token;
  created_at = 1;
  last_seen_at = 9;
  absolute_expires_at = 43201;
}

abbrev history : List AdminCall
history = sets_up (codes "old") 0 ∷ logs_in (codes "old") token 1 ∷ validates token 5 ∷ []

accepted : (validate service token 9 (calls service history empty)).1 ≡ some session
unfolding validate calls call setup login store_setup create_session has_password strip is_space
    read_password_hash is_session_token find_session
accepted = refl

validate-Limited_example : 9 < session.created_at + service.absolute
validate-Limited_example = validate-Limited service token 9 history empty session tt accepted
