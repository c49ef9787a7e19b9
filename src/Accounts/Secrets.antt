-- ===== src/Accounts/Secrets.antt =====
-- AccountService (accounts/service.py): new credentials, or a new session token, of an account. A row
-- that has no identity yet is first given the one of its stored secrets.
use placegame_mcp.Errors
use placegame_mcp.Errors.{Error, Result, ok, raised, ◌>>=◌, ◌>>◌}
use placegame_mcp.Prelude.{
  ℕ, Bool, true, false, ◌||◌, not, Option, none, some, List, ◌∷◌, ◌++◌, is_none, if◌then◌else◌,
}
use placegame_mcp.Text.{Text, Actor, codes, is_empty}
use placegame_mcp.Plans.Rows.{ExecutionResult, AuditEvent}
use placegame_mcp.Accounts.Rows.{
  GameAccount, AuthMode, credentials, token_only, Tables, get_for_update,
}
use placegame_mcp.Accounts.Session.{
  Game, Login, Work, try_login, login_and_bootstrap, bind_or_match, unchanged, absent,
  is_session_rejected, is_authentication_required,
}
use placegame_mcp.Accounts.Session.Resolve.{or_empty}
use placegame_mcp.Accounts.Enrolment.{bootstrapped, identity_of}
use placegame_mcp.Accounts.Lifecycle.{
  ManagedAccount, managed, Outcome, on_row, reject_removal_marker, note, status,
}

-- `_resolve_stored_identity`
unfoldable pub resolve_stored_identity : Game → GameAccount → Result Text
unfolding login_and_bootstrap identity_of
resolve_stored_identity game row = elim row.auth_mode [
  | credentials ↦
      if absent row.game_username || absent row.password
      then raised Errors.authentication_required
      else login_and_bootstrap game (or_empty row.game_username) (or_empty row.password) >>= λ l.
          ok l.identity
  | token_only ↦
      if absent row.session_token
      then raised Errors.authentication_required
      else identity_of game (or_empty row.session_token) 3
]

-- `pending` after a comparison of identities.
abbrev pub Bound : Type 0
Bound = Work × Option Error

abbrev pub compared : Work × Bool → Bound
compared (w, same) = (w, if same then none else some Errors.account_identity_conflict)

-- The identity of a row that has none is the one of its stored secrets.
unfoldable pub bind_resolved : Game → Tables → Actor → GameAccount → Result Text → Result Bound
unfolding bind_or_match
bind_resolved game t actor row (ok identity) =
    ok (compared (bind_or_match game t actor row identity))
bind_resolved game t actor row (raised e) =
    if is_authentication_required e
    then ok ((unchanged row, some Errors.authentication_required))
    else raised e

unfoldable pub bind_stored : Game → Tables → Actor → GameAccount → Result Bound
unfolding bind_resolved resolve_stored_identity
bind_stored game t actor row =
    if is_none row.game_account_id
    then bind_resolved game t actor row (resolve_stored_identity game row)
    else ok ((unchanged row, none))

abbrev pub noted : Actor → Text → ExecutionResult → Work → Work
noted actor action result w = record {
  row = w.row;
  events = note actor w.row action result ∷ w.events;
}

abbrev pub then_events : List AuditEvent → Work → Work
then_events earlier w = record { row = w.row; events = w.events ++ earlier }

-- The pending error, with the event of the refusal.
abbrev pub rejected : Actor → Text → Work → Error → Result (Work × Result ManagedAccount)
rejected actor action w e = ok ((noted actor action (status (codes "rejected")) w, raised e))

abbrev pub verified_row :
    ℕ → AuthMode → Option Text → Option Text → Text → Option ℕ → GameAccount → GameAccount
verified_row now mode username password token expiry row = record row {
  auth_mode = mode;
  game_username = username;
  password = password;
  session_token = some token;
  session_expires_at = expiry;
  paused_reason = none;
  auth_failure_count = 0;
  auth_failure_window_started_at = none;
  last_success_at = some now;
}

-- The second comparison, with what is written to the row where the identity is the same.
unfoldable pub accept_verified :
    Actor
    → Text
    → ExecutionResult
    → (GameAccount → GameAccount)
    → List AuditEvent
    → Work × Bool
    → Result (Work × Result ManagedAccount)
accept_verified actor action result change earlier (w, same) =
    if same
    then ok (
        (
          noted actor action result (record { row = change w.row; events = w.events ++ earlier }),
          ok (managed (change w.row)),
        ))
    else rejected actor action (then_events earlier w) Errors.account_identity_conflict

-- `except AccountError`, of the exceptions that the login can raise.
abbrev pub is_account_error : Error → Bool
is_account_error Errors.account_not_found = true
is_account_error Errors.account_identity_conflict = true
is_account_error Errors.account_disabled = true
is_account_error Errors.account_paused = true
is_account_error Errors.account_removed = true
is_account_error Errors.authentication_required = true
is_account_error Errors.policy_unavailable = true
is_account_error Errors.reconciliation_required = true
is_account_error Errors.plan_precondition_failed = true
is_account_error _ = false

abbrev pub credentials_action : Text
credentials_action = codes "account.credentials.update"

abbrev pub proposed : Option Text → GameAccount → Option Text
proposed username row = if absent username then row.game_username else username

unfoldable pub new_credentials :
    Game
    → Tables
    → Actor
    → Text
    → Text
    → Work
    → Result Login
    → Result (Work × Result ManagedAccount)
unfolding bind_or_match accept_verified
new_credentials game t actor username password w (ok l) =
    accept_verified actor credentials_action (status (codes "succeeded"))
      (verified_row game.now credentials (some username) (some password) l.token l.expiry) w.events
      (bind_or_match game t actor w.row l.identity)
new_credentials game t actor username password w (raised e) =
    if is_account_error e
    then rejected actor credentials_action w Errors.authentication_required
    else raised e

-- The login with the proposed credentials; its answers follow those of the login with the stored ones.
unfoldable pub after_bind_credentials :
    Game
    → Tables
    → Actor
    → Option Text
    → Text
    → Result Bound
    → Result (Work × Result ManagedAccount)
unfolding new_credentials try_login
after_bind_credentials game t actor username password (raised e) = raised e
after_bind_credentials game t actor username password (ok (w, some e)) =
    rejected actor credentials_action w e
after_bind_credentials game t actor username password (ok (w, none)) =
    if absent (proposed username w.row)
    then rejected actor credentials_action w Errors.authentication_required
    else new_credentials game t actor (or_empty (proposed username w.row)) password w
        (try_login game (or_empty (proposed username w.row)) password 3 4)

unfoldable pub change_credentials :
    Game → Tables → Actor → Option Text → Text → GameAccount → Result (Work × Result ManagedAccount)
unfolding after_bind_credentials bind_stored
change_credentials game t actor username password row =
    reject_removal_marker row
    >> after_bind_credentials game t actor username password (bind_stored game t actor row)

unfoldable pub update_credentials :
    Game → ℕ → Option Text → Text → Actor → Tables → Outcome ManagedAccount
unfolding change_credentials get_for_update
update_credentials game account_id username password actor t =
    if is_empty password
    then (t, raised Errors.value_error)
    else on_row account_id t (change_credentials game t actor username password)

abbrev pub token_action : Text
token_action = codes "account.token.update"

unfoldable pub new_token :
    Game → Tables → Actor → Text → Work → Result Text → Result (Work × Result ManagedAccount)
unfolding bind_or_match accept_verified
new_token game t actor token w (ok identity) =
    accept_verified actor token_action (bootstrapped (not (is_empty identity)))
      (verified_row game.now token_only none none token (game.token_expiry token)) w.events
      (bind_or_match game t actor w.row identity)
new_token game t actor token w (raised e) =
    if is_session_rejected e
    then rejected actor token_action w Errors.authentication_required
    else raised e

unfoldable pub after_bind_token :
    Game → Tables → Actor → Text → Result Bound → Result (Work × Result ManagedAccount)
unfolding new_token
after_bind_token game t actor token (raised e) = raised e
after_bind_token game t actor token (ok (w, some e)) = rejected actor token_action w e
after_bind_token game t actor token (ok (w, none)) =
    new_token game t actor token w (game.bootstrap token 4)

unfoldable pub change_token :
    Game → Tables → Actor → Text → GameAccount → Result (Work × Result ManagedAccount)
unfolding after_bind_token bind_stored
change_token game t actor token row =
    reject_removal_marker row >> after_bind_token game t actor token (bind_stored game t actor row)

unfoldable pub update_token_only : Game → ℕ → Text → Actor → Tables → Outcome ManagedAccount
unfolding change_token get_for_update
update_token_only game account_id session_token actor t =
    if is_empty session_token
    then (t, raised Errors.value_error)
    else on_row account_id t (change_token game t actor session_token)
