-- ===== src/Accounts/Enrolment.antt =====
-- AccountService (accounts/service.py): the accounts that are added. `identity_lock` leaves nothing to
-- another transaction in between.
use placegame_mcp.Errors
use placegame_mcp.Errors.{Error, Result, ok, raised, ◌>>=◌, ◌>>◌}
use placegame_mcp.Prelude.{ℕ, ◌+◌, Bool, true, Option, none, some, [], ◌∷◌, ◌++◌, if◌then◌else◌}
use placegame_mcp.Text.{Text, Actor, codes, strip, is_empty}
use placegame_mcp.Plans.Rows.{text, boolean, ExecutionResult}
use placegame_mcp.Accounts.Rows.{
  GameAccount, AuthMode, credentials, token_only, Tables, has_unresolved_identity, find_identity,
  event,
}
use placegame_mcp.Accounts.Session.{Game, Login, login_and_bootstrap, is_session_rejected}
use placegame_mcp.Accounts.Lifecycle.{
  ManagedAccount, managed, Outcome, normalize_label, with_value, note,
}

abbrev conflict : Actor → Option ℕ → Text → Tables → Outcome ManagedAccount
conflict actor account_id reason t = (
  record t {
    audit =
        event actor account_id none (codes "account.identity.conflict")
          ((codes "status", text (codes "rejected")) ∷ (codes "reason", text reason) ∷ [])
        ∷ t.audit;
  },
  raised Errors.account_identity_conflict,
)

abbrev pub bootstrapped : Bool → ExecutionResult
bootstrapped b = (codes "status", text (codes "succeeded")) ∷ (codes "bootstrap", boolean b) ∷ []

abbrev add : Actor → Text → GameAccount → Tables → Outcome ManagedAccount
add actor action row t = (
  record t {
    accounts = t.accounts ++ row ∷ [];
    audit = note actor row action (bootstrapped true) ∷ t.audit;
    next_id = t.next_id + 1;
  },
  ok (managed row),
)

abbrev pub enrol_unless :
    Actor → Text → GameAccount → Tables → Option GameAccount → Outcome ManagedAccount
enrol_unless actor action row t none = add actor action row t
enrol_unless actor action row t (some existing) =
    conflict actor (some existing.id) (codes "already_managed") t

-- The transaction that `add_credentials` and `add_token_only` share.
unfoldable pub enrol : Actor → Text → Text → GameAccount → Tables → Outcome ManagedAccount
unfolding has_unresolved_identity find_identity
enrol actor action identity row t =
    if has_unresolved_identity t
    then conflict actor none (codes "unresolved_historical_identity") t
    else enrol_unless actor action row t (find_identity identity t)

abbrev pub enrolled_row : ℕ → Text → AuthMode → Text → Text → Option ℕ → ℕ → GameAccount
enrolled_row id label mode identity token expiry now = record {
  id = id;
  game_account_id = some identity;
  label = label;
  game_username = none;
  auth_mode = mode;
  password = none;
  session_token = some token;
  session_expires_at = expiry;
  enabled = true;
  paused_reason = none;
  last_success_at = some now;
  last_error_at = none;
  auth_failure_count = 0;
  auth_failure_window_started_at = none;
}

abbrev pub credentials_row : ℕ → Text → Text → Text → Login → ℕ → GameAccount
credentials_row id label username password l now =
    record (enrolled_row id label credentials l.identity l.token l.expiry now) {
      game_username = some username;
      password = some password;
    }

unfoldable pub add_credentials : Game → Text → Text → Text → Actor → Tables → Outcome ManagedAccount
unfolding enrol login_and_bootstrap strip
add_credentials game label username password actor t =
    with_value t (normalize_label label) λ normalized.
      with_value t (login_and_bootstrap game username password) λ l.
        if is_empty l.identity
        then (t, raised Errors.authentication_required)
        else enrol actor (codes "account.add_credentials") l.identity
            (credentials_row t.next_id normalized username password l game.now) t

-- A session that the game rejects requires authentication.
unfoldable pub identity_of : Game → Text → ℕ → Result Text
identity_of game token attempt = elim (game.bootstrap token attempt) [
  | ok identity ↦ ok identity
  | raised e ↦ if is_session_rejected e then raised Errors.authentication_required else raised e
]

unfoldable pub add_token_only : Game → Text → Text → Actor → Tables → Outcome ManagedAccount
unfolding enrol identity_of strip
add_token_only game label session_token actor t = with_value t (normalize_label label) λ normalized.
    if is_empty session_token
    then (t, raised Errors.value_error)
    else with_value t (identity_of game session_token 0) λ identity.
      if is_empty identity
      then (t, raised Errors.authentication_required)
      else enrol actor (codes "account.add_token_only") identity
          (enrolled_row t.next_id normalized token_only identity session_token
            (game.token_expiry session_token) game.now)
          t
