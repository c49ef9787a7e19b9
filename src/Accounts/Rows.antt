-- ===== src/Accounts/Rows.antt =====
-- The rows of models.py that the account service reads and writes, and AccountRepository
-- (accounts/repository.py). A secret stands for its sealed value: SecretBox opens what it sealed.
use placegame_mcp.Prelude.{
  ℕ, Bool, false, ◌&&◌, not, Option, none, List, ◌++◌, ◌==◌, first, any, count, update, is_none,
  is_some_and,
}
use placegame_mcp.Prelude.Keys.{write_row}
use placegame_mcp.Text.{Text, Actor, joined, text_eq}
use placegame_mcp.Plans.Rows.{AuditEvent, ExecutionResult}
use placegame_mcp.Plans.Store.{Plans}
use placegame_mcp.Scheduler.Rows.{Job}
use placegame_mcp.Idle.Planner.{IdleSummary}

pub data AuthMode : Type 0 where
  credentials token_only : AuthMode

pub record GameAccount : Type 0 where
  pub id : ℕ
  pub game_account_id : Option Text
  pub label : Text
  pub game_username : Option Text
  pub auth_mode : AuthMode
  pub password : Option Text
  pub session_token : Option Text
  pub session_expires_at : Option ℕ
  pub enabled : Bool
  pub paused_reason : Option Text
  pub last_success_at : Option ℕ
  pub last_error_at : Option ℕ
  pub auth_failure_count : ℕ
  pub auth_failure_window_started_at : Option ℕ

-- `state` is `none` for the empty dictionary, and else the account of the game and its idle summary.
pub record AccountSnapshot : Type 0 where
  pub account_id : ℕ
  pub state : Option (Text × IdleSummary)
  pub state_fingerprint : Text
  pub fetched_at : ℕ
  pub expires_at : ℕ

pub record Tables : Type 0 where
  pub accounts : List GameAccount
  pub jobs : List Job
  pub plans : Plans
  pub snapshots : List AccountSnapshot
  pub audit : List AuditEvent
  pub next_id : ℕ

abbrev pub with_id : ℕ → GameAccount → Bool
with_id account_id a = a.id == account_id

-- `get_for_update`
unfoldable pub get_for_update : ℕ → Tables → Option GameAccount
get_for_update account_id t = first (with_id account_id) t.accounts

abbrev pub has_identity : Text → GameAccount → Bool
has_identity identity a = is_some_and (λ g. text_eq g identity) a.game_account_id

-- `has_unresolved_identity`
unfoldable pub has_unresolved_identity : Tables → Bool
has_unresolved_identity t = any (λ a. is_none a.game_account_id) t.accounts

-- `_find_identity`
unfoldable pub find_identity : Text → Tables → Option GameAccount
find_identity identity t = first (has_identity identity) t.accounts

-- An account other than this one has the identity.
unfoldable pub taken_by_other : Text → ℕ → Tables → Bool
unfolding find_identity
taken_by_other identity account_id t =
    is_some_and (λ a. not (a.id == account_id)) (find_identity identity t)

abbrev pub is_live : ℕ → Job → Bool
is_live account_id j = j.account_id == account_id && j.enabled

abbrev pub stop : Job → Job
stop j = record j { enabled = false }

-- `disable_jobs`
unfoldable pub disable_jobs : ℕ → Tables → Tables × ℕ
disable_jobs account_id t =
    (record t { jobs = update (is_live account_id) stop t.jobs }, count (is_live account_id) t.jobs)

-- `_audit` with `add_audit`.
abbrev pub event : Actor → Option ℕ → Option ℕ → Text → ExecutionResult → AuditEvent
event actor account_id plan_id action result = record {
  actor = joined actor.kind actor.actor_id;
  source = actor.kind;
  account_id = account_id;
  plan_id = plan_id;
  action = action;
  result = result;
  before = none;
  after = none;
  correlation_id = none;
}

-- The flush of a row that was read and changed, with its audit events, the newest first.
abbrev pub write : GameAccount → List AuditEvent → Tables → Tables
write row events t = record t {
  accounts = write_row (λ a. a.id) row t.accounts;
  audit = events ++ t.audit;
}
