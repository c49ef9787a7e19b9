-- ===== src/Accounts/Snapshots.antt =====
-- AccountService (accounts/service.py): `ensure_session`, `snapshot` and the context of `locked`, with
-- AccountRepository.save_snapshot.
use placegame_mcp.Errors
use placegame_mcp.Errors.{Result, ok, raised, ◌>>=◌}
use placegame_mcp.Prelude.{ℕ, ◌+◌, Bool, not, Option, none, some, ◌∷◌, is_none}
use placegame_mcp.Text.{Text, Actor}
use placegame_mcp.Idle.Planner.{IdleSummary}
use placegame_mcp.Accounts.Rows.{GameAccount, AccountSnapshot, Tables, get_for_update, write}
use placegame_mcp.Accounts.Session.{Game, Work}
use placegame_mcp.Accounts.Session.Resolve.{Resolution, ensure_locked}
use placegame_mcp.Accounts.Lifecycle.{Outcome, require_mutable, on_row}

pub record SessionState : Type 0 where
  pub account_id : ℕ
  pub authenticated : Bool
  pub refreshed : Bool
  pub expires_at : Option ℕ
  pub paused_reason : Option Text

abbrev pub state_of : Resolution → SessionState
state_of r = record {
  account_id = r.work.row.id;
  authenticated = not (is_none r.api);
  refreshed = r.refreshed;
  expires_at = r.work.row.session_expires_at;
  paused_reason = r.work.row.paused_reason;
}

abbrev pub resolved : Result Resolution → Result (Work × Result SessionState)
resolved r = r >>= λ q. ok ((q.work, ok (state_of q)))

unfoldable pub ensure_session : Game → ℕ → Actor → Tables → Outcome SessionState
unfolding ensure_locked get_for_update
ensure_session game account_id actor t =
    on_row account_id t (λ row. resolved (ensure_locked game t actor row))

abbrev pub five_minutes : ℕ
five_minutes = 300000000

-- The state of the account of the game, or the empty dictionary, with its digest by `digest`.
abbrev pub snapshot_row :
    (Option (Text × IdleSummary) → Text)
    → ℕ
    → GameAccount
    → Option (Text × IdleSummary)
    → AccountSnapshot
snapshot_row digest now row state = record {
  account_id = row.id;
  state = state;
  state_fingerprint = digest state;
  fetched_at = now;
  expires_at = now + five_minutes;
}

-- `_save_snapshot`
abbrev pub saved :
    (Option (Text × IdleSummary) → Text)
    → ℕ
    → GameAccount
    → Tables
    → Option (Text × IdleSummary)
    → Outcome AccountSnapshot
saved digest now row t state = (
  record t { snapshots = snapshot_row digest now row state ∷ t.snapshots },
  ok (snapshot_row digest now row state),
)

abbrev pub save_state :
    (Option (Text × IdleSummary) → Text)
    → ℕ
    → GameAccount
    → Tables
    → Text
    → Result IdleSummary
    → Outcome AccountSnapshot
save_state digest now row t identity (raised e) = (t, raised e)
save_state digest now row t identity (ok idle) = saved digest now row t (some (identity, idle))

abbrev pub save_api :
    (Option (Text × IdleSummary) → Text)
    → ℕ
    → GameAccount
    → Tables
    → Result IdleSummary
    → Option (Text × Text)
    → Outcome AccountSnapshot
save_api digest now row t idle none = saved digest now row t none
save_api digest now row t idle (some (token, identity)) = save_state digest now row t identity idle

unfoldable pub save_snapshot :
    (Option (Text × IdleSummary) → Text) → Game → Resolution → Tables → Outcome AccountSnapshot
save_snapshot digest game r t = save_api digest game.now r.work.row t game.idle_summary r.api

-- A transaction that raises leaves the tables as they were.
abbrev pub rolled_back : {A : Type 0} → Tables → Outcome A → Outcome A
rolled_back t (u, ok a) = (u, ok a)
rolled_back t (u, raised e) = (t, raised e)

abbrev pub with_resolution :
    {A : Type 0} → Tables → Result Resolution → (Resolution → Tables → Outcome A) → Outcome A
with_resolution t (raised e) next = (t, raised e)
with_resolution t (ok r) next = next r (write r.work.row r.work.events t)

abbrev pub snapshot_found :
    (Option (Text × IdleSummary) → Text)
    → Game
    → Actor
    → Tables
    → Option GameAccount
    → Outcome AccountSnapshot
unfolding ensure_locked save_snapshot
snapshot_found digest game actor t none = (t, raised Errors.account_not_found)
snapshot_found digest game actor t (some row) =
    rolled_back t (with_resolution t (ensure_locked game t actor row) (save_snapshot digest game))

unfoldable pub snapshot :
    (Option (Text × IdleSummary) → Text) → Game → ℕ → Actor → Tables → Outcome AccountSnapshot
unfolding get_for_update ensure_locked save_snapshot
snapshot digest game account_id actor t =
    snapshot_found digest game actor t (get_for_update account_id t)

-- What the body of the context of `locked` is given, within the transaction that began with `t`.
abbrev pub enter_api :
    {A : Type 0}
    → Result ℕ
    → (Text → ℕ → AccountSnapshot → Result A)
    → Tables
    → Tables
    → Outcome AccountSnapshot
    → Option (Text × Text)
    → Outcome A
enter_api policy body t u out none = (u, raised Errors.authentication_required)
enter_api policy body t u out (some (token, identity)) =
    rolled_back t (out.0, out.1 >>= λ s. policy >>= λ v. body token v s)

abbrev pub enter :
    {A : Type 0}
    → (Option (Text × IdleSummary) → Text)
    → Game
    → Result ℕ
    → (Text → ℕ → AccountSnapshot → Result A)
    → Tables
    → Resolution
    → Tables
    → Outcome A
unfolding save_snapshot
enter digest game policy body t r u =
    enter_api policy body t u (save_snapshot digest game r u) r.api

abbrev pub mutable_only : {A : Type 0} → Tables → Result (Unit {0}) → Outcome A → Outcome A
mutable_only t (raised e) next = (t, raised e)
mutable_only t (ok u) next = next

abbrev pub locked_found :
    {A : Type 0}
    → (Option (Text × IdleSummary) → Text)
    → Game
    → Result ℕ
    → (Text → ℕ → AccountSnapshot → Result A)
    → Actor
    → Tables
    → Option GameAccount
    → Outcome A
unfolding ensure_locked save_snapshot
locked_found digest game policy body actor t none = (t, raised Errors.account_not_found)
locked_found digest game policy body actor t (some row) =
    mutable_only t (require_mutable row)
      (with_resolution t (ensure_locked game t actor row) (enter digest game policy body t))

-- `_locked` with the body of its context, which has the token of the API, the version of the policy and
-- the snapshot. The body is run within the transaction.
unfoldable pub locked :
    {A : Type 0}
    → (Option (Text × IdleSummary) → Text)
    → Game
    → Result ℕ
    → (Text → ℕ → AccountSnapshot → Result A)
    → ℕ
    → Actor
    → Tables
    → Outcome A
unfolding get_for_update ensure_locked save_snapshot
locked digest game policy body account_id actor t =
    locked_found digest game policy body actor t (get_for_update account_id t)
