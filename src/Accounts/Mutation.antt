-- ===== src/Accounts/Mutation.antt =====
-- `AccountService.mutate` (accounts/service.py): the checks before the operation is sent. A cancellation
-- that arrives before is left out.
pub mod Handling
pub mod Loop
pub mod Endings
pub mod Prepared
pub mod Success
pub mod Fate
pub mod Attempts
use placegame_mcp.Errors
use placegame_mcp.Errors.{Error, Result, ok, raised, ◌>>=◌, ◌>>◌}
use placegame_mcp.Prelude.{
  ℕ, zero, suc, ◌+◌, Bool, true, false, ◌&&◌, ◌||◌, not, Option, none, some, List, [], ◌∷◌, leb,
  ◌==◌, is_none, first, length, if◌then◌else◌,
}
use placegame_mcp.Text.{Text, Actor, text_eq}
use placegame_mcp.Idle.Planner.{IdleSummary}
use placegame_mcp.Plans.Rows.{ActionPlan, PlanState, pending, confirmed}
use placegame_mcp.Plans.Store.{by_id, is_pending}
use placegame_mcp.Accounts.Rows.{GameAccount, AccountSnapshot, Tables, get_for_update, write}
use placegame_mcp.Accounts.Session.{Game}
use placegame_mcp.Accounts.Session.Resolve.{Resolution, ensure_locked}
use placegame_mcp.Accounts.Lifecycle.{Outcome, require_mutable}
use placegame_mcp.Accounts.Snapshots.{save_snapshot}

-- What a call answers that may be cancelled.
pub data Reply (A : Type 0) : Type 0 where
  returned : A → Reply A
  raises : Error → Reply A
  cancelled : Reply A

-- The arguments of `mutate`, with what they and the game answer in each attempt. A fingerprint is `none`
-- where the resolver returns no string, and `reread` is the bootstrap after the operation.
pub record Mutation (A : Type 0) : Type 0 where
  pub plan_id : Option ℕ
  pub state_fingerprint : Option (ℕ → Result (Option Text))
  pub operation : ℕ → Reply A
  pub verify : Option (ℕ → Option A → Reply Bool)
  pub reread : ℕ → Reply (Unit {0})
  pub policy : ℕ → Result ℕ
  pub game : ℕ → Game
  pub digest : Option (Text × IdleSummary) → Text

-- `validated_account_id`, `validated_plan_id` and `send_started`, with the tables.
pub record Progress : Type 0 where
  pub tables : Tables
  pub account : Option ℕ
  pub plan : Option ℕ
  pub sent : Bool

abbrev pub begun : Tables → Progress
begun t = record { tables = t; account = none; plan = none; sent = false }

abbrev pub Step : Type 0
Step = Progress × Result (Unit {0})

abbrev pub is_confirmed : PlanState → Bool
is_confirmed confirmed = true
is_confirmed _ = false

-- The test of `_check_plan`.
unfoldable pub plan_usable : ℕ → ℕ → ActionPlan → Bool
plan_usable now policy_version plan =
    not (leb plan.expires_at now)
    && (is_pending plan.execution_state || is_confirmed plan.execution_state)
    && not (plan.confirmation_required && is_none plan.confirmed_at)
    && plan.policy_version == policy_version

abbrev pub matches : ActionPlan → Option Text → Bool
matches plan none = false
matches plan (some fingerprint) =
    leb 1 (length fingerprint)
    && leb (length fingerprint) 128
    && text_eq fingerprint plan.state_fingerprint

abbrev pub require : Bool → Result (Unit {0})
require true = ok tt
require false = raised Errors.plan_precondition_failed

unfoldable pub check_fingerprint :
    ActionPlan → ℕ → Option (ℕ → Result (Option Text)) → Result (Unit {0})
check_fingerprint plan attempt none = raised Errors.plan_precondition_failed
check_fingerprint plan attempt (some resolver) =
    resolver attempt >>= λ resolved. require (matches plan resolved)

module _ {A : Type 0} (m : Mutation A) (actor : Actor) (attempt : ℕ) where
  -- The plan that the identifier finds.
  unfoldable pub check_candidate : ℕ → ℕ → ℕ → Progress → Option ActionPlan → Step
  unfolding plan_usable check_fingerprint
  check_candidate plan_id account_id version p none = (p, raised Errors.plan_precondition_failed)
  check_candidate plan_id account_id version p (some plan) =
      if plan.account_id == account_id
      then (
        record p { plan = some plan_id },
        require (plan_usable (m.game attempt).now version plan)
            >> check_fingerprint plan attempt m.state_fingerprint,
      )
      else (p, raised Errors.plan_precondition_failed)

  unfoldable pub check_plan : ℕ → Progress → Option ℕ → Result ℕ → Step
  unfolding check_candidate
  check_plan account_id p plan_id (raised e) = (p, raised e)
  check_plan account_id p none (ok version) = (p, ok tt)
  check_plan account_id p (some plan_id) (ok version) =
      check_candidate plan_id account_id version p (first (by_id plan_id) p.tables.plans.rows)

  unfoldable pub after_snapshot : ℕ → Progress → Outcome AccountSnapshot → Step
  unfolding check_plan
  after_snapshot account_id p (t, raised e) = (record p { tables = t }, raised e)
  after_snapshot account_id p (t, ok s) =
      check_plan account_id (record p { tables = t }) m.plan_id (m.policy attempt)

  unfoldable pub with_api : ℕ → Progress → Resolution → Option (Text × Text) → Step
  unfolding after_snapshot save_snapshot
  with_api account_id p r none = (p, raised Errors.authentication_required)
  with_api account_id p r (some api) =
      after_snapshot account_id p (save_snapshot m.digest (m.game attempt) r p.tables)

  unfoldable pub after_session : ℕ → Progress → Result Resolution → Step
  unfolding with_api
  after_session account_id p (raised e) = (p, raised e)
  after_session account_id p (ok r) =
      with_api account_id (record p { tables = write r.work.row r.work.events p.tables }) r r.api

  unfoldable pub if_mutable : GameAccount → Progress → Result (Unit {0}) → Step
  unfolding after_session ensure_locked
  if_mutable row p (raised e) = (p, raised e)
  if_mutable row p (ok u) =
      after_session row.id p (ensure_locked (m.game attempt) p.tables actor row)

  unfoldable pub prepare_row : Tables → Option GameAccount → Step
  unfolding if_mutable
  prepare_row t none = (begun t, raised Errors.account_not_found)
  prepare_row t (some row) =
      if_mutable row (record (begun t) { account = some row.id }) (require_mutable row)

  -- An attempt up to the sending of the operation. The source reads the plan without a row lock; no
  -- other transaction changes it here between its check and its being marked as executing.
  unfoldable pub prepare : ℕ → Tables → Step
  unfolding prepare_row get_for_update
  prepare account_id t = prepare_row t (get_for_update account_id t)
