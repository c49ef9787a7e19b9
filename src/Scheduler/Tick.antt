-- ===== src/Scheduler/Tick.antt =====
-- `_error_code`, and `tick` and `_dispatch` of IdlePreviewScheduler (scheduler.py). The dispatches
-- of a tick run concurrently, but each ends in one transaction: they are taken in the order of
-- the claims. Other workers act between any two transactions of the tick. A cancelled tick is not
-- modelled.
pub mod Releases
pub mod Finishes
use placegame_mcp.Errors
use placegame_mcp.Errors.{Error, Result, ok, raised}
use placegame_mcp.Prelude.{
  ℕ, ◌+◌, Bool, true, false, Option, none, some, List, [], ◌∷◌, keep, any, length, if◌then◌else◌,
  String,
}
use placegame_mcp.Scheduler.Rows.{RunResult, failed, succeeded, Tables, seconds}
use placegame_mcp.Scheduler.Store.{StoreCall, calls}
use placegame_mcp.Scheduler.Lease.{acquire_lease, release_lease}
use placegame_mcp.Scheduler.Jobs.{SchedulerAccount, eligible, ensure_jobs}
use placegame_mcp.Scheduler.Runs.{ClaimedIdlePreviewRun, claim_due, finish_run}

unfoldable pub error_code : Error → String
error_code (Errors.application_error code) = code
error_code Errors.account_not_found = "account_not_found"
error_code Errors.account_identity_conflict = "account_identity_conflict"
error_code Errors.account_disabled = "account_disabled"
error_code Errors.account_paused = "account_paused"
error_code Errors.account_removed = "account_removed"
error_code Errors.authentication_required = "authentication_required"
error_code Errors.policy_unavailable = "policy_unavailable"
error_code Errors.reconciliation_required = "reconciliation_required"
error_code Errors.plan_precondition_failed = "plan_precondition_failed"
error_code Errors.session_rejected = "session_rejected"
error_code Errors.client_version_rejected = "game_client_version_rejected"
error_code Errors.contract_changed = "game_contract_changed"
error_code Errors.game_schema_mismatch = "game_contract_changed"
error_code Errors.inventory_full = "inventory_full"
error_code Errors.insufficient_resource = "insufficient_resource"
error_code (Errors.game_conflict code) = "game_conflict"
error_code Errors.game_rate_limited = "game_rate_limited"
error_code Errors.ambiguous_mutation = "ambiguous_mutation"
error_code Errors.game_unavailable = "game_unavailable"
error_code Errors.game_http_error = "game_unavailable"
error_code _ = "internal_error"

-- The part of an IdlePreview that a run records: whether to collect, and the plan.
pub record Preview : Type 0 where
  pub collect : Bool
  pub plan_id : Option ℕ

pub record IdlePreviewScheduler : Type 0 where
  pub worker_id : String
  pub interval_seconds : ℕ
  pub lease_seconds : ℕ
  pub closed : Bool

-- The transactions of the store that a tick makes itself.
pub data Transaction : Type 0 where
  acquiring : Transaction
  ensuring : Transaction
  claiming : Transaction
  releasing : Transaction

-- What a tick meets: the account service, the preview of each run, the clock when it has ended,
-- whether the database records it, and the jobs that another transaction has locked. A transaction
-- may raise, and is undone then. The calls of other workers come before a transaction, and before
-- the record of a run.
pub record World : Type 0 where
  pub list_accounts : Result (List SchedulerAccount)
  pub preview : ClaimedIdlePreviewRun → Result Preview
  pub clock : ClaimedIdlePreviewRun → ℕ
  pub recorded : ClaimedIdlePreviewRun → Bool
  pub locked : ℕ → Bool
  pub fault : Transaction → Option Error
  pub others : Transaction → List StoreCall
  pub meanwhile : ClaimedIdlePreviewRun → List StoreCall

unfoldable pub run_result : Result Preview → RunResult
unfolding error_code
run_result (raised e) = failed (error_code e)
run_result (ok p) = succeeded p.collect p.plan_id

-- A storage failure is logged, and the run stays as it was claimed.
unfoldable pub dispatch : IdlePreviewScheduler → World → ℕ → ClaimedIdlePreviewRun → Tables → Tables
unfolding run_result
dispatch scheduler world now claimed s =
    let s' = calls (world.meanwhile claimed) s in
    if world.recorded claimed
    then finish_run claimed (world.clock claimed) (now + seconds scheduler.interval_seconds)
        (run_result (world.preview claimed)) s'
    else s'

unfoldable pub dispatch_all :
    IdlePreviewScheduler → World → ℕ → List ClaimedIdlePreviewRun → Tables → Tables
unfolding dispatch
dispatch_all scheduler world now [] s = s
dispatch_all scheduler world now (c ∷ cs) s =
    dispatch_all scheduler world now cs (dispatch scheduler world now c s)

-- `claim_due` and the dispatches.
unfoldable pub tick_claims :
    List SchedulerAccount → IdlePreviewScheduler → World → ℕ → Tables → Tables × Result ℕ
unfolding dispatch_all
tick_claims accounts scheduler world now s =
    let s' = calls (world.others claiming) s in
    elim (world.fault claiming) [
      | some e ↦ (s', raised e)
      | none ↦
          let (s'', claimed) =
            claim_due now scheduler.worker_id scheduler.lease_seconds (eligible accounts)
              world.locked s' in
          (dispatch_all scheduler world now claimed s'', ok (length claimed))
    ]

-- The body of the `try`, given what `list_accounts` returned or raised.
unfoldable pub tick_body :
    Result (List SchedulerAccount) → IdlePreviewScheduler → World → ℕ → Tables → Tables × Result ℕ
unfolding tick_claims
tick_body (raised e) scheduler world now s = (s, raised e)
tick_body (ok accounts) scheduler world now s =
    let s' = calls (world.others ensuring) s in
    elim (world.fault ensuring) [
      | some e ↦ (s', raised e)
      | none ↦
          tick_claims accounts scheduler world now
            (ensure_jobs accounts now scheduler.interval_seconds s')
    ]

-- The lease is released on every way out of the `try`; an error of the release takes the place of
-- what the body returned or raised.
unfoldable pub tick_release : IdlePreviewScheduler → World → Tables × Result ℕ → Tables × Result ℕ
tick_release scheduler world body =
    let s' = calls (world.others releasing) body.0 in
    elim (world.fault releasing) [
      | some e ↦ (s', raised e)
      | none ↦ (release_lease scheduler.worker_id s', body.1)
    ]

unfoldable pub tick_open : IdlePreviewScheduler → World → ℕ → Tables → Tables × Result ℕ
unfolding tick_body tick_release
tick_open scheduler world now s =
    let s' = calls (world.others acquiring) s in
    elim (world.fault acquiring) [
      | some e ↦ (s', raised e)
      | none ↦
          let (s'', acquired) = acquire_lease scheduler.worker_id now scheduler.lease_seconds s' in
          if acquired
          then tick_release scheduler world (tick_body world.list_accounts scheduler world now s'')
          else (s'', ok 0)
    ]

unfoldable pub tick : IdlePreviewScheduler → World → ℕ → Tables → Tables × Result ℕ
unfolding tick_open
tick scheduler world now s = if scheduler.closed then (s, ok 0) else tick_open scheduler world now s
