-- ===== src/Idle/Execute.antt =====
-- IdleExecuteUseCase (application/idle.py): a claimed plan is sent to the game once, or recovered.
pub mod Outcomes
pub mod Once
use placegame_mcp.Errors
use placegame_mcp.Errors.{Error, Result, ok, raised}
use placegame_mcp.Prelude.{
  ℕ, Bool, true, false, ◌&&◌, ◌||◌, not, Option, none, some, List, [], ◌∷◌, leb, ltb, ◌==◌,
  if◌then◌else◌, is_some_and,
}
use placegame_mcp.Text.{Text, Actor, codes, is_identifier, text_eq}
use placegame_mcp.Plans.Rows.{
  PlanState, executed, failed, reconciliation_required, ExecutionResult, text, boolean,
}
use placegame_mcp.Plans.Canonical.{Json}
use placegame_mcp.Idle.Planner.{IdleSummary, IdlePolicy, collects, fingerprint}
use placegame_mcp.Idle.Claims.{Database, Claim, Request, claim, owned, finish}

-- What an execution meets. `lock` is the guard's lock, which is free or not; `locked` is the policy
-- of the account, or why the account cannot be used; `released` is the release of the account.
-- The three summaries are read before the collect request, after it, and after a failure of either.
-- `others` is what other transactions do between the claim and the check that it is still owned, and
-- `meanwhile` what they do from there to the end.
pub record World : Type 0 where
  pub lock : Bool
  pub locked : Result IdlePolicy
  pub before : Result IdleSummary
  pub idle_collect : Result Bool
  pub after : Result IdleSummary
  pub current : Result IdleSummary
  pub released : Result (Unit {0})
  pub others : Database → Database
  pub meanwhile : Database → Database
  pub finished_at : ℕ

pub data Status : Type 0 where
  as_executed as_reconciled : Status

pub record IdleExecution : Type 0 where
  pub account_id : ℕ
  pub plan_id : ℕ
  pub status : Status
  pub applied : Bool
  pub reconciled : Bool
  pub collected : Bool
  pub correlation_id : Text

-- The number of collect requests, the tables, and what is returned or raised.
pub record Run : Type 0 where
  pub sends : ℕ
  pub tables : Database
  pub result : Result IdleExecution

pub data Outcome : Type 0 where
  precondition_failed : Outcome
  done : Outcome
  reconciled : Outcome
  unproven : Outcome

-- The policy is still the one of the plan, and there is nothing more to collect.
unfoldable pub proven : Claim → IdlePolicy → IdleSummary → Bool
proven c policy idle = policy.version == c.plan.policy_version && not (collects idle policy)

-- The `except` branch.
unfoldable pub after_failure : World → Claim → IdlePolicy → Outcome
unfolding proven
after_failure w c policy = elim w.current [
  | raised e ↦ unproven
  | ok current ↦ if proven c policy current then reconciled else unproven
]

unfoldable pub after_send : World → Claim → IdlePolicy → IdleSummary → Outcome
unfolding after_failure
after_send w c policy before = elim w.idle_collect [
  | raised e ↦ after_failure w c policy
  | ok collected ↦ elim w.after [
    | raised e ↦ after_failure w c policy
    | ok after ↦
        if not collected || leb before.accumulated_seconds after.accumulated_seconds
        then unproven
        else done
  ]
]

-- The outcomes after which the caller has an answer; each finishes the plan with its status.
abbrev pub status_of : Outcome → PlanState
status_of precondition_failed = failed
status_of done = executed
status_of reconciled = executed
status_of unproven = reconciliation_required

abbrev proof_result : Bool → ExecutionResult
proof_result r =
    (codes "status", text (codes "executed"))
    ∷ (codes "reconciled", boolean r)
    ∷ (codes "collected", boolean true)
    ∷ []

abbrev pub result_of : Outcome → ExecutionResult
result_of precondition_failed = (codes "status", text (codes "precondition_failed")) ∷ []
result_of done = proof_result false
result_of reconciled = proof_result true
result_of unproven = (codes "status", text (codes "reconciliation_required")) ∷ []

abbrev execution : Status → Bool → Bool → Request → Claim → IdleExecution
execution status applied by_proof r c = record {
  account_id = r.account_id;
  plan_id = c.plan.id;
  status = status;
  applied = applied;
  reconciled = by_proof;
  collected = true;
  correlation_id = r.correlation_id;
}

-- `applied` is false for a recovery.
abbrev pub answer : Outcome → Bool → Request → Claim → Result IdleExecution
answer precondition_failed applied r c = raised Errors.plan_precondition_failed
answer done applied r c = ok (execution as_executed applied false r c)
answer reconciled applied r c = ok (execution as_reconciled applied true r c)
answer unproven applied r c = raised Errors.idle_reconciliation_required

abbrev pub concluded :
    Request
    → Claim
    → Outcome
    → Bool
    → Database × Result (Unit {0})
    → Database × Result IdleExecution
concluded r c outcome applied (db, raised e) = (db, raised e)
concluded r c outcome applied (db, ok u) = (db, answer outcome applied r c)

-- `finish`, then what the outcome returns or raises.
unfoldable pub conclude :
    World → Request → Claim → Outcome → Bool → Database → Database × Result IdleExecution
conclude w r c outcome applied db =
    concluded r c outcome applied
      (finish c (status_of outcome) r w.finished_at (result_of outcome) db)

-- The release of the account, and then the conclusion.
unfoldable pub leave : World → Request → Claim → ℕ → Outcome → Bool → Database → Run
unfolding conclude
leave w r c sends outcome applied db = elim w.released [
  | raised e ↦ record { sends = sends; tables = db; result = raised e }
  | ok u ↦
      let out = conclude w r c outcome applied db in
      record { sends = sends; tables = out.0; result = out.1 }
]

abbrev pub stopped : Database → Error → Run
stopped db e = record { sends = 0; tables = db; result = raised e }

-- `fingerprint` never gives `none`.
abbrev pub matches : Option Text → Text → Bool
matches o s = is_some_and (λ f. text_eq f s) o

module _ (sha256_of : Json → Text) where
  -- The collect request may be sent.
  unfoldable pub may_send : Request → Claim → IdlePolicy → IdleSummary → Database → Bool
  may_send r c policy before db =
      owned r.account_id c.plan.id c.owner db
      && policy.version == c.plan.policy_version
      && matches (fingerprint sha256_of before policy) c.plan.state_fingerprint

  unfoldable pub send_once : World → Request → Claim → Database → Run
  unfolding may_send after_send leave
  send_once w r c db = elim w.locked [
    | raised e ↦ stopped (w.others db) e
    | ok policy ↦ elim w.before [
      | raised e ↦ stopped (w.others db) e
      | ok before ↦
          if may_send r c policy before (w.others db)
          then leave w r c 1 (after_send w c policy before) true (w.meanwhile (w.others db))
          else leave w r c 0 precondition_failed true (w.meanwhile (w.others db))
    ]
  ]

  unfoldable pub recover : World → Request → Claim → Database → Run
  unfolding proven leave
  recover w r c db = elim w.locked [
    | raised e ↦ stopped (w.others db) e
    | ok policy ↦ elim w.before [
      | raised e ↦ stopped (w.others db) e
      | ok current ↦
          leave w r c 0 (if proven c policy current then reconciled else unproven) false
            (w.meanwhile (w.others db))
    ]
  ]

  -- After the claim.
  unfoldable pub execute_claim : World → Request → Claim → Database → Run
  unfolding send_once recover
  execute_claim w r c db = if c.recovery then recover w r c db else send_once w r c db

  unfoldable pub execute : World → Request → Database → Run
  unfolding execute_claim
  execute w r db =
      if not (is_identifier r.correlation_id)
      then stopped db Errors.value_error
      else if not w.lock
      then stopped db Errors.plan_in_progress
      else elim (claim r db).1 [
        | raised e ↦ stopped (claim r db).0 e
        | ok c ↦ execute_claim w r c (claim r db).0
      ]
