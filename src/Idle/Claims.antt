-- ===== src/Idle/Claims.antt =====
-- IdleExecutionClaims (application/idle.py): who executes a plan. A method that raises leaves the
-- tables as they were, since its transaction is rolled back.
pub mod Ownership
pub mod History
pub mod Firsts
pub mod Endings
use placegame_mcp.Errors
use placegame_mcp.Errors.{Error, Result, ok, raised}
use placegame_mcp.Prelude.{
  ℕ, ◌+◌, Bool, true, false, ◌&&◌, ◌||◌, not, Option, none, some, List, [], ◌∷◌, leb, ltb, ◌==◌,
  first, is_some_and, if◌then◌else◌,
}
use placegame_mcp.Prelude.Keys.{write_row}
use placegame_mcp.Text.{Text, Actor, codes, is_identifier, require_identifier, audit_actor}
use placegame_mcp.Plans.Rows.{
  ActionPlan, AuditEvent, Decision, DecisionState, selected, RegisteredAction, idle_collect,
  ActionFamily, idle, family_eq, PlanState, pending, confirmed, executing, RiskClass, low,
  ResultValue, text, ExecutionResult,
}
use placegame_mcp.Plans.Store.{by_id, of_account}

pub record Database : Type 0 where
  pub plans : List ActionPlan
  pub audit : List AuditEvent

pub record Claim : Type 0 where
  pub owner : ℕ
  pub plan : ActionPlan
  pub recovery : Bool

abbrev pub is_executing : PlanState → Bool
is_executing executing = true
is_executing _ = false

abbrev pub is_claimable : PlanState → Bool
is_claimable pending = true
is_claimable confirmed = true
is_claimable _ = false

abbrev is_low : RiskClass → Bool
is_low low = true
is_low _ = false

abbrev is_selected : DecisionState → Bool
is_selected selected = true
is_selected _ = false

abbrev is_idle_collect : Option RegisteredAction → Bool
is_idle_collect (some idle_collect) = true
is_idle_collect _ = false

-- The one decision that a plan of this use case has.
unfoldable pub idle_decision : List Decision → Bool
idle_decision (d ∷ []) = family_eq d.family idle && is_selected d.state && is_idle_collect d.action
idle_decision _ = false

-- `_validate_fresh` does not raise.
unfoldable pub is_fresh : ActionPlan → ℕ → Bool
unfolding idle_decision
is_fresh plan now =
    is_claimable plan.execution_state
    && ltb now plan.expires_at
    && is_low plan.risk
    && not plan.confirmation_required
    && idle_decision plan.proposed_actions

abbrev pub two_minutes : ℕ
two_minutes = 120000000

abbrev pub claim_event : Text → Text → ℕ → ℕ → Text → Text → AuditEvent
claim_event actor source account_id plan_id correlation_id status = record {
  actor = actor;
  source = source;
  account_id = some account_id;
  plan_id = some plan_id;
  action = codes "idle.execute.claim";
  result = (codes "status", text status) ∷ [];
  before = none;
  after = none;
  correlation_id = some correlation_id;
}

abbrev pub save : ActionPlan → AuditEvent → Database → Database
save plan event db = record {
  plans = write_row (λ p. p.id) plan db.plans;
  audit = event ∷ db.audit;
}

abbrev pub retaken : ℕ → ℕ → ActionPlan → ActionPlan
retaken owner now plan = record plan {
  execution_owner = some owner;
  execution_started_at = some now;
  execution_lease_expires_at = some (now + two_minutes);
}

abbrev pub taken : ℕ → ℕ → ActionPlan → ActionPlan
taken owner now plan = record plan {
  execution_state = executing;
  execution_owner = some owner;
  execution_started_at = some now;
  execution_lease_expires_at = some (now + two_minutes);
  execution_attempt_count = plan.execution_attempt_count + 1;
}

-- Who claims, and how: `owner` is the fresh identifier of the claim.
pub record Request : Type 0 where
  pub account_id : ℕ
  pub plan_id : ℕ
  pub actor : Actor
  pub correlation_id : Text
  pub recovery : Bool
  pub owner : ℕ
  pub now : ℕ

abbrev pub lease_runs : ActionPlan → ℕ → Bool
lease_runs plan now = is_some_and (λ t. ltb now t) plan.execution_lease_expires_at

-- The transaction, once the plan has been read.
unfoldable pub claim_plan : Request → Text → ActionPlan → Database → Database × Result Claim
unfolding is_fresh
claim_plan r actor plan db =
    if is_executing plan.execution_state
    then if lease_runs plan r.now
      then (db, raised Errors.plan_in_progress)
      else if not r.recovery
      then (db, raised Errors.plan_in_progress)
      else (
        save (retaken r.owner r.now plan)
            (claim_event actor r.actor.kind r.account_id r.plan_id r.correlation_id
              (codes "recovery"))
            db,
        ok (record { owner = r.owner; plan = retaken r.owner r.now plan; recovery = true }),
      )
    else if is_fresh plan r.now
    then (
      save (taken r.owner r.now plan)
          (claim_event actor r.actor.kind r.account_id r.plan_id r.correlation_id (codes "claimed"))
          db,
      ok (record { owner = r.owner; plan = taken r.owner r.now plan; recovery = false }),
    )
    else (db, raised Errors.plan_precondition_failed)

unfoldable pub claim : Request → Database → Database × Result Claim
unfolding claim_plan
claim r db =
    if is_identifier r.correlation_id
    then elim (audit_actor r.actor) [
      | raised e ↦ (db, raised e)
      | ok actor ↦ elim (first (of_account r.plan_id r.account_id) db.plans) [
        | none ↦ (db, raised Errors.plan_precondition_failed)
        | some plan ↦ claim_plan r actor plan db
      ]
    ]
    else (db, raised Errors.value_error)

abbrev pub owns : ℕ → ActionPlan → Bool
owns owner plan =
    is_executing plan.execution_state && is_some_and (λ o. o == owner) plan.execution_owner

unfoldable pub owned : ℕ → ℕ → ℕ → Database → Bool
owned account_id plan_id owner db =
    is_some_and (owns owner) (first (of_account plan_id account_id) db.plans)

abbrev pub ended : PlanState → ExecutionResult → ℕ → ActionPlan → ActionPlan
ended status result now plan = record plan {
  execution_state = status;
  execution_result = some result;
  executed_at = some now;
}

abbrev pub finish_event : Text → Text → ActionPlan → ExecutionResult → Text → AuditEvent
finish_event actor source plan result correlation_id = record {
  actor = actor;
  source = source;
  account_id = some plan.account_id;
  plan_id = some plan.id;
  action = codes "idle.execute.finish";
  result = result;
  before = none;
  after = none;
  correlation_id = some correlation_id;
}

-- The results that are recorded are short and have no key that `redact` hides: they are kept whole.
unfoldable pub finish :
    Claim → PlanState → Request → ℕ → ExecutionResult → Database → Database × Result (Unit {0})
finish c status r now result db = elim (audit_actor r.actor) [
  | raised e ↦ (db, raised e)
  | ok actor ↦ elim (first (by_id c.plan.id) db.plans) [
    | none ↦ (db, raised Errors.plan_precondition_failed)
    | some plan ↦
        if owns c.owner plan
        then (
          save (ended status result now plan)
              (finish_event actor r.actor.kind plan result r.correlation_id) db,
          ok tt,
        )
        else (db, raised Errors.plan_precondition_failed)
  ]
]
