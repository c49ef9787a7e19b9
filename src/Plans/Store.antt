-- ===== src/Plans/Store.antt =====
-- PostgresPlanStore (policy/plans.py): each method on the rows of action_plans. A method that raises
-- leaves the rows as they were, since its transaction is rolled back.
pub mod Transitions
pub mod Lifetime
pub mod Results
use placegame_mcp.Errors
use placegame_mcp.Errors.{Result, ok, raised}
use placegame_mcp.Prelude.{
  ℕ, ◌+◌, Bool, true, false, ◌&&◌, ◌||◌, not, Option, none, some, List, [], ◌∷◌, leb, ltb, ◌==◌,
  length, first, if◌then◌else◌,
}
use placegame_mcp.Prelude.Keys.{write_row}
use placegame_mcp.Text.{Text, Actor, text_eq, cut, joined, is_identifier_char}
use placegame_mcp.Plans.Rows.{
  ActionFamily, ActionPlan, Decision, EstimatedCosts, RiskClass, PlanState, pending, confirmed,
  executing, executed, failed, reconciliation_required, unknown, ResultValue, text, boolean,
  integer, negative, other, ExecutionResult, plan_valid, decision_valid, one_family, all_decisions,
  family_eq, is_fingerprint,
}

pub record Plans : Type 0 where
  pub rows : List ActionPlan
  pub next_id : ℕ

abbrev pub by_id : ℕ → ActionPlan → Bool
by_id plan_id p = p.id == plan_id

abbrev pub of_account : ℕ → ℕ → ActionPlan → Bool
of_account plan_id account_id p = p.id == plan_id && p.account_id == account_id

-- `_typed`: a row that does not validate raises pydantic's error.
unfoldable pub typed : ActionPlan → Result ActionPlan
unfolding plan_valid
typed row = if plan_valid row then ok row else raised Errors.value_error

pub record ActionPlanDraft : Type 0 where
  pub account_id : ℕ
  pub state_fingerprint : Text
  pub policy_version : ℕ
  pub decisions : List Decision
  pub estimated_costs : EstimatedCosts
  pub risk : RiskClass
  pub expires_at : ℕ
  pub confirmation_required : Bool
  pub family : ActionFamily

unfoldable pub draft_valid : ActionPlanDraft → Bool
unfolding is_fingerprint decision_valid one_family
draft_valid d =
    is_fingerprint d.state_fingerprint
    && leb 1 d.policy_version
    && all_decisions decision_valid d.decisions
    && one_family d.decisions
    && all_decisions (λ e. family_eq e.family d.family) d.decisions

abbrev pub new_plan : ActionPlanDraft → ℕ → ActionPlan
new_plan d id = record {
  id = id;
  account_id = d.account_id;
  state_fingerprint = d.state_fingerprint;
  policy_version = d.policy_version;
  proposed_actions = d.decisions;
  estimated_costs = d.estimated_costs;
  risk = d.risk;
  expires_at = d.expires_at;
  confirmation_required = d.confirmation_required;
  confirmed_at = none;
  confirmed_by = none;
  execution_state = pending;
  executed_at = none;
  execution_result = none;
  execution_owner = none;
  execution_started_at = none;
  execution_lease_expires_at = none;
  execution_attempt_count = 0;
}

-- The outcome of a method: the rows after it, and what it returns or raises.
abbrev pub Outcome : Type 0 → Type 0
Outcome A = Plans × Result A

-- The flush of a row that was read and changed.
abbrev pub write : ActionPlan → Plans → Plans
write row s = record s { rows = write_row (λ p. p.id) row s.rows }

-- The write is kept unless the row that comes back does not validate.
abbrev pub commit : ActionPlan → Result ActionPlan → Plans → Outcome ActionPlan
commit row (ok t) s = (write row s, ok t)
commit row (raised e) s = (s, raised e)

unfoldable pub create : ActionPlanDraft → Plans → Outcome ActionPlan
unfolding draft_valid typed
create draft s =
    if draft_valid draft
    then elim (typed (new_plan draft s.next_id)) [
      | ok t ↦ (record { rows = new_plan draft s.next_id ∷ s.rows; next_id = s.next_id + 1 }, ok t)
      | raised e ↦ (s, raised e)
    ]
    else (s, raised Errors.value_error)

unfoldable pub get_for_update : ℕ → ℕ → Plans → Outcome ActionPlan
unfolding typed
get_for_update plan_id account_id s = elim (first (of_account plan_id account_id) s.rows) [
  | none ↦ (s, raised Errors.plan_precondition_failed)
  | some row ↦ (s, typed row)
]

-- The characters of an actor that are no identifier characters become `_`.
unfoldable pub sanitize : Text → Text
unfolding is_identifier_char
sanitize [] = []
sanitize (c ∷ s) = (if is_identifier_char c then c else 95) ∷ sanitize s

unfoldable pub confirmed_by : Actor → Text
unfolding sanitize cut
confirmed_by actor = cut 128 (joined actor.kind (sanitize actor.actor_id))

abbrev pub is_pending : PlanState → Bool
is_pending pending = true
is_pending _ = false

abbrev pub as_confirmed : Actor → ℕ → ActionPlan → ActionPlan
as_confirmed actor now row = record row {
  execution_state = confirmed;
  confirmed_at = some now;
  confirmed_by = some (confirmed_by actor);
}

-- The clock is read twice, within one transaction; `now` is both readings.
unfoldable pub confirm : ℕ → ℕ → Actor → ℕ → Plans → Outcome ActionPlan
unfolding confirmed_by typed
confirm plan_id account_id actor now s = elim (first (of_account plan_id account_id) s.rows) [
  | none ↦ (s, raised Errors.plan_precondition_failed)
  | some row ↦
      if not (is_pending row.execution_state) || leb row.expires_at now
      then (s, raised Errors.plan_precondition_failed)
      else commit (as_confirmed actor now row) (typed (as_confirmed actor now row)) s
]

-- `expected_state`, which is checked to be pending or confirmed.
abbrev pub expects : PlanState → PlanState → Bool
expects pending pending = true
expects confirmed confirmed = true
expects _ _ = false

unfoldable pub mark_executing : ℕ → PlanState → ℕ → Plans → Outcome (Unit {0})
mark_executing plan_id expected_state now s = elim (first (by_id plan_id) s.rows) [
  | none ↦ (s, raised Errors.plan_precondition_failed)
  | some row ↦
      if not (expects expected_state row.execution_state)
        || leb row.expires_at now
        || (is_pending expected_state && row.confirmation_required)
      then (s, raised Errors.plan_precondition_failed)
      else (write (record row { execution_state = executing }) s, ok tt)
]

-- `safe[key] = value`
unfoldable pub put : Text → ResultValue → ExecutionResult → ExecutionResult
put k v [] = (k, v) ∷ []
put k v ((j, w) ∷ r) = if text_eq j k then (j, v) ∷ r else (j, w) ∷ put k v r

-- The value as it is stored, if it is of a type that is stored.
unfoldable pub stored : ResultValue → Option ResultValue
unfolding cut
stored (text s) = some (text (cut 256 s))
stored (boolean b) = some (boolean b)
stored (integer n) = some (integer n)
stored (negative n) = some (negative n)
stored other = none

unfoldable pub put_safe : Text → Option ResultValue → ExecutionResult → ExecutionResult
unfolding put cut
put_safe k none safe = safe
put_safe k (some v) safe = if ltb (length safe) 16 then put (cut 64 k) v safe else safe

unfoldable pub collect_safe : ExecutionResult → ExecutionResult → ExecutionResult
unfolding put_safe stored
collect_safe [] safe = safe
collect_safe ((k, v) ∷ r) safe = collect_safe r (put_safe k (stored v) safe)

abbrev pub is_terminal : PlanState → Bool
is_terminal executed = true
is_terminal failed = true
is_terminal reconciliation_required = true
is_terminal _ = false

abbrev pub is_open : PlanState → Bool
is_open pending = true
is_open confirmed = true
is_open executing = true
is_open _ = false

abbrev pub as_finished : PlanState → ExecutionResult → ℕ → ActionPlan → ActionPlan
as_finished status result now row = record row {
  execution_state = status;
  execution_result = some (collect_safe result []);
  executed_at = some now;
}

unfoldable pub finish : ℕ → PlanState → ExecutionResult → ℕ → Plans → Outcome (Unit {0})
unfolding collect_safe
finish plan_id status result now s =
    if is_terminal status
    then elim (first (by_id plan_id) s.rows) [
      | none ↦ (s, raised Errors.plan_precondition_failed)
      | some row ↦
          if is_terminal row.execution_state || not (is_open row.execution_state)
          then (s, raised Errors.plan_precondition_failed)
          else (write (as_finished status result now row) s, ok tt)
    ]
    else (s, raised Errors.plan_precondition_failed)
