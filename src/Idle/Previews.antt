-- ===== src/Idle/Previews.antt =====
-- IdlePreviewStore.save and IdlePlanUseCase.preview (application/idle.py): what the operator is shown,
-- and the pending plan that is stored with it.
pub mod Lifecycle
use placegame_mcp.Errors.{Error, Result, ok, raised, ◌>>=◌, ◌>>◌}
use placegame_mcp.Prelude.{ℕ, Bool, true, false, Option, none, some, List, [], ◌∷◌, if◌then◌else◌}
use placegame_mcp.Text.{Text, Actor, codes, require_identifier, audit_actor}
use placegame_mcp.Plans.Rows.{AuditEvent, ResultValue, text, integer, other, ExecutionResult}
use placegame_mcp.Plans.Canonical.{Json}
use placegame_mcp.Plans.Store.{ActionPlanDraft, new_plan}
use placegame_mcp.Idle.Claims.{Database}
use placegame_mcp.Idle.Planner.{IdleSummary, IdlePolicy, threshold, collects, draft}

-- What `accounts.locked` and the game give to one use of an account: the policy or why the account
-- cannot be used, the summary, and the release of the account's lock.
pub record Session : Type 0 where
  pub locked : Result IdlePolicy
  pub idle_summary : Result IdleSummary
  pub released : Result (Unit {0})

pub record IdlePreview : Type 0 where
  pub account_id : ℕ
  pub plan_id : Option ℕ
  pub collect : Bool
  pub accumulated_seconds : ℕ
  pub capacity_seconds : Option ℕ
  pub threshold_seconds : ℕ
  pub expires_at : Option ℕ
  pub reason : Text
  pub correlation_id : Text

abbrev optional : Option ℕ → ResultValue
optional none = other
optional (some n) = integer n

abbrev reason_of : Bool → Text
reason_of collect =
    if collect then codes "idle_threshold_reached" else codes "idle_threshold_not_reached"

-- The dictionary `preview`. An account's identifier is a number, so its text is one too; no key of
-- it is one that `redact` hides.
abbrev pub entries : ℕ → IdlePolicy → IdleSummary → ExecutionResult
entries account_id policy idle =
    (codes "decision", text (if collects idle policy then codes "collect" else codes "wait"))
    ∷ (codes "accumulatedSeconds", integer idle.accumulated_seconds)
    ∷ (codes "capacitySeconds", optional idle.capacity_seconds)
    ∷ (codes "thresholdSeconds", integer (threshold policy idle))
    ∷ (codes "reason", text (reason_of (collects idle policy)))
    ∷ (codes "accountId", integer account_id)
    ∷ []

abbrev preview_event : Text → Text → ℕ → Option ℕ → ExecutionResult → Text → AuditEvent
preview_event actor source account_id plan_id result correlation_id = record {
  actor = actor;
  source = source;
  account_id = some account_id;
  plan_id = plan_id;
  action = codes "idle.preview";
  result = result;
  before = none;
  after = none;
  correlation_id = some correlation_id;
}

-- The transaction of `save`: `fresh` is the identifier that a new row gets.
unfoldable pub save_rows :
    Option ActionPlanDraft
    → Text
    → Text
    → ℕ
    → ExecutionResult
    → Text
    → ℕ
    → Database
    → Database × Option ℕ
save_rows none actor source account_id preview correlation_id fresh db = (
  record db {
    audit = preview_event actor source account_id none preview correlation_id ∷ db.audit;
  },
  none,
)
save_rows (some d) actor source account_id preview correlation_id fresh db = (
  record {
    plans = new_plan d fresh ∷ db.plans;
    audit = preview_event actor source d.account_id (some fresh) preview correlation_id ∷ db.audit;
  },
  some fresh,
)

-- `account_id` is the one in the preview.
unfoldable pub save :
    Option ActionPlanDraft
    → Actor
    → ℕ
    → ExecutionResult
    → Text
    → ℕ
    → Database
    → Database × Result (Option ℕ)
unfolding save_rows
save d actor account_id preview correlation_id fresh db =
    elim (require_identifier correlation_id >> audit_actor actor) [
      | raised e ↦ (db, raised e)
      | ok value ↦
          let out = save_rows d value actor.kind account_id preview correlation_id fresh db in
          (out.0, ok out.1)
    ]

abbrev pub shown :
    ℕ → IdlePolicy → IdleSummary → Option ActionPlanDraft → Text → Option ℕ → IdlePreview
shown account_id policy idle d correlation_id plan_id = record {
  account_id = account_id;
  plan_id = plan_id;
  collect = collects idle policy;
  accumulated_seconds = idle.accumulated_seconds;
  capacity_seconds = idle.capacity_seconds;
  threshold_seconds = threshold policy idle;
  expires_at = elim d [ none ↦ none | some e ↦ some e.expires_at ];
  reason = reason_of (collects idle policy);
  correlation_id = correlation_id;
}

-- What is read under the account's lock.
abbrev pub read_session : Session → Result (IdlePolicy × IdleSummary)
read_session session = session.locked >>= λ policy.
    session.idle_summary >>= λ idle. session.released >> ok (policy, idle)

unfoldable pub preview_of :
    Option ActionPlanDraft
    → ℕ
    → Actor
    → Text
    → ℕ
    → IdlePolicy
    → IdleSummary
    → Database
    → Database × Result IdlePreview
unfolding save
preview_of d account_id actor correlation_id fresh policy idle db =
    let out = save d actor account_id (entries account_id policy idle) correlation_id fresh db in
    (out.0, out.1 >>= λ plan_id. ok (shown account_id policy idle d correlation_id plan_id))

unfoldable pub preview :
    (Json → Text) → Session → ℕ → Actor → Text → ℕ → ℕ → Database → Database × Result IdlePreview
unfolding preview_of
preview sha256_of session account_id actor correlation_id now fresh db =
    elim (require_identifier correlation_id >> read_session session) [
      | raised e ↦ (db, raised e)
      | ok (policy, idle) ↦
          preview_of (draft sha256_of account_id idle policy now) account_id actor correlation_id
            fresh policy idle db
    ]
