-- ===== src/Idle/Planner.antt =====
-- IdlePlanner, IdlePreviewStore and IdlePlanUseCase (application/idle.py).
pub mod Decisions
use placegame_mcp.Errors
use placegame_mcp.Errors.{Error, Result, ok, raised, ◌>>=◌, ◌>>◌}
use placegame_mcp.Prelude.{
  ℕ, ◌+◌, ◌*◌, Bool, true, false, Option, none, some, List, [], ◌∷◌, leb, min, if◌then◌else◌,
}
use placegame_mcp.Text.{Text, Actor, codes, require_identifier, audit_actor}
use placegame_mcp.Plans.Rows.{
  idle, Decision, selected, low, idle_collect, AuditEvent, boolean, text,
}
use placegame_mcp.Plans.Canonical
use placegame_mcp.Plans.Canonical.{Json, canonical_fingerprint}
use placegame_mcp.Plans.Store.{ActionPlanDraft, Plans, new_plan}

-- The part of game/schemas.py's IdleSummary that is read: its property `accumulated_seconds`, which
-- is a whole number, and its capacity.
pub record IdleSummary : Type 0 where
  pub accumulated_seconds : ℕ
  pub capacity_seconds : Option ℕ

-- The fields of policy/models.py's VersionedPolicy that the idle rules read.
pub record IdlePolicy : Type 0 where
  pub version : ℕ
  pub idle_threshold_minutes : ℕ

unfoldable pub threshold : IdlePolicy → IdleSummary → ℕ
threshold policy summary = elim summary.capacity_seconds [
  | none ↦ policy.idle_threshold_minutes * 60
  | some capacity ↦ min (policy.idle_threshold_minutes * 60) capacity
]

-- `decision(...) == "collect"`
unfoldable pub collects : IdleSummary → IdlePolicy → Bool
unfolding threshold
collects summary policy = leb (threshold policy summary) summary.accumulated_seconds

abbrev optional : Option ℕ → Json
optional none = Canonical.null
optional (some n) = Canonical.integer n

abbrev pub five_minutes : ℕ
five_minutes = 300000000

module _ (sha256_of : Json → Text) where
  -- `none` would be a TypeError, which this projection never gives.
  unfoldable pub fingerprint : IdleSummary → IdlePolicy → Option Text
  unfolding collects canonical_fingerprint
  fingerprint summary policy = canonical_fingerprint sha256_of idle [] (
      Canonical.object (
        Canonical.field (codes "capacitySeconds") (optional summary.capacity_seconds) (
          Canonical.field (codes "eligible") (Canonical.boolean (collects summary policy))
            Canonical.end)))

  abbrev pub collect_decision : Decision
  collect_decision = record {
    family = idle;
    reason = codes "idle_threshold_reached";
    state = selected;
    action = some idle_collect;
  }

  abbrev pub collect_draft : ℕ → Text → IdlePolicy → ℕ → ActionPlanDraft
  collect_draft account_id state_fingerprint policy now = record {
    account_id = account_id;
    state_fingerprint = state_fingerprint;
    policy_version = policy.version;
    decisions = collect_decision ∷ [];
    estimated_costs = record { material = 0; attempts = 0; currency = 0 };
    risk = low;
    expires_at = now + five_minutes;
    confirmation_required = false;
    family = idle;
  }

  unfoldable pub draft : ℕ → IdleSummary → IdlePolicy → ℕ → Option ActionPlanDraft
  draft account_id summary policy now =
      if collects summary policy
      then elim (fingerprint summary policy) [
        | none ↦ none
        | some f ↦ some (collect_draft account_id f policy now)
      ]
      else none
