-- ===== src/Policy/Engine.antt =====
-- PolicyEngine (policy/engine.py): the plan of each family of actions, from what the game answers.
-- `sha256_of` is the hexadecimal SHA-256 of `json.dumps`, `format_decimal` the library's text of a
-- number, `boss_preview` the game's answer to a preview.
pub mod Decisions
pub mod Valid
pub mod Built
mod Tests
use placegame_mcp.Errors
use placegame_mcp.Errors.{Result, ok, raised, ◌>>=◌}
use placegame_mcp.Prelude.{
  ℕ, ◌+◌, Bool, true, false, ◌&&◌, ◌||◌, not, Option, none, some, List, [], ◌∷◌, ltb, ◌==◌, keep,
  is_none, is_some_and, ◌⊎◌, inl, inr, if◌then◌else◌,
}
use placegame_mcp.Text.{Text, codes, text_eq}
use placegame_mcp.Plans.Rows.{
  ActionFamily, idle, personal_boss, ordinary_boss, world_boss, profession, Decision, selected,
  skipped, blocked, RiskClass, low, medium, high, BossChallenge, boss_challenge, idle_collect,
}
use placegame_mcp.Plans.Canonical
use placegame_mcp.Plans.Canonical.{Json, canonical_fingerprint}
use placegame_mcp.Plans.Store.{ActionPlanDraft}
use placegame_mcp.Idle.Planner.{IdleSummary, IdlePolicy, collects, collect_decision, five_minutes}
use placegame_mcp.Policy.Rewards
use placegame_mcp.Policy.Rewards.{RewardState, RewardPolicy}
use placegame_mcp.Policy.Professions.{ProfessionState, ProfessionPolicy, profession_decision}
use placegame_mcp.Policy.Worlds.{WorldBossInstance, WorldPolicy, world_decision}
use placegame_mcp.Policy.Bosses.Choices.{
  BossPreviewRequest, Preview, BossEntryState, BossState, BossPolicy, BossSelection,
}
use placegame_mcp.Policy.Bosses.{optimize}
use placegame_mcp.Policy.Versions.{VersionedPolicy}
use placegame_mcp.Policy.Projections.{
  dict, keyed, idle_fields, optional_number, boss_projection, world_projection,
  profession_projection,
}

-- The account and its policy; the API of LockedAccount is the game's answers, further arguments.
pub record LockedAccount : Type 0 where
  pub account_id : ℕ
  pub policy : VersionedPolicy

-- The parts of the policy that the planners read.
abbrev pub idle_policy : VersionedPolicy → IdlePolicy
idle_policy p = record {
  version = p.version;
  idle_threshold_minutes = p.policy.idle_threshold_minutes;
}

abbrev pub boss_policy : VersionedPolicy → BossPolicy
boss_policy p = record {
  boss_min_chance = p.policy.boss_min_chance;
  material_reserve = p.policy.material_reserve;
}

abbrev pub world_policy : VersionedPolicy → WorldPolicy
world_policy p = record {
  world_collaboration_enabled = p.policy.world_collaboration_enabled;
  world_attempts = p.policy.world_attempts;
}

abbrev pub profession_policy : VersionedPolicy → ProfessionPolicy
profession_policy p = record {
  profession_food_target = p.policy.profession_food_target;
  profession_potion_target = p.policy.profession_potion_target;
  profession_horizon_hours = p.policy.profession_horizon_hours;
}

abbrev pub reward_policy : VersionedPolicy → RewardPolicy
reward_policy p = record { version = p.version; safe_reward_claims = p.policy.safe_reward_claims }

abbrev pub unselected : ActionFamily → Bool → Text → Decision
unselected family is_blocked reason = record {
  family = family;
  reason = reason;
  state = if is_blocked then blocked else skipped;
  action = none;
}

abbrev pub is_personal : BossEntryState → Bool
is_personal e = text_eq e.type (codes "personal")

-- The entries that `build_ordinary_boss_plan` considers.
abbrev pub is_candidate : BossEntryState → Bool
is_candidate e =
    (text_eq e.type (codes "map") || text_eq e.type (codes "world"))
    && is_some_and (λ n. ltb 0 n) e.attempts
    && is_none e.blocked_reason

-- The decision of a selection, `BossOptimizer.optimize`'s.
abbrev pub personal_decision : BossSelection ⊎ Text → Decision
personal_decision (inl s) = record {
  family = personal_boss;
  reason = codes "boss_eligible";
  state = selected;
  action = some (boss_challenge s.action);
}
personal_decision (inr reason) = unselected personal_boss true reason

-- That decision, made one of the family `ordinary_boss`.
abbrev pub ordinary_decision : BossSelection ⊎ Text → Decision
ordinary_decision (inl s) = record {
  family = ordinary_boss;
  reason = codes "ordinary_boss_eligible";
  state = selected;
  action = some (boss_challenge (record s.action { family = ordinary_boss }));
}
ordinary_decision (inr reason) = unselected ordinary_boss true reason

abbrev pub chosen : BossSelection ⊎ Text → Option BossSelection
chosen (inl s) = some s
chosen (inr reason) = none

module _ (sha256_of : Json → Text) (locked : LockedAccount) (now : ℕ) where
  abbrev pub plan_of :
      ActionFamily → List Decision → RiskClass → Option Text → Option ActionPlanDraft
  plan_of family decisions risk none = none
  plan_of family decisions risk (some f) = some (record {
    account_id = locked.account_id;
    state_fingerprint = f;
    policy_version = locked.policy.version;
    decisions = decisions;
    estimated_costs = record { material = 0; attempts = 0; currency = 0 };
    risk = risk;
    expires_at = now + five_minutes;
    confirmation_required = false;
    family = family;
  })

  -- `_plan`, up to the identifier of the plan, which is new; `none` would be a TypeError.
  unfoldable pub plan : ActionFamily → List Decision → Json → RiskClass → Option ActionPlanDraft
  plan family decisions projection risk =
      plan_of family decisions risk (canonical_fingerprint sha256_of family keyed projection)

  unfoldable pub build_idle_plan : Result IdleSummary → Result (Option ActionPlanDraft)
  build_idle_plan answer = answer >>= λ summary.
      let collect = collects summary (idle_policy locked.policy) in
      let decision : Decision =
        if collect
        then collect_decision sha256_of
        else unselected idle false (codes "idle_threshold_not_reached") in
      ok (plan idle (decision ∷ []) (dict (idle_fields summary collect)) low)

  -- `idle_resolver` with `idle_projection`.
  unfoldable pub idle_resolver : Result IdleSummary → Result (Option Text)
  idle_resolver answer = answer >>= λ summary. ok (
      canonical_fingerprint sha256_of idle [] (
        dict (
          (codes "accumulatedSeconds", Canonical.integer summary.accumulated_seconds)
          ∷ (codes "capacitySeconds", optional_number summary.capacity_seconds)
          ∷ [])))

  unfoldable pub build_world_boss_plan :
      ℕ → ℕ → Result (List WorldBossInstance) → Result (Option ActionPlanDraft)
  build_world_boss_plan hour minute answer = answer >>= λ instances. ok (
      plan world_boss (world_decision (world_policy locked.policy) hour minute instances ∷ [])
        (world_projection instances) medium)

  unfoldable pub build_profession_plan :
      ℕ → Result ProfessionState → Result (Option ActionPlanDraft)
  build_profession_plan minute answer = answer >>= λ state. ok (
      plan profession (profession_decision minute state (profession_policy locked.policy) ∷ [])
        (profession_projection state) low)

  unfoldable pub safe_reward_plan : Result RewardState → Result (Option ActionPlanDraft)
  safe_reward_plan answer = answer >>= λ state.
      ok (Rewards.build sha256_of state (reward_policy locked.policy) locked.account_id now)

  module _ (format_decimal : ℕ → Text) (boss_preview : BossPreviewRequest → Result Preview) where
    unfoldable pub personal_plan : BossState → BossSelection ⊎ Text → Option ActionPlanDraft
    personal_plan state selection =
        plan personal_boss (personal_decision selection ∷ [])
          (boss_projection format_decimal state (chosen selection)) high

    unfoldable pub no_attempts : BossState → Option ActionPlanDraft
    no_attempts state =
        plan personal_boss
          (unselected personal_boss true (codes "personal_free_attempts_exhausted") ∷ [])
          (boss_projection format_decimal state none) low

    -- `if not personal.entries: raise`, and the optimizer on the entries that are left.
    unfoldable pub optimize_personal :
        BossState → List BossEntryState → Result (Option ActionPlanDraft)
    optimize_personal state [] = raised Errors.game_schema_mismatch
    optimize_personal state (e ∷ es) =
        let personal : BossState = record state { entries = e ∷ es } in
        optimize boss_preview personal (boss_policy locked.policy) >>= λ selection.
        ok (personal_plan personal selection)

    unfoldable pub build_personal_boss_plan : Result BossState → Result (Option ActionPlanDraft)
    build_personal_boss_plan answer = answer >>= λ state.
        if state.free_attempts == 0 && not locked.policy.policy.personal_paid_attempts
        then ok (no_attempts state)
        else optimize_personal state (keep is_personal state.entries)

    unfoldable pub ordinary_plan : BossState → BossSelection ⊎ Text → Option ActionPlanDraft
    ordinary_plan state selection =
        plan ordinary_boss (ordinary_decision selection ∷ [])
          (boss_projection format_decimal state (chosen selection)) high

    unfoldable pub optimize_ordinary :
        BossState → List BossEntryState → Result (Option ActionPlanDraft)
    optimize_ordinary state [] = ok (
        plan ordinary_boss
          (unselected ordinary_boss false (codes "no_ordinary_boss_available") ∷ [])
          (boss_projection format_decimal state none) low)
    optimize_ordinary state (e ∷ es) =
        let open_state : BossState = record state { entries = e ∷ es } in
        optimize boss_preview open_state (boss_policy locked.policy) >>= λ selection.
        ok (ordinary_plan open_state selection)

    unfoldable pub build_ordinary_boss_plan : Result BossState → Result (Option ActionPlanDraft)
    build_ordinary_boss_plan answer =
        answer >>= λ state. optimize_ordinary state (keep is_candidate state.entries)
