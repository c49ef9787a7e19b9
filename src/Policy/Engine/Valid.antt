-- ===== src/Policy/Engine/Valid.antt =====
-- The plans of PolicyEngine (policy/engine.py) pass the validators of the plan model.
use placegame_mcp.Errors
use placegame_mcp.Errors.{Result, ok, raised, ◌>>=◌}
use placegame_mcp.Prelude.{
  ℕ, ◌+◌, ◌≤◌, ◌≡◌, refl, arith, true, false, Option, none, some, List, [], ◌∷◌, ◌++◌, keep, leb,
  All, ◌⊎◌,
}
use placegame_mcp.Text.{Text, codes}
use placegame_mcp.Plans.Rows.{
  ActionFamily, idle, personal_boss, world_boss, profession, safe_reward, Decision, RiskClass, low,
  medium, is_fingerprint,
}
use placegame_mcp.Plans.Canonical.{Json}
use placegame_mcp.Plans.Store.{ActionPlanDraft, draft_valid}
use placegame_mcp.Idle.Planner.{IdleSummary, collects, five_minutes}
use placegame_mcp.Idle.Planner.Decisions.{IsDigest, prefix_digest}
use placegame_mcp.Policy.Fitting.{Fits, Fits-valid, Fits-one_family}
use placegame_mcp.Policy.Rewards
use placegame_mcp.Policy.Rewards.{RewardState, projection, reward_keyed}
use placegame_mcp.Policy.Rewards.Choice.{decisions-Fits}
use placegame_mcp.Policy.Professions.{ProfessionState, profession_decision}
use placegame_mcp.Policy.Worlds.{WorldBossInstance, world_decision}
use placegame_mcp.Policy.Bosses.Choices.{BossState}
use placegame_mcp.Policy.Bosses.Answered.{Returns}
use placegame_mcp.Policy.Projections.{
  keyed, dict, idle_fields, world_projection, profession_projection,
}
use placegame_mcp.Policy.Projections.Accepted.{project-fingerprint}
use placegame_mcp.Policy.Projections.Succeeding.{Accepted}
use placegame_mcp.Policy.Projections.States.{
  idle-Accepted, world-Accepted, profession-Accepted, reward-Accepted,
}
use placegame_mcp.Policy.Engine.{
  LockedAccount, idle_policy, world_policy, profession_policy, reward_policy, is_personal, plan,
  build_idle_plan, build_world_boss_plan, build_profession_plan, safe_reward_plan,
}
use placegame_mcp.Policy.Engine.Decisions.{world_decision-Fits, profession_decision-Fits, idle-Fits}

module _ (sha256_of : Json → Text) (locked : LockedAccount) (now : ℕ) where
  -- The plan is there, passes the validators, is the account's, of this family and of this version of
  -- the policy, and expires in five minutes.
  abbrev pub IsPlan : ActionFamily → Option ActionPlanDraft → Type 0
  IsPlan family none = ⊥
  IsPlan family (some p) =
      (draft_valid p ≡ true)
      × (p.family ≡ family)
      × (p.account_id ≡ locked.account_id)
      × (p.policy_version ≡ locked.policy.version)
      × (p.expires_at ≡ now + five_minutes)

  -- Without an entry of its kind, the optimizer is not asked.
  abbrev pub PersonalOutcome : BossState → Result (Option ActionPlanDraft) → Type 0
  PersonalOutcome state r =
      Returns (IsPlan personal_boss) r
      ⊎ ((keep is_personal state.entries ≡ []) × (r ≡ raised Errors.game_schema_mismatch))

  module _ (hex : (j : Json) → IsDigest (sha256_of j)) (numbered : 1 ≤ locked.policy.version) where
    draft-valid :
        (d : Decision) (ds : List Decision) (f : Text) (p : ActionPlanDraft)
        → All (Fits p.family) (d ∷ ds)
        → is_fingerprint f ≡ true
        → p.state_fingerprint ≡ f
        → p.policy_version ≡ locked.policy.version
        → p.decisions ≡ d ∷ ds
        → draft_valid p ≡ true
    unfolding draft_valid
    draft-valid d ds f p fits print a b c =
        let (x, y) = Fits-valid p.family (d ∷ ds) fits in
        let z = Fits-one_family p.family d ds fits in
        let v : leb 1 locked.policy.version ≡ true = ground (arith, numbered) in
        rw (a, b, c, print, v) (ground (arith, x, y, z))

    pub plan-IsPlan :
        (family : ActionFamily) (d : Decision) (j : Json) (risk : RiskClass)
        → Fits family d
        → Accepted keyed [] j
        → IsPlan family (plan sha256_of locked now family (d ∷ []) j risk)
    unfolding plan
    plan-IsPlan family d j risk fits (p, e) =
        let (q, h) = project-fingerprint sha256_of family keyed j p e in
        let print = prefix_digest sha256_of (sha256_of q) (hex q) in
        rw h (
          draft-valid d [] (codes "pgfp:v1:" ++ sha256_of q) _ (fits, tt) print refl refl refl,
          refl,
          refl,
          refl,
          refl,
        )

    pub idle-IsPlan :
        (summary : IdleSummary)
        → Returns (IsPlan idle) (build_idle_plan sha256_of locked now (ok summary))
    unfolding build_idle_plan
    idle-IsPlan summary =
        let collect = collects summary (idle_policy locked.policy) in
        plan-IsPlan idle _ (dict (idle_fields summary collect)) low (idle-Fits sha256_of collect)
          (idle-Accepted summary collect)

    pub world_boss-IsPlan :
        (hour minute : ℕ) (is : List WorldBossInstance)
        → Returns
            (IsPlan world_boss)
            (build_world_boss_plan sha256_of locked now hour minute (ok is))
    unfolding build_world_boss_plan
    world_boss-IsPlan hour minute is =
        plan-IsPlan world_boss (world_decision (world_policy locked.policy) hour minute is)
          (world_projection is) medium
          (world_decision-Fits (world_policy locked.policy) hour minute is) (world-Accepted is)

    pub profession-IsPlan :
        (minute : ℕ) (state : ProfessionState)
        → Returns (IsPlan profession) (build_profession_plan sha256_of locked now minute (ok state))
    unfolding build_profession_plan
    profession-IsPlan minute state =
        plan-IsPlan profession (profession_decision minute state (profession_policy locked.policy))
          (profession_projection state) low
          (profession_decision-Fits minute state (profession_policy locked.policy))
          (profession-Accepted state)

    rewards-IsPlan :
        (state : RewardState) (d : Decision) (ds : List Decision)
        → All (Fits safe_reward) (d ∷ ds)
        → Rewards.or_none
            (Rewards.decide_all state (reward_policy locked.policy) false state.candidates)
          ≡ d ∷ ds
        → Returns (IsPlan safe_reward) (safe_reward_plan sha256_of locked now (ok state))
    unfolding safe_reward_plan Rewards.build
    rewards-IsPlan state d ds fits e =
        let (j, a) = reward-Accepted state in
        let (q, h) =
          project-fingerprint sha256_of safe_reward reward_keyed (projection state) j a in
        let print = prefix_digest sha256_of (sha256_of q) (hex q) in
        rw (h, IsPlan)
          (
            draft-valid d ds (codes "pgfp:v1:" ++ sha256_of q) _ fits print refl refl e,
            refl,
            refl,
            refl,
            refl,
          )

    pub safe_reward-IsPlan :
        (state : RewardState)
        → Returns (IsPlan safe_reward) (safe_reward_plan sha256_of locked now (ok state))
    safe_reward-IsPlan state =
        let policy = reward_policy locked.policy in
        by_decisions (Rewards.decide_all state policy false state.candidates) refl
          (decisions-Fits state policy state.candidates)
      where
        by_decisions :
            (all : List Decision)
            → Rewards.decide_all state (reward_policy locked.policy) false state.candidates ≡ all
            → All (Fits safe_reward) (Rewards.or_none all)
            → Returns (IsPlan safe_reward) (safe_reward_plan sha256_of locked now (ok state))
        by_decisions [] e fits = rewards-IsPlan state _ [] fits (rw e refl)
        by_decisions (d ∷ ds) e fits = rewards-IsPlan state d ds fits (rw e refl)
