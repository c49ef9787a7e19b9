-- ===== src/Policy/Engine/Built.antt =====
-- The methods of PolicyEngine (policy/engine.py), where the game answers.
use placegame_mcp.Errors
use placegame_mcp.Errors.{Result, ok, raised, ◌>>=◌}
use placegame_mcp.Prelude.{
  ℕ, ◌≤◌, ◌≡◌, refl, true, false, ◌&&◌, not, none, List, [], ◌∷◌, ◌==◌, keep, ◌⊎◌, inl, inr,
}
use placegame_mcp.Text.{Text, codes}
use placegame_mcp.Plans.Rows.{
  idle, personal_boss, ordinary_boss, world_boss, profession, safe_reward, low, high, is_reason,
}
use placegame_mcp.Plans.Canonical.{Json}
use placegame_mcp.Idle.Planner.{IdleSummary}
use placegame_mcp.Idle.Planner.Decisions.{IsDigest}
use placegame_mcp.Policy.Fitting.{either}
use placegame_mcp.Policy.Rewards.{RewardState}
use placegame_mcp.Policy.Professions.{ProfessionState}
use placegame_mcp.Policy.Worlds.{WorldBossInstance}
use placegame_mcp.Policy.Bosses.Choices.{
  BossPreviewRequest, Preview, BossEntryState, BossState, BossSelection,
}
use placegame_mcp.Policy.Bosses.{optimize}
use placegame_mcp.Policy.Bosses.Answered.{
  Returns, Returns-bind, IsAnswer, answered, optimize-Returns,
}
use placegame_mcp.Policy.Projections.{boss_projection}
use placegame_mcp.Policy.Projections.States.{boss-Accepted}
use placegame_mcp.Policy.Engine.{
  LockedAccount, boss_policy, is_personal, is_candidate, personal_decision, ordinary_decision,
  chosen, build_idle_plan, build_world_boss_plan, build_profession_plan, safe_reward_plan,
  personal_plan, no_attempts, optimize_personal, build_personal_boss_plan, ordinary_plan,
  optimize_ordinary, build_ordinary_boss_plan,
}
use placegame_mcp.Policy.Engine.Decisions.{unselected-Fits, personal-Fits, ordinary-Fits}
use placegame_mcp.Policy.Engine.Valid.{
  IsPlan, PersonalOutcome, plan-IsPlan, idle-IsPlan, world_boss-IsPlan, profession-IsPlan,
  safe_reward-IsPlan,
}

module _ (sha256_of : Json → Text) (locked : LockedAccount) (now : ℕ)
    (hex : (j : Json) → IsDigest (sha256_of j)) (numbered : 1 ≤ locked.policy.version)
    (format_decimal : ℕ → Text) (answers : BossPreviewRequest → Preview) where
  personal_plan-IsPlan :
      (state : BossState) (a : BossSelection ⊎ Text)
      → IsAnswer a
      → IsPlan sha256_of locked now personal_boss
          (personal_plan sha256_of locked now format_decimal (answered answers) state a)
  unfolding personal_plan
  personal_plan-IsPlan state a h =
      plan-IsPlan sha256_of locked now hex numbered personal_boss (personal_decision a)
        (boss_projection format_decimal state (chosen a)) high (personal-Fits a h)
        (boss-Accepted format_decimal state (chosen a))

  optimize_personal-Outcome :
      (state : BossState) (es : List BossEntryState)
      → Returns
          (IsPlan sha256_of locked now personal_boss)
          (optimize_personal sha256_of locked now format_decimal (answered answers) state es)
        ⊎ ((es ≡ [])
            × (optimize_personal sha256_of locked now format_decimal (answered answers) state es
                ≡ raised Errors.game_schema_mismatch))
  unfolding optimize_personal
  optimize_personal-Outcome state [] = inr (refl, refl)
  optimize_personal-Outcome state (e ∷ es) =
      let personal : BossState = record state { entries = e ∷ es } in
      inl (
        Returns-bind IsAnswer (IsPlan sha256_of locked now personal_boss)
          (optimize (answered answers) personal (boss_policy locked.policy))
          (λ a.
            ok (personal_plan sha256_of locked now format_decimal (answered answers) personal a))
          (optimize-Returns answers personal (boss_policy locked.policy))
          (personal_plan-IsPlan personal))

  personal-Outcome :
      (state : BossState)
      → PersonalOutcome sha256_of locked now state (
          build_personal_boss_plan sha256_of locked now format_decimal
            (answered answers)
            (ok state))
  unfolding build_personal_boss_plan no_attempts is_reason
  personal-Outcome state =
      let entries = keep is_personal state.entries in
      either (PersonalOutcome sha256_of locked now state)
        (state.free_attempts == 0 && not locked.policy.policy.personal_paid_attempts)
        (ok (no_attempts sha256_of locked now format_decimal (answered answers) state))
        (optimize_personal sha256_of locked now format_decimal (answered answers) state entries)
        (inl (
          plan-IsPlan sha256_of locked now hex numbered personal_boss _
            (boss_projection format_decimal state none) low
            (unselected-Fits personal_boss true (codes "personal_free_attempts_exhausted") refl)
            (boss-Accepted format_decimal state none)))
        (optimize_personal-Outcome state entries)

  ordinary_plan-IsPlan :
      (state : BossState) (a : BossSelection ⊎ Text)
      → IsAnswer a
      → IsPlan sha256_of locked now ordinary_boss
          (ordinary_plan sha256_of locked now format_decimal (answered answers) state a)
  unfolding ordinary_plan
  ordinary_plan-IsPlan state a h =
      plan-IsPlan sha256_of locked now hex numbered ordinary_boss (ordinary_decision a)
        (boss_projection format_decimal state (chosen a)) high (ordinary-Fits a h)
        (boss-Accepted format_decimal state (chosen a))

  optimize_ordinary-IsPlan :
      (state : BossState) (es : List BossEntryState)
      → Returns
          (IsPlan sha256_of locked now ordinary_boss)
          (optimize_ordinary sha256_of locked now format_decimal (answered answers) state es)
  unfolding optimize_ordinary is_reason
  optimize_ordinary-IsPlan state [] =
      plan-IsPlan sha256_of locked now hex numbered ordinary_boss _
        (boss_projection format_decimal state none) low
        (unselected-Fits ordinary_boss false (codes "no_ordinary_boss_available") refl)
        (boss-Accepted format_decimal state none)
  optimize_ordinary-IsPlan state (e ∷ es) =
      let open_state : BossState = record state { entries = e ∷ es } in
      Returns-bind IsAnswer (IsPlan sha256_of locked now ordinary_boss)
        (optimize (answered answers) open_state (boss_policy locked.policy))
        (λ a.
          ok (ordinary_plan sha256_of locked now format_decimal (answered answers) open_state a))
        (optimize-Returns answers open_state (boss_policy locked.policy))
        (ordinary_plan-IsPlan open_state)

  ordinary-IsPlan :
      (state : BossState)
      → Returns (IsPlan sha256_of locked now ordinary_boss) (
          build_ordinary_boss_plan sha256_of locked now format_decimal
            (answered answers)
            (ok state))
  unfolding build_ordinary_boss_plan
  ordinary-IsPlan state = optimize_ordinary-IsPlan state (keep is_candidate state.entries)

-- What the game answers, the hour and the minute of the clock in Shanghai.
pub record Game : Type 0 where
  pub idle_summary : IdleSummary
  pub boss_state : BossState
  pub world_boss_state : List WorldBossInstance
  pub profession_state : ProfessionState
  pub reward_state : RewardState
  pub boss_preview : BossPreviewRequest → Preview
  pub hour : ℕ
  pub minute : ℕ

-- Where the game answers what it is asked, every method of the engine returns a plan that the plan
-- model accepts, of the right family, account and version of the policy, which expires in five
-- minutes, whatever the state of the game; but the one for a personal boss raises a schema mismatch if
-- the game has no entry of that kind. The digest is one of 64 hexadecimal digits, and the versions of a
-- policy begin with one.
pub builds-IsPlan :
    (sha256_of : Json → Text) (format_decimal : ℕ → Text) (locked : LockedAccount) (now : ℕ)
    (game : Game)
    → ((j : Json) → IsDigest (sha256_of j))
    → 1 ≤ locked.policy.version
    → Returns
        (IsPlan sha256_of locked now idle)
        (build_idle_plan sha256_of locked now (ok game.idle_summary))
      × Returns (IsPlan sha256_of locked now world_boss) (
          build_world_boss_plan sha256_of locked now game.hour game.minute
            (ok game.world_boss_state))
      × Returns
          (IsPlan sha256_of locked now profession)
          (build_profession_plan sha256_of locked now game.minute (ok game.profession_state))
      × Returns
          (IsPlan sha256_of locked now safe_reward)
          (safe_reward_plan sha256_of locked now (ok game.reward_state))
      × Returns (IsPlan sha256_of locked now ordinary_boss) (
          build_ordinary_boss_plan sha256_of locked now format_decimal
            (answered game.boss_preview)
            (ok game.boss_state))
      × PersonalOutcome sha256_of locked now game.boss_state (
          build_personal_boss_plan sha256_of locked now format_decimal
            (answered game.boss_preview)
            (ok game.boss_state))
builds-IsPlan sha256_of format_decimal locked now game hex numbered = (
  idle-IsPlan sha256_of locked now hex numbered game.idle_summary,
  world_boss-IsPlan sha256_of locked now hex numbered game.hour game.minute game.world_boss_state,
  profession-IsPlan sha256_of locked now hex numbered game.minute game.profession_state,
  safe_reward-IsPlan sha256_of locked now hex numbered game.reward_state,
  ordinary-IsPlan sha256_of locked now hex numbered format_decimal game.boss_preview
      game.boss_state,
  personal-Outcome sha256_of locked now hex numbered format_decimal game.boss_preview
      game.boss_state,
)
