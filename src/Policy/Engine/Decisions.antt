-- ===== src/Policy/Engine/Decisions.antt =====
-- The decisions of PolicyEngine (policy/engine.py) fit their families.
use placegame_mcp.Prelude.{
  ℕ, ◌-◌, ◌%◌, ◌≡◌, refl, arith, Bool, true, false, ◌&&◌, not, Option, none, some, List, ◌==◌,
  first, leb, length, ◌⊎◌, inl, inr, if◌then◌else◌,
}
use placegame_mcp.Text.{Text, codes}
use placegame_mcp.Plans.Rows.{
  ActionFamily, idle, personal_boss, ordinary_boss, world_boss, profession, RegisteredAction,
  action_family, decision_valid, is_reason,
}
use placegame_mcp.Plans.Canonical.{Json}
use placegame_mcp.Idle.Planner.{collect_decision}
use placegame_mcp.Policy.Fitting.{either, Fits}
use placegame_mcp.Policy.Professions.{
  ProfessionState, ProfessionPolicy, ProfessionRecipe, profession_action, profession_decision,
  enqueue, choose, sort_recipes, queued, refill,
}
use placegame_mcp.Policy.Worlds.{
  WorldBossInstance, WorldPolicy, world_window, world_decision, assist, wait, eligible,
  sort_instances,
}
use placegame_mcp.Policy.Bosses.Choices.{BossSelection}
use placegame_mcp.Policy.Bosses.Answered.{IsAnswer}
use placegame_mcp.Policy.Engine.{unselected, personal_decision, ordinary_decision}

pub unselected-Fits :
    (family : ActionFamily) (b : Bool) (reason : Text)
    → is_reason reason ≡ true
    → Fits family (unselected family b reason)
unfolding decision_valid
unselected-Fits family true reason h = (ground (arith, h), refl)
unselected-Fits family false reason h = (ground (arith, h), refl)

wait-Fits : (reason : Text) → is_reason reason ≡ true → Fits world_boss (wait reason)
unfolding decision_valid
wait-Fits reason h = (ground (arith, h), refl)

assist-Fits : (o : Option WorldBossInstance) → Fits world_boss (assist o)
unfolding decision_valid is_reason action_family
assist-Fits none = (refl, refl)
assist-Fits (some i) = (refl, refl)

pub world_decision-Fits :
    (policy : WorldPolicy) (hour minute : ℕ) (is : List WorldBossInstance)
    → Fits world_boss (world_decision policy hour minute is)
unfolding world_decision is_reason
world_decision-Fits policy hour minute is =
    either (Fits world_boss) (not policy.world_collaboration_enabled) _ _
      (wait-Fits (codes "world_collaboration_disabled") refl)
      (either (Fits world_boss) (not (world_window hour minute)) _ _
        (wait-Fits (codes "world_window_closed") refl)
        (assist-Fits (first (eligible policy) (sort_instances is))))

-- The action of a profession is one of that family.
abbrev IsWork : Option RegisteredAction → Type 0
IsWork none = Unit
IsWork (some a) = action_family a ≡ profession

enqueue-IsWork :
    (state : ProfessionState) (policy : ProfessionPolicy) (r : Option ProfessionRecipe)
    → IsWork (enqueue state policy r)
unfolding action_family
enqueue-IsWork state policy none = tt
enqueue-IsWork state policy (some r) = refl

profession_action-IsWork :
    (state : ProfessionState) (policy : ProfessionPolicy) → IsWork (profession_action state policy)
unfolding profession_action
profession_action-IsWork state policy =
    let next : Option RegisteredAction =
      enqueue state policy (choose state policy (sort_recipes state.recipes)) in
    let full : Bool = leb (5 - length state.queue) 0 in
    let busy : Bool = leb 2 (length state.queue) && leb 21600 (queued state.queue) in
    either IsWork busy none (if full then none else next) tt
      (either IsWork full none next tt (enqueue-IsWork state policy _))

refill-Fits : (o : Option RegisteredAction) → IsWork o → Fits profession (refill o)
unfolding decision_valid is_reason
refill-Fits none h = (refl, refl)
refill-Fits (some a) h = (rw h refl, refl)

pub profession_decision-Fits :
    (minute : ℕ) (state : ProfessionState) (policy : ProfessionPolicy)
    → Fits profession (profession_decision minute state policy)
unfolding profession_decision decision_valid is_reason action_family
profession_decision-Fits minute state policy =
    either (Fits profession) (minute % 5 == 0) _ (refill (profession_action state policy))
      (refl, refl)
      (refill-Fits (profession_action state policy) (profession_action-IsWork state policy))

pub personal-Fits :
    (a : BossSelection ⊎ Text) → IsAnswer a → Fits personal_boss (personal_decision a)
unfolding decision_valid is_reason action_family
personal-Fits (inl s) h = (rw h refl, refl)
personal-Fits (inr reason) h = unselected-Fits personal_boss true reason h

pub ordinary-Fits :
    (a : BossSelection ⊎ Text) → IsAnswer a → Fits ordinary_boss (ordinary_decision a)
unfolding decision_valid is_reason action_family
ordinary-Fits (inl s) h = (refl, refl)
ordinary-Fits (inr reason) h = unselected-Fits ordinary_boss true reason h

pub idle-Fits :
    (sha256_of : Json → Text) (collect : Bool)
    → Fits idle (
        if collect
        then collect_decision sha256_of
        else unselected idle false (codes "idle_threshold_not_reached"))
unfolding decision_valid is_reason action_family
idle-Fits sha256_of true = (refl, refl)
idle-Fits sha256_of false = (refl, refl)
