-- ===== src/Policy/Tests.antt =====
-- Plans for small states of the game, and the theorems at them.
use placegame_mcp.Prelude.{List, Bool, ◌≡◌, refl, arith, true, false, some, [], ◌∷◌, first}
use placegame_mcp.Text.{Text, codes}
use placegame_mcp.Plans.Rows.{profession_enqueue, boss_assist, daily_claim}
use placegame_mcp.Policy.Rewards.{
  RewardCandidate, RewardState, RewardPolicy, select, is_selected, decide_all, decision, action,
}
use placegame_mcp.Policy.Rewards.Integers.{digit_of}
use placegame_mcp.Policy.Professions
use placegame_mcp.Policy.Professions.{
  ProfessionState, ProfessionPolicy, ProfessionRecipe, profession_action, choose, sort_recipes,
  repetitions, queued, balance,
}
use placegame_mcp.Policy.Professions.Refill.{Refills, profession_action-Refills}
use placegame_mcp.Policy.Worlds.{WorldBossInstance, WorldPolicy, world_decision}
use placegame_mcp.Policy.Worlds.Sorted.{Some}
use placegame_mcp.Policy.Worlds.Assists.{CanAssist, IsOpen, Assists, world_decision-Assists}

abbrev mail : RewardCandidate
mail = record {
  kind = codes "mail";
  identifier = codes "m1";
  completed = true;
  claimed = true;
  choice_count = 0;
  cost = 0;
  would_overflow = false;
}

abbrev daily : RewardCandidate
daily = record mail { kind = codes "daily"; identifier = codes " 4_0"; claimed = false }

abbrev rewards : RewardState
rewards = record { inventory_safety_available = true; candidates = mail ∷ daily ∷ daily ∷ [] }

abbrev reward_policy : RewardPolicy
reward_policy = record { version = 1; safe_reward_claims = true }

claims_daily :
    first is_selected (decide_all rewards reward_policy false rewards.candidates)
    ≡ some (select (daily_claim 40))
unfolding decide_all decision action digit_of
claims_daily = refl

abbrev bread : ProfessionRecipe
bread = record {
  key = codes "bread";
  duration_seconds = 5000;
  output_key = codes "food";
  output_count = 1;
  required_inputs = [];
  unlock_milestone = false;
}

abbrev workshop : ProfessionState
workshop = record {
  selected_profession_key = codes "cook";
  queue = record { action_key = codes "bread"; remaining_seconds = 100 } ∷ [];
  unlock_progress = 0;
  recipes = bread ∷ [];
  balances = (codes "food", Professions.negsuc 1) ∷ [];
  recipe_version = codes "1";
}

abbrev craft_policy : ProfessionPolicy
craft_policy = record {
  profession_food_target = 6;
  profession_potion_target = 12;
  profession_horizon_hours = 4;
}

-- Three times 5000 seconds and the 100 that are queued last for four hours.
refills_bread :
    profession_action workshop craft_policy ≡ some (profession_enqueue (codes "bread") 3)
unfolding profession_action choose sort_recipes repetitions queued balance
refills_bread = refl

profession_action-Refills_example :
    Refills workshop craft_policy (profession_enqueue (codes "bread") 3)
profession_action-Refills_example =
    profession_action-Refills workshop craft_policy (profession_enqueue (codes "bread") 3)
      (omega arith, tt) refills_bread

abbrev dragon : WorldBossInstance
dragon = record {
  key = codes "dragon";
  lifecycle = codes "spawned";
  active = true;
  alive = true;
  my_attempt_count = 2;
  remaining_attempt_count = 1;
}

abbrev world_policy : WorldPolicy
world_policy = record { world_collaboration_enabled = true; world_attempts = 3 }

-- A dead one comes first by its key.
abbrev bosses : List WorldBossInstance
bosses = dragon ∷ record dragon { key = codes "a dead one"; alive = false } ∷ []

world_decision-Assists_example :
    ((k : Text)
      → (world_decision world_policy 16 59 bosses).action ≡ some (boss_assist k)
      → Assists world_policy 16 bosses k)
    × (◌≡◌ {A = Bool} true true
        → IsOpen 16
        → Some (CanAssist world_policy) bosses
        → (k : Text) × ((world_decision world_policy 16 59 bosses).action ≡ some (boss_assist k))
          × (is_selected (world_decision world_policy 16 59 bosses) ≡ true))
world_decision-Assists_example = world_decision-Assists world_policy 16 59 bosses
