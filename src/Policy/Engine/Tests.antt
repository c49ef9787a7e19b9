-- ===== src/Policy/Engine/Tests.antt =====
-- The plans of an account, for a game with one boss.
use placegame_mcp.Errors
use placegame_mcp.Errors.{ok, raised}
use placegame_mcp.Prelude.{ℕ, ◌≡◌, refl, arith, true, none, [], ◌∷◌}
use placegame_mcp.Text.{Text, codes}
use placegame_mcp.Plans.Rows.{idle, ordinary_boss, world_boss, profession, safe_reward, normal}
use placegame_mcp.Plans.Canonical.{Json}
use placegame_mcp.Policy.Professions.{ProfessionState}
use placegame_mcp.Policy.Bosses.Choices.{BossEntryState, BossState}
use placegame_mcp.Policy.Bosses.Answered.{Returns, answered}
use placegame_mcp.Policy.Versions.{default_policy}
use placegame_mcp.Policy.Engine.{
  LockedAccount, optimize_personal, build_idle_plan, build_world_boss_plan, build_profession_plan,
  safe_reward_plan, build_personal_boss_plan, build_ordinary_boss_plan,
}
use placegame_mcp.Policy.Engine.Valid.{IsPlan, PersonalOutcome}
use placegame_mcp.Policy.Engine.Built.{Game, builds-IsPlan}

-- A digest of the right form.
abbrev sha256_of : Json → Text
sha256_of j = codes "0123456789abcdef0123456789abcdef0123456789abcdef0123456789abcdef"

abbrev format_decimal : ℕ → Text
format_decimal n = codes "1.5"

abbrev locked : LockedAccount
locked = record { account_id = 7; policy = record { version = 1; policy = default_policy } }

abbrev ogre : BossEntryState
ogre = record {
  key = codes "ogre";
  type = codes "personal";
  required_level = 5;
  attempts = none;
  blocked_reason = none;
  refresh_key = none;
  difficulty_options = normal ∷ [];
}

abbrev bosses : BossState
bosses = record {
  entries = ogre ∷ [];
  free_attempts = 1;
  material_balance = 65;
  equipment = record { key = codes "sword"; score = 10; eligible = true } ∷ [];
  active_key = none;
  required_key = none;
  affixes = record { key = codes "fire"; multiplier = 1500 } ∷ [];
}

abbrev workshop : ProfessionState
workshop = record {
  selected_profession_key = codes "cook";
  queue = [];
  unlock_progress = 0;
  recipes = [];
  balances = [];
  recipe_version = codes "1";
}

abbrev game : Game
game = record {
  idle_summary = record { accumulated_seconds = 50000; capacity_seconds = none };
  boss_state = bosses;
  world_boss_state = [];
  profession_state = workshop;
  reward_state = record { inventory_safety_available = true; candidates = [] };
  boss_preview = λ r. record {
    predicted_win = true;
    chance = 90000;
    player_hp_remaining_percent = 50000;
    boss_hp_remaining_percent = 0;
  };
  hour = 16;
  minute = 3;
}

-- Without an entry for a personal boss there is no plan for one.
no_entry :
    build_personal_boss_plan sha256_of locked 0 format_decimal
      (answered game.boss_preview)
      (ok (record bosses { entries = record ogre { type = codes "map" } ∷ [] }))
    ≡ raised Errors.game_schema_mismatch
unfolding build_personal_boss_plan optimize_personal
no_entry = refl

builds-IsPlan_example :
    Returns
      (IsPlan sha256_of locked 0 idle)
      (build_idle_plan sha256_of locked 0 (ok game.idle_summary))
    × Returns
        (IsPlan sha256_of locked 0 world_boss)
        (build_world_boss_plan sha256_of locked 0 16 3 (ok []))
    × Returns
        (IsPlan sha256_of locked 0 profession)
        (build_profession_plan sha256_of locked 0 3 (ok workshop))
    × Returns
        (IsPlan sha256_of locked 0 safe_reward)
        (safe_reward_plan sha256_of locked 0 (ok game.reward_state))
    × Returns (IsPlan sha256_of locked 0 ordinary_boss) (
        build_ordinary_boss_plan sha256_of locked 0 format_decimal
          (answered game.boss_preview)
          (ok bosses))
    × PersonalOutcome sha256_of locked 0 bosses (
        build_personal_boss_plan sha256_of locked 0 format_decimal
          (answered game.boss_preview)
          (ok bosses))
builds-IsPlan_example =
    builds-IsPlan sha256_of format_decimal locked 0 game (λ j. (refl, refl)) (omega arith)
