-- ===== src/Policy/Bosses/Tests.antt =====
-- A search that finds a boss, and one that is blocked by the potion.
use placegame_mcp.Errors.{Result, ok}
use placegame_mcp.Prelude.{◌≡◌, refl, true, none, some, [], ◌∷◌, inl, inr}
use placegame_mcp.Text.{codes}
use placegame_mcp.Plans.Rows.{normal, hard, personal_boss}
use placegame_mcp.Policy.Bosses.Choices.{
  BossPreviewRequest, Preview, BossEntryState, EquipmentSlot, BossState, BossPolicy, BossSelection,
  target_slot, better, eligible,
}
use placegame_mcp.Policy.Bosses.Sorting.{sort, take}
use placegame_mcp.Policy.Bosses.{optimize}
use placegame_mcp.Policy.Bosses.Previewed.Selected.{Backed}
use placegame_mcp.Policy.Bosses.Optimized.{IsIn, optimize-Backed}

abbrev sure : Preview
sure = record {
  predicted_win = true;
  chance = 90000;
  player_hp_remaining_percent = 50000;
  boss_hp_remaining_percent = 0;
}

abbrev boss_preview : BossPreviewRequest → Result Preview
boss_preview r = ok sure

abbrev ogre : BossEntryState
ogre = record {
  key = codes "ogre";
  type = codes "personal";
  required_level = 5;
  attempts = none;
  blocked_reason = none;
  refresh_key = none;
  difficulty_options = normal ∷ hard ∷ [];
}

abbrev sword : EquipmentSlot
sword = record { key = codes "sword"; score = 10; eligible = true }

abbrev state : BossState
state = record {
  entries = record ogre { key = codes "troll"; blocked_reason = some (codes "level") } ∷ ogre ∷ [];
  free_attempts = 1;
  material_balance = 65;
  equipment = sword ∷ [];
  active_key = none;
  required_key = none;
  affixes = record { key = codes "fire"; multiplier = 1500 } ∷ [];
}

abbrev policy : BossPolicy
policy = record { boss_min_chance = 80; material_reserve = 64 }

abbrev choice : BossSelection
choice = record {
  boss_key = codes "ogre";
  difficulty = hard;
  preview = sure;
  action = record {
    family = personal_boss;
    boss_key = codes "ogre";
    difficulty = hard;
    selected_skill_keys = codes "balanced" ∷ [];
    buff_key = codes "assault";
    affix_key = some (codes "fire");
    target_slot = codes "sword";
    use_material_boost = true;
  };
}

finds_ogre : optimize boss_preview state policy ≡ ok (inl choice)
unfolding optimize sort take target_slot better eligible
finds_ogre = refl

waits_for_potion :
    optimize boss_preview (record state { required_key = some (codes "might") }) policy
    ≡ ok (inr (codes "combat_potion_switch_required"))
unfolding optimize
waits_for_potion = refl

optimize-Backed_example :
    (slot : EquipmentSlot) × IsIn state.equipment slot
    × (slot.eligible ≡ true)
    × Backed boss_preview (IsIn state.entries) slot state policy choice
optimize-Backed_example = optimize-Backed boss_preview state policy choice finds_ogre
