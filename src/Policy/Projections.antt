-- ===== src/Policy/Projections.antt =====
-- The projections of PolicyEngine (policy/engine.py): what of the game's state a plan's fingerprint
-- depends on. `format_decimal` is the library's text of a positive number of thousandths.
pub mod Accepted
pub mod Succeeding
pub mod States
use placegame_mcp.Prelude.{ℕ, Bool, Option, none, some, List, [], ◌∷◌, ◌==◌, if◌then◌else◌}
use placegame_mcp.Text.{Text, codes}
use placegame_mcp.Plans.Rows.{BossChallenge, Difficulty, normal, hard, nightmare}
use placegame_mcp.Plans.Canonical
use placegame_mcp.Plans.Canonical.{Json, Items, nil, cons, Fields, end, field, Keyed}
use placegame_mcp.Idle.Planner.{IdleSummary}
use placegame_mcp.Policy.Bosses.Choices.{
  Preview, BossEntryState, EquipmentSlot, BossAffix, BossState, BossSelection,
}
use placegame_mcp.Policy.Worlds.{WorldBossInstance}
use placegame_mcp.Policy.Professions.{
  ℤ, pos, negsuc, ProfessionQueueEntry, ProfessionRecipe, ProfessionState,
}

-- A dictionary display.
abbrev pub fields : List (Text × Json) → Fields
fields [] = end
fields ((k, v) ∷ r) = field k v (fields r)

abbrev pub dict : List (Text × Json) → Json
dict kvs = Canonical.object (fields kvs)

unfoldable pub items_of : {A : Type 0} → (A → Json) → List A → Items
items_of f [] = nil
items_of f (x ∷ xs) = cons (f x) (items_of f xs)

abbrev pub optional_text : Option Text → Json
optional_text none = Canonical.null
optional_text (some s) = Canonical.text s

abbrev pub optional_number : Option ℕ → Json
optional_number none = Canonical.null
optional_number (some n) = Canonical.integer n

abbrev pub difficulty_name : Difficulty → Text
difficulty_name normal = codes "normal"
difficulty_name hard = codes "hard"
difficulty_name nightmare = codes "nightmare"

abbrev pub amount : ℤ → Json
amount (pos n) = Canonical.integer n
amount (negsuc n) = Canonical.negative n

-- A dictionary of amounts.
unfoldable pub amounts : List (Text × ℤ) → Fields
amounts [] = end
amounts ((k, n) ∷ r) = field k (amount n) (amounts r)

-- The key fields of the arrays, in `_plan`.
abbrev pub keyed : Keyed
keyed =
    (codes "entries", codes "key")
    ∷ (codes "equipment", codes "key")
    ∷ (codes "affixes", codes "key")
    ∷ (codes "instances", codes "key")
    ∷ (codes "queue", codes "key")
    ∷ (codes "recipes", codes "key")
    ∷ []

-- The projection in `build_idle_plan`.
abbrev pub idle_fields : IdleSummary → Bool → List (Text × Json)
idle_fields s collect =
    (codes "capacitySeconds", optional_number s.capacity_seconds)
    ∷ (codes "eligible", Canonical.boolean collect)
    ∷ []

abbrev pub potion_fields : BossState → List (Text × Json)
potion_fields s =
    (codes "activeKey", optional_text s.active_key)
    ∷ (codes "requiredKey", optional_text s.required_key)
    ∷ []

abbrev pub difficulty_json : Difficulty → Json
difficulty_json d = Canonical.text (difficulty_name d)

abbrev pub entry_fields : BossEntryState → List (Text × Json)
entry_fields e =
    (codes "key", Canonical.text e.key)
    ∷ (codes "type", Canonical.text e.type)
    ∷ (codes "requiredLevel", Canonical.integer e.required_level)
    ∷ (codes "attempts", optional_number e.attempts)
    ∷ (codes "blockedReason", optional_text e.blocked_reason)
    ∷ (codes "refreshKey", optional_text e.refresh_key)
    ∷ (codes "difficultyOptions", Canonical.array (items_of difficulty_json e.difficulty_options))
    ∷ []

unfoldable pub entry_json : BossEntryState → Json
entry_json e = dict (entry_fields e)

abbrev pub slot_fields : EquipmentSlot → List (Text × Json)
slot_fields s =
    (codes "key", Canonical.text s.key)
    ∷ (codes "score", Canonical.integer s.score)
    ∷ (codes "eligible", Canonical.boolean s.eligible)
    ∷ []

unfoldable pub slot_json : EquipmentSlot → Json
slot_json s = dict (slot_fields s)

abbrev pub instance_fields : WorldBossInstance → List (Text × Json)
instance_fields i =
    (codes "key", Canonical.text i.key)
    ∷ (codes "lifecycle", Canonical.text i.lifecycle)
    ∷ (codes "active", Canonical.boolean i.active)
    ∷ (codes "alive", Canonical.boolean i.alive)
    ∷ (codes "myAttemptCount", Canonical.integer i.my_attempt_count)
    ∷ (codes "remainingAttemptCount", Canonical.integer i.remaining_attempt_count)
    ∷ []

unfoldable pub instance_json : WorldBossInstance → Json
instance_json i = dict (instance_fields i)

abbrev pub world_fields : List WorldBossInstance → List (Text × Json)
world_fields instances =
    (codes "instances", Canonical.array (items_of instance_json instances)) ∷ []

unfoldable pub world_projection : List WorldBossInstance → Json
world_projection instances = dict (world_fields instances)

abbrev pub queue_fields : ProfessionQueueEntry → List (Text × Json)
queue_fields q =
    (codes "key", Canonical.text q.action_key)
    ∷ (codes "remainingSeconds", Canonical.integer q.remaining_seconds)
    ∷ []

unfoldable pub queue_json : ProfessionQueueEntry → Json
queue_json q = dict (queue_fields q)

abbrev pub recipe_fields : ProfessionRecipe → List (Text × Json)
recipe_fields r =
    (codes "key", Canonical.text r.key)
    ∷ (codes "durationSeconds", Canonical.integer r.duration_seconds)
    ∷ (codes "outputKey", Canonical.text r.output_key)
    ∷ (codes "outputCount", Canonical.integer r.output_count)
    ∷ (codes "requiredInputs", Canonical.object (amounts r.required_inputs))
    ∷ (codes "unlockMilestone", Canonical.boolean r.unlock_milestone)
    ∷ []

unfoldable pub recipe_json : ProfessionRecipe → Json
recipe_json r = dict (recipe_fields r)

abbrev pub profession_fields : ProfessionState → List (Text × Json)
profession_fields s =
    (codes "selectedProfessionKey", Canonical.text s.selected_profession_key)
    ∷ (codes "queue", Canonical.array (items_of queue_json s.queue))
    ∷ (codes "unlockProgress", Canonical.integer s.unlock_progress)
    ∷ (codes "recipes", Canonical.array (items_of recipe_json s.recipes))
    ∷ (codes "balances", Canonical.object (amounts s.balances))
    ∷ (codes "recipeVersion", Canonical.text s.recipe_version)
    ∷ []

unfoldable pub profession_projection : ProfessionState → Json
profession_projection s = dict (profession_fields s)

module _ (format_decimal : ℕ → Text) where
  -- `_decimal_text`
  abbrev pub decimal_text : ℕ → Text
  decimal_text n = if n == 0 then codes "0" else format_decimal n

  abbrev pub affix_fields : BossAffix → List (Text × Json)
  affix_fields a =
      (codes "key", Canonical.text a.key)
      ∷ (codes "multiplier", Canonical.text (decimal_text a.multiplier))
      ∷ []

  unfoldable pub affix_json : BossAffix → Json
  affix_json a = dict (affix_fields a)

  abbrev pub preview_fields : Preview → List (Text × Json)
  preview_fields p =
      (codes "predictedWin", Canonical.boolean p.predicted_win)
      ∷ (codes "chance", Canonical.text (decimal_text p.chance))
      ∷ (
        codes "playerHpRemainingPercent",
        Canonical.text (decimal_text p.player_hp_remaining_percent),
      )
      ∷ (codes "bossHpRemainingPercent", Canonical.text (decimal_text p.boss_hp_remaining_percent))
      ∷ []

  unfoldable pub preview_json : Preview → Json
  preview_json p = dict (preview_fields p)

  abbrev pub selection_fields : BossSelection → List (Text × Json)
  selection_fields s =
      (codes "bossKey", Canonical.text s.action.boss_key)
      ∷ (codes "difficulty", difficulty_json s.action.difficulty)
      ∷ (codes "skills", Canonical.array (items_of Canonical.text s.action.selected_skill_keys))
      ∷ (codes "buffKey", Canonical.text s.action.buff_key)
      ∷ (codes "affixKey", optional_text s.action.affix_key)
      ∷ (codes "targetSlot", Canonical.text s.action.target_slot)
      ∷ (codes "materialBoost", Canonical.boolean s.action.use_material_boost)
      ∷ (codes "preview", preview_json s.preview)
      ∷ []

  unfoldable pub selection_json : BossSelection → Json
  selection_json s = dict (selection_fields s)

  abbrev pub chosen_json : Option BossSelection → List (Text × Json)
  chosen_json none = []
  chosen_json (some s) = (codes "selection", selection_json s) ∷ []

  -- The selection is there if it has an action, and so a preview.
  abbrev pub boss_fields : BossState → Option BossSelection → List (Text × Json)
  boss_fields s chosen =
      (codes "entries", Canonical.array (items_of entry_json s.entries))
      ∷ (codes "freeAttempts", Canonical.integer s.free_attempts)
      ∷ (codes "materialBalance", Canonical.integer s.material_balance)
      ∷ (codes "equipment", Canonical.array (items_of slot_json s.equipment))
      ∷ (codes "potion", dict (potion_fields s))
      ∷ (codes "affixes", Canonical.array (items_of affix_json s.affixes))
      ∷ chosen_json chosen

  unfoldable pub boss_projection : BossState → Option BossSelection → Json
  boss_projection s chosen = dict (boss_fields s chosen)
