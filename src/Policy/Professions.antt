-- ===== src/Policy/Professions.antt =====
-- `_profession_action` and `build_profession_plan` (policy/engine.py): what the professions of an
-- account are to make next.
pub mod Refill
use placegame_mcp.Prelude.{
  ℕ, zero, suc, ◌+◌, ◌-◌, ◌*◌, ◌/◌, ◌%◌, min, max, Bool, true, false, ◌&&◌, ◌||◌, not, Option, none,
  some, List, [], ◌∷◌, leb, ltb, ◌==◌, length, first, is_none, if◌then◌else◌,
}
use placegame_mcp.Text.{Text, codes, text_eq}
use placegame_mcp.Plans.Rows.{
  profession, Decision, selected, skipped, RegisteredAction, profession_enqueue, profession_settle,
  strip_prefix,
}
use placegame_mcp.Plans.Canonical.{text_lt}

-- The amounts of a balance, which the schema lets be negative.
pub data ℤ : Type 0 where
  pos negsuc : ℕ → ℤ

abbrev pub less : ℤ → ℤ → Bool
less (pos m) (pos n) = ltb m n
less (pos m) (negsuc n) = false
less (negsuc m) (pos n) = true
less (negsuc m) (negsuc n) = ltb n m

pub record ProfessionQueueEntry : Type 0 where
  pub action_key : Text
  pub remaining_seconds : ℕ

pub record ProfessionRecipe : Type 0 where
  pub key : Text
  pub duration_seconds : ℕ
  pub output_key : Text
  pub output_count : ℕ
  pub required_inputs : List (Text × ℤ)
  pub unlock_milestone : Bool

pub record ProfessionState : Type 0 where
  pub selected_profession_key : Text
  pub queue : List ProfessionQueueEntry
  pub unlock_progress : ℕ
  pub recipes : List ProfessionRecipe
  pub balances : List (Text × ℤ)
  pub recipe_version : Text

pub record ProfessionPolicy : Type 0 where
  pub profession_food_target : ℕ
  pub profession_potion_target : ℕ
  pub profession_horizon_hours : ℕ

-- `balances.get(key, 0)`
unfoldable pub balance : Text → List (Text × ℤ) → ℤ
balance k [] = pos 0
balance k ((j, n) ∷ r) = if text_eq j k then n else balance k r

unfoldable pub queued : List ProfessionQueueEntry → ℕ
queued [] = 0
queued (e ∷ es) = e.remaining_seconds + queued es

-- `sorted(recipes, key=lambda item: item.key)`
unfoldable pub insert_recipe : ProfessionRecipe → List ProfessionRecipe → List ProfessionRecipe
unfolding text_lt
insert_recipe r [] = r ∷ []
insert_recipe r (s ∷ rs) =
    let rest = insert_recipe r rs in if text_lt s.key r.key then s ∷ rest else r ∷ s ∷ rs

unfoldable pub sort_recipes : List ProfessionRecipe → List ProfessionRecipe
unfolding insert_recipe
sort_recipes [] = []
sort_recipes (r ∷ rs) = insert_recipe r (sort_recipes rs)

abbrev pub wants_food : ProfessionState → ProfessionPolicy → ProfessionRecipe → Bool
wants_food state policy r =
    text_eq r.output_key (codes "food")
    && less (balance (codes "food") state.balances) (pos policy.profession_food_target)

abbrev pub wants_potion : ProfessionState → ProfessionPolicy → ProfessionRecipe → Bool
wants_potion state policy r =
    not (is_none (strip_prefix (codes "potion") r.output_key))
    && less (balance r.output_key state.balances) (pos policy.profession_potion_target)

abbrev pub affordable : List (Text × ℤ) → List (Text × ℤ) → Bool
affordable balances [] = true
affordable balances ((k, amount) ∷ r) =
    not (less (balance k balances) amount) && affordable balances r

-- The first recipe by the first priority that any recipe meets.
unfoldable pub choose :
    ProfessionState → ProfessionPolicy → List ProfessionRecipe → Option ProfessionRecipe
unfolding balance
choose state policy rs = elim (first (λ r. r.unlock_milestone) rs) [
  | some r ↦ some r
  | none ↦ elim (first (wants_food state policy) rs) [
    | some r ↦ some r
    | none ↦ elim (first (wants_potion state policy) rs) [
      | some r ↦ some r
      | none ↦ first (λ r. affordable state.balances r.required_inputs) rs
    ]
  ]
]

-- The number of repetitions; the schema has a positive duration, and `max(0, a - b)` is `a - b` here.
unfoldable pub repetitions : ℕ → ℕ → ℕ → ℕ → ℕ
repetitions capacity horizon seconds duration =
    min capacity (max 1 ((horizon - seconds + duration - 1) / duration))

abbrev pub enqueue :
    ProfessionState → ProfessionPolicy → Option ProfessionRecipe → Option RegisteredAction
enqueue state policy none = none
enqueue state policy (some r) = some (
    profession_enqueue r.key (
      repetitions (5 - length state.queue) (policy.profession_horizon_hours * 3600)
        (queued state.queue) r.duration_seconds))

unfoldable pub profession_action : ProfessionState → ProfessionPolicy → Option RegisteredAction
unfolding choose sort_recipes repetitions queued
profession_action state policy =
    if leb 2 (length state.queue) && leb 21600 (queued state.queue)
    then none
    else if leb (5 - length state.queue) 0
    then none
    else enqueue state policy (choose state policy (sort_recipes state.recipes))

abbrev pub refill : Option RegisteredAction → Decision
refill (some a) = record {
  family = profession;
  reason = codes "profession_queue_refill";
  state = selected;
  action = some a;
}
refill none = record {
  family = profession;
  reason = codes "profession_queue_sufficient";
  state = skipped;
  action = none;
}

-- The decision of `build_profession_plan`, given the minute of the hour in Shanghai.
unfoldable pub profession_decision : ℕ → ProfessionState → ProfessionPolicy → Decision
unfolding profession_action
profession_decision minute state policy =
    if minute % 5 == 0
    then record {
      family = profession;
      reason = codes "profession_maintenance_due";
      state = selected;
      action = some profession_settle;
    }
    else refill (profession_action state policy)
