-- ===== src/Policy/Worlds.antt =====
-- `world_window` and the decision of `build_world_boss_plan` (policy/engine.py).
pub mod Sorted
pub mod Assists
use placegame_mcp.Prelude.{
  ℕ, ◌+◌, Bool, true, false, ◌&&◌, ◌||◌, not, Option, none, some, List, [], ◌∷◌, leb, ltb, ◌==◌,
  first, if◌then◌else◌,
}
use placegame_mcp.Text.{Text, codes}
use placegame_mcp.Plans.Rows.{world_boss, Decision, selected, skipped, boss_assist}
use placegame_mcp.Plans.Canonical.{text_lt}

pub record WorldBossInstance : Type 0 where
  pub key : Text
  pub lifecycle : Text
  pub active : Bool
  pub alive : Bool
  pub my_attempt_count : ℕ
  pub remaining_attempt_count : ℕ

pub record WorldPolicy : Type 0 where
  pub world_collaboration_enabled : Bool
  pub world_attempts : ℕ

-- The order of pairs of an hour and a minute.
abbrev pair_lt : ℕ → ℕ → ℕ → ℕ → Bool
pair_lt h m h' m' = ltb h h' || (h == h' && ltb m m')

abbrev between : ℕ → ℕ → ℕ → ℕ → Bool
between hour minute from to = not (pair_lt hour minute from 0) && pair_lt hour minute to 0

-- The hour and the minute are those in Shanghai.
unfoldable pub world_window : ℕ → ℕ → Bool
world_window hour minute =
    between hour minute 10 11 || between hour minute 16 17 || between hour minute 20 21

unfoldable pub insert_instance : WorldBossInstance → List WorldBossInstance → List WorldBossInstance
unfolding text_lt
insert_instance i [] = i ∷ []
insert_instance i (j ∷ js) =
    let rest = insert_instance i js in if text_lt j.key i.key then j ∷ rest else i ∷ j ∷ js

-- `sorted(state.instances, key=lambda item: item.key)`
unfoldable pub sort_instances : List WorldBossInstance → List WorldBossInstance
unfolding insert_instance
sort_instances [] = []
sort_instances (i ∷ is) = insert_instance i (sort_instances is)

abbrev pub eligible : WorldPolicy → WorldBossInstance → Bool
eligible policy i =
    i.active
    && i.alive
    && ltb i.my_attempt_count policy.world_attempts
    && ltb 0 i.remaining_attempt_count

abbrev pub wait : Text → Decision
wait reason = record { family = world_boss; reason = reason; state = skipped; action = none }

abbrev pub assist : Option WorldBossInstance → Decision
assist none = wait (codes "world_attempts_unavailable")
assist (some i) = record {
  family = world_boss;
  reason = codes "world_assist_eligible";
  state = selected;
  action = some (boss_assist i.key);
}

unfoldable pub world_decision : WorldPolicy → ℕ → ℕ → List WorldBossInstance → Decision
unfolding world_window sort_instances
world_decision policy hour minute instances =
    if not policy.world_collaboration_enabled
    then wait (codes "world_collaboration_disabled")
    else if not (world_window hour minute)
    then wait (codes "world_window_closed")
    else assist (first (eligible policy) (sort_instances instances))
