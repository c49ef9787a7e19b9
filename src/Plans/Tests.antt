-- ===== src/Plans/Tests.antt =====
-- The life of one plan in the store, and the store's theorems at it.
use placegame_mcp.Errors.{ok}
use placegame_mcp.Prelude.{
  ◌≡◌, zero, suc, arith, refl, true, some, List, [], ◌∷◌, ◌++◌, ℕ, first, All,
}
use placegame_mcp.Text.{Text, Actor, codes}
use placegame_mcp.Plans.Rows.{
  idle, selected, low, idle_collect, confirmed, executed, executing, boolean, ExecutionResult, text,
  ActionPlan, result_valid,
}
use placegame_mcp.Plans.Canonical
use placegame_mcp.Plans.Canonical.{
  canonical_fingerprint, key_field, keyed_get, last_part, key_of, get_text,
}
use placegame_mcp.Plans.Canonical.Arrays.{swap_items}
use placegame_mcp.Plans.Canonical.Same.{
  Same, same, later, object, array, reordered, same_fields, next_field, swap_fields, no_items,
  next_item, fingerprint_unordered,
}
use placegame_mcp.Plans.Store.{
  ActionPlanDraft, Plans, by_id, new_plan, as_confirmed, as_finished, create, confirm,
  mark_executing, finish,
}
use placegame_mcp.Plans.Store.Transitions
use placegame_mcp.Plans.Store.Transitions.{PlanCall, call, calls, IsValid}
use placegame_mcp.Plans.Store.Lifetime.{IsConfirmed, executing_needs_confirmation}
use placegame_mcp.Plans.Store.Results.{finish-result_valid}

abbrev zeros : ℕ → Text
zeros zero = []
zeros (suc n) = 48 ∷ zeros n

abbrev operator : Actor
operator = record { kind = codes "admin"; actor_id = codes "the owner" }

abbrev draft : ActionPlanDraft
draft = record {
  account_id = 7;
  state_fingerprint = codes "pgfp:v1:" ++ zeros 64;
  policy_version = 3;
  decisions =
      record {
        family = idle;
        reason = codes "idle_threshold_reached";
        state = selected;
        action = some idle_collect;
      }
      ∷ [];
  estimated_costs = record { material = 0; attempts = 0; currency = 0 };
  risk = low;
  expires_at = 300;
  confirmation_required = true;
  family = idle;
}

abbrev empty : Plans
empty = record { rows = []; next_id = 1 }

empty-IsValid : IsValid empty
empty-IsValid = record { fresh = tt; distinct = tt }

creates_plan : (create draft empty).1 ≡ ok (new_plan draft 1)
unfolding create
creates_plan = refl

abbrev life : List PlanCall
life =
    Transitions.creates draft
    ∷ Transitions.confirms 1 7 operator 10
    ∷ Transitions.marks 1 confirmed 20
    ∷ []

executing_needs_confirmation_example : All IsConfirmed (calls life empty).rows
executing_needs_confirmation_example = executing_needs_confirmation life empty empty-IsValid tt

abbrev outcome : ExecutionResult
outcome = (codes "collected", boolean true) ∷ (codes "status", text (codes "executed")) ∷ []

abbrev confirmed_plans : Plans
confirmed_plans = record {
  rows = record (as_confirmed operator 10 (new_plan draft 1)) { execution_state = executing } ∷ [];
  next_id = 2;
}

-- The three calls lead to this table.
lives : calls life empty ≡ confirmed_plans
unfolding calls call create confirm mark_executing
lives = refl

confirmed_plans-IsValid : IsValid confirmed_plans
confirmed_plans-IsValid = record { fresh = (omega arith, tt); distinct = ground arith }

finishes_plan : (finish 1 executed outcome 30 confirmed_plans).1 ≡ ok tt
unfolding finish
finishes_plan = refl

finish-result_valid_example :
    (p : ActionPlan) × (first (by_id 1) (finish 1 executed outcome 30 confirmed_plans).0.rows
      ≡ some p)
    × (p.execution_state ≡ executed)
    × (p.executed_at ≡ some 30)
    × (result_valid p.execution_result ≡ true)
finish-result_valid_example =
    finish-result_valid 1 30 executed outcome confirmed_plans finishes_plan

abbrev ended_plan : ActionPlan
ended_plan = as_finished executed outcome 30 (new_plan draft 1)

abbrev ended_plans : Plans
ended_plans = record { rows = ended_plan ∷ []; next_id = 2 }

-- Two entries and two fields that change places.
abbrev entry : Text → Canonical.Json → Canonical.Json
entry k v =
    Canonical.object (
      Canonical.field (codes "key") (Canonical.text k)
        (Canonical.field (codes "v") v Canonical.end))

abbrev turned : Text → Canonical.Json → Canonical.Json
turned k v =
    Canonical.object (
      Canonical.field (codes "v") v
        (Canonical.field (codes "key") (Canonical.text k) Canonical.end))

abbrev entries : Canonical.Json → Canonical.Json → Canonical.Json
entries x y = Canonical.object (
    Canonical.field (codes "entries")
      (Canonical.array (Canonical.cons x (Canonical.cons y Canonical.nil))) Canonical.end)

abbrev by_key : Canonical.Keyed
by_key = (codes "entries", codes "key") ∷ []

abbrev first_entry : Canonical.Json
first_entry = entry (codes "a") (Canonical.integer 1)

abbrev second_entry : Canonical.Json
second_entry = turned (codes "b") Canonical.null

entries_turned :
    Same by_key []
      (entries first_entry second_entry)
      (entries second_entry (turned (codes "a") (Canonical.integer 1)))
unfolding key_field keyed_get last_part key_of get_text
entries_turned = object (
    next_field (codes "entries")
      (later
        (reordered refl (
          swap_items first_entry second_entry (codes "a") (codes "b") Canonical.nil refl refl refl))
        (array (
          next_item same (
            next_item
              (object (
                swap_fields (codes "key") (codes "v") (Canonical.text (codes "a"))
                  (Canonical.integer 1) Canonical.end refl))
              no_items))))
      same_fields)

fingerprint_unordered_example :
    canonical_fingerprint (λ j. codes "digest") idle by_key (entries first_entry second_entry)
    ≡ canonical_fingerprint
        (λ j. codes "digest")
        idle
        by_key
        (entries second_entry (turned (codes "a") (Canonical.integer 1)))
fingerprint_unordered_example =
    fingerprint_unordered (λ j. codes "digest") idle by_key (entries first_entry second_entry)
      (entries second_entry (turned (codes "a") (Canonical.integer 1))) entries_turned
