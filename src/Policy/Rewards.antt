-- ===== src/Policy/Rewards.antt =====
-- SafeRewardPlanner (rewards.py): of the rewards that the game offers, the first safe one is claimed.
pub mod Integers
pub mod Choice
use placegame_mcp.Prelude.{
  ℕ, ◌+◌, Bool, true, false, ◌&&◌, not, Option, none, some, List, [], ◌∷◌, ◌==◌, if◌then◌else◌,
}
use placegame_mcp.Text.{Text, codes, text_eq}
use placegame_mcp.Plans.Rows.{
  safe_reward, Decision, DecisionState, selected, skipped, blocked, RegisteredAction, daily_claim,
  quest_claim, achievement_claim, codex_claim, mail_claim, low,
}
use placegame_mcp.Plans.Canonical
use placegame_mcp.Plans.Canonical.{Json, Keyed, canonical_fingerprint}
use placegame_mcp.Plans.Store.{ActionPlanDraft}
use placegame_mcp.Policy.Projections.{dict, items_of}
use placegame_mcp.Policy.Rewards.Integers.{int}

-- game/schemas.py
pub record RewardCandidate : Type 0 where
  pub kind : Text
  pub identifier : Text
  pub completed : Bool
  pub claimed : Bool
  pub choice_count : ℕ
  pub cost : ℕ
  pub would_overflow : Bool

pub record RewardState : Type 0 where
  pub inventory_safety_available : Bool
  pub candidates : List RewardCandidate

-- The fields of the policy that the planner reads.
pub record RewardPolicy : Type 0 where
  pub version : ℕ
  pub safe_reward_claims : Bool

abbrev daily : Option ℕ → Option RegisteredAction
daily none = none
daily (some n) = some (daily_claim n)

-- `_action`
unfoldable pub action : RewardCandidate → Option RegisteredAction
unfolding int
action c =
    if text_eq c.kind (codes "daily")
    then daily (int c.identifier)
    else if text_eq c.kind (codes "quest")
    then some (quest_claim c.identifier)
    else if text_eq c.kind (codes "achievement")
    then some (achievement_claim c.identifier)
    else if text_eq c.kind (codes "codex")
    then some (codex_claim c.identifier)
    else if text_eq c.kind (codes "mail")
    then some (mail_claim c.identifier)
    else none

abbrev pub skip : Text → Decision
skip reason = record { family = safe_reward; reason = reason; state = skipped; action = none }

abbrev pub block : Text → Decision
block reason = record { family = safe_reward; reason = reason; state = blocked; action = none }

abbrev pub select : RegisteredAction → Decision
select a = record {
  family = safe_reward;
  reason = codes "reward_safe_to_claim";
  state = selected;
  action = some a;
}

-- The last tests of `_decision`, given the action of the candidate.
abbrev pub decide_action : Option RegisteredAction → Bool → Decision
decide_action none already = skip (codes "reward_unknown_kind")
decide_action (some a) already = if already then skip (codes "reward_plan_limit") else select a

-- `_decision`; `already` is its argument `selected`.
unfoldable pub decision : RewardCandidate → RewardState → RewardPolicy → Bool → Decision
unfolding action
decision c state policy already =
    if not policy.safe_reward_claims
    then skip (codes "reward_claims_disabled")
    else if not state.inventory_safety_available
    then block (codes "inventory_safety_unavailable")
    else if not c.completed
    then skip (codes "reward_incomplete")
    else if c.claimed
    then skip (codes "reward_already_claimed")
    else if not (c.choice_count == 0)
    then skip (codes "reward_choice_required")
    else if not (c.cost == 0)
    then skip (codes "reward_has_cost")
    else if c.would_overflow
    then skip (codes "reward_inventory_overflow")
    else decide_action (action c) already

abbrev pub is_selected : Decision → Bool
is_selected d = elim d.state [ selected ↦ true | _ ↦ false ]

-- The loop of `build`.
unfoldable pub decide_all : RewardState → RewardPolicy → Bool → List RewardCandidate → List Decision
unfolding decision
decide_all state policy already [] = []
decide_all state policy already (c ∷ cs) =
    let d = decision c state policy already in
    let rest = decide_all state policy (if already then true else is_selected d) cs in d ∷ rest

abbrev pub or_none : List Decision → List Decision
or_none [] = skip (codes "no_reward_candidates") ∷ []
or_none (d ∷ ds) = d ∷ ds

abbrev pub candidate_fields : RewardCandidate → List (Text × Json)
candidate_fields c =
    (codes "key", Canonical.text c.identifier)
    ∷ (codes "kind", Canonical.text c.kind)
    ∷ (codes "completed", Canonical.boolean c.completed)
    ∷ (codes "claimed", Canonical.boolean c.claimed)
    ∷ (codes "choiceCount", Canonical.integer c.choice_count)
    ∷ (codes "cost", Canonical.integer c.cost)
    ∷ (codes "wouldOverflow", Canonical.boolean c.would_overflow)
    ∷ []

unfoldable pub candidate_json : RewardCandidate → Json
candidate_json c = dict (candidate_fields c)

abbrev pub reward_fields : RewardState → List (Text × Json)
reward_fields state =
    (codes "candidates", Canonical.array (items_of candidate_json state.candidates))
    ∷ (codes "inventorySafetyAvailable", Canonical.boolean state.inventory_safety_available)
    ∷ []

unfoldable pub projection : RewardState → Json
projection state = dict (reward_fields state)

abbrev pub reward_keyed : Keyed
reward_keyed = (codes "candidates", codes "key") ∷ []

abbrev pub five_minutes : ℕ
five_minutes = 300000000

abbrev pub reward_plan : ℕ → RewardPolicy → ℕ → List Decision → Text → ActionPlanDraft
reward_plan account_id policy now decisions f = record {
  account_id = account_id;
  state_fingerprint = f;
  policy_version = policy.version;
  decisions = decisions;
  estimated_costs = record { material = 0; attempts = 0; currency = 0 };
  risk = low;
  expires_at = now + five_minutes;
  confirmation_required = false;
  family = safe_reward;
}

-- `build`, up to the identifier of the plan, which is new; `none` would be a TypeError.
unfoldable pub build : (Json → Text) → RewardState → RewardPolicy → ℕ → ℕ → Option ActionPlanDraft
unfolding decide_all projection
build sha256_of state policy account_id now =
    elim (canonical_fingerprint sha256_of safe_reward reward_keyed (projection state)) [
      | none ↦ none
      | some f ↦ some (
          reward_plan account_id policy now
            (or_none (decide_all state policy false state.candidates)) f)
    ]
