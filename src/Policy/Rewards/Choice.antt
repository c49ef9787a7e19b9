-- ===== src/Policy/Rewards/Choice.antt =====
-- The decisions of SafeRewardPlanner: which reward is claimed.
use placegame_mcp.Prelude.{
  ◌≡◌, refl, arith, Bool, true, false, ◌&&◌, not, Option, none, some, List, [], ◌∷◌, ◌==◌, All,
  is_some_and, if◌then◌else◌,
}
use placegame_mcp.Text.{codes, Text}
use placegame_mcp.Plans.Rows.{
  Decision, safe_reward, RegisteredAction, all_decisions, decision_valid, is_reason, action_family,
  one_family,
}
use placegame_mcp.Policy.Fitting.{either, Fits, Fits-valid, Fits-one_family}
use placegame_mcp.Policy.Rewards.{
  RewardCandidate, RewardState, RewardPolicy, action, skip, block, select, decide_action, decision,
  is_selected, decide_all, or_none,
}

-- A reward that can be claimed without a loss, of a kind that the planner knows.
abbrev pub claimable : RewardState → RewardPolicy → RewardCandidate → Bool
claimable state policy c =
    policy.safe_reward_claims
    && state.inventory_safety_available
    && c.completed
    && not c.claimed
    && c.choice_count == 0
    && c.cost == 0
    && not c.would_overflow
    && is_some_and (λ a. true) (action c)

abbrev pub claim_of : Option RewardCandidate → Option Decision
claim_of none = none
claim_of (some c) = elim (action c) [ none ↦ none | some a ↦ some (select a) ]

action-family :
    (c : RewardCandidate) (a : RegisteredAction) → action c ≡ some a → action_family a ≡ safe_reward
unfolding action action_family
action-family c a h = ground (arith, h)

skip-Fits : (reason : Text) → is_reason reason ≡ true → Fits safe_reward (skip reason)
unfolding decision_valid
skip-Fits reason h = (ground (arith, h), refl)

block-Fits : (reason : Text) → is_reason reason ≡ true → Fits safe_reward (block reason)
unfolding decision_valid
block-Fits reason h = (ground (arith, h), refl)

decide_action-Fits :
    (o : Option RegisteredAction) (already : Bool)
    → ((a : RegisteredAction) → o ≡ some a → action_family a ≡ safe_reward)
    → Fits safe_reward (decide_action o already)
unfolding decision_valid is_reason
decide_action-Fits none already h = skip-Fits (codes "reward_unknown_kind") refl
decide_action-Fits (some a) true h = skip-Fits (codes "reward_plan_limit") refl
decide_action-Fits (some a) false h = (rw (h a refl) refl, refl)

decision-Fits :
    (c : RewardCandidate) (state : RewardState) (policy : RewardPolicy) (already : Bool)
    → Fits safe_reward (decision c state policy already)
unfolding decision is_reason
decision-Fits c state policy already =
    either (Fits safe_reward) (not policy.safe_reward_claims) _ _
      (skip-Fits (codes "reward_claims_disabled") refl)
      (either (Fits safe_reward) (not state.inventory_safety_available) _ _
        (block-Fits (codes "inventory_safety_unavailable") refl)
        (either (Fits safe_reward) (not c.completed) _ _
          (skip-Fits (codes "reward_incomplete") refl)
          (either (Fits safe_reward) c.claimed _ _ (skip-Fits (codes "reward_already_claimed") refl)
            (either (Fits safe_reward) (not (c.choice_count == 0)) _ _
              (skip-Fits (codes "reward_choice_required") refl)
              (either (Fits safe_reward) (not (c.cost == 0)) _ _
                (skip-Fits (codes "reward_has_cost") refl)
                (either (Fits safe_reward) c.would_overflow _ _
                  (skip-Fits (codes "reward_inventory_overflow") refl)
                  (decide_action-Fits (action c) already (action-family c))))))))

decide_all-Fits :
    (state : RewardState) (policy : RewardPolicy) (already : Bool) (cs : List RewardCandidate)
    → All (Fits safe_reward) (decide_all state policy already cs)
unfolding decide_all
decide_all-Fits state policy already [] = tt
decide_all-Fits state policy already (c ∷ cs) = (
  decision-Fits c state policy already,
  decide_all-Fits state policy
      (if already then true else is_selected (decision c state policy already)) cs,
)

or_none-Fits :
    (ds : List Decision) → All (Fits safe_reward) ds → All (Fits safe_reward) (or_none ds)
unfolding is_reason
or_none-Fits [] a = (skip-Fits (codes "no_reward_candidates") refl, tt)
or_none-Fits (d ∷ ds) a = a

-- Whatever the game offers, the decisions of the plan fit its family.
pub decisions-Fits :
    (state : RewardState) (policy : RewardPolicy) (cs : List RewardCandidate)
    → All (Fits safe_reward) (or_none (decide_all state policy false cs))
decisions-Fits state policy cs =
    or_none-Fits (decide_all state policy false cs) (decide_all-Fits state policy false cs)

Fits-one_family_of :
    (ds : List Decision) → All (Fits safe_reward) (or_none ds) → one_family (or_none ds) ≡ true
Fits-one_family_of [] a = Fits-one_family safe_reward (skip (codes "no_reward_candidates")) [] a
Fits-one_family_of (d ∷ ds) a = Fits-one_family safe_reward d ds a

-- They pass the validators of the plan model: there is one at least, each has a reason of the right
-- form and an action if it is selected, and all are of one family.
pub decisions_valid :
    (state : RewardState) (policy : RewardPolicy) (cs : List RewardCandidate)
    → (all_decisions decision_valid (or_none (decide_all state policy false cs)) ≡ true)
      × (one_family (or_none (decide_all state policy false cs)) ≡ true)
decisions_valid state policy cs =
    let fits = decisions-Fits state policy cs in
    (
      (Fits-valid safe_reward (or_none (decide_all state policy false cs)) fits).0,
      Fits-one_family_of (decide_all state policy false cs) fits,
    )
