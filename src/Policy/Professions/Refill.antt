-- ===== src/Policy/Professions/Refill.antt =====
-- The refill of the professions' queue.
use native.Mathlib.Nat.{mod-lt, div-add-mod'}
use placegame_mcp.Prelude.{
  ℕ, zero, suc, subst, sym, ◌+◌, ◌-◌, ◌*◌, ◌/◌, ◌%◌, ◌≤◌, ◌<◌, ◌≡◌, ◌⊎◌, min, max, arith, ◌&&◌,
  some, List, [], ◌∷◌, leb, length, first, All, All-first, Bool-cases, Option-cases, inl, inr,
}
use placegame_mcp.Plans.Rows.{RegisteredAction, profession_enqueue}
use placegame_mcp.Policy.Professions.{
  ProfessionState, ProfessionPolicy, ProfessionRecipe, queued, choose, sort_recipes, repetitions,
  profession_action, insert_recipe, wants_food, wants_potion, affordable,
}
use placegame_mcp.Plans.Canonical.{text_lt}

-- A number of repetitions that fills `a` seconds, cut to the capacity, fills them or the capacity.
fill :
    (capacity a d q : ℕ)
    → 1 ≤ capacity
    → a ≤ q * d
    → (1 ≤ min capacity (max 1 q))
      × (min capacity (max 1 q) ≤ capacity)
      × ((a ≤ min capacity (max 1 q) * d) ⊎ (min capacity (max 1 q) ≡ capacity))
fill capacity a d zero c h = (omega (arith, c), omega arith, inl (omega (arith, h)))
fill capacity a d (suc p) c h = elim (Bool-cases (leb capacity (suc p))) [
  | inl full ↦ (ground arith, ground arith, inr (ground arith))
  | inr room ↦
      let n : min capacity (max 1 (suc p)) ≡ suc p = ground arith in
      (ground arith, ground arith, inl (subst (λ k. a ≤ k * d) (sym n) h))
]

repetitions_enough :
    (capacity horizon seconds duration : ℕ)
    → 1 ≤ capacity
    → 1 ≤ duration
    → (1 ≤ repetitions capacity horizon seconds duration)
      × (repetitions capacity horizon seconds duration ≤ capacity)
      × ((horizon ≤ seconds + repetitions capacity horizon seconds duration * duration)
          ⊎ (repetitions capacity horizon seconds duration ≡ capacity))
unfolding repetitions
repetitions_enough capacity horizon seconds duration c d =
    let x = horizon - seconds + duration - 1 in
    let q = x / duration in
    let below : x % duration < duration = mod-lt x (omega (arith, d)) in
    let whole : q * duration + x % duration ≡ x = div-add-mod' x duration in
    let (low, high, out) =
      fill capacity (horizon - seconds) duration q c (omega (arith, below, whole, d)) in
    (low, high, elim out [ inl enough ↦ inl (omega (arith, enough)) | inr all ↦ inr all ])

insert_recipe-All {κ} :
    (P : ProfessionRecipe → Type κ) (r : ProfessionRecipe) (rs : List ProfessionRecipe)
    → P r
    → All P rs
    → All P (insert_recipe r rs)
unfolding insert_recipe
insert_recipe-All P r [] p a = (p, tt)
insert_recipe-All P r (s ∷ rs) p (q, a) = elim (Bool-cases (text_lt s.key r.key)) [
  | inl before ↦ rw before (q, insert_recipe-All P r rs p a)
  | inr after ↦ rw after (p, (q, a))
]

sort_recipes-All {κ} :
    (P : ProfessionRecipe → Type κ) (rs : List ProfessionRecipe)
    → All P rs
    → All P (sort_recipes rs)
unfolding sort_recipes
sort_recipes-All P [] a = tt
sort_recipes-All P (r ∷ rs) (p, a) =
    insert_recipe-All P r (sort_recipes rs) p (sort_recipes-All P rs a)

choose-All {κ} :
    (P : ProfessionRecipe → Type κ) (state : ProfessionState) (policy : ProfessionPolicy)
    (rs : List ProfessionRecipe) (r : ProfessionRecipe)
    → All P rs
    → choose state policy rs ≡ some r
    → P r
unfolding choose
choose-All P state policy rs r a = elim (Option-cases (first (λ r. r.unlock_milestone) rs)) [
  | inr (x, e) ↦
      rw (e, choose) (λ h. subst P (same h) (All-first P (λ r. r.unlock_milestone) rs x a e))
  | inl e ↦ elim (Option-cases (first (wants_food state policy) rs)) [
    | inr (x, f) ↦
        rw (e, f, choose) (λ h. subst P (same h) (All-first P (wants_food state policy) rs x a f))
    | inl f ↦ elim (Option-cases (first (wants_potion state policy) rs)) [
      | inr (x, g) ↦
          rw (e, f, g, choose)
            (λ h. subst P (same h) (All-first P (wants_potion state policy) rs x a g))
      | inl g ↦
          rw (e, f, g, choose)
            (All-first P (λ r. affordable state.balances r.required_inputs) rs r a)
    ]
  ]
]
  where
    same : {x y : ProfessionRecipe} → some x ≡ some y → x ≡ y
    same h = cc

-- What the planner wants of a queue: a known recipe, at least once, at most as often as the queue has
-- room, and enough for the horizon unless that fills the queue.
pub record Refills (state : ProfessionState) (policy : ProfessionPolicy) (a : RegisteredAction)
    : Type 0 where
  pub recipe : ProfessionRecipe
  pub count : ℕ
  pub chosen : choose state policy (sort_recipes state.recipes) ≡ some recipe
  pub enqueued : a ≡ profession_enqueue recipe.key count
  pub positive : 1 ≤ count
  pub fits : length state.queue + count ≤ 5
  pub fills :
      (policy.profession_horizon_hours * 3600
        ≤ queued state.queue + count * recipe.duration_seconds)
      ⊎ (length state.queue + count ≡ 5)

-- If all durations are positive and the planner enqueues a recipe, then it does so at least once, the
-- queue does not exceed its five places, and it lasts for the horizon of the policy or is full.
pub profession_action-Refills :
    (state : ProfessionState) (policy : ProfessionPolicy) (a : RegisteredAction)
    → All (λ r. 1 ≤ r.duration_seconds) state.recipes
    → profession_action state policy ≡ some a
    → Refills state policy a
unfolding profession_action
profession_action-Refills state policy a durations =
    elim (Bool-cases (leb 2 (length state.queue) && leb 21600 (queued state.queue))) [
      | inl enough ↦ rw (enough, profession_action) (λ h. absurd (ground arith))
      | inr more ↦ elim (Bool-cases (leb (5 - length state.queue) 0)) [
        | inl full ↦ rw (more, full, profession_action) (λ h. absurd (ground arith))
        | inr room ↦ elim (Option-cases (choose state policy (sort_recipes state.recipes))) [
          | inl e ↦ rw (more, room, e, profession_action) (λ h. absurd (ground arith))
          | inr (r, e) ↦
              let n =
                repetitions (5 - length state.queue) (policy.profession_horizon_hours * 3600)
                  (queued state.queue) r.duration_seconds in
              let (low, high, out) =
                repetitions_enough (5 - length state.queue) (policy.profession_horizon_hours * 3600)
                  (queued state.queue) r.duration_seconds (ground arith)
                  (choose-All (λ r. 1 ≤ r.duration_seconds) state policy
                    (sort_recipes state.recipes) r
                    (sort_recipes-All (λ r. 1 ≤ r.duration_seconds) state.recipes durations) e) in
              rw (more, room, e, profession_action)
                (λ h. record {
                  recipe = r;
                  count = n;
                  chosen = e;
                  enqueued = ground arith;
                  positive = low;
                  fits = ground arith;
                  fills = elim out [ inl x ↦ inl x | inr x ↦ inr (ground arith) ];
                })
        ]
      ]
    ]
