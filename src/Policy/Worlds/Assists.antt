-- ===== src/Policy/Worlds/Assists.antt =====
-- When a world boss is assisted, and which one.
use placegame_mcp.Prelude.{
  ℕ, ◌<◌, ◌≡◌, refl, subst, ap, ◌∙◌, arith, true, false, Option, some, List, [], ◌∷◌, ◌||◌, none,
  ◌==◌, ◌⊎◌, inl, inr, first, All, All-map, Bool-cases, Option-cases,
}
use placegame_mcp.Text.{Text}
use placegame_mcp.Plans.Rows.{boss_assist}
use placegame_mcp.Plans.Canonical.{text_lt}
use placegame_mcp.Policy.Rewards.{is_selected}
use placegame_mcp.Policy.Worlds.Sorted.{
  Some, Ascending, sort-Ascending, All-sorted, Some-sorted, none_has, lt_irrefl,
}
use placegame_mcp.Policy.Worlds.{
  WorldBossInstance, WorldPolicy, world_window, sort_instances, eligible, assist, world_decision,
}

-- The policy and the game let the player assist in the fight.
pub record CanAssist (policy : WorldPolicy) (i : WorldBossInstance) : Type 0 where
  pub active : i.active ≡ true
  pub alive : i.alive ≡ true
  pub allowed : i.my_attempt_count < policy.world_attempts
  pub left : 0 < i.remaining_attempt_count

abbrev pub IsOpen : ℕ → Type 0
IsOpen hour = (hour ≡ 10) ⊎ (hour ≡ 16) ⊎ (hour ≡ 20)

-- The boss with the key is the first by its key that can be assisted, in an hour of the game.
pub record Assists (policy : WorldPolicy) (hour : ℕ) (is : List WorldBossInstance) (k : Text)
    : Type 0 where
  pub enabled : policy.world_collaboration_enabled ≡ true
  pub opened : IsOpen hour
  pub found : Some (λ i. CanAssist policy i × (i.key ≡ k)) is
  pub least : All (λ i. CanAssist policy i → text_lt i.key k ≡ false) is

module _ (policy : WorldPolicy) where
  eligible-CanAssist : (i : WorldBossInstance) → eligible policy i ≡ true → CanAssist policy i
  eligible-CanAssist i h = record {
    active = ground arith;
    alive = ground arith;
    allowed = ground arith;
    left = ground arith;
  }

  CanAssist-eligible : (i : WorldBossInstance) → CanAssist policy i → eligible policy i ≡ true
  CanAssist-eligible i c = ground (arith, c.active, c.alive, c.allowed, c.left)

  first_found :
      (is : List WorldBossInstance) (i : WorldBossInstance)
      → first (eligible policy) is ≡ some i
      → Some (λ j. CanAssist policy j × (j.key ≡ i.key)) is
  first_found [] i h = absurd (ground arith)
  first_found (j ∷ js) i h = elim (Bool-cases (eligible policy j)) [
    | inl hit ↦
        let same : j ≡ i = ground arith in inl (eligible-CanAssist j hit, ap (λ x. x.key) same)
    | inr miss ↦ inr (first_found js i (ground arith))
  ]

  -- In an ascending list the first that is found is the least.
  first_least :
      (is : List WorldBossInstance) (i : WorldBossInstance)
      → Ascending is
      → first (eligible policy) is ≡ some i
      → All (λ j. CanAssist policy j → text_lt j.key i.key ≡ false) is
  first_least [] i a h = tt
  first_least (j ∷ js) i a h = elim (Bool-cases (eligible policy j)) [
    | inl hit ↦
        let same : j ≡ i = ground arith in
        subst (λ x. All (λ y. CanAssist policy y → text_lt y.key x.key ≡ false) (j ∷ js)) same
          (
            λ c. lt_irrefl j.key,
            All-map (λ x. text_lt x.key j.key ≡ false)
                (λ x. CanAssist policy x → text_lt x.key j.key ≡ false) js (λ x n c. n) a.0,
          )
    | inr miss ↦
        (λ c. absurd (ground (arith, CanAssist-eligible j c)), first_least js i a.1 (ground arith))
  ]

  none_eligible :
      (is : List WorldBossInstance)
      → first (eligible policy) is ≡ none
      → All (λ i. CanAssist policy i → ⊥) is
  none_eligible [] h = tt
  none_eligible (j ∷ js) h = elim (Bool-cases (eligible policy j)) [
    | inl hit ↦ absurd (ground arith)
    | inr miss ↦
        (λ c. absurd (ground (arith, CanAssist-eligible j c)), none_eligible js (ground arith))
  ]

-- The windows are the hours from 10, 16 and 20 o'clock.
pub world_window_hours :
    (hour minute : ℕ) → world_window hour minute ≡ hour == 10 || hour == 16 || hour == 20
unfolding world_window
world_window_hours hour minute = ground arith

window-IsOpen : (hour minute : ℕ) → world_window hour minute ≡ true → IsOpen hour
window-IsOpen hour minute h =
    let hours = world_window_hours hour minute in
    elim (Bool-cases (hour == 10)) [
      | inl a ↦ inl (ground arith)
      | inr a ↦ elim (Bool-cases (hour == 16)) [
        | inl b ↦ inr (inl (ground arith))
        | inr b ↦ inr (inr (ground arith))
      ]
    ]

IsOpen-window : (hour minute : ℕ) → IsOpen hour → world_window hour minute ≡ true
IsOpen-window hour minute h =
    world_window_hours hour minute
    ∙ elim h [ inl e ↦ rw e refl | inr (inl e) ↦ rw e refl | inr (inr e) ↦ rw e refl ]

-- A decision to assist is made only if the policy has world bosses enabled, the hour in Shanghai is
-- that of 10, 16 or 20 o'clock, and the boss is one that is active and alive, with an attempt left of
-- the policy's and one of the game's; its key is the least of those bosses. If there is such a boss
-- in such an hour, and the policy has them enabled, then a boss is chosen.
pub world_decision-Assists :
    (policy : WorldPolicy) (hour minute : ℕ) (is : List WorldBossInstance)
    → ((k : Text)
        → (world_decision policy hour minute is).action ≡ some (boss_assist k)
        → Assists policy hour is k)
      × (policy.world_collaboration_enabled ≡ true
          → IsOpen hour
          → Some (CanAssist policy) is
          → (k : Text) × ((world_decision policy hour minute is).action ≡ some (boss_assist k))
            × (is_selected (world_decision policy hour minute is) ≡ true))
unfolding world_decision
world_decision-Assists policy hour minute is = (only, whenever)
  where
    of_found :
        (found : Option WorldBossInstance) (k : Text)
        → first (eligible policy) (sort_instances is) ≡ found
        → policy.world_collaboration_enabled ≡ true
        → IsOpen hour
        → (assist found).action ≡ some (boss_assist k)
        → Assists policy hour is k
    of_found none k e on opened h = absurd (ground arith)
    of_found (some i) k e on opened h =
        let same : i.key ≡ k = cc in
        rw (← same) (record {
          enabled = on;
          opened = opened;
          found =
              Some-sorted (λ j. CanAssist policy j × (j.key ≡ i.key)) is
                (first_found policy (sort_instances is) i e);
          least =
              All-sorted (λ j. CanAssist policy j → text_lt j.key i.key ≡ false) is
                (first_least policy (sort_instances is) i (sort-Ascending is) e);
        })

    only :
        (k : Text)
        → (world_decision policy hour minute is).action ≡ some (boss_assist k)
        → Assists policy hour is k
    only k = elim (Bool-cases policy.world_collaboration_enabled) [
      | inr off ↦ simp off λ h. absurd (ground arith)
      | inl on ↦ elim (Bool-cases (world_window hour minute)) [
        | inr shut ↦ simp (on, shut) λ h. absurd (ground arith)
        | inl opened ↦
            simp (on, opened)
              (of_found (first (eligible policy) (sort_instances is)) k refl on
                (window-IsOpen hour minute opened))
      ]
    ]

    whenever :
        policy.world_collaboration_enabled ≡ true
        → IsOpen hour
        → Some (CanAssist policy) is
        → (k : Text) × ((world_decision policy hour minute is).action ≡ some (boss_assist k))
          × (is_selected (world_decision policy hour minute is) ≡ true)
    whenever on opened able =
        let window = IsOpen-window hour minute opened in
        elim (Option-cases (first (eligible policy) (sort_instances is))) [
          | inl e ↦ absurd (
              none_has (CanAssist policy) is
                (All-sorted (λ i. CanAssist policy i → ⊥) is
                  (none_eligible policy (sort_instances is) e))
                able)
          | inr (i, e) ↦ simp (on, window, e) (i.key, refl, refl)
        ]
