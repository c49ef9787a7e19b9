-- ===== src/Policy/Worlds/Sorted.antt =====
-- The instances sorted by their keys (`sorted` in build_world_boss_plan, policy/engine.py): they are
-- the same ones, in ascending order.
use placegame_mcp.Prelude.{
  ◌≡◌, refl, arith, true, false, List, [], ◌∷◌, ◌⊎◌, inl, inr, All, Bool-cases,
}
use placegame_mcp.Text.{Text}
use placegame_mcp.Plans.Canonical.{text_lt}
use placegame_mcp.Policy.Worlds.{WorldBossInstance, insert_instance, sort_instances}

-- An instance of the list has the property.
abbrev pub Some : (WorldBossInstance → Type 0) → List WorldBossInstance → Type 0
Some P [] = ⊥
Some P (i ∷ is) = P i ⊎ Some P is

not_lt_trans : (a b c : Text) → text_lt b a ≡ false → text_lt c b ≡ false → text_lt c a ≡ false
unfolding text_lt
not_lt_trans [] b c h k = refl
not_lt_trans (x ∷ a) [] c h k = absurd (ground arith)
not_lt_trans (x ∷ a) (y ∷ b) [] h k = absurd (ground arith)
not_lt_trans (x ∷ a) (y ∷ b) (z ∷ c) h k = ground (arith, not_lt_trans a b c)

lt_asym : (a b : Text) → text_lt a b ≡ true → text_lt b a ≡ false
unfolding text_lt
lt_asym a [] h = absurd (ground arith)
lt_asym [] (y ∷ b) h = refl
lt_asym (x ∷ a) (y ∷ b) h = ground (arith, lt_asym a b)

pub lt_irrefl : (a : Text) → text_lt a a ≡ false
unfolding text_lt
lt_irrefl [] = refl
lt_irrefl (x ∷ a) = ground (arith, lt_irrefl a)

-- None of the instances has a key before the given one.
abbrev pub NoneBefore : Text → List WorldBossInstance → Type 0
NoneBefore k is = All (λ j. text_lt j.key k ≡ false) is

abbrev pub Ascending : List WorldBossInstance → Type 0
Ascending [] = Unit
Ascending (i ∷ is) = NoneBefore i.key is × Ascending is

NoneBefore-trans :
    (a b : Text) (is : List WorldBossInstance)
    → text_lt b a ≡ false
    → NoneBefore b is
    → NoneBefore a is
NoneBefore-trans a b [] h n = tt
NoneBefore-trans a b (i ∷ is) h n = (not_lt_trans a b i.key h n.0, NoneBefore-trans a b is h n.1)

module _ {ℓ} (P : WorldBossInstance → Type ℓ) where
  All-insert :
      (i : WorldBossInstance) (js : List WorldBossInstance)
      → P i
      → All P js
      → All P (insert_instance i js)
  unfolding insert_instance
  All-insert i [] p h = (p, tt)
  All-insert i (j ∷ js) p h = elim (Bool-cases (text_lt j.key i.key)) [
    | inl e ↦ rw e (h.0, All-insert i js p h.1)
    | inr e ↦ rw e (p, h)
  ]

  All-inserted :
      (i : WorldBossInstance) (js : List WorldBossInstance)
      → All P (insert_instance i js)
      → P i × All P js
  unfolding insert_instance
  All-inserted i [] h = (h.0, tt)
  All-inserted i (j ∷ js) h = elim (Bool-cases (text_lt j.key i.key)) [
    | inl e ↦
        let moved : All P (j ∷ insert_instance i js) = rw e at h in
        let (p, rest) = All-inserted i js moved.1 in (p, (moved.0, rest))
    | inr e ↦ rw e at h
  ]

  -- What all the sorted instances have, all have.
  pub All-sorted : (is : List WorldBossInstance) → All P (sort_instances is) → All P is
  unfolding sort_instances
  All-sorted [] h = tt
  All-sorted (i ∷ is) h =
      let (p, rest) = All-inserted i (sort_instances is) h in (p, All-sorted is rest)

insert-Ascending :
    (i : WorldBossInstance) (js : List WorldBossInstance)
    → Ascending js
    → Ascending (insert_instance i js)
unfolding insert_instance
insert-Ascending i [] a = (tt, tt)
insert-Ascending i (j ∷ js) a = elim (Bool-cases (text_lt j.key i.key)) [
  | inl e ↦ rw e (
    All-insert (λ x. text_lt x.key j.key ≡ false) i js (lt_asym j.key i.key e) a.0,
    insert-Ascending i js a.1,
  )
  | inr e ↦ rw e ((e, NoneBefore-trans i.key j.key js e a.0), a)
]

pub sort-Ascending : (is : List WorldBossInstance) → Ascending (sort_instances is)
unfolding sort_instances
sort-Ascending [] = tt
sort-Ascending (i ∷ is) = insert-Ascending i (sort_instances is) (sort-Ascending is)

module _ (P : WorldBossInstance → Type 0) where
  Some-inserted :
      (i : WorldBossInstance) (js : List WorldBossInstance)
      → Some P (insert_instance i js)
      → P i ⊎ Some P js
  unfolding insert_instance
  Some-inserted i [] h = h
  Some-inserted i (j ∷ js) h = elim (Bool-cases (text_lt j.key i.key)) [
    | inr e ↦ rw e at h
    | inl e ↦
        let moved : Some P (j ∷ insert_instance i js) = rw e at h in
        elim moved [
          | inl p ↦ inr (inl p)
          | inr s ↦ elim (Some-inserted i js s) [ inl p ↦ inl p | inr t ↦ inr (inr t) ]
        ]
  ]

  pub Some-sorted : (is : List WorldBossInstance) → Some P (sort_instances is) → Some P is
  unfolding sort_instances
  Some-sorted [] h = h
  Some-sorted (i ∷ is) h = elim (Some-inserted i (sort_instances is) h) [
    | inl p ↦ inl p
    | inr s ↦ inr (Some-sorted is s)
  ]

  -- No property that all lack is had by one.
  pub none_has : (is : List WorldBossInstance) → All (λ i. P i → ⊥) is → Some P is → ⊥
  none_has [] a h = h
  none_has (i ∷ is) a h = elim h [ inl p ↦ a.0 p | inr s ↦ none_has is a.1 s ]
