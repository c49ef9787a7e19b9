-- ===== src/Policy/Bosses/Sorting.antt =====
-- Python's stable `sorted`, and the head of a list, for boss_optimizer.py.
use placegame_mcp.Prelude.{
  ℕ, zero, suc, Bool, List, [], ◌∷◌, All, Bool-cases, inl, inr, if◌then◌else◌,
}

module _ {ℓ} {A : Type ℓ} where
  unfoldable pub insert : (A → A → Bool) → A → List A → List A
  insert before x [] = x ∷ []
  insert before x (y ∷ ys) =
      let rest = insert before x ys in if before y x then y ∷ rest else x ∷ y ∷ ys

  -- `before` is the strict order of the keys.
  unfoldable pub sort : (A → A → Bool) → List A → List A
  unfolding insert
  sort before [] = []
  sort before (x ∷ xs) = insert before x (sort before xs)

  -- `xs[:n]`
  unfoldable pub take : ℕ → List A → List A
  take zero xs = []
  take (suc n) [] = []
  take (suc n) (x ∷ xs) = x ∷ take n xs

module _ {ℓ κ} {A : Type ℓ} (P : A → Type κ) (before : A → A → Bool) where
  insert-All : (x : A) (ys : List A) → P x → All P ys → All P (insert before x ys)
  unfolding insert
  insert-All x [] p a = (p, tt)
  insert-All x (y ∷ ys) p (q, a) = elim (Bool-cases (before y x)) [
    | inl b ↦ rw b (q, insert-All x ys p a)
    | inr b ↦ rw b (p, (q, a))
  ]

  pub sort-All : (xs : List A) → All P xs → All P (sort before xs)
  unfolding sort
  sort-All [] a = tt
  sort-All (x ∷ xs) (p, a) = insert-All x (sort before xs) p (sort-All xs a)

module _ {ℓ κ} {A : Type ℓ} (P : A → Type κ) where
  pub take-All : (n : ℕ) (xs : List A) → All P xs → All P (take n xs)
  unfolding take
  take-All zero xs a = tt
  take-All (suc n) [] a = tt
  take-All (suc n) (x ∷ xs) (p, a) = (p, take-All n xs a)
