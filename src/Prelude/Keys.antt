-- ===== src/Prelude/Keys.antt =====
-- Tables whose rows have distinct identifiers.
use Prim.Native.Nat.{ℕ}
use mathlib.Core.Path.{◌≡◌, refl, ◌∙◌}
use mathlib.Core.Logic.{◌≢◌, inl, inr}
use mathlib.Core.Bool.{Bool}
use mathlib.Core.Option.{some}
use mathlib.Core.List.{List, [], ◌∷◌, ◌++◌}
use native.Mathlib.Omega.{arith}
use placegame_mcp.Prelude.Tests.{◌==◌, ==_refl, Bool-cases}
use placegame_mcp.Prelude.Lists.{first, update, All, All-first, append-All}

module _ {ℓ} {A : Type ℓ} (id : A → ℕ) where
  abbrev pub Distinct : List A → Type 0
  Distinct [] = Unit
  Distinct (x ∷ xs) = All (λ y. id y ≢ id x) xs × Distinct xs

  -- A row that a query finds is the row of its identifier.
  pub first-Distinct :
      (p : A → Bool) (xs : List A) (x : A)
      → Distinct xs
      → first p xs ≡ some x
      → first (λ y. id y == id x) xs ≡ some x
  first-Distinct p [] x d h = cc
  first-Distinct p (y ∷ ys) x d h = elim (Bool-cases (p y)) [
    | inl hit ↦ let e : y ≡ x = ground arith in rw e (rw (==_refl (id x)))
    | inr miss ↦
        let later : first p ys ≡ some x = ground arith in
        let other : id x ≢ id y = All-first (λ z. id z ≢ id y) p ys x d.0 later in
        ground (arith, other, first-Distinct p ys x d.1 later)
  ]

  abbrev pub write_row : A → List A → List A
  write_row x = update (λ y. id y == id x) (λ _. x)

  write-others :
      (x : A) (n : ℕ) (zs : List A) → All (λ z. id z ≢ n) zs → All (λ z. id z ≢ n) (write_row x zs)
  write-others x n [] a = tt
  write-others x n (z ∷ zs) a = elim (Bool-cases (id z == id x)) [
    | inl hit ↦
        let e : id z ≡ id x = ground arith in rw hit ((λ q. a.0 (e ∙ q)), write-others x n zs a.1)
    | inr miss ↦ rw miss (a.0, write-others x n zs a.1)
  ]

  -- Writing a row back keeps the identifiers.
  pub write-Distinct : (x : A) (xs : List A) → Distinct xs → Distinct (write_row x xs)
  write-Distinct x [] d = tt
  write-Distinct x (y ∷ ys) d = elim (Bool-cases (id y == id x)) [
    | inl hit ↦
        let e : id y ≡ id x = ground arith in
        rw hit (rw e at (write-others x (id y) ys d.0), write-Distinct x ys d.1)
    | inr miss ↦ rw miss (write-others x (id y) ys d.0, write-Distinct x ys d.1)
  ]

  pub All-write {κ} :
      (P : A → Type κ) (x : A) (xs : List A) → P x → All P xs → All P (write_row x xs)
  All-write P x [] px a = tt
  All-write P x (y ∷ ys) px a = elim (Bool-cases (id y == id x)) [
    | inl hit ↦ rw hit (px, All-write P x ys px a.1)
    | inr miss ↦ rw miss (a.0, All-write P x ys px a.1)
  ]

  pub first-write_self :
      (x p : A) (i : ℕ) (xs : List A)
      → id x ≡ i
      → first (λ y. id y == i) xs ≡ some p
      → first (λ y. id y == i) (write_row x xs) ≡ some x
  first-write_self x p i [] e h = cc
  first-write_self x p i (y ∷ ys) e h = ground (arith, first-write_self x p i ys e)

  pub first-write_other :
      (x : A) (i : ℕ) (xs : List A)
      → id x ≢ i
      → first (λ y. id y == i) (write_row x xs) ≡ first (λ y. id y == i) xs
  first-write_other x i [] e = refl
  first-write_other x i (y ∷ ys) e = ground (arith, first-write_other x i ys e)

  pub append-Distinct :
      (x : A) (xs : List A) → All (λ y. id x ≢ id y) xs → Distinct xs → Distinct (xs ++ x ∷ [])
  append-Distinct x [] a d = (tt, tt)
  append-Distinct x (y ∷ ys) a d =
      (append-All (λ z. id z ≢ id y) x ys a.0 d.0, append-Distinct x ys a.1 d.1)
