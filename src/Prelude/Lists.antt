-- ===== src/Prelude/Lists.antt =====
-- Lists over the native numbers: measures, selection, search, and predicates by recursion.
use Prim.Native.Nat.{ℕ, suc, ◌+◌}
use mathlib.Core.Path.{◌≡◌, refl}
use mathlib.Core.Bool.{Bool, true, false, ◌||◌}
use mathlib.Core.Logic.{inl, inr}
use mathlib.Core.Option.{Option, none, some}
use mathlib.Core.List.{List, [], ◌∷◌, ◌++◌}
use native.Mathlib.Omega.{arith}
use placegame_mcp.Prelude.Tests.{if◌then◌else◌, Bool-cases, is_some_and}

module _ {ℓ} {A : Type ℓ} where
  abbrev pub length : List A → ℕ
  length [] = 0
  length (x ∷ xs) = suc (length xs)

  pub length-append : (xs ys : List A) → length (xs ++ ys) ≡ length xs + length ys
  length-append [] ys = omega arith
  length-append (x ∷ xs) ys = omega (arith, length-append xs ys)

  -- `[x for x in xs if p(x)]`
  abbrev pub keep : (A → Bool) → List A → List A
  keep p [] = []
  keep p (x ∷ xs) = let rest = keep p xs in if p x then x ∷ rest else rest

  -- `next((x for x in xs if p(x)), None)`, and a query for one row.
  abbrev pub first : (A → Bool) → List A → Option A
  first p [] = none
  first p (x ∷ xs) = if p x then some x else first p xs

  abbrev pub any : (A → Bool) → List A → Bool
  any p [] = false
  any p (x ∷ xs) = p x || any p xs

  abbrev pub count : (A → Bool) → List A → ℕ
  count p [] = 0
  count p (x ∷ xs) = let rest = count p xs in if p x then suc rest else rest

  -- The writes to the rows that a query selects.
  abbrev pub update : (A → Bool) → (A → A) → List A → List A
  update p f [] = []
  update p f (x ∷ xs) = (if p x then f x else x) ∷ update p f xs

  abbrev pub All {κ} : (A → Type κ) → List A → Type κ
  All P [] = Unit
  All P (x ∷ xs) = P x × All P xs

module _ {ℓ} {A : Type ℓ} where
  abbrev pub written : (A → Bool) → (A → A) → Option A → Option A
  written p f none = none
  written p f (some x) = some (if p x then f x else x)

  -- A query that the write does not disturb finds the written row.
  pub first-update :
      (q p : A → Bool) (f : A → A) (xs : List A)
      → ((x : A) → q (f x) ≡ q x)
      → first q (update p f xs) ≡ written p f (first q xs)
  first-update q p f [] h = refl
  first-update q p f (x ∷ xs) h = ground (arith, h x, first-update q p f xs h)

  pub first-append :
      (q : A → Bool) (xs : List A) (y : A)
      → first q (xs ++ y ∷ []) ≡ (if any q xs then first q xs else if q y then some y else none)
  first-append q [] y = refl
  first-append q (x ∷ xs) y = ground (arith, first-append q xs y)

  pub first-holds : (p : A → Bool) (xs : List A) (x : A) → first p xs ≡ some x → p x ≡ true
  first-holds p [] x h = cc
  first-holds p (y ∷ ys) x h = ground (arith, first-holds p ys x)

  pub any-first : (p : A → Bool) (xs : List A) → any p xs ≡ is_some_and (λ _. true) (first p xs)
  any-first p [] = refl
  any-first p (x ∷ xs) = ground (arith, any-first p xs)

module _ {ℓ κ} {A : Type ℓ} (P : A → Type κ) where
  pub All-first : (p : A → Bool) (xs : List A) (x : A) → All P xs → first p xs ≡ some x → P x
  All-first p [] x all h = cc
  All-first p (y ∷ ys) x all h = elim (Bool-cases (p y)) [
    | inl found ↦ let e : y ≡ x = ground arith in rw e at all.0
    | inr next ↦ All-first p ys x all.1 (ground arith)
  ]

  pub All-update :
      (p : A → Bool) (f : A → A) (xs : List A)
      → ((x : A) → P x → P (f x))
      → All P xs
      → All P (update p f xs)
  All-update p f [] keeps all = all
  All-update p f (x ∷ xs) keeps all = elim (Bool-cases (p x)) [
    | inl hit ↦ (rw hit (keeps x all.0), All-update p f xs keeps all.1)
    | inr miss ↦ (rw miss all.0, All-update p f xs keeps all.1)
  ]

  pub append-All : (x : A) (xs : List A) → P x → All P xs → All P (xs ++ x ∷ [])
  append-All x [] p all = (p, tt)
  append-All x (y ∷ ys) p all = (all.0, append-All x ys p all.1)

module _ {ℓ κ μ} {A : Type ℓ} (P : A → Type κ) (Q : A → Type μ) where
  pub All-map : (xs : List A) → ((x : A) → P x → Q x) → All P xs → All Q xs
  All-map [] h all = tt
  All-map (x ∷ xs) h all = (h x all.0, All-map xs h all.1)

pub All-tt {ℓ} : {A : Type ℓ} (xs : List A) → All (λ _. Unit {0}) xs
All-tt [] = tt
All-tt (x ∷ xs) = (tt, All-tt xs)
