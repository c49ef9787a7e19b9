-- ===== src/Policy/Fitting.antt =====
-- Decisions that pass the validators of a plan of their family (policy/plans.py).
use placegame_mcp.Prelude.{◌≡◌, refl, arith, Bool, true, false, List, [], ◌∷◌, All, if◌then◌else◌}
use placegame_mcp.Plans.Rows.{
  ActionFamily, Decision, all_decisions, decision_valid, one_family, family_eq,
}

-- A property of both branches is one of the test's result.
pub either {ℓ κ} :
    {A : Type ℓ} (P : A → Type κ) (b : Bool) (x y : A) → P x → P y → P (if b then x else y)
either P true x y p q = p
either P false x y p q = q

abbrev pub Fits : ActionFamily → Decision → Type 0
Fits family d = (decision_valid d ≡ true) × (d.family ≡ family)

pub family_eq_refl : (f : ActionFamily) → family_eq f f ≡ true
family_eq_refl f = ground arith

pub Fits-valid :
    (family : ActionFamily) (ds : List Decision)
    → All (Fits family) ds
    → (all_decisions decision_valid ds ≡ true)
      × (all_decisions (λ e. family_eq e.family family) ds ≡ true)
Fits-valid family [] a = (refl, refl)
Fits-valid family (d ∷ ds) ((v, f), a) =
    let (x, y) = Fits-valid family ds a in
    (ground (arith, v, x), rw (f, family_eq_refl family, y) refl)

pub Fits-one_family :
    (family : ActionFamily) (d : Decision) (ds : List Decision)
    → All (Fits family) (d ∷ ds)
    → one_family (d ∷ ds) ≡ true
unfolding one_family
Fits-one_family family d ds ((v, f), a) = rw f (Fits-valid family ds a).1
