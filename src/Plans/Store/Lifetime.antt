-- ===== src/Plans/Store/Lifetime.antt =====
-- What holds of a plan over any history of calls of the store.
use placegame_mcp.Prelude.{
  ℕ, ◌+◌, ◌<◌, ◌≡◌, ◌≢◌, subst, arith, true, false, some, List, [], ◌∷◌, ◌==◌, first, first-holds,
  is_none, All, All-first, All-map, Bool-cases, inl, inr,
}
use placegame_mcp.Prelude.Keys.{write-Distinct, All-write, first-write_other}
use placegame_mcp.Plans.Rows.{ActionPlan, confirmed, executing}
use placegame_mcp.Plans.Store.{Plans, by_id, is_terminal}
use placegame_mcp.Plans.Store.Transitions.{
  PlanCall, call, calls, Moves, confirmed_now, started, ended, Effect, same, added, moved, IsValid,
  call-Effect,
}

above : (n : ℕ) (rows : List ActionPlan) → All (λ p. p.id < n) rows → All (λ p. p.id ≢ n) rows
above n [] a = tt
above n (p ∷ ps) a = ((λ e. omega arith), above n ps a.1)

moved_id : (now : ℕ) (p q : ActionPlan) → Moves now p q → q.id ≡ p.id
moved_id now p q (confirmed_now actor a b e) = ground arith
moved_id now p q (started a b e) = ground arith
moved_id now p q (ended status r a b e) = ground arith

Effect-IsValid : {s t : Plans} → Effect s t → IsValid s → IsValid t
Effect-IsValid same v = v
Effect-IsValid {s} (added d good) v = record {
  fresh = (
    omega arith,
    All-map (λ p. p.id < s.next_id) (λ p. p.id < s.next_id + 1) s.rows (λ p h. omega arith) v.fresh,
  );
  distinct = (above s.next_id s.rows v.fresh, v.distinct);
}
Effect-IsValid {s} (moved now p q found m) v = record {
  fresh =
      All-write (λ r. r.id) (λ r. r.id < s.next_id) q s.rows
        (rw (moved_id now p q m)
          (All-first (λ r. r.id < s.next_id) (by_id p.id) s.rows p v.fresh found))
        v.fresh;
  distinct = write-Distinct (λ r. r.id) q s.rows v.distinct;
}

pub call-IsValid : (c : PlanCall) (s : Plans) → IsValid s → IsValid (call c s)
call-IsValid c s v = Effect-IsValid (call-Effect c s v) v

terminal_stays :
    (now : ℕ) (p q : ActionPlan) → Moves now p q → is_terminal p.execution_state ≡ false
terminal_stays now p q (confirmed_now actor a b e) = ground arith
terminal_stays now p q (started a b e) = ground arith
terminal_stays now p q (ended status r a b e) = ground arith

Effect-final :
    {s t : Plans} (i : ℕ) (r : ActionPlan)
    → Effect s t
    → IsValid s
    → is_terminal r.execution_state ≡ true
    → first (by_id i) s.rows ≡ some r
    → first (by_id i) t.rows ≡ some r
Effect-final i r same v term found = found
Effect-final {s} i r (added d good) v term found =
    let low : r.id < s.next_id =
      All-first (λ p. p.id < s.next_id) (by_id i) s.rows r v.fresh found in
    ground (arith, low, first-holds (by_id i) s.rows r found)
Effect-final {s} i r (moved now p q hit m) v term found = elim (Bool-cases (p.id == i)) [
  | inr other ↦
      rw (first-write_other (λ x. x.id) q i s.rows (λ e. ground (arith, moved_id now p q m))) found
  | inl at_i ↦
      let e : p.id ≡ i = ground arith in
      let here : first (by_id i) s.rows ≡ some p =
        subst (λ n. first (by_id n) s.rows ≡ some p) e hit in
      absurd (ground (arith, terminal_stays now p q m))
]

-- A plan that is executed, failed or left to reconciliation is never written again: its row is the
-- same after any calls of the store.
pub terminal_plan_final :
    (i : ℕ) (r : ActionPlan) (cs : List PlanCall) (s : Plans)
    → IsValid s
    → first (by_id i) s.rows ≡ some r
    → is_terminal r.execution_state ≡ true
    → first (by_id i) (calls cs s).rows ≡ some r
unfolding calls
terminal_plan_final i r [] s v found term = found
terminal_plan_final i r (c ∷ cs) s v found term =
    terminal_plan_final i r cs (call c s) (call-IsValid c s v)
      (Effect-final i r (call-Effect c s v) v term found) term

-- A confirmed plan says when it was confirmed, and so does an executing one that needs it.
pub record IsConfirmed (p : ActionPlan) : Type 0 where
  pub when_confirmed : p.execution_state ≡ confirmed → is_none p.confirmed_at ≡ false
  pub when_executing :
      p.execution_state ≡ executing
      → p.confirmation_required ≡ true
      → is_none p.confirmed_at ≡ false

Moves-IsConfirmed : (now : ℕ) (p q : ActionPlan) → Moves now p q → IsConfirmed p → IsConfirmed q
Moves-IsConfirmed now p q (confirmed_now actor a b e) c = ground arith
Moves-IsConfirmed now p q (started a b e) c = ground (arith, c.when_confirmed)
Moves-IsConfirmed now p q (ended status r a b e) c = ground arith

Effect-IsConfirmed : {s t : Plans} → Effect s t → All IsConfirmed s.rows → All IsConfirmed t.rows
Effect-IsConfirmed same a = a
Effect-IsConfirmed {s} (added d good) a = (ground arith, a)
Effect-IsConfirmed {s} (moved now p q found m) a =
    All-write (λ r. r.id) IsConfirmed q s.rows
      (Moves-IsConfirmed now p q m (All-first IsConfirmed (by_id p.id) s.rows p a found)) a

-- Whatever calls are made, a plan that requires confirmation and is executing has been confirmed,
-- and so has every confirmed plan.
pub executing_needs_confirmation :
    (cs : List PlanCall) (s : Plans)
    → IsValid s
    → All IsConfirmed s.rows
    → All IsConfirmed (calls cs s).rows
unfolding calls
executing_needs_confirmation [] s v a = a
executing_needs_confirmation (c ∷ cs) s v a =
    executing_needs_confirmation cs (call c s) (call-IsValid c s v)
      (Effect-IsConfirmed (call-Effect c s v) a)
