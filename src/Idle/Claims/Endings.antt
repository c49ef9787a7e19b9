-- ===== src/Idle/Claims/Endings.antt =====
-- A plan that has ended is over, and an owner that has lost its plan cannot end it.
use placegame_mcp.Errors
use placegame_mcp.Errors.{Error, Result, ok, raised, Result-cases}
use placegame_mcp.Prelude.{
  ℕ, ◌≡◌, ◌≢◌, refl, sym, subst, arith, true, false, some, List, [], ◌∷◌, first, first-holds, inl,
  inr,
}
use placegame_mcp.Prelude.Keys.{first-write_self, first-write_other}
use placegame_mcp.Text.{audit_actor}
use placegame_mcp.Plans.Rows.{ActionPlan, PlanState, ExecutionResult}
use placegame_mcp.Plans.Store.{by_id, is_terminal}
use placegame_mcp.Idle.Claims.{
  Database, Claim, Request, is_executing, is_claimable, retaken, taken, claim, owns, ended, finish,
}
use placegame_mcp.Idle.Claims.Ownership.{
  ClaimCall, claims, finishes, call, calls, IsValid, claim_cases, finish_cases, call-IsValid,
  row_of_claim, not_fresh,
}

terminal_plan :
    (p : ActionPlan)
    → is_terminal p.execution_state ≡ true
    → (is_executing p.execution_state ≡ false) × (is_claimable p.execution_state ≡ false)
terminal_plan p t = (ground arith, ground arith)

call-final :
    (i : ℕ) (old : ActionPlan) (c : ClaimCall) (db : Database)
    → IsValid db
    → is_terminal old.execution_state ≡ true
    → first (by_id i) db.plans ≡ some old
    → first (by_id i) (call c db).plans ≡ some old
unfolding call
call-final i old (claims r) db v t at_i =
    claim_cases (λ out. first (by_id i) out.0.plans ≡ some old) r db (λ e. at_i)
      (λ actor plan f running over asked.
        rw
          (first-write_other (λ y. y.id) (retaken r.owner r.now plan) i db.plans
            λ e.
              let here =
                subst (λ n. first (by_id n) db.plans ≡ some plan) e (row_of_claim r db plan v f) in
              ground (arith, here, terminal_plan old t))
          at_i)
      (λ actor plan f fresh.
        rw
          (first-write_other (λ y. y.id) (taken r.owner r.now plan) i db.plans
            λ e.
              let here =
                subst (λ n. first (by_id n) db.plans ≡ some plan) e (row_of_claim r db plan v f) in
              ground (arith, here, terminal_plan old t, not_fresh plan r.now))
          at_i)
call-final i old (finishes c status r now result) db v t at_i =
    finish_cases (λ out. first (by_id i) out.0.plans ≡ some old) c status r now result db
      (λ e. at_i)
      λ actor plan f mine.
        rw
          (first-write_other (λ y. y.id) (ended status result now plan) i db.plans
            λ e.
              let e' : c.plan.id ≡ i =
                ground (arith, first-holds (by_id c.plan.id) db.plans plan f) in
              let here = subst (λ n. first (by_id n) db.plans ≡ some plan) e' f in
              ground (arith, here, terminal_plan old t))
          at_i

-- A plan that has ended keeps its whole row, its result included, along any history of claims and
-- finishes: only an executing plan is finished, so it is finished once.
pub ended_plan_final :
    (i : ℕ) (old : ActionPlan) (cs : List ClaimCall) (db : Database)
    → IsValid db
    → is_terminal old.execution_state ≡ true
    → first (by_id i) db.plans ≡ some old
    → first (by_id i) (calls cs db).plans ≡ some old
unfolding calls
ended_plan_final i old [] db v t at_i = at_i
ended_plan_final i old (c ∷ cs) db v t at_i =
    ended_plan_final i old cs (call c db) (call-IsValid c db v) t (call-final i old c db v t at_i)

finish_refused :
    (c : Claim) (p : ActionPlan) (status : PlanState) (r : Request) (now : ℕ)
    (result : ExecutionResult) (db : Database)
    → first (by_id c.plan.id) db.plans ≡ some p
    → owns c.owner p ≡ false
    → (e : Error) × (finish c status r now result db ≡ (db, raised e))
unfolding finish
finish_refused c p status r now result db found other = elim (Result-cases (audit_actor r.actor)) [
  | inr (e, x) ↦ (e, rw (x, finish) refl)
  | inl (actor, x) ↦ (Errors.plan_precondition_failed, rw (x, found, other, finish) refl)
]

owner_of_claim :
    (r : Request) (db : Database) (c : Claim)
    → IsValid db
    → (claim r db).1 ≡ ok c
    → (p : ActionPlan) × (first (by_id c.plan.id) (claim r db).0.plans ≡ some p)
      × (p.execution_owner ≡ some r.owner)
owner_of_claim r db c v =
    claim_cases
      (λ out.
        out.1 ≡ ok c
        → (p : ActionPlan) × (first (by_id c.plan.id) out.0.plans ≡ some p)
          × (p.execution_owner ≡ some r.owner))
      r db (λ e h. cc)
      (λ actor plan f running over asked h.
        let q = retaken r.owner r.now plan in
        let same : q ≡ c.plan = ground arith in
        rw (← same) (
          q,
          first-write_self (λ y. y.id) q plan plan.id db.plans refl (row_of_claim r db plan v f),
          refl,
        ))
      (λ actor plan f fresh h.
        let q = taken r.owner r.now plan in
        let same : q ≡ c.plan = ground arith in
        rw (← same) (
          q,
          first-write_self (λ y. y.id) q plan plan.id db.plans refl (row_of_claim r db plan v f),
          refl,
        ))

-- A successful claim takes the plan from every earlier owner: a `finish` of another owner raises
-- and changes nothing.
pub stale_owner_refused :
    (r s : Request) (c old : Claim) (db : Database) (status : PlanState) (now : ℕ)
    (result : ExecutionResult)
    → IsValid db
    → (claim r db).1 ≡ ok c
    → old.plan.id ≡ c.plan.id
    → old.owner ≢ r.owner
    → (e : Error) × (finish old status s now result (claim r db).0 ≡ ((claim r db).0, raised e))
stale_owner_refused r s c old db status now result v won same other =
    let (p, found, owner) = owner_of_claim r db c v won in
    finish_refused old p status s now result (claim r db).0
      (subst (λ n. first (by_id n) (claim r db).0.plans ≡ some p) (sym same) found) (ground arith)
