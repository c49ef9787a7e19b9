-- ===== src/Idle/Claims/Ownership.antt =====
-- One owner at a time, and one first claim for each plan.
use placegame_mcp.Errors
use placegame_mcp.Errors.{Error, Result, ok, raised, Result-cases}
use placegame_mcp.Prelude.{
  ℕ, ◌≤◌, ◌<◌, ◌≡◌, ◌≢◌, ◌⊎◌, refl, subst, sym, ◌∙◌, arith, true, false, some, List, [], ◌∷◌, ◌==◌,
  first, Bool-cases, Option-cases, inl, inr,
}
use placegame_mcp.Prelude.Keys.{
  write_row, Distinct, first-Distinct, write-Distinct, first-write_self, first-write_other,
}
use placegame_mcp.Text.{Text, is_identifier, audit_actor, codes}
use placegame_mcp.Plans.Rows.{ActionPlan, PlanState, ExecutionResult}
use placegame_mcp.Plans.Store.{by_id, of_account}
use placegame_mcp.Idle.Claims.{
  Database, Claim, Request, is_executing, is_claimable, is_fresh, lease_runs, claim_event, save,
  retaken, taken, claim_plan, claim, owns, ended, finish_event, finish,
}

pub data ClaimCall : Type 0 where
  claims : Request → ClaimCall
  finishes : Claim → PlanState → Request → ℕ → ExecutionResult → ClaimCall

unfoldable pub call : ClaimCall → Database → Database
call (claims r) db = (claim r db).0
call (finishes c status r now result) db = (finish c status r now result db).0

unfoldable pub calls : List ClaimCall → Database → Database
calls [] db = db
calls (c ∷ cs) db = calls cs (call c db)

abbrev pub IsValid : Database → Type 0
IsValid db = Distinct (λ p. p.id) db.plans

-- The ways in which a claim goes: refused, a recovery, or the first claim of a fresh plan.
module _ {ℓ} (P : Database × Result Claim → Type ℓ) (r : Request) (db : Database)
    (refused : (e : Error) → P (db, raised e))
    (recovered : (actor : Text) (plan : ActionPlan)
      → first (of_account r.plan_id r.account_id) db.plans ≡ some plan
      → is_executing plan.execution_state ≡ true
      → lease_runs plan r.now ≡ false
      → r.recovery ≡ true
      → P (
        save
            (retaken r.owner r.now plan)
            (claim_event actor r.actor.kind r.account_id r.plan_id r.correlation_id
              (codes "recovery"))
            db,
        ok (record { owner = r.owner; plan = retaken r.owner r.now plan; recovery = true }),
      ))
    (claimed : (actor : Text) (plan : ActionPlan)
      → first (of_account r.plan_id r.account_id) db.plans ≡ some plan
      → is_fresh plan r.now ≡ true
      → P (
        save
            (taken r.owner r.now plan)
            (claim_event actor r.actor.kind r.account_id r.plan_id r.correlation_id
              (codes "claimed"))
            db,
        ok (record { owner = r.owner; plan = taken r.owner r.now plan; recovery = false }),
      )) where
  claim_plan_cases :
      (actor : Text) (plan : ActionPlan)
      → first (of_account r.plan_id r.account_id) db.plans ≡ some plan
      → P (claim_plan r actor plan db)
  unfolding claim_plan
  claim_plan_cases actor plan found = elim (Bool-cases (is_executing plan.execution_state)) [
    | inl running ↦ elim (Bool-cases (lease_runs plan r.now)) [
      | inl leased ↦ simp (running, leased) (refused Errors.plan_in_progress)
      | inr over ↦ elim (Bool-cases r.recovery) [
        | inl asked ↦ simp (running, over, asked) (recovered actor plan found running over asked)
        | inr plain ↦ simp (running, over, plain) (refused Errors.plan_in_progress)
      ]
    ]
    | inr idle ↦ elim (Bool-cases (is_fresh plan r.now)) [
      | inl fresh ↦ simp (idle, fresh) (claimed actor plan found fresh)
      | inr stale ↦ simp (idle, stale) (refused Errors.plan_precondition_failed)
    ]
  ]

  pub claim_cases : P (claim r db)
  unfolding claim
  claim_cases = elim (Bool-cases (is_identifier r.correlation_id)) [
    | inr bad ↦ rw (bad, claim) (refused Errors.value_error)
    | inl good ↦ elim (Result-cases (audit_actor r.actor)) [
      | inr (e, x) ↦ rw (good, x, claim) (refused e)
      | inl (actor, x) ↦ elim (Option-cases (first (of_account r.plan_id r.account_id) db.plans)) [
        | inl y ↦ rw (good, x, y, claim) (refused Errors.plan_precondition_failed)
        | inr (plan, y) ↦ rw (good, x, y, claim) (claim_plan_cases actor plan y)
      ]
    ]
  ]

-- The ways in which `finish` goes: refused, or a write by the owner.
pub finish_cases {ℓ} :
    (P : Database × Result (Unit {0}) → Type ℓ) (c : Claim) (status : PlanState) (r : Request)
    (now : ℕ) (result : ExecutionResult) (db : Database)
    → ((e : Error) → P (db, raised e))
    → ((actor : Text) (plan : ActionPlan)
        → first (by_id c.plan.id) db.plans ≡ some plan
        → owns c.owner plan ≡ true
        → P (
          save
              (ended status result now plan)
              (finish_event actor r.actor.kind plan result r.correlation_id)
              db,
          ok tt,
        ))
    → P (finish c status r now result db)
unfolding finish
finish_cases P c status r now result db refused written =
    elim (Result-cases (audit_actor r.actor)) [
      | inr (e, x) ↦ rw (x, finish) (refused e)
      | inl (actor, x) ↦ elim (Option-cases (first (by_id c.plan.id) db.plans)) [
        | inl y ↦ rw (x, y, finish) (refused Errors.plan_precondition_failed)
        | inr (plan, y) ↦ elim (Bool-cases (owns c.owner plan)) [
          | inl mine ↦ rw (x, y, mine, finish) (written actor plan y mine)
          | inr other ↦ rw (x, y, other, finish) (refused Errors.plan_precondition_failed)
        ]
      ]
    ]

pub claim-IsValid : (r : Request) (db : Database) → IsValid db → IsValid (claim r db).0
claim-IsValid r db v =
    claim_cases (λ out. IsValid out.0) r db (λ e. v)
      (λ actor plan f a b c. write-Distinct (λ p. p.id) (retaken r.owner r.now plan) db.plans v)
      (λ actor plan f a. write-Distinct (λ p. p.id) (taken r.owner r.now plan) db.plans v)

pub finish-IsValid :
    (c : Claim) (status : PlanState) (r : Request) (now : ℕ) (result : ExecutionResult)
    (db : Database)
    → IsValid db
    → IsValid (finish c status r now result db).0
finish-IsValid c status r now result db v =
    finish_cases (λ out. IsValid out.0) c status r now result db (λ e. v)
      (λ actor plan f a. write-Distinct (λ p. p.id) (ended status result now plan) db.plans v)

pub call-IsValid : (c : ClaimCall) (db : Database) → IsValid db → IsValid (call c db)
unfolding call
call-IsValid (claims r) db v = claim-IsValid r db v
call-IsValid (finishes c status r now result) db v = finish-IsValid c status r now result db v

-- The row that a query of a claim finds is the row of its identifier.
pub row_of_claim :
    (r : Request) (db : Database) (plan : ActionPlan)
    → IsValid db
    → first (of_account r.plan_id r.account_id) db.plans ≡ some plan
    → first (by_id plan.id) db.plans ≡ some plan
row_of_claim r db plan v f =
    first-Distinct (λ p. p.id) (of_account r.plan_id r.account_id) db.plans plan v f

-- The row of `i` after a row `q` is written, given a property that both must have.
pub written_row {ℓ} :
    (P : ActionPlan → Type ℓ) (i : ℕ) (p q old : ActionPlan) (db : Database)
    → q.id ≡ p.id
    → first (by_id p.id) db.plans ≡ some p
    → first (by_id i) db.plans ≡ some old
    → P old
    → (p ≡ old → P q)
    → (x : ActionPlan) × (first (by_id i) (write_row (λ y. y.id) q db.plans) ≡ some x) × P x
written_row P i p q old db same found at_i po pq = elim (Bool-cases (q.id == i)) [
  | inr other ↦ (old, rw (first-write_other (λ y. y.id) q i db.plans (λ e. ground arith)) at_i, po)
  | inl hit ↦
      let e : q.id ≡ i = ground arith in
      let here : first (by_id i) db.plans ≡ some p =
        subst (λ n. first (by_id n) db.plans ≡ some p) (sym same ∙ e) found in
      (q, first-write_self (λ y. y.id) q p i db.plans e here, pq (ground arith))
]

-- The plan is under way or over: it was claimed, and the lease of its claim runs until `deadline`
-- if it is still executing.
pub record Guards (deadline : ℕ) (p : ActionPlan) : Type 0 where
  pub begun : is_claimable p.execution_state ≡ false
  pub leased :
      (is_executing p.execution_state ≡ false)
      ⊎ ((d : ℕ) × (p.execution_lease_expires_at ≡ some d) × (deadline ≤ d))

abbrev pub Guarded : ℕ → ℕ → Database → Type 0
Guarded i deadline db = (p : ActionPlan) × (first (by_id i) db.plans ≡ some p) × Guards deadline p

pub not_fresh :
    (p : ActionPlan) (now : ℕ) → is_claimable p.execution_state ≡ false → is_fresh p now ≡ false
unfolding is_fresh
not_fresh p now h = rw h

pub claim-Guarded :
    (i deadline : ℕ) (r : Request) (db : Database)
    → r.now < deadline
    → IsValid db
    → Guarded i deadline db
    → Guarded i deadline (claim r db).0 × ((c : Claim) → (claim r db).1 ≡ ok c → c.plan.id ≢ i)
claim-Guarded i deadline r db before v (old, at_i, g) =
    claim_cases (λ out. Guarded i deadline out.0 × ((c : Claim) → out.1 ≡ ok c → c.plan.id ≢ i)) r
      db (λ e. ((old, at_i, g), λ c h. cc))
      (λ actor plan f running over asked.
        let row = row_of_claim r db plan v f in
        let other : plan.id ≢ i = λ e.
          let here : first (by_id i) db.plans ≡ some plan =
            subst (λ n. first (by_id n) db.plans ≡ some plan) e row in
          ground (arith, g.leased) in
        (
          written_row (Guards deadline) i plan (retaken r.owner r.now plan) old db refl row at_i g
              (λ e. absurd (ground (arith, g.leased))),
          λ c h e. other (ground arith),
        ))
      (λ actor plan f fresh.
        let row = row_of_claim r db plan v f in
        let other : plan.id ≢ i = λ e.
          let here : first (by_id i) db.plans ≡ some plan =
            subst (λ n. first (by_id n) db.plans ≡ some plan) e row in
          ground (arith, not_fresh plan r.now, g.begun) in
        (
          written_row (Guards deadline) i plan (taken r.owner r.now plan) old db refl row at_i g
              (λ e. absurd (ground (arith, not_fresh plan r.now, g.begun))),
          λ c h e. other (ground arith),
        ))
