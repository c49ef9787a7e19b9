-- ===== src/Idle/Execute/Outcomes/Meaning.antt =====
-- What each outcome tells of the world, and what `leave` makes of it.
use placegame_mcp.Errors.{ok, Result-cases}
use placegame_mcp.Prelude.{
  ℕ, ◌≤◌, ◌<◌, ◌≡◌, ◌≢◌, ◌⊎◌, refl, sym, ◌∙◌, subst, arith, Bool, true, false, ◌||◌, not, some, leb,
  first, first-holds, Bool-cases, inl, inr, if◌then◌else◌,
}
use placegame_mcp.Prelude.Keys.{first-write_self}
use placegame_mcp.Plans.Rows.{ActionPlan, executed}
use placegame_mcp.Plans.Store.{by_id}
use placegame_mcp.Idle.Planner.{IdleSummary, IdlePolicy, collects}
use placegame_mcp.Idle.Claims.{Database, Claim, Request, ended}
use placegame_mcp.Idle.Claims.Ownership.{finish_cases}
use placegame_mcp.Idle.Execute.{
  World, Outcome, precondition_failed, done, reconciled, unproven, proven, after_failure,
  after_send, status_of, result_of, as_executed, as_reconciled, IdleExecution, answer, concluded,
  conclude, leave,
}
use placegame_mcp.Idle.Execute.Outcomes.{leave-sends}

-- The plan is in the tables, and it has been executed.
abbrev pub IsExecuted : ℕ → Database → Type 0
IsExecuted i db =
    (p : ActionPlan) × (first (by_id i) db.plans ≡ some p) × (p.execution_state ≡ executed)

conclude-answer :
    (w : World) (r : Request) (c : Claim) (o : Outcome) (applied : Bool) (db : Database)
    (v : IdleExecution)
    → (conclude w r c o applied db).1 ≡ ok v
    → (answer o applied r c ≡ ok v)
      × ((p : ActionPlan) × (first (by_id c.plan.id) (conclude w r c o applied db).0.plans ≡ some p)
          × (p.execution_state ≡ status_of o))
unfolding conclude
conclude-answer w r c o applied db v =
    finish_cases
      (λ out.
        (concluded r c o applied out).1 ≡ ok v
        → (answer o applied r c ≡ ok v)
          × ((p : ActionPlan) × (first (by_id c.plan.id) (concluded r c o applied out).0.plans
                ≡ some p)
              × (p.execution_state ≡ status_of o)))
      c (status_of o) r w.finished_at (result_of o) db (λ e h. absurd (ground arith))
      (λ actor plan f mine h. (
        h,
        (
          ended (status_of o) (result_of o) w.finished_at plan,
          first-write_self (λ y. y.id) (ended (status_of o) (result_of o) w.finished_at plan) plan
              c.plan.id db.plans (ground (arith, first-holds (by_id c.plan.id) db.plans plan f)) f,
          refl,
        ),
      ))

leave-answer :
    (w : World) (r : Request) (c : Claim) (n : ℕ) (o : Outcome) (applied : Bool) (db : Database)
    (v : IdleExecution)
    → (leave w r c n o applied db).result ≡ ok v
    → (answer o applied r c ≡ ok v)
      × ((p : ActionPlan) × (first (by_id c.plan.id) (leave w r c n o applied db).tables.plans
            ≡ some p)
          × (p.execution_state ≡ status_of o))
unfolding leave
leave-answer w r c n o applied db v = elim (Result-cases w.released) [
  | inr (e, x) ↦ rw (x, leave) (λ h. absurd (ground arith))
  | inl (u, x) ↦ rw (x, leave) (conclude-answer w r c o applied db v)
]

pub unsent {ℓ} :
    {A : Type ℓ} (w : World) (r : Request) (c : Claim) (o : Outcome) (applied : Bool)
    (db : Database)
    → ((leave w r c 0 o applied db).sends ≤ 1) × ((leave w r c 0 o applied db).sends ≡ 1 → A)
unsent w r c o applied db =
    let none_sent = leave-sends w r c 0 o applied db in
    (omega (arith, none_sent), λ h. absurd (omega (arith, none_sent, h)))

-- There is nothing more to collect, by a summary that was read after the plan had been claimed.
pub record Reconciled (w : World) : Type 0 where
  pub policy : IdlePolicy
  pub idle : IdleSummary
  pub locked : w.locked ≡ ok policy
  pub seen : (w.current ≡ ok idle) ⊎ (w.before ≡ ok idle)
  pub waiting : collects idle policy ≡ false

after_failure_cases :
    (w : World) (c : Claim) (policy : IdlePolicy) (o : Outcome)
    → after_failure w c policy ≡ o
    → (o ≢ done)
      × (o ≡ reconciled
          → (idle : IdleSummary) × (w.current ≡ ok idle) × (collects idle policy ≡ false))
unfolding after_failure proven
after_failure_cases w c policy o = elim (Result-cases w.current) [
  | inr (e, x) ↦
      rw (x, after_failure) (λ h. (λ d. absurd (ground arith), λ d. absurd (ground arith)))
  | inl (idle, x) ↦ elim (Bool-cases (proven c policy idle)) [
    | inr bad ↦
        rw (x, bad, after_failure) (λ h. (λ d. absurd (ground arith), λ d. absurd (ground arith)))
    | inl good ↦
        rw (x, good, after_failure)
          (λ h. (λ d. absurd (ground arith), λ d. (idle, refl, ground (arith, good))))
  ]
]

pub after_send_cases :
    (w : World) (c : Claim) (policy : IdlePolicy) (before : IdleSummary) (o : Outcome)
    → after_send w c policy before ≡ o
    → (o ≡ done
        → (a : IdleSummary) × (w.idle_collect ≡ ok true)
          × (w.after ≡ ok a)
          × (a.accumulated_seconds < before.accumulated_seconds))
      × (o ≡ reconciled
          → (idle : IdleSummary) × (w.current ≡ ok idle) × (collects idle policy ≡ false))
unfolding after_send
after_send_cases w c policy before o = elim (Result-cases w.idle_collect) [
  | inr (e, x) ↦
      rw (x, after_send)
        (λ h. let out = after_failure_cases w c policy o h in (λ d. absurd (out.0 d), out.1))
  | inl (b, x) ↦ elim (Result-cases w.after) [
    | inr (e, y) ↦
        rw (x, y, after_send)
          (λ h. let out = after_failure_cases w c policy o h in (λ d. absurd (out.0 d), out.1))
    | inl (a, y) ↦
        elim (Bool-cases (not b || leb before.accumulated_seconds a.accumulated_seconds)) [
          | inr good ↦
              rw (x, y, good, after_send)
                (λ h. (λ d. (a, ground arith, refl, ground arith), λ d. absurd (ground arith)))
          | inl bad ↦
              rw (x, y, bad, after_send)
                (λ h. (λ d. absurd (ground arith), λ d. absurd (ground arith)))
        ]
  ]
]

answer_means :
    (o : Outcome) (applied : Bool) (r : Request) (c : Claim) (v : IdleExecution)
    → answer o applied r c ≡ ok v
    → (v.plan_id ≡ c.plan.id)
      × (status_of o ≡ executed)
      × (v.status ≡ as_executed → o ≡ done)
      × (v.status ≡ as_reconciled → o ≡ reconciled)
answer_means precondition_failed applied r c v h = absurd (ground arith)
answer_means done applied r c v h = (ground arith, refl, λ e. refl, λ e. absurd (ground arith))
answer_means reconciled applied r c v h =
    (ground arith, refl, λ e. absurd (ground arith), λ e. refl)
answer_means unproven applied r c v h = absurd (ground arith)

-- An answer, with the plan that it is about.
pub leave_means :
    (w : World) (r : Request) (c : Claim) (n : ℕ) (o : Outcome) (applied : Bool) (db : Database)
    (v : IdleExecution)
    → (leave w r c n o applied db).result ≡ ok v
    → IsExecuted v.plan_id (leave w r c n o applied db).tables
      × (v.status ≡ as_executed → o ≡ done)
      × (v.status ≡ as_reconciled → o ≡ reconciled)
leave_means w r c n o applied db v h =
    let (a, (p, found, state)) = leave-answer w r c n o applied db v h in
    let (i, s, d, e) = answer_means o applied r c v a in
    (
      (
        p,
        subst (λ k. first (by_id k) (leave w r c n o applied db).tables.plans ≡ some p) (sym i)
            found,
        state ∙ s,
      ),
      d,
      e,
    )

pub recovery_outcome :
    (c : Claim) (policy : IdlePolicy) (current : IdleSummary)
    → ((if proven c policy current then reconciled else unproven) ≢ done)
      × ((if proven c policy current then reconciled else unproven) ≡ reconciled
          → collects current policy ≡ false)
unfolding proven
recovery_outcome c policy current = elim (Bool-cases (proven c policy current)) [
  | inr bad ↦ rw bad (λ d. absurd (ground arith), λ d. absurd (ground arith))
  | inl good ↦ rw good (λ d. absurd (ground arith), λ d. ground (arith, good))
]
