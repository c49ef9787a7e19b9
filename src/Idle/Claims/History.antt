-- ===== src/Idle/Claims/History.antt =====
-- A plan has one owner at a time, along any history of claims and finishes by any processes.
use placegame_mcp.Errors.{ok}
use placegame_mcp.Prelude.{
  ℕ, ◌+◌, ◌<◌, ◌≡◌, ◌≢◌, refl, sym, subst, arith, true, some, List, [], ◌∷◌, first, first-holds,
  All, inl, inr,
}
use placegame_mcp.Prelude.Keys.{first-write_self}
use placegame_mcp.Plans.Rows.{ActionPlan, PlanState, ExecutionResult}
use placegame_mcp.Plans.Store.{by_id, is_terminal}
use placegame_mcp.Idle.Claims.{Database, Claim, Request, two_minutes, retaken, taken, claim, ended}
use placegame_mcp.Idle.Claims.Ownership.{
  ClaimCall, claims, finishes, call, calls, IsValid, claim_cases, finish_cases, claim-IsValid,
  call-IsValid, row_of_claim, written_row, Guards, Guarded, claim-Guarded,
}

-- The statuses that the use case passes to `finish`.
abbrev pub Ends : ClaimCall → Type 0
Ends (claims r) = Unit
Ends (finishes c status r now result) = is_terminal status ≡ true

abbrev pub Calm : ℕ → ClaimCall → Type 0
Calm deadline (claims r) = r.now < deadline
Calm deadline (finishes c status r now result) = is_terminal status ≡ true

ended-Guards :
    (deadline now : ℕ) (status : PlanState) (result : ExecutionResult) (p : ActionPlan)
    → is_terminal status ≡ true
    → Guards deadline (ended status result now p)
ended-Guards deadline now status result p t = record {
  begun = ground arith;
  leased = inl (ground arith);
}

call-Guarded :
    (i deadline : ℕ) (c : ClaimCall) (db : Database)
    → Calm deadline c
    → IsValid db
    → Guarded i deadline db
    → Guarded i deadline (call c db)
unfolding call
call-Guarded i deadline (claims r) db calm v g = (claim-Guarded i deadline r db calm v g).0
call-Guarded i deadline (finishes c status r now result) db calm v (old, at_i, g) =
    finish_cases (λ out. Guarded i deadline out.0) c status r now result db (λ e. (old, at_i, g))
      λ actor plan f mine.
        let e : plan.id ≡ c.plan.id =
          ground (arith, first-holds (by_id c.plan.id) db.plans plan f) in
        written_row (Guards deadline) i plan (ended status result now plan) old db refl
          (subst (λ n. first (by_id n) db.plans ≡ some plan) (sym e) f) at_i g
          (λ _. ended-Guards deadline now status result plan calm)

calls-Guarded :
    (i deadline : ℕ) (cs : List ClaimCall) (db : Database)
    → All (Calm deadline) cs
    → IsValid db
    → Guarded i deadline db
    → Guarded i deadline (calls cs db)
unfolding calls
calls-Guarded i deadline [] db calm v g = g
calls-Guarded i deadline (c ∷ cs) db calm v g =
    calls-Guarded i deadline cs (call c db) calm.1 (call-IsValid c db v)
      (call-Guarded i deadline c db calm.0 v g)

pub calls-IsValid : (cs : List ClaimCall) (db : Database) → IsValid db → IsValid (calls cs db)
unfolding calls
calls-IsValid [] db v = v
calls-IsValid (c ∷ cs) db v = calls-IsValid cs (call c db) (call-IsValid c db v)

-- A successful claim leaves the plan executing, with a lease of two minutes.
pub claim-takes :
    (r : Request) (db : Database) (c : Claim)
    → IsValid db
    → (claim r db).1 ≡ ok c
    → Guarded c.plan.id (r.now + two_minutes) (claim r db).0
claim-takes r db c v =
    claim_cases (λ out. out.1 ≡ ok c → Guarded c.plan.id (r.now + two_minutes) out.0) r db
      (λ e h. cc)
      (λ actor plan f running over asked h.
        let q = retaken r.owner r.now plan in
        let same : q ≡ c.plan = ground arith in
        rw (← same) (
          q,
          first-write_self (λ y. y.id) q plan plan.id db.plans refl (row_of_claim r db plan v f),
          record { begun = ground arith; leased = inr (r.now + two_minutes, refl, omega arith) },
        ))
      (λ actor plan f fresh h.
        let q = taken r.owner r.now plan in
        let same : q ≡ c.plan = ground arith in
        rw (← same) (
          q,
          first-write_self (λ y. y.id) q plan plan.id db.plans refl (row_of_claim r db plan v f),
          record { begun = refl; leased = inr (r.now + two_minutes, refl, omega arith) },
        ))

-- Once a claim of a plan has succeeded, no other claim of that plan succeeds in the two minutes of
-- its lease, not even a recovery, whatever claims, and finishes with a final status, come between.
pub claim_exclusive :
    (r later : Request) (c : Claim) (cs : List ClaimCall) (db : Database)
    → IsValid db
    → (claim r db).1 ≡ ok c
    → All (Calm (r.now + two_minutes)) cs
    → later.now < r.now + two_minutes
    → (d : Claim) → (claim later (calls cs (claim r db).0)).1 ≡ ok d
    → d.plan.id ≢ c.plan.id
claim_exclusive r later c cs db v won calm before =
    let end = r.now + two_minutes in
    let v' = claim-IsValid r db v in
    (claim-Guarded c.plan.id end later (calls cs (claim r db).0) before
      (calls-IsValid cs (claim r db).0 v')
      (calls-Guarded c.plan.id end cs (claim r db).0 calm v' (claim-takes r db c v won))).1
