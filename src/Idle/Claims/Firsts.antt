-- ===== src/Idle/Claims/Firsts.antt =====
-- A plan is claimed for a first execution once.
use placegame_mcp.Errors.{ok}
use placegame_mcp.Prelude.{
  ℕ, ◌≡◌, refl, sym, subst, arith, true, false, some, List, [], ◌∷◌, first, first-holds, All,
}
use placegame_mcp.Plans.Rows.{ActionPlan}
use placegame_mcp.Plans.Store.{by_id}
use placegame_mcp.Idle.Claims.{Database, Claim, Request, is_claimable, retaken, taken, claim, ended}
use placegame_mcp.Idle.Claims.Ownership.{
  ClaimCall, claims, finishes, call, calls, IsValid, claim_cases, finish_cases, claim-IsValid,
  call-IsValid, row_of_claim, written_row, not_fresh,
}
use placegame_mcp.Idle.Claims.History.{Ends, claim-takes, calls-IsValid}

abbrev Begun : ActionPlan → Type 0
Begun p = is_claimable p.execution_state ≡ false

abbrev pub HasBegun : ℕ → Database → Type 0
HasBegun i db = (p : ActionPlan) × (first (by_id i) db.plans ≡ some p) × Begun p

pub claim-HasBegun :
    (i : ℕ) (r : Request) (db : Database)
    → IsValid db
    → HasBegun i db
    → HasBegun i (claim r db).0
      × ((c : Claim) → (claim r db).1 ≡ ok c → c.plan.id ≡ i → c.recovery ≡ true)
claim-HasBegun i r db v (old, at_i, b) =
    claim_cases
      (λ out. HasBegun i out.0 × ((c : Claim) → out.1 ≡ ok c → c.plan.id ≡ i → c.recovery ≡ true)) r
      db (λ e. ((old, at_i, b), λ c h. cc))
      (λ actor plan f running over asked. (
        written_row Begun i plan (retaken r.owner r.now plan) old db refl
            (row_of_claim r db plan v f) at_i b (λ e. ground arith),
        λ c h e. ground arith,
      ))
      (λ actor plan f fresh.
        let row = row_of_claim r db plan v f in
        (
          written_row Begun i plan (taken r.owner r.now plan) old db refl row at_i b (λ e. refl),
          λ c h e.
              let same : plan.id ≡ i = ground arith in
              let here : first (by_id i) db.plans ≡ some plan =
                subst (λ n. first (by_id n) db.plans ≡ some plan) same row in
              absurd (ground (arith, not_fresh plan r.now)),
        ))

call-HasBegun :
    (i : ℕ) (c : ClaimCall) (db : Database)
    → Ends c
    → IsValid db
    → HasBegun i db
    → HasBegun i (call c db)
unfolding call
call-HasBegun i (claims r) db ends v b = (claim-HasBegun i r db v b).0
call-HasBegun i (finishes c status r now result) db ends v (old, at_i, b) =
    finish_cases (λ out. HasBegun i out.0) c status r now result db (λ e. (old, at_i, b))
      λ actor plan f mine.
        let e : plan.id ≡ c.plan.id =
          ground (arith, first-holds (by_id c.plan.id) db.plans plan f) in
        written_row Begun i plan (ended status result now plan) old db refl
          (subst (λ n. first (by_id n) db.plans ≡ some plan) (sym e) f) at_i b (λ _. ground arith)

calls-HasBegun :
    (i : ℕ) (cs : List ClaimCall) (db : Database)
    → All Ends cs
    → IsValid db
    → HasBegun i db
    → HasBegun i (calls cs db)
unfolding calls
calls-HasBegun i [] db ends v b = b
calls-HasBegun i (c ∷ cs) db ends v b =
    calls-HasBegun i cs (call c db) ends.1 (call-IsValid c db v) (call-HasBegun i c db ends.0 v b)

-- A plan is claimed for a first execution at most once: after a successful claim of it, every later
-- successful claim of it is a recovery, at whatever time, and whatever claims, and finishes with a
-- final status, come between.
pub first_claim_once :
    (r later : Request) (c d : Claim) (cs : List ClaimCall) (db : Database)
    → IsValid db
    → (claim r db).1 ≡ ok c
    → All Ends cs
    → (claim later (calls cs (claim r db).0)).1 ≡ ok d
    → d.plan.id ≡ c.plan.id
    → d.recovery ≡ true
first_claim_once r later c d cs db v won ends again same =
    let v' = claim-IsValid r db v in
    let (p, found, g) = claim-takes r db c v won in
    let begun = calls-HasBegun c.plan.id cs (claim r db).0 ends v' (p, found, g.begun) in
    (claim-HasBegun c.plan.id later (calls cs (claim r db).0) (calls-IsValid cs (claim r db).0 v')
        begun).1
      d again same
