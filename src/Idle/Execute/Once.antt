-- ===== src/Idle/Execute/Once.antt =====
-- One collect request for each plan, whatever processes execute it.
use placegame_mcp.Errors.{ok}
use placegame_mcp.Prelude.{◌≡◌, ◌≢◌, arith, List, first-holds, All}
use placegame_mcp.Text.{Text}
use placegame_mcp.Plans.Canonical.{Json}
use placegame_mcp.Plans.Store.{of_account}
use placegame_mcp.Idle.Claims.{Database, Claim, Request, claim}
use placegame_mcp.Idle.Claims.Ownership.{ClaimCall, calls, IsValid, claim_cases}
use placegame_mcp.Idle.Claims.History.{Ends}
use placegame_mcp.Idle.Claims.Firsts.{first_claim_once}
use placegame_mcp.Idle.Execute.{World, execute}
use placegame_mcp.Idle.Execute.Outcomes.Answers.{execute-Sends}

claim-plan_id :
    (r : Request) (db : Database) (c : Claim) → (claim r db).1 ≡ ok c → c.plan.id ≡ r.plan_id
claim-plan_id r db c =
    claim_cases (λ out. out.1 ≡ ok c → c.plan.id ≡ r.plan_id) r db (λ e h. absurd (ground arith))
      (λ actor plan f running over asked h.
        ground (arith, first-holds (of_account r.plan_id r.account_id) db.plans plan f))
      (λ actor plan f fresh h.
        ground (arith, first-holds (of_account r.plan_id r.account_id) db.plans plan f))

module _ (sha256_of : Json → Text) where
  -- Of two executions of one plan only one sends a collect request: if the first sends one, then an
  -- execution that starts at any time after the claim of the first, also while the first is under
  -- way, sends none, whatever claims, and finishes with a final status, come between.
  pub sent_once :
      (w x : World) (r later : Request) (cs : List ClaimCall) (db : Database)
      → IsValid db
      → (execute sha256_of w r db).sends ≡ 1
      → All Ends cs
      → later.plan_id ≡ r.plan_id
      → (execute sha256_of x later (calls cs (claim r db).0)).sends ≡ 0
  sent_once w x r later cs db v sent ends same =
      let mid = calls cs (claim r db).0 in
      let s = (execute-Sends sha256_of w r db).1 sent in
      let (most, why) = execute-Sends sha256_of x later mid in
      let not_again : (execute sha256_of x later mid).sends ≢ 1 = λ one.
        let t = why one in
        let a = claim-plan_id r db s.claimed s.succeeded in
        let b = claim-plan_id later mid t.claimed t.succeeded in
        let again =
          first_claim_once r later s.claimed t.claimed cs db v s.succeeded ends t.succeeded
            (ground arith) in
        ground (arith, t.first_time) in
      ground (arith)
