-- ===== src/Idle/Tests.antt =====
-- Executions of one plan, and the theorems at them.
use placegame_mcp.Errors.{ok, raised}
use placegame_mcp.Errors
use placegame_mcp.Prelude.{
  ◌≡◌, ◌≢◌, ◌≤◌, Bool, zero, suc, arith, refl, true, false, some, List, [], ◌∷◌, ◌++◌, ℕ, first,
}
use placegame_mcp.Text.{Text, Actor, codes, is_identifier, audit_actor}
use placegame_mcp.Plans.Rows.{ActionPlan, executed, failed}
use placegame_mcp.Plans.Canonical.{Json}
use placegame_mcp.Plans.Store.{by_id, new_plan}
use placegame_mcp.Idle.Planner.{
  IdleSummary, IdlePolicy, collect_draft, five_minutes, draft, collects, threshold, fingerprint,
}
use placegame_mcp.Idle.Previews.{Session, IdlePreview, preview}
use placegame_mcp.Idle.Previews.Lifecycle.{Decides, Named, preview_claimable, preview-Decides}
use placegame_mcp.Idle.Claims.{
  Database, Claim, Request, claim, owned, taken, retaken, ended, finish,
}
use placegame_mcp.Idle.Claims.Ownership
use placegame_mcp.Idle.Claims.Ownership.{ClaimCall, calls, IsValid}
use placegame_mcp.Idle.Claims.History.{claim_exclusive}
use placegame_mcp.Idle.Claims.Endings.{ended_plan_final, stale_owner_refused}
use placegame_mcp.Idle.Execute.{World, IdleExecution, as_executed, as_reconciled, execute}
use placegame_mcp.Idle.Execute.Outcomes.{Sends}
use placegame_mcp.Idle.Execute.Outcomes.Meaning.{IsExecuted, Reconciled}
use placegame_mcp.Idle.Execute.Outcomes.Answers.{Collected, execute-Sends, execute-Collected}
use placegame_mcp.Idle.Execute.Once.{sent_once}

abbrev zeros : ℕ → Text
zeros zero = []
zeros (suc n) = 48 ∷ zeros n

-- A digest that does not look at the value.
abbrev digest : Json → Text
digest j = zeros 64

abbrev operator : Actor
operator = record { kind = codes "admin"; actor_id = codes "owner" }

abbrev policy : IdlePolicy
policy = record { version = 3; idle_threshold_minutes = 60 }

abbrev full : IdleSummary
full = record { accumulated_seconds = 3600; capacity_seconds = some 7200 }

abbrev drained : IdleSummary
drained = record { accumulated_seconds = 5; capacity_seconds = some 7200 }

abbrev plan : ActionPlan
plan = new_plan (collect_draft digest 7 (codes "pgfp:v1:" ++ zeros 64) policy 0) 1

abbrev db : Database
db = record { plans = plan ∷ []; audit = [] }

db-IsValid : IsValid db
db-IsValid = ground arith

abbrev request : ℕ → ℕ → Bool → Request
request owner now recovery = record {
  account_id = 7;
  plan_id = 1;
  actor = operator;
  correlation_id = codes "c1";
  recovery = recovery;
  owner = owner;
  now = now;
}

abbrev claimed : Claim
claimed = record { owner = 11; plan = taken 11 10 plan; recovery = false }

claims_plan : (claim (request 11 10 false) db).1 ≡ ok claimed
unfolding claim is_identifier audit_actor
claims_plan = refl

abbrev other_plan : ActionPlan
other_plan = record plan { id = 2 }

abbrev two_plans : Database
two_plans = record { plans = plan ∷ other_plan ∷ []; audit = [] }

abbrev other_request : Request
other_request = record (request 12 20 false) { plan_id = 2 }

two_plans-IsValid : IsValid two_plans
two_plans-IsValid = ground arith

claims_one : (claim (request 11 10 false) two_plans).1 ≡ ok claimed
unfolding claim is_identifier audit_actor
claims_one = refl

abbrev other_claimed : Claim
other_claimed = record { owner = 12; plan = taken 12 20 other_plan; recovery = false }

abbrev retry : List ClaimCall
retry = Ownership.claims (request 13 15 true) ∷ []

claims_other :
    (claim other_request (calls retry (claim (request 11 10 false) two_plans).0)).1
    ≡ ok other_claimed
unfolding claim calls is_identifier audit_actor Ownership.call
claims_other = refl

claim_exclusive_example : other_claimed.plan.id ≢ claimed.plan.id
claim_exclusive_example =
    claim_exclusive (request 11 10 false) other_request claimed retry two_plans two_plans-IsValid
      claims_one (omega arith, tt) (omega arith) other_claimed claims_other

abbrev regained : Claim
regained = record { owner = 13; plan = retaken 13 200000000 (taken 11 10 plan); recovery = true }

recovers_plan :
    (claim (request 13 200000000 true) (calls retry (claim (request 11 10 false) db).0)).1
    ≡ ok regained
unfolding claim calls is_identifier audit_actor Ownership.call
recovers_plan = refl

abbrev ended_plan : ActionPlan
ended_plan = ended executed [] 20 (taken 11 10 plan)

abbrev after_end : Database
after_end = record { plans = ended_plan ∷ []; audit = [] }

ended_plan_final_example :
    first
      (by_id 1)
      (calls
        (Ownership.finishes claimed failed (request 11 10 false) 30 [] ∷ retry)
        after_end).plans
    ≡ some ended_plan
ended_plan_final_example =
    ended_plan_final 1 ended_plan
      (Ownership.finishes claimed failed (request 11 10 false) 30 [] ∷ retry) after_end
      (ground arith) refl refl

abbrev running : Database
running = record { plans = taken 11 10 plan ∷ []; audit = [] }

regains_plan : (claim (request 13 200000000 true) running).1 ≡ ok regained
unfolding claim is_identifier audit_actor
regains_plan = refl

stale_owner_refused_example :
    (e : Errors.Error) × (finish claimed executed
        (request 11 10 false)
        30
        []
        (claim (request 13 200000000 true) running).0
      ≡ ((claim (request 13 200000000 true) running).0, raised e))
stale_owner_refused_example =
    stale_owner_refused (request 13 200000000 true) (request 11 10 false) regained claimed running
      executed 30 [] (ground arith) regains_plan refl (ground arith)

abbrev session : Session
session = record { locked = ok policy; idle_summary = ok full; released = ok tt }

abbrev nothing : Database
nothing = record { plans = []; audit = [] }

abbrev view : IdlePreview
view = record {
  account_id = 7;
  plan_id = some 1;
  collect = true;
  accumulated_seconds = 3600;
  capacity_seconds = some 7200;
  threshold_seconds = 3600;
  expires_at = some five_minutes;
  reason = codes "idle_threshold_reached";
  correlation_id = codes "c1";
}

previews : (preview digest session 7 operator (codes "c1") 0 1 nothing).1 ≡ ok view
unfolding preview draft is_identifier audit_actor collects threshold fingerprint
previews = refl

operator-Named : Named operator (codes "c1")
unfolding is_identifier audit_actor
operator-Named = record { correlated = refl; value = codes "admin:owner"; named = refl }

preview_claimable_example :
    (c : Claim) × ((claim
        (request 11 10 false)
        (preview digest session 7 operator (codes "c1") 0 1 nothing).0).1
      ≡ ok c)
    × (c.recovery ≡ false)
    × (c.owner ≡ 11)
    × ((p : IdlePolicy) × (session.locked ≡ ok p) × (c.plan.policy_version ≡ p.version))
preview_claimable_example =
    preview_claimable digest session 7 operator (codes "c1") 0 1 1 nothing view
      (request 11 10 false) previews refl refl refl operator-Named (omega arith)

preview-Decides_example :
    Decides digest session 7 0 1 nothing view
      (preview digest session 7 operator (codes "c1") 0 1 nothing).0
preview-Decides_example =
    preview-Decides digest session 7 operator (codes "c1") 0 1 nothing view previews

abbrev world : World
world = record {
  lock = true;
  locked = ok policy;
  before = ok full;
  idle_collect = ok true;
  after = ok drained;
  current = ok drained;
  released = ok tt;
  others = λ t. t;
  meanwhile = λ t. t;
  finished_at = 40;
}

execute-Sends_example :
    ((execute digest world (request 11 10 false) db).sends ≤ 1)
    × ((execute digest world (request 11 10 false) db).sends ≡ 1
        → Sends digest world (request 11 10 false) db)
execute-Sends_example = execute-Sends digest world (request 11 10 false) db

sends_request : (execute digest world (request 11 10 false) db).sends ≡ 1
unfolding execute claim is_identifier audit_actor owned fingerprint
sends_request = refl

sent_once_example :
    (execute digest world
      (request 13 200000000 true)
      (calls retry (claim (request 11 10 false) db).0)).sends
    ≡ 0
sent_once_example =
    sent_once digest world world (request 11 10 false) (request 13 200000000 true) retry db
      db-IsValid sends_request (tt, tt) refl

abbrev answer : IdleExecution
answer = record {
  account_id = 7;
  plan_id = 1;
  status = as_executed;
  applied = true;
  reconciled = false;
  collected = true;
  correlation_id = codes "c1";
}

answers : (execute digest world (request 11 10 false) db).result ≡ ok answer
unfolding execute claim finish is_identifier audit_actor owned fingerprint
answers = refl

execute-Collected_example :
    IsExecuted 1 (execute digest world (request 11 10 false) db).tables
    × (as_executed ≡ as_executed → Collected digest world (request 11 10 false) db)
    × (as_executed ≡ as_reconciled → Reconciled world)
execute-Collected_example = execute-Collected digest world (request 11 10 false) db answer answers
