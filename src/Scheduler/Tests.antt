-- ===== src/Scheduler/Tests.antt =====
-- Runs of the scheduler's store on small tables, and its theorems at these inputs.
use placegame_mcp.Errors
use placegame_mcp.Errors.{Error, ok, raised}
use placegame_mcp.Prelude.{
  ◌≡◌, refl, arith, true, false, none, some, Option, List, [], ◌∷◌, Bool, ℕ, String, str_eq_iff,
  ◌≢◌,
}
use placegame_mcp.Scheduler.Rows.{Tables, empty, JobRun, succeeded}
use placegame_mcp.Scheduler.Lease.{acquire_lease, release_lease}
use placegame_mcp.Scheduler.Lease.Exclusion.{releases, run_calls, acquire_lease_exclusive}
use placegame_mcp.Scheduler.Jobs.{SchedulerAccount, eligible, ensure_jobs}
use placegame_mcp.Scheduler.Runs.{ClaimedIdlePreviewRun, claim_due, finish_run, retake}
use placegame_mcp.Scheduler.Runs.Invariant.{IsValid}
use placegame_mcp.Scheduler.Runs.Once.{claims_run, run_of}
use placegame_mcp.Scheduler.Store.{StoreCall, call, calls}
use placegame_mcp.Scheduler.Store
use placegame_mcp.Scheduler.Store.Slots.{calls-IsValid, claim_due_exclusive, finished_run_final}
use placegame_mcp.Scheduler.Tick.{
  IdlePreviewScheduler, World, Transaction, acquiring, ensuring, claiming, releasing, tick_body,
  tick,
}
use placegame_mcp.Scheduler.Loop.{Signals, Round, run, left_by, served, run_ends}
use placegame_mcp.Scheduler.Tick.Releases.{Ends, tick-releases}
use placegame_mcp.Scheduler.Tick.Finishes.{IsFinished, prepared, tick-finishes}

a_not_b : ◌≢◌ {A = String} "b" "a"
a_not_b = ground (arith, str_eq_iff "b" "a")

a_wins : (acquire_lease "a" 0 30 empty).1 ≡ true
unfolding acquire_lease
a_wins = refl

acquire_lease_exclusive_example :
    (acquire_lease "b" 5 30 (run_calls (releases "b" ∷ []) (acquire_lease "a" 0 30 empty).0)).1
    ≡ false
acquire_lease_exclusive_example =
    acquire_lease_exclusive "a" "b" 0 30 5 30 (releases "b" ∷ []) empty a_wins (a_not_b, tt) a_not_b
      (omega arith)

empty-IsValid : IsValid empty
empty-IsValid = record { fresh = tt; apart = tt }

abbrev players : List SchedulerAccount
players =
    record { id = 7; enabled = true; paused_reason = none }
    ∷ record { id = 8; enabled = false; paused_reason = none }
    ∷ []

abbrev everyone : ℕ → Bool
everyone _ = true

abbrev nobody : ℕ → Bool
nobody _ = false

abbrev history : List StoreCall
history =
    Store.acquires "a" 0 30
    ∷ Store.ensures players 0 60
    ∷ Store.claims 0 "a" 30 everyone nobody
    ∷ []

calls-IsValid_example : IsValid (calls history empty)
calls-IsValid_example = calls-IsValid history empty empty-IsValid

abbrev ready : Tables
ready = calls (Store.ensures players 0 60 ∷ []) empty

ready-IsValid : IsValid ready
ready-IsValid = calls-IsValid (Store.ensures players 0 60 ∷ []) empty empty-IsValid

-- The one enabled account has the job 0, and its first run is the run 1.
claims_first : claims_run 1 (claim_due 0 "a" 30 everyone nobody ready).1 ≡ true
unfolding claim_due ensure_jobs calls call
claims_first = refl

claim_due_exclusive_example :
    claims_run 1
      (claim_due 20 "b" 30 everyone nobody (
        calls
          (Store.claims 10 "b" 30 everyone nobody ∷ [])
          (claim_due 0 "a" 30 everyone nobody ready).0)).1
    ≡ false
claim_due_exclusive_example =
    claim_due_exclusive 1 0 30 20 30 "a" "b" everyone nobody everyone nobody
      (Store.claims 10 "b" 30 everyone nobody ∷ []) ready ready-IsValid (omega arith) claims_first
      (omega arith, tt) (omega arith)

abbrev scheduler : IdlePreviewScheduler
scheduler = record { worker_id = "a"; interval_seconds = 60; lease_seconds = 30; closed = false }

abbrev world : World
world = record {
  list_accounts = ok players;
  preview = λ c. ok (record { collect = true; plan_id = some 3 });
  clock = λ c. 9;
  recorded = λ c. true;
  locked = nobody;
  fault = λ t. none;
  others = λ t. [];
  meanwhile = λ c. [];
}

-- The lease is over, and another worker has it, when the tick comes to its release.
abbrev overtakes : Transaction → List StoreCall
overtakes acquiring = []
overtakes ensuring = []
overtakes claiming = []
overtakes releasing = Store.acquires "b" 40000000 30 ∷ []

abbrev overtaken : World
overtaken = record world {
  others = overtakes;
  meanwhile = λ c. Store.ensures players 5 60 ∷ Store.claims 5 "b" 30 everyone nobody ∷ [];
}

stays_with_other :
    (tick scheduler overtaken 0 empty).0.lease
    ≡ some (record { owner = some "b"; lease_expires_at = some 70000000; updated_at = 40000000 })
unfolding tick acquire_lease ensure_jobs claim_due finish_run release_lease calls call retake
stays_with_other = refl

tick_reports : (tick scheduler world 0 empty).1 ≡ ok 1
unfolding tick acquire_lease ensure_jobs claim_due finish_run release_lease calls
tick_reports = refl

abbrev first_claim : ClaimedIdlePreviewRun
first_claim = record {
  run_id = 1;
  job_id = 0;
  account_id = 7;
  scheduled_for = 0;
  idempotency_key = record { account = 7; slot = 0 };
}

abbrev worked : List StoreCall
worked =
    Store.ensures players 0 60
    ∷ Store.claims 0 "a" 30 everyone nobody
    ∷ Store.finishes first_claim 9 60000000 (succeeded true (some 3))
    ∷ []

abbrev done_run : JobRun
done_run = record {
  id = 1;
  job_id = 0;
  account_id = 7;
  idempotency_key = record { account = 7; slot = 0 };
  dispatched_at = 0;
  lease_owner = none;
  lease_expires_at = none;
  attempt = 1;
  result = some (succeeded true (some 3));
  completed_at = some 9;
}

run_is_done : run_of 1 (calls worked empty) ≡ some done_run
unfolding claim_due ensure_jobs finish_run calls call
run_is_done = refl

abbrev again : List StoreCall
again = Store.finishes first_claim 10 70000000 (succeeded false none) ∷ []

finished_run_final_example :
    (run_of 1 (calls again (calls worked empty)) ≡ some done_run)
    × ((now n : ℕ) (w : String) (ids locked : ℕ → Bool)
        → claims_run 1 (claim_due now w n ids locked (calls again (calls worked empty))).1 ≡ false)
finished_run_final_example =
    finished_run_final 1 done_run again (calls worked empty)
      (calls-IsValid worked empty empty-IsValid) run_is_done refl

tick-releases_example :
    let out = tick scheduler overtaken 0 empty in
    let begun = calls [] empty in
    let (taken, acquired) = acquire_lease "a" 0 30 begun in
    (◌≡◌ {A = Bool} false true → out ≡ (empty, ok 0))
    × (◌≡◌ {A = Bool} false false
        → (e : Error) → ◌≡◌ {A = Option Error} none (some e)
        → out ≡ (begun, raised e))
    × (◌≡◌ {A = Bool} false false
        → ◌≡◌ {A = Option Error} none none
        → acquired ≡ false
        → (out.0.jobs ≡ begun.jobs) × (out.0.runs ≡ begun.runs) × (out.1 ≡ ok 0))
    × (◌≡◌ {A = Bool} false false
        → ◌≡◌ {A = Option Error} none none
        → acquired ≡ true
        → Ends scheduler overtaken (tick_body (ok players) scheduler overtaken 0 taken) out)
tick-releases_example = tick-releases scheduler overtaken 0 empty

claims_in_tick :
    claims_run 1
      (claim_due 0 "a" 30
        (eligible players)
        nobody
        (prepared scheduler overtaken players 0 empty)).1
    ≡ true
unfolding acquire_lease claim_due ensure_jobs calls
claims_in_tick = refl

tick-finishes_example : IsFinished 1 (tick scheduler overtaken 0 empty).0
unfolding calls
tick-finishes_example =
    tick-finishes scheduler overtaken 0 1 players empty refl (omega arith) a_wins refl
      (refl, refl, refl) empty-IsValid claims_in_tick (λ c e. refl)

-- A tick that raises, with a quiet wait, and one in which the scheduler is closed.
abbrev quiet : Signals
quiet = record { closed = false; stop = false }

abbrev failing : Round
failing = record {
  world = record world { list_accounts = raised Errors.game_unavailable };
  now = 0;
  after_tick = quiet;
  after_wait = quiet;
  others = λ s. s;
}

abbrev closing : Round
closing = record {
  world = world;
  now = 60;
  after_tick = record { closed = true; stop = false };
  after_wait = record { closed = true; stop = false };
  others = λ s. s;
}

run_ends_example :
    ((run scheduler false (failing ∷ []) 0 empty).ended ≡ false)
    × (run scheduler false (failing ∷ closing ∷ closing ∷ []) 0 empty ≡ record {
      tables = left_by scheduler closing (served scheduler (failing ∷ []) empty);
      ticks = 2;
      ended = true;
    })
run_ends_example =
    run_ends scheduler (failing ∷ []) closing (closing ∷ []) 0 empty refl ((refl, refl), tt) refl
