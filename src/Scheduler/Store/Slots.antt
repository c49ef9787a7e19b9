-- ===== src/Scheduler/Store/Slots.antt =====
-- What any history of calls of the store does to the runs of the slots.
use placegame_mcp.Prelude.{
  ℕ, ◌+◌, ◌≤◌, ◌<◌, ◌≡◌, ◌∙◌, refl, arith, Bool, true, false, Option, none, some, List, [], ◌∷◌,
  keep, inl, All, All-map, String,
}
use placegame_mcp.Scheduler.Rows.{JobRun, Tables, seconds}
use placegame_mcp.Scheduler.Lease.{acquire_lease, release_lease}
use placegame_mcp.Scheduler.Jobs.{
  SchedulerAccount, Current, current_get, known, eligible, known_ids, in_order, is_preview_of,
  pick_current, settle, settle_all, ensure_jobs,
}
use placegame_mcp.Scheduler.Runs.{is_finished, claim_due}
use placegame_mcp.Scheduler.Runs.Invariant.{IsValid, claim_due-IsValid, finish_run-IsValid}
use placegame_mcp.Scheduler.Runs.Once.{
  Guarded, run_of, claims_run, claim_due-Guarded, claim_due-leases, finish_run-Guarded,
}
use placegame_mcp.Scheduler.Runs.Final.{claim_due-final, finish_run-final}
use placegame_mcp.Scheduler.Store.{
  StoreCall, acquires, ensures, claims, finishes, releases, call, calls,
}

-- The runs are as they were, and identifiers that were used stay used.
pub record SameRuns (s t : Tables) : Type 0 where
  pub runs : t.runs ≡ s.runs
  pub more : s.next_id ≤ t.next_id

settle-SameRuns :
    (e : Bool) (o : Option ℕ) (a n now : ℕ) (s : Tables) → SameRuns s (settle e o a n now s)
unfolding settle
settle-SameRuns false none a n now s = record { runs = refl; more = omega arith }
settle-SameRuns false (some j) a n now s = record { runs = refl; more = omega arith }
settle-SameRuns true none a n now s = record { runs = refl; more = omega arith }
settle-SameRuns true (some j) a n now s = record { runs = refl; more = omega arith }

settle_all-SameRuns :
    (e : ℕ → Bool) (current : Current) (n now : ℕ) (ids : List ℕ) (s : Tables)
    → SameRuns s (settle_all e current n now ids s)
unfolding settle_all
settle_all-SameRuns e current n now [] s = record { runs = refl; more = omega arith }
settle_all-SameRuns e current n now (a ∷ rest) s =
    let job = current_get a current in
    let one = settle-SameRuns (e a) job a n now s in
    let more = settle_all-SameRuns e current n now rest (settle (e a) job a n now s) in
    record { runs = more.runs ∙ one.runs; more = omega (arith, one.more, more.more) }

pub ensure_jobs-SameRuns :
    (accounts : List SchedulerAccount) (now n : ℕ) (s : Tables)
    → SameRuns s (ensure_jobs accounts now n s)
unfolding ensure_jobs
ensure_jobs-SameRuns [] now n s = record { runs = refl; more = omega arith }
ensure_jobs-SameRuns (a ∷ rest) now n s =
    let rows = in_order (keep (is_preview_of (known (a ∷ rest))) s.jobs) in
    let (current, jobs) = pick_current rows [] s.jobs in
    let all =
      settle_all-SameRuns (eligible (a ∷ rest)) current n now (known_ids (a ∷ rest))
        (record s { jobs = jobs }) in
    record { runs = all.runs; more = all.more }

pub acquire-SameRuns :
    (w : String) (now n : ℕ) (s : Tables) → SameRuns s (acquire_lease w now n s).0
unfolding acquire_lease
acquire-SameRuns w now n s = record { runs = ground arith; more = ground arith }

pub release-SameRuns : (w : String) (s : Tables) → SameRuns s (release_lease w s)
unfolding release_lease
release-SameRuns w s = record { runs = ground arith; more = ground arith }

pub SameRuns-IsValid : {s t : Tables} → SameRuns s t → IsValid s → IsValid t
SameRuns-IsValid {s} {t} same v = record {
  fresh = rw same.runs (
      All-map (λ r. r.id < s.next_id) (λ r. r.id < t.next_id) s.runs
        (λ r h. omega (arith, same.more)) v.fresh);
  apart = rw same.runs v.apart;
}

call-IsValid : (c : StoreCall) (s : Tables) → IsValid s → IsValid (call c s)
unfolding call
call-IsValid (acquires w now n) s v = SameRuns-IsValid (acquire-SameRuns w now n s) v
call-IsValid (ensures accounts now n) s v =
    SameRuns-IsValid (ensure_jobs-SameRuns accounts now n s) v
call-IsValid (claims now w n ids locked) s v = claim_due-IsValid now w n ids locked s v
call-IsValid (finishes c done next result) s v = finish_run-IsValid c done next result s v
call-IsValid (releases w) s v = SameRuns-IsValid (release-SameRuns w s) v

-- Whatever calls are made, by any workers in any order, no two runs have the same identifier, and
-- no two runs of an account have the same idempotency key.
pub calls-IsValid : (cs : List StoreCall) (s : Tables) → IsValid s → IsValid (calls cs s)
unfolding calls
calls-IsValid [] s v = v
calls-IsValid (c ∷ cs) s v = calls-IsValid cs (call c s) (call-IsValid c s v)

-- A claim in the history comes before `deadline`. Other calls may come at any time.
abbrev pub Before : ℕ → StoreCall → Type 0
Before deadline (claims now w n ids locked) = now < deadline
Before deadline _ = Unit

SameRuns-Guarded :
    {s t : Tables} (i deadline : ℕ) → SameRuns s t → Guarded i deadline s → Guarded i deadline t
SameRuns-Guarded i deadline same g = record {
  run = g.run;
  found = rw same.runs g.found;
  guard = g.guard;
}

call-Guarded :
    (i deadline : ℕ) (c : StoreCall) (s : Tables)
    → Before deadline c
    → IsValid s
    → Guarded i deadline s
    → Guarded i deadline (call c s)
unfolding call
call-Guarded i deadline (acquires w now n) s b v g =
    SameRuns-Guarded i deadline (acquire-SameRuns w now n s) g
call-Guarded i deadline (ensures accounts now n) s b v g =
    SameRuns-Guarded i deadline (ensure_jobs-SameRuns accounts now n s) g
call-Guarded i deadline (claims now w n ids locked) s b v g =
    (claim_due-Guarded i deadline now w n b ids locked s v g).0
call-Guarded i deadline (finishes c done next result) s b v g =
    finish_run-Guarded i deadline c done next result s g
call-Guarded i deadline (releases w) s b v g = SameRuns-Guarded i deadline (release-SameRuns w s) g

calls-Guarded :
    (i deadline : ℕ) (cs : List StoreCall) (s : Tables)
    → All (Before deadline) cs
    → IsValid s
    → Guarded i deadline s
    → Guarded i deadline (calls cs s)
unfolding calls
calls-Guarded i deadline [] s b v g = g
calls-Guarded i deadline (c ∷ cs) s b v g =
    calls-Guarded i deadline cs (call c s) b.1 (call-IsValid c s v)
      (call-Guarded i deadline c s b.0 v g)

-- A run that one call of `claim_due` has claimed with a positive lease is in no other claim until
-- that lease is over, whatever calls are made in between, whichever worker claims.
pub claim_due_exclusive :
    (i now n later m : ℕ) (w v : String) (ids locked ids' locked' : ℕ → Bool) (cs : List StoreCall)
    (s : Tables)
    → IsValid s
    → 0 < n
    → claims_run i (claim_due now w n ids locked s).1 ≡ true
    → All (Before (now + seconds n)) cs
    → later < now + seconds n
    → claims_run i
        (claim_due later v m ids' locked' (calls cs (claim_due now w n ids locked s).0)).1
      ≡ false
claim_due_exclusive i now n later m w v ids locked ids' locked' cs s valid pos claimed between
      before =
    let s' = (claim_due now w n ids locked s).0 in
    let valid' = claim_due-IsValid now w n ids locked s valid in
    let end = now + seconds n in
    (claim_due-Guarded i end later v m before ids' locked' (calls cs s')
      (calls-IsValid cs s' valid')
      (calls-Guarded i end cs s' between valid'
        (claim_due-leases i now w n ids locked s pos valid claimed))).1

call-final :
    (i : ℕ) (r : JobRun) (c : StoreCall) (s : Tables)
    → is_finished r ≡ true
    → IsValid s
    → run_of i s ≡ some r
    → run_of i (call c s) ≡ some r
unfolding call
call-final i r (acquires w now n) s d v h = rw (acquire-SameRuns w now n s).runs h
call-final i r (ensures accounts now n) s d v h = rw (ensure_jobs-SameRuns accounts now n s).runs h
call-final i r (claims now w n ids locked) s d v h = claim_due-final i r d now w n ids locked s v h
call-final i r (finishes c done next result) s d v h = finish_run-final i r d c done next result s h
call-final i r (releases w) s d v h = rw (release-SameRuns w s).runs h

pub calls-final :
    (i : ℕ) (r : JobRun) (cs : List StoreCall) (s : Tables)
    → is_finished r ≡ true
    → IsValid s
    → run_of i s ≡ some r
    → run_of i (calls cs s) ≡ some r
unfolding calls
calls-final i r [] s d v h = h
calls-final i r (c ∷ cs) s d v h =
    calls-final i r cs (call c s) d (call-IsValid c s v) (call-final i r c s d v h)

-- The row of a finished run, its result included, is the same after any calls, a second
-- `finish_run` of it among them, and `claim_due` never claims the run again.
pub finished_run_final :
    (i : ℕ) (r : JobRun) (cs : List StoreCall) (s : Tables)
    → IsValid s
    → run_of i s ≡ some r
    → is_finished r ≡ true
    → (run_of i (calls cs s) ≡ some r)
      × ((now n : ℕ) (w : String) (ids locked : ℕ → Bool)
          → claims_run i (claim_due now w n ids locked (calls cs s)).1 ≡ false)
finished_run_final i r cs s v found done =
    let kept = calls-final i r cs s done v found in
    (
      kept,
      λ now n w ids locked.
          (claim_due-Guarded i (now + 1) now w n (omega arith) ids locked (calls cs s)
            (calls-IsValid cs s v) (record { run = r; found = kept; guard = inl done })).1,
    )
