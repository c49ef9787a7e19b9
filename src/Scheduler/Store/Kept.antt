-- ===== src/Scheduler/Store/Kept.antt =====
-- A row of a run stays, whatever calls are made (scheduler.py deletes none).
use placegame_mcp.Prelude.{
  ℕ, ◌+◌, ◌≡◌, refl, arith, Bool, some, List, [], ◌∷◌, ◌==◌, first-update, All-tt, Bool-cases, inl,
  inr, String, if◌then◌else◌,
}
use placegame_mcp.Scheduler.Rows.{Job, JobRun, RunResult, Tables, seconds}
use placegame_mcp.Scheduler.Runs.{
  ClaimedIdlePreviewRun, retaken, retake, new_run, claim_slot, claim_due, due_jobs, finished,
  finish_run,
}
use placegame_mcp.Scheduler.Runs.Rules.{
  claim_run_cases, claim_all_rule, finish_run_cases, retake_cases,
}
use placegame_mcp.Scheduler.Runs.Invariant.{claim_slot_state}
use placegame_mcp.Scheduler.Runs.Once.{run_of}
use placegame_mcp.Scheduler.Store.{
  StoreCall, acquires, ensures, claims, finishes, releases, call, calls,
}
use placegame_mcp.Scheduler.Store.Slots.{ensure_jobs-SameRuns, acquire-SameRuns, release-SameRuns}

abbrev pub Exists : ℕ → Tables → Type 0
Exists i s = (r : JobRun) × (run_of i s ≡ some r)

pub finish_run-Exists :
    (i : ℕ) (c : ClaimedIdlePreviewRun) (at next : ℕ) (result : RunResult) (s : Tables)
    → Exists i s
    → Exists i (finish_run c at next result s)
finish_run-Exists i c at next result s (r, found) =
    finish_run_cases (Exists i) c at next result s (r, found)
      λ q hit was_open. (
        (if r.id == c.run_id then finished result at r else r),
        rw
            (first-update (λ x. x.id == i) (λ x. x.id == c.run_id) (finished result at) s.runs
              (λ x. refl))
            (rw found),
      )

retake-Exists :
    (i : ℕ) (e : JobRun) (w : String) (now t : ℕ) (s : Tables)
    → Exists i s
    → Exists i (retake e w now t s).0
retake-Exists i e w now t s (r, found) =
    retake_cases (λ out. Exists i out.0) e w now t s (r, found)
      λ open_run over. (
        (if r.id == e.id then retaken w t r else r),
        rw (first-update (λ x. x.id == i) (λ x. x.id == e.id) (retaken w t) s.runs (λ x. refl))
            (rw found),
      )

claim_slot-Exists :
    (i : ℕ) (job : Job) (slot now : ℕ) (w : String) (n : ℕ) (s : Tables)
    → Exists i s
    → Exists i (claim_slot job slot now w n s).0
claim_slot-Exists i job slot now w n s (r, found) = rw (claim_slot_state job slot now w n s) (
    claim_run_cases (λ out. Exists i out.0) job slot now w n s
      (λ free. elim (Bool-cases ((new_run job slot now w n s).id == i)) [
        | inl e ↦ (new_run job slot now w n s, ground arith)
        | inr e ↦ (r, ground arith)
      ])
      λ e taken. retake-Exists i e w now (now + seconds n) s (r, found))

claim_due-Exists :
    (i now : ℕ) (w : String) (n : ℕ) (ids locked : ℕ → Bool) (s : Tables)
    → Exists i s
    → Exists i (claim_due now w n ids locked s).0
unfolding claim_due
claim_due-Exists i now w n ids locked s h =
    let jobs = due_jobs now ids locked s.jobs in
    (claim_all_rule (λ _. Unit {0}) (Exists i) (λ _. Unit {0}) now w n
      (λ j slot t _ _ k. (claim_slot-Exists i j slot now w n t k, λ c _. tt)) jobs s (All-tt jobs)
      h).0

-- A row that is there stays there, whatever the calls do to it.
call-Exists : (i : ℕ) (c : StoreCall) (s : Tables) → Exists i s → Exists i (call c s)
unfolding call
call-Exists i (acquires w now n) s h = rw (acquire-SameRuns w now n s).runs h
call-Exists i (ensures accounts now n) s h = rw (ensure_jobs-SameRuns accounts now n s).runs h
call-Exists i (claims now w n ids locked) s h = claim_due-Exists i now w n ids locked s h
call-Exists i (finishes c done next result) s h = finish_run-Exists i c done next result s h
call-Exists i (releases w) s h = rw (release-SameRuns w s).runs h

pub calls-Exists : (i : ℕ) (cs : List StoreCall) (s : Tables) → Exists i s → Exists i (calls cs s)
unfolding calls
calls-Exists i [] s h = h
calls-Exists i (c ∷ cs) s h = calls-Exists i cs (call c s) (call-Exists i c s h)
