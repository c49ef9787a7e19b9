-- ===== src/Scheduler/Runs/Final.antt =====
-- A finished run is never written again.
use placegame_mcp.Prelude.{
  ℕ, ◌+◌, ◌<◌, ◌≡◌, ◌≢◌, arith, Bool, true, some, ◌==◌, first-holds, first-update, All-tt,
  All-first, Bool-cases, inl, inr, String, refl,
}
use placegame_mcp.Scheduler.Rows.{Job, JobRun, RunResult, Tables, seconds}
use placegame_mcp.Scheduler.Runs.{
  ClaimedIdlePreviewRun, is_finished, retaken, slot_of, claim_run, claim_due, due_jobs, finished,
  finish_run,
}
use placegame_mcp.Scheduler.Runs.Rules.{
  claim_run_cases, claim_all_rule, finish_run_cases, retake_cases,
}
use placegame_mcp.Scheduler.Runs.Invariant.{IsValid, claim_slot-IsValid, claim_slot_state}
use placegame_mcp.Scheduler.Runs.Once.{run_of, first-by_id}

module _ (i : ℕ) (r : JobRun) (done : is_finished r ≡ true) where
  claim_run-final :
      (job : Job) (slot now : ℕ) (w : String) (n : ℕ) (s : Tables)
      → IsValid s
      → run_of i s ≡ some r
      → run_of i (claim_run job slot now w n s).0 ≡ some r
  claim_run-final job slot now w n s v found =
      claim_run_cases (λ out. run_of i out.0 ≡ some r) job slot now w n s
        (λ free.
          let low : r.id < s.next_id =
            All-first (λ q. q.id < s.next_id) (λ q. q.id == i) s.runs r v.fresh found in
          ground (arith, low, first-holds (λ q. q.id == i) s.runs r found))
        λ e hit.
          retake_cases (λ out. run_of i out.0 ≡ some r) e w now (now + seconds n) s found
            λ was_open over.
              let own : run_of e.id s ≡ some e =
                first-by_id (slot_of job slot) s.runs e v.apart hit in
              let other : e.id ≢ i =
                λ same. let at_i : run_of i s ≡ some e = rw (← same) own in ground arith in
              rw
                (first-update (λ q. q.id == i) (λ q. q.id == e.id) (retaken w (now + seconds n))
                  s.runs (λ q. refl))
                (rw found (ground (arith, other, first-holds (λ q. q.id == i) s.runs r found)))

  pub claim_due-final :
      (now : ℕ) (w : String) (n : ℕ) (ids locked : ℕ → Bool) (s : Tables)
      → IsValid s
      → run_of i s ≡ some r
      → run_of i (claim_due now w n ids locked s).0 ≡ some r
  unfolding claim_due
  claim_due-final now w n ids locked s v found =
      let jobs = due_jobs now ids locked s.jobs in
      (claim_all_rule (λ _. Unit {0}) (λ t. IsValid t × (run_of i t ≡ some r)) (λ _. Unit {0}) now w
        n
        (λ j slot t _ _ h. (
          (
            claim_slot-IsValid j slot now w n t h.0,
            rw (claim_slot_state j slot now w n t) (claim_run-final j slot now w n t h.0 h.1),
          ),
          λ c _. tt,
        ))
        jobs s (All-tt jobs) (v, found)).0.1

  pub finish_run-final :
      (c : ClaimedIdlePreviewRun) (at next : ℕ) (result : RunResult) (s : Tables)
      → run_of i s ≡ some r
      → run_of i (finish_run c at next result s) ≡ some r
  finish_run-final c at next result s found =
      finish_run_cases (λ t. run_of i t ≡ some r) c at next result s found
        λ q hit was_open.
          rw
            (first-update (λ x. x.id == i) (λ x. x.id == c.run_id) (finished result at) s.runs
              (λ x. refl))
            (rw found (elim (Bool-cases (r.id == c.run_id)) [
              | inr other ↦ rw other
              | inl same ↦
                  let is_i = first-holds (λ x. x.id == i) s.runs r found in
                  let e : c.run_id ≡ i = ground (arith, is_i) in
                  let at_i : run_of i s ≡ some q = rw (← e) hit in absurd (ground (arith, at_i))
            ]))
