-- ===== src/Scheduler/Tick/Finishes.antt =====
-- A tick ends with every run that it claimed finished, each on its own.
use placegame_mcp.Errors.{Result, ok}
use placegame_mcp.Prelude.{
  ℕ, ◌<◌, ◌≡◌, refl, sym, subst, ap, ◌∙◌, arith, true, false, none, some, List, [], ◌∷◌, ◌==◌,
  length, first-update, first-holds, Bool-cases, Option-cases, inl, inr,
}
use placegame_mcp.Scheduler.Rows.{JobRun, RunResult, Tables}
use placegame_mcp.Scheduler.Lease.{acquire_lease}
use placegame_mcp.Scheduler.Jobs.{SchedulerAccount, eligible, ensure_jobs}
use placegame_mcp.Scheduler.Runs.{
  ClaimedIdlePreviewRun, is_finished, claim_due, finished, finish_run,
}
use placegame_mcp.Scheduler.Runs.Invariant.{IsValid, claim_due-IsValid, finish_run-IsValid}
use placegame_mcp.Scheduler.Runs.Once.{run_of, claims_run, claim_due-leases}
use placegame_mcp.Scheduler.Runs.Final.{finish_run-final}
use placegame_mcp.Scheduler.Store.{calls}
use placegame_mcp.Scheduler.Store.Kept.{Exists, finish_run-Exists, calls-Exists}
use placegame_mcp.Scheduler.Store.Slots.{
  SameRuns-IsValid, ensure_jobs-SameRuns, acquire-SameRuns, release-SameRuns, calls-IsValid,
  calls-final,
}
use placegame_mcp.Scheduler.Tick.{
  IdlePreviewScheduler, World, acquiring, ensuring, claiming, releasing, dispatch, dispatch_all,
  tick_claims, tick_body, tick_release, tick,
}
use placegame_mcp.Scheduler.Tick.Releases.{tick_acquired}

abbrev pub IsFinished : ℕ → Tables → Type 0
IsFinished i s = (r : JobRun) × (run_of i s ≡ some r) × (is_finished r ≡ true)

-- A recorded run is finished, whether it was so before or not.
finish_run-finishes :
    (c : ClaimedIdlePreviewRun) (at next : ℕ) (result : RunResult) (s : Tables)
    → Exists c.run_id s
    → IsFinished c.run_id (finish_run c at next result s)
unfolding finish_run
finish_run-finishes c at next result s (r, found) = elim (Option-cases r.completed_at) [
  | inr (t, e) ↦ rw (found, e, finish_run) (r, found, rw e)
  | inl e ↦
      rw (found, e, finish_run)
        (
          finished result at r,
          rw
              (first-update (λ q. q.id == c.run_id) (λ q. q.id == c.run_id) (finished result at)
                s.runs (λ q. refl))
              (rw found (ground (arith, first-holds (λ q. q.id == c.run_id) s.runs r found))),
          refl,
        )
]

module _ (scheduler : IdlePreviewScheduler) (world : World) (now i : ℕ) where
  dispatch-IsValid :
      (c : ClaimedIdlePreviewRun) (s : Tables)
      → IsValid s
      → IsValid (dispatch scheduler world now c s)
  unfolding dispatch
  dispatch-IsValid c s v =
      let v' = calls-IsValid (world.meanwhile c) s v in
      elim (Bool-cases (world.recorded c)) [
        | inl e ↦ rw e (finish_run-IsValid c _ _ _ (calls (world.meanwhile c) s) v')
        | inr e ↦ rw e v'
      ]

  dispatch-Exists :
      (c : ClaimedIdlePreviewRun) (s : Tables)
      → Exists i s
      → Exists i (dispatch scheduler world now c s)
  unfolding dispatch
  dispatch-Exists c s h =
      let h' = calls-Exists i (world.meanwhile c) s h in
      elim (Bool-cases (world.recorded c)) [
        | inl e ↦ rw e (finish_run-Exists i c _ _ _ (calls (world.meanwhile c) s) h')
        | inr e ↦ rw e h'
      ]

  dispatch-final :
      (c : ClaimedIdlePreviewRun) (s : Tables)
      → IsValid s
      → IsFinished i s
      → IsFinished i (dispatch scheduler world now c s)
  unfolding dispatch
  dispatch-final c s v (r, found, done) =
      let kept = calls-final i r (world.meanwhile c) s done v found in
      elim (Bool-cases (world.recorded c)) [
        | inl e ↦
            rw e (r, finish_run-final i r done c _ _ _ (calls (world.meanwhile c) s) kept, done)
        | inr e ↦ rw e (r, kept, done)
      ]

  dispatch_all-final :
      (cs : List ClaimedIdlePreviewRun) (s : Tables)
      → IsValid s
      → IsFinished i s
      → IsFinished i (dispatch_all scheduler world now cs s)
        × IsValid (dispatch_all scheduler world now cs s)
  unfolding dispatch_all
  dispatch_all-final [] s v h = (h, v)
  dispatch_all-final (c ∷ cs) s v h =
      dispatch_all-final cs (dispatch scheduler world now c s) (dispatch-IsValid c s v)
        (dispatch-final c s v h)

  dispatch-finishes :
      (c : ClaimedIdlePreviewRun) (s : Tables)
      → c.run_id ≡ i
      → world.recorded c ≡ true
      → Exists i s
      → IsFinished i (dispatch scheduler world now c s)
  unfolding dispatch
  dispatch-finishes c s same recorded h =
      let h' = calls-Exists i (world.meanwhile c) s h in
      rw (recorded, ← same)
        (finish_run-finishes c _ _ _ (calls (world.meanwhile c) s) (rw (← same) at h'))

  dispatch_all-finishes :
      (cs : List ClaimedIdlePreviewRun) (s : Tables)
      → ((c : ClaimedIdlePreviewRun) → c.run_id ≡ i → world.recorded c ≡ true)
      → claims_run i cs ≡ true
      → IsValid s
      → Exists i s
      → IsFinished i (dispatch_all scheduler world now cs s)
        × IsValid (dispatch_all scheduler world now cs s)
  unfolding dispatch_all
  dispatch_all-finishes [] s recorded claimed v h = cc
  dispatch_all-finishes (c ∷ cs) s recorded claimed v h = elim (Bool-cases (c.run_id == i)) [
    | inl same ↦
        let e : c.run_id ≡ i = ground arith in
        dispatch_all-final cs (dispatch scheduler world now c s) (dispatch-IsValid c s v)
          (dispatch-finishes c s e (recorded c e) h)
    | inr other ↦
        dispatch_all-finishes cs (dispatch scheduler world now c s) recorded (ground arith)
          (dispatch-IsValid c s v) (dispatch-Exists c s h)
  ]

-- The tables in which a tick makes its claims, once it has the lease and the account listing.
abbrev pub prepared : IdlePreviewScheduler → World → List SchedulerAccount → ℕ → Tables → Tables
prepared scheduler world accounts now s =
    let begun = calls (world.others acquiring) s in
    let taken = (acquire_lease scheduler.worker_id now scheduler.lease_seconds begun).0 in
    calls (world.others claiming)
      (ensure_jobs accounts now scheduler.interval_seconds (calls (world.others ensuring) taken))

prepared-IsValid :
    (scheduler : IdlePreviewScheduler) (world : World) (accounts : List SchedulerAccount) (now : ℕ)
    (s : Tables)
    → IsValid s
    → IsValid (prepared scheduler world accounts now s)
prepared-IsValid scheduler world accounts now s v =
    let w = scheduler.worker_id in
    let n = scheduler.lease_seconds in
    let s₀ = calls (world.others acquiring) s in
    let s₁ = (acquire_lease w now n s₀).0 in
    let s₂ = calls (world.others ensuring) s₁ in
    let v₀ = calls-IsValid (world.others acquiring) s v in
    let v₁ = SameRuns-IsValid (acquire-SameRuns w now n s₀) v₀ in
    let v₂ = calls-IsValid (world.others ensuring) s₁ v₁ in
    let v₃ =
      SameRuns-IsValid (ensure_jobs-SameRuns accounts now scheduler.interval_seconds s₂) v₂ in
    calls-IsValid (world.others claiming) (ensure_jobs accounts now scheduler.interval_seconds s₂)
      v₃

-- The release keeps what is finished, also when it raises.
tick_release-final :
    (scheduler : IdlePreviewScheduler) (world : World) (i : ℕ) (s : Tables) (result : Result ℕ)
    → IsValid s
    → IsFinished i s
    → IsFinished i (tick_release scheduler world (s, result)).0
unfolding tick_release
tick_release-final scheduler world i s result v (r, found, done) =
    let s' = calls (world.others releasing) s in
    let kept = calls-final i r (world.others releasing) s done v found in
    elim (Option-cases (world.fault releasing)) [
      | inl e ↦
          rw (e, tick_release) (r, rw (release-SameRuns scheduler.worker_id s').runs kept, done)
      | inr (x, e) ↦ rw (e, tick_release) (r, kept, done)
    ]

-- The body of a tick in which nothing raises.
body_claims :
    (scheduler : IdlePreviewScheduler) (world : World) (now : ℕ) (accounts : List SchedulerAccount)
    (s : Tables)
    → let ready =
        calls
          (world.others claiming)
          (ensure_jobs accounts now scheduler.interval_seconds (calls (world.others ensuring) s)) in
      let out =
        claim_due now scheduler.worker_id scheduler.lease_seconds
          (eligible accounts)
          world.locked
          ready in
      world.list_accounts ≡ ok accounts
      → world.fault ensuring ≡ none
      → world.fault claiming ≡ none
      → tick_body world.list_accounts scheduler world now s
        ≡ (dispatch_all scheduler world now out.1 out.0, ok (length out.1))
unfolding tick_body tick_claims
body_claims scheduler world now accounts s listed g k =
    ap (λ l. tick_body l scheduler world now s) listed ∙ (rw (g, k, tick_body, tick_claims) refl)

-- When a tick has the lease and the account listing, and no transaction raises before its claims,
-- each run that it claims is finished at its end, whether the preview succeeds or raises, provided
-- that the database records that run: a storage failure of other runs does not matter, nor what
-- other workers do between the transactions of the tick, nor that the release raises.
pub tick-finishes :
    (scheduler : IdlePreviewScheduler) (world : World) (now i : ℕ)
    (accounts : List SchedulerAccount) (s : Tables)
    → scheduler.closed ≡ false
    → 0 < scheduler.lease_seconds
    → (acquire_lease scheduler.worker_id now scheduler.lease_seconds
        (calls (world.others acquiring) s)).1
      ≡ true
    → world.list_accounts ≡ ok accounts
    → (world.fault acquiring ≡ none) × (world.fault ensuring ≡ none) × (world.fault claiming ≡ none)
    → IsValid s
    → claims_run i
        (claim_due now scheduler.worker_id scheduler.lease_seconds
          (eligible accounts)
          world.locked
          (prepared scheduler world accounts now s)).1
      ≡ true
    → ((c : ClaimedIdlePreviewRun) → c.run_id ≡ i → world.recorded c ≡ true)
    → IsFinished i (tick scheduler world now s).0
tick-finishes scheduler world now i accounts s still pos acquired listed (f, g, k) v claimed
      recorded =
    let w = scheduler.worker_id in
    let n = scheduler.lease_seconds in
    let s₁ = prepared scheduler world accounts now s in
    let v₁ = prepared-IsValid scheduler world accounts now s v in
    let out = claim_due now w n (eligible accounts) world.locked s₁ in
    let v₂ = claim_due-IsValid now w n (eligible accounts) world.locked s₁ v₁ in
    let guarded = claim_due-leases i now w n (eligible accounts) world.locked s₁ pos v₁ claimed in
    let (done, valid) =
      dispatch_all-finishes scheduler world now i out.1 out.0 recorded claimed v₂
        (guarded.run, guarded.found) in
    let body =
      body_claims scheduler world now accounts
        (acquire_lease w now n (calls (world.others acquiring) s)).0 listed g k in
    subst (λ x. IsFinished i x.0)
      (sym (
        tick_acquired scheduler world now s still f acquired
        ∙ ap (tick_release scheduler world) body))
      (tick_release-final scheduler world i (dispatch_all scheduler world now out.1 out.0)
        (ok (length out.1)) valid done)
