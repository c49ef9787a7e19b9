-- ===== src/Scheduler/Runs.antt =====
-- `claim_due`, `_claim_slot` and `finish_run` of PostgresIdlePreviewStore (scheduler.py).
pub mod Rules
pub mod Invariant
pub mod Once
pub mod Final
use placegame_mcp.Prelude.{
  ℕ, ◌+◌, ◌≡◌, refl, arith, Bool, true, false, not, ◌&&◌, Option, none, some, List, [], ◌∷◌, ltb,
  leb, ◌==◌, is_some_and, if◌then◌else◌, keep, first, any, All, any-first, update, Bool-cases,
  Option-cases, inl, inr, String, str_eq,
}
use placegame_mcp.Scheduler.Rows.{
  Job, JobRun, IdempotencyKey, RunResult, Tables, seconds, idle_preview_idempotency_key, key_eq,
}

pub record ClaimedIdlePreviewRun : Type 0 where
  pub run_id : ℕ
  pub job_id : ℕ
  pub account_id : ℕ
  pub scheduled_for : ℕ
  pub idempotency_key : IdempotencyKey

-- The unique constraint of job_runs: account and idempotency key.
abbrev pub same_slot : ℕ → IdempotencyKey → JobRun → Bool
same_slot account_id key r = r.account_id == account_id && key_eq r.idempotency_key key

-- `none` is an IntegrityError of the flush, which the nested transaction undoes.
unfoldable pub insert_run : JobRun → Tables → Option Tables
insert_run run s =
    if any (same_slot run.account_id run.idempotency_key) s.runs
    then none
    else some (record s { runs = run ∷ s.runs; next_id = s.next_id + 1 })

abbrev pub retaken : String → ℕ → JobRun → JobRun
retaken worker_id lease_expires_at r = record r {
  lease_owner = some worker_id;
  lease_expires_at = some lease_expires_at;
  attempt = r.attempt + 1;
}

abbrev pub is_finished : JobRun → Bool
is_finished r = is_some_and (λ _. true) r.completed_at

abbrev pub is_leased : ℕ → JobRun → Bool
is_leased now r = is_some_and (λ t. ltb now t) r.lease_expires_at

-- The slot exists: only a run that is not finished and whose lease is over is taken again.
unfoldable pub retake : JobRun → String → ℕ → ℕ → Tables → Tables × Option JobRun
retake existing worker_id now lease_expires_at s =
    if is_finished existing then (s, none) else if is_leased now existing then (s, none) else (
      record s {
        runs = update (λ r. r.id == existing.id) (retaken worker_id lease_expires_at) s.runs;
      },
      some (retaken worker_id lease_expires_at existing),
    )

abbrev pub claimed_run : Job → ℕ → JobRun → ClaimedIdlePreviewRun
claimed_run job scheduled_for run = record {
  run_id = run.id;
  job_id = job.id;
  account_id = job.account_id;
  scheduled_for = scheduled_for;
  idempotency_key = idle_preview_idempotency_key job.account_id scheduled_for;
}

abbrev pub new_run : Job → ℕ → ℕ → String → ℕ → Tables → JobRun
new_run job scheduled_for now worker_id lease_seconds s = record {
  id = s.next_id;
  job_id = job.id;
  account_id = job.account_id;
  idempotency_key = idle_preview_idempotency_key job.account_id scheduled_for;
  dispatched_at = now;
  lease_owner = some worker_id;
  lease_expires_at = some (now + seconds lease_seconds);
  attempt = 1;
  result = none;
  completed_at = none;
}

abbrev pub slot_of : Job → ℕ → JobRun → Bool
slot_of job scheduled_for =
    same_slot job.account_id (idle_preview_idempotency_key job.account_id scheduled_for)

-- The run of a claim: a new row, or the row that has the slot.
unfoldable pub claim_run : Job → ℕ → ℕ → String → ℕ → Tables → Tables × Option JobRun
unfolding insert_run
claim_run job scheduled_for now worker_id lease_seconds s =
    let run = new_run job scheduled_for now worker_id lease_seconds s in
    elim (insert_run run s) [
      | some s' ↦ (s', some run)
      | none ↦ elim (first (slot_of job scheduled_for) s.runs) [
        | none ↦ (s, none)
        | some existing ↦ retake existing worker_id now (now + seconds lease_seconds) s
      ]
    ]

unfoldable pub claim_slot :
    Job → ℕ → ℕ → String → ℕ → Tables → Tables × Option ClaimedIdlePreviewRun
unfolding claim_run
claim_slot job scheduled_for now worker_id lease_seconds s =
    let (s', run) = claim_run job scheduled_for now worker_id lease_seconds s in
    elim run [ none ↦ (s', none) | some r ↦ (s', some (claimed_run job scheduled_for r)) ]

-- The query of `claim_due`, but for its order. `locked` are the jobs that another transaction
-- holds, which `skip_locked` leaves out.
unfoldable pub is_due : ℕ → (ℕ → Bool) → (ℕ → Bool) → Job → Bool
is_due now account_ids locked j =
    str_eq j.kind "idle_preview"
    && j.enabled
    && account_ids j.account_id
    && is_some_and (λ t. leb t now) j.next_run_at
    && not (locked j.id)

-- `order by account_id`
insert_by_account : Job → List Job → List Job
insert_by_account j [] = j ∷ []
insert_by_account j (k ∷ ks) =
    let rest = insert_by_account j ks in
    if leb j.account_id k.account_id then j ∷ k ∷ ks else k ∷ rest

unfoldable pub by_account : List Job → List Job
unfolding insert_by_account
by_account [] = []
by_account (j ∷ js) = insert_by_account j (by_account js)

-- The body of the loop, given `job.next_run_at`: a job without a slot is passed over.
unfoldable pub claim_job :
    Option ℕ → Job → ℕ → String → ℕ → Tables → Tables × Option ClaimedIdlePreviewRun
unfolding claim_slot
claim_job none j now worker_id lease_seconds s = (s, none)
claim_job (some scheduled_for) j now worker_id lease_seconds s =
    claim_slot j scheduled_for now worker_id lease_seconds s

abbrev append_claim :
    Option ClaimedIdlePreviewRun → List ClaimedIdlePreviewRun → List ClaimedIdlePreviewRun
append_claim none runs = runs
append_claim (some r) runs = r ∷ runs

-- The loop over the jobs that are due.
unfoldable pub claim_all : ℕ → String → ℕ → List Job → Tables → Tables × List ClaimedIdlePreviewRun
unfolding claim_job
claim_all now worker_id lease_seconds [] s = (s, [])
claim_all now worker_id lease_seconds (j ∷ js) s =
    let (s', run) = claim_job j.next_run_at j now worker_id lease_seconds s in
    let (s'', runs) = claim_all now worker_id lease_seconds js s' in (s'', append_claim run runs)

-- The rows that `claim_due` selects and locks, in order.
unfoldable pub due_jobs : ℕ → (ℕ → Bool) → (ℕ → Bool) → List Job → List Job
unfolding is_due by_account
due_jobs now account_ids locked jobs = by_account (keep (is_due now account_ids locked) jobs)

unfoldable pub claim_due :
    ℕ → String → ℕ → (ℕ → Bool) → (ℕ → Bool) → Tables → Tables × List ClaimedIdlePreviewRun
unfolding claim_all due_jobs
claim_due now worker_id lease_seconds account_ids locked s =
    claim_all now worker_id lease_seconds (due_jobs now account_ids locked s.jobs) s

abbrev pub finished : RunResult → ℕ → JobRun → JobRun
finished result completed_at r = record r {
  result = some result;
  completed_at = some completed_at;
  lease_owner = none;
  lease_expires_at = none;
}

-- A run that is gone or finished already is left alone.
unfoldable pub finish_run : ClaimedIdlePreviewRun → ℕ → ℕ → RunResult → Tables → Tables
finish_run claimed completed_at next_run_at result s =
    elim (first (λ r. r.id == claimed.run_id) s.runs) [
      | none ↦ s
      | some run ↦ if is_finished run then s else record s {
        runs = update (λ r. r.id == claimed.run_id) (finished result completed_at) s.runs;
        jobs =
            update (λ j. j.id == claimed.job_id) (λ j. record j { next_run_at = some next_run_at })
              s.jobs;
      }
    ]
