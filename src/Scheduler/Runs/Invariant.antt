-- ===== src/Scheduler/Runs/Invariant.antt =====
-- Every run has its own identifier and its own slot.
use placegame_mcp.Prelude.{
  ℕ, ◌+◌, ◌<◌, ◌≡◌, ◌≢◌, arith, false, List, [], ◌∷◌, update, any, All-tt, String, Bool, All,
  All-update, All-map, Bool-cases, Option-cases, inl, inr, refl,
}
use placegame_mcp.Scheduler.Rows.{Job, JobRun, RunResult, Tables, seconds}
use placegame_mcp.Scheduler.Runs.{
  ClaimedIdlePreviewRun, same_slot, retake, claim_run, claim_slot, claim_due, due_jobs, finish_run,
}
use placegame_mcp.Scheduler.Runs.Rules.{
  claim_run_cases, claim_all_rule, finish_run_cases, retake_cases,
}

-- The two rows differ in their identifiers and in their slots.
pub record Apart (r q : JobRun) : Type 0 where
  pub ids : q.id ≢ r.id
  pub slots : same_slot r.account_id r.idempotency_key q ≡ false

abbrev pub AllApart : List JobRun → Type 0
AllApart [] = Unit
AllApart (r ∷ rs) = All (Apart r) rs × AllApart rs

pub record IsValid (s : Tables) : Type 0 where
  pub fresh : All (λ r. r.id < s.next_id) s.runs
  pub apart : AllApart s.runs

-- A write that keeps a row's identifier and slot.
pub record KeepsSlot (f : JobRun → JobRun) : Type 0 where
  pub same_id : (r : JobRun) → (f r).id ≡ r.id
  pub same_account : (r : JobRun) → (f r).account_id ≡ r.account_id
  pub same_key : (r : JobRun) → (f r).idempotency_key ≡ r.idempotency_key

Apart-write : (f : JobRun → JobRun) (r q : JobRun) → KeepsSlot f → Apart r q → Apart (f r) q
Apart-write f r q k a = record {
  ids = rw (k.same_id r) a.ids;
  slots = rw (k.same_account r, k.same_key r) a.slots;
}

Apart-write_right : (f : JobRun → JobRun) (r q : JobRun) → KeepsSlot f → Apart r q → Apart r (f q)
Apart-write_right f r q k a = record {
  ids = rw (k.same_id q) a.ids;
  slots = rw (k.same_account q, k.same_key q) a.slots;
}

AllApart-update :
    (p : JobRun → Bool) (f : JobRun → JobRun) (rs : List JobRun)
    → KeepsSlot f
    → AllApart rs
    → AllApart (update p f rs)
AllApart-update p f [] k a = a
AllApart-update p f (r ∷ rs) k a = elim (Bool-cases (p r)) [
  | inl hit ↦ rw hit (
    All-map (Apart r) (Apart (f r)) (update p f rs) (λ q. Apart-write f r q k) rest,
    AllApart-update p f rs k a.1,
  )
  | inr miss ↦ rw miss (rest, AllApart-update p f rs k a.1)
]
  where
    rest : All (Apart r) (update p f rs)
    rest = All-update (Apart r) p f rs (λ q. Apart-write_right f r q k) a.0

pub update-IsValid :
    (p : JobRun → Bool) (f : JobRun → JobRun) (s : Tables) (jobs : List Job)
    → KeepsSlot f
    → IsValid s
    → IsValid (record s { jobs = jobs; runs = update p f s.runs })
update-IsValid p f s jobs k v = record {
  fresh = All-update (λ r. r.id < s.next_id) p f s.runs (λ r h. rw (k.same_id r) h) v.fresh;
  apart = AllApart-update p f s.runs k v.apart;
}

Apart-All :
    (run : JobRun) (n : ℕ) (rs : List JobRun)
    → run.id ≡ n
    → All (λ r. r.id < n) rs
    → any (same_slot run.account_id run.idempotency_key) rs ≡ false
    → All (Apart run) rs
Apart-All run n [] e f h = tt
Apart-All run n (r ∷ rs) e f h = (
  record { ids = λ p. omega (arith, f.0); slots = ground arith },
  Apart-All run n rs e f.1 (ground arith),
)

insert_run-IsValid :
    (run : JobRun) (s : Tables)
    → run.id ≡ s.next_id
    → IsValid s
    → any (same_slot run.account_id run.idempotency_key) s.runs ≡ false
    → IsValid (record s { runs = run ∷ s.runs; next_id = s.next_id + 1 })
insert_run-IsValid run s e v h = record {
  fresh = (
    omega arith,
    All-map (λ r. r.id < s.next_id) (λ r. r.id < s.next_id + 1) s.runs (λ r q. omega arith) v.fresh,
  );
  apart = (Apart-All run s.next_id s.runs e v.fresh h, v.apart);
}

retake-IsValid :
    (existing : JobRun) (w : String) (now t : ℕ) (s : Tables)
    → IsValid s
    → IsValid (retake existing w now t s).0
retake-IsValid existing w now t s v =
    retake_cases (λ r. IsValid r.0) existing w now t s v
      (λ _ _.
        update-IsValid _ _ s s.jobs
          (record { same_id = λ r. refl; same_account = λ r. refl; same_key = λ r. refl }) v)

claim_run-IsValid :
    (job : Job) (slot now : ℕ) (w : String) (n : ℕ) (s : Tables)
    → IsValid s
    → IsValid (claim_run job slot now w n s).0
claim_run-IsValid job slot now w n s v =
    claim_run_cases (λ r. IsValid r.0) job slot now w n s (insert_run-IsValid _ s refl v)
      (λ e _. retake-IsValid e w now (now + seconds n) s v)

pub claim_slot_state :
    (job : Job) (slot now : ℕ) (w : String) (n : ℕ) (s : Tables)
    → (claim_slot job slot now w n s).0 ≡ (claim_run job slot now w n s).0
unfolding claim_slot
claim_slot_state job slot now w n s = elim (Option-cases (claim_run job slot now w n s).1) [
  | inl e ↦ rw (e, claim_slot)
  | inr (r, e) ↦ rw (e, claim_slot)
]

pub claim_slot-IsValid :
    (job : Job) (slot now : ℕ) (w : String) (n : ℕ) (s : Tables)
    → IsValid s
    → IsValid (claim_slot job slot now w n s).0
claim_slot-IsValid job slot now w n s v =
    rw (claim_slot_state job slot now w n s) (claim_run-IsValid job slot now w n s v)

pub claim_due-IsValid :
    (now : ℕ) (w : String) (n : ℕ) (ids locked : ℕ → Bool) (s : Tables)
    → IsValid s
    → IsValid (claim_due now w n ids locked s).0
unfolding claim_due
claim_due-IsValid now w n ids locked s v =
    let jobs = due_jobs now ids locked s.jobs in
    (claim_all_rule (λ _. Unit {0}) IsValid (λ _. Unit {0}) now w n
      (λ j slot t _ _ i. (claim_slot-IsValid j slot now w n t i, λ c _. tt)) jobs s (All-tt jobs)
      v).0

pub finish_run-IsValid :
    (c : ClaimedIdlePreviewRun) (done next : ℕ) (result : RunResult) (s : Tables)
    → IsValid s
    → IsValid (finish_run c done next result s)
finish_run-IsValid c done next result s v =
    finish_run_cases IsValid c done next result s v (λ r _ _.
      update-IsValid _ _ s _
        (record { same_id = λ r. refl; same_account = λ r. refl; same_key = λ r. refl }) v)
