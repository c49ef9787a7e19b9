-- ===== src/Scheduler/Runs/Rules.antt =====
-- How to reason about a claim and about the loop of claims.
use placegame_mcp.Prelude.{
  ℕ, ◌+◌, ◌≡◌, refl, arith, false, Option, none, some, List, [], ◌∷◌, first, any, update, ◌==◌,
  any-first, All, Bool-cases, Option-cases, inl, inr, String,
}
use placegame_mcp.Scheduler.Rows.{Job, JobRun, RunResult, Tables, seconds}
use placegame_mcp.Scheduler.Runs.{
  ClaimedIdlePreviewRun, insert_run, is_finished, is_leased, retaken, retake, new_run, slot_of,
  claim_run, claim_slot, claim_job, append_claim, claim_all, finished, finish_run,
}

-- A claim takes a new row if no run has the slot, and goes by the run that has it otherwise.
pub claim_run_cases {ℓ} :
    (P : Tables × Option JobRun → Type ℓ) (job : Job) (slot now : ℕ) (w : String) (n : ℕ)
    (s : Tables)
    → (any (slot_of job slot) s.runs ≡ false
        → P (
          record s { runs = new_run job slot now w n s ∷ s.runs; next_id = s.next_id + 1 },
          some (new_run job slot now w n s),
        ))
    → ((e : JobRun)
        → first (slot_of job slot) s.runs ≡ some e
        → P (retake e w now (now + seconds n) s))
    → P (claim_run job slot now w n s)
unfolding claim_run
claim_run_cases P job slot now w n s free taken =
    elim (Bool-cases (any (slot_of job slot) s.runs)) [
      | inr none_yet ↦ rw (none_yet, claim_run, insert_run) (free none_yet)
      | inl some_run ↦ elim (Option-cases (first (slot_of job slot) s.runs)) [
        | inl e ↦ absurd (ground (arith, any-first (slot_of job slot) s.runs))
        | inr (r, e) ↦ rw (some_run, e, claim_run, insert_run) (taken r e)
      ]
    ]

All-append_claim {κ} :
    (Q : ClaimedIdlePreviewRun → Type κ) (o : Option ClaimedIdlePreviewRun)
    (runs : List ClaimedIdlePreviewRun)
    → ((c : ClaimedIdlePreviewRun) → o ≡ some c → Q c)
    → All Q runs
    → All Q (append_claim o runs)
All-append_claim Q none runs h all = all
All-append_claim Q (some c) runs h all = (h c refl, all)

module _ {ℓ κ μ} (R : Job → Type μ) (I : Tables → Type ℓ) (Q : ClaimedIdlePreviewRun → Type κ)
    (now : ℕ) (w : String) (n : ℕ)
    (one : (j : Job) (slot : ℕ) (s : Tables)
      → R j
      → j.next_run_at ≡ some slot
      → I s
      → I (claim_slot j slot now w n s).0
        × ((c : ClaimedIdlePreviewRun) → (claim_slot j slot now w n s).1 ≡ some c → Q c)) where
  claim_job_rule :
      (o : Option ℕ) (j : Job) (s : Tables)
      → j.next_run_at ≡ o
      → R j
      → I s
      → I (claim_job o j now w n s).0
        × ((c : ClaimedIdlePreviewRun) → (claim_job o j now w n s).1 ≡ some c → Q c)
  unfolding claim_job
  claim_job_rule none j s e r i = (i, λ c h. cc)
  claim_job_rule (some slot) j s e r i = one j slot s r e i

  -- What each claim keeps of the tables, and grants of the run that it returns, the loop does for
  -- all.
  pub claim_all_rule :
      (js : List Job) (s : Tables)
      → All R js
      → I s
      → I (claim_all now w n js s).0 × All Q (claim_all now w n js s).1
  unfolding claim_all
  claim_all_rule [] s r i = (i, tt)
  claim_all_rule (j ∷ js) s r i =
      let (kept, grants) = claim_job_rule j.next_run_at j s refl r.0 i in
      let (end, all) = claim_all_rule js (claim_job j.next_run_at j now w n s).0 r.1 kept in
      (end, All-append_claim Q (claim_job j.next_run_at j now w n s).1 _ grants all)

-- What `finish_run` leaves as it was, and what it writes for a run that is open.
pub finish_run_cases {ℓ} :
    (P : Tables → Type ℓ) (c : ClaimedIdlePreviewRun) (done next : ℕ) (result : RunResult)
    (s : Tables)
    → P s
    → ((r : JobRun)
        → first (λ r. r.id == c.run_id) s.runs ≡ some r
        → r.completed_at ≡ none
        → P (record s {
          runs = update (λ r. r.id == c.run_id) (finished result done) s.runs;
          jobs = update (λ j. j.id == c.job_id) (λ j. record j { next_run_at = some next }) s.jobs;
        }))
    → P (finish_run c done next result s)
unfolding finish_run
finish_run_cases P c done next result s gone written =
    elim (Option-cases (first (λ r. r.id == c.run_id) s.runs)) [
      | inl e ↦ rw (e, finish_run) gone
      | inr (r, e) ↦ elim (Option-cases r.completed_at) [
        | inl o ↦ rw (e, o, finish_run) (written r e o)
        | inr (t, d) ↦ rw (e, d, finish_run) gone
      ]
    ]

-- A run that is finished or leased is refused, and any other is taken again.
pub retake_cases {ℓ} :
    (P : Tables × Option JobRun → Type ℓ) (e : JobRun) (w : String) (now t : ℕ) (s : Tables)
    → P (s, none)
    → (is_finished e ≡ false
        → is_leased now e ≡ false
        → P (
          record s { runs = update (λ r. r.id == e.id) (retaken w t) s.runs },
          some (retaken w t e),
        ))
    → P (retake e w now t s)
unfolding retake
retake_cases P e w now t s refused taken = elim (Bool-cases (is_finished e)) [
  | inl f ↦ rw (f, retake) refused
  | inr f ↦ elim (Bool-cases (is_leased now e)) [
    | inl l ↦ rw (f, l, retake) refused
    | inr l ↦ rw (f, l, retake) (taken f l)
  ]
]
