-- ===== src/Scheduler/Runs/Once.antt =====
-- A slot is worked on by one worker at a time, and once.
use placegame_mcp.Prelude.{
  ℕ, ◌+◌, ◌≤◌, ◌<◌, ◌≡◌, ◌≢◌, arith, Bool, true, false, Option, some, List, [], ◌∷◌, ◌==◌, ==_refl,
  first, first-holds, first-update, any, All, All-tt, All-first, Bool-cases, Option-cases, ◌⊎◌,
  ◌||◌, inl, inr, String, refl, if◌then◌else◌, none,
}
use placegame_mcp.Scheduler.Rows.{Job, JobRun, RunResult, Tables, seconds}
use placegame_mcp.Scheduler.Runs.{
  ClaimedIdlePreviewRun, retaken, retake, is_finished, slot_of, claim_run, claim_slot, claim_job,
  append_claim, claim_all, claim_due, due_jobs, finished, finish_run,
}
use placegame_mcp.Scheduler.Runs.Rules.{
  claim_run_cases, claim_all_rule, finish_run_cases, retake_cases,
}
use placegame_mcp.Scheduler.Runs.Invariant.{Apart, AllApart, IsValid, claim_slot-IsValid}

abbrev pub run_of : ℕ → Tables → Option JobRun
run_of i s = first (λ r. r.id == i) s.runs

-- No claim before `deadline` may take the run: it is finished, or leased for so long.
pub record Guarded (i deadline : ℕ) (s : Tables) : Type 0 where
  pub run : JobRun
  pub found : run_of i s ≡ some run
  pub guard :
      (is_finished run ≡ true) ⊎ ((d : ℕ) × (run.lease_expires_at ≡ some d) × (deadline ≤ d))

-- Identifiers are distinct, so a row that a query finds is the row of its identifier.
pub first-by_id :
    (p : JobRun → Bool) (rs : List JobRun) (e : JobRun)
    → AllApart rs
    → first p rs ≡ some e
    → first (λ r. r.id == e.id) rs ≡ some e
first-by_id p [] e a h = cc
first-by_id p (r ∷ rs) e a h = elim (Bool-cases (p r)) [
  | inl hit ↦ let same : r ≡ e = ground arith in rw same (rw (==_refl e.id))
  | inr miss ↦
      let later : first p rs ≡ some e = ground arith in
      let apart : Apart r e = All-first (Apart r) p rs e a.0 later in
      ground (arith, apart.ids, first-by_id p rs e a.1 later)
]

retake-Guarded :
    (i deadline : ℕ) (e : JobRun) (w : String) (now t : ℕ) (s : Tables)
    → now < deadline
    → run_of e.id s ≡ some e
    → Guarded i deadline s
    → Guarded i deadline (retake e w now t s).0
      × ((r : JobRun) → (retake e w now t s).1 ≡ some r → r.id ≢ i)
retake-Guarded i deadline e w now t s before own g =
    retake_cases (λ out. Guarded i deadline out.0 × ((r : JobRun) → out.1 ≡ some r → r.id ≢ i)) e w
      now t s (g, λ r h. cc)
      λ open_run over.
        let other : e.id ≢ i = λ same.
          let at_i : run_of i s ≡ some e = rw (← same) own in ground (arith, g.found, g.guard) in
        (
          record {
            run = g.run;
            found =
                rw
                  (first-update (λ r. r.id == i) (λ r. r.id == e.id) (retaken w t) s.runs
                    (λ r. refl))
                  (rw g.found (ground (arith, first-holds (λ r. r.id == i) s.runs g.run g.found)));
            guard = g.guard;
          },
          λ r h same. other (ground arith),
        )

claim_run-Guarded :
    (i deadline : ℕ) (job : Job) (slot now : ℕ) (w : String) (n : ℕ) (s : Tables)
    → now < deadline
    → IsValid s
    → Guarded i deadline s
    → Guarded i deadline (claim_run job slot now w n s).0
      × ((r : JobRun) → (claim_run job slot now w n s).1 ≡ some r → r.id ≢ i)
claim_run-Guarded i deadline job slot now w n s before v g =
    claim_run_cases (λ out. Guarded i deadline out.0 × ((r : JobRun) → out.1 ≡ some r → r.id ≢ i))
      job slot now w n s
      (λ free.
        let low : g.run.id < s.next_id =
          All-first (λ r. r.id < s.next_id) _ s.runs g.run v.fresh g.found in
        let is_i = first-holds (λ r. r.id == i) s.runs g.run g.found in
        (
          record { run = g.run; found = ground (arith, low, is_i, g.found); guard = g.guard },
          λ r h same. ground (arith, low, is_i),
        ))
      (λ e h.
        retake-Guarded i deadline e w now (now + seconds n) s before
          (first-by_id (slot_of job slot) s.runs e v.apart h) g)

-- The claims of one call that are of run `i`.
abbrev pub claims_run : ℕ → List ClaimedIdlePreviewRun → Bool
claims_run i = any (λ c. c.run_id == i)

none_claims :
    (i : ℕ) (cs : List ClaimedIdlePreviewRun) → All (λ c. c.run_id ≢ i) cs → claims_run i cs ≡ false
none_claims i [] h = refl
none_claims i (c ∷ cs) h = ground (arith, h.0, none_claims i cs h.1)

claim_slot-Guarded :
    (i deadline : ℕ) (job : Job) (slot now : ℕ) (w : String) (n : ℕ) (s : Tables)
    → now < deadline
    → IsValid s
    → Guarded i deadline s
    → Guarded i deadline (claim_slot job slot now w n s).0
      × ((c : ClaimedIdlePreviewRun) → (claim_slot job slot now w n s).1 ≡ some c → c.run_id ≢ i)
claim_slot-Guarded i deadline job slot now w n s before v g =
    let (kept, other) = claim_run-Guarded i deadline job slot now w n s before v g in
    elim (Option-cases (claim_run job slot now w n s).1) [
      | inl e ↦ unfold claim_slot in rw (e, claim_slot) (kept, λ c h. cc)
      | inr (r, e) ↦
          unfold claim_slot in rw (e, claim_slot) (kept, λ c h same. other r e (ground arith))
    ]

module _ (i deadline now : ℕ) (w : String) (n : ℕ) (before : now < deadline) where
  claim_all-Guarded :
      (js : List Job) (s : Tables)
      → IsValid s
      → Guarded i deadline s
      → (IsValid (claim_all now w n js s).0 × Guarded i deadline (claim_all now w n js s).0)
        × (claims_run i (claim_all now w n js s).1 ≡ false)
  claim_all-Guarded js s v g =
      let (kept, others) =
        claim_all_rule (λ _. Unit {0}) (λ t. IsValid t × Guarded i deadline t) (λ c. c.run_id ≢ i)
          now w n
          (λ j slot t _ _ h.
            let (kept, other) = claim_slot-Guarded i deadline j slot now w n t before h.0 h.1 in
            ((claim_slot-IsValid j slot now w n t h.0, kept), other))
          js s (All-tt js) (v, g) in
      (kept, none_claims i _ others)

  pub claim_due-Guarded :
      (ids locked : ℕ → Bool) (s : Tables)
      → IsValid s
      → Guarded i deadline s
      → Guarded i deadline (claim_due now w n ids locked s).0
        × (claims_run i (claim_due now w n ids locked s).1 ≡ false)
  unfolding claim_due
  claim_due-Guarded ids locked s v g =
      let (kept, others) = claim_all-Guarded (due_jobs now ids locked s.jobs) s v g in
      (kept.1, others)

-- What a claim has taken is leased.
claim_run-leases :
    (job : Job) (slot now : ℕ) (w : String) (n : ℕ) (s : Tables) (r : JobRun)
    → IsValid s
    → (claim_run job slot now w n s).1 ≡ some r
    → Guarded r.id (now + seconds n) (claim_run job slot now w n s).0
claim_run-leases job slot now w n s r v =
    claim_run_cases (λ out. out.1 ≡ some r → Guarded r.id (now + seconds n) out.0) job slot now w n
      s
      (λ free h. record {
        run = r;
        found = ground arith;
        guard = inr (now + seconds n, ground arith, omega arith);
      })
      λ e found.
        retake_cases (λ out. out.1 ≡ some r → Guarded r.id (now + seconds n) out.0) e w now
          (now + seconds n) s (λ h. cc)
          λ open_run over h.
            let own : run_of e.id s ≡ some e =
              first-by_id (slot_of job slot) s.runs e v.apart found in
            let taken : retaken w (now + seconds n) e ≡ r = ground arith in
            record {
              run = retaken w (now + seconds n) e;
              found = rw (← taken) (
                  rw
                    (first-update (λ q. q.id == e.id) (λ q. q.id == e.id)
                      (retaken w (now + seconds n)) s.runs (λ q. refl))
                    (rw own (ground arith)));
              guard = inr (now + seconds n, refl, omega arith);
            }

claim_slot-leases :
    (job : Job) (slot now : ℕ) (w : String) (n : ℕ) (s : Tables) (c : ClaimedIdlePreviewRun)
    → IsValid s
    → (claim_slot job slot now w n s).1 ≡ some c
    → Guarded c.run_id (now + seconds n) (claim_slot job slot now w n s).0
unfolding claim_slot
claim_slot-leases job slot now w n s c v = elim (Option-cases (claim_run job slot now w n s).1) [
  | inl e ↦ rw (e, claim_slot) (λ h. cc)
  | inr (r, e) ↦
      rw (e, claim_slot)
        λ h.
          let same : r.id ≡ c.run_id = ground arith in
          rw (← same) (claim_run-leases job slot now w n s r v e)
]

claim_job-leases :
    (o : Option ℕ) (i : ℕ) (job : Job) (now : ℕ) (w : String) (n : ℕ) (s : Tables)
    → IsValid s
    → IsValid (claim_job o job now w n s).0
      × (claims_run i (append_claim (claim_job o job now w n s).1 []) ≡ true
          → Guarded i (now + seconds n) (claim_job o job now w n s).0)
unfolding claim_job
claim_job-leases none i job now w n s v = (v, λ h. cc)
claim_job-leases (some slot) i job now w n s v = (
  claim_slot-IsValid job slot now w n s v,
  elim (Option-cases (claim_slot job slot now w n s).1) [
    | inl e ↦ rw e (λ h. cc)
    | inr (c, e) ↦ rw e λ h.
        let same : c.run_id ≡ i = ground arith in
        rw (← same) (claim_slot-leases job slot now w n s c v e)
  ],
)

claims_append :
    (i : ℕ) (o : Option ClaimedIdlePreviewRun) (cs : List ClaimedIdlePreviewRun)
    → claims_run i (append_claim o cs) ≡ claims_run i (append_claim o []) || claims_run i cs
claims_append i none cs = refl
claims_append i (some c) cs = ground arith

-- Each run that a call claims is leased when the call is over.
claim_all-leases :
    (i now : ℕ) (w : String) (n : ℕ) (js : List Job) (s : Tables)
    → 0 < n
    → IsValid s
    → claims_run i (claim_all now w n js s).1 ≡ true
    → Guarded i (now + seconds n) (claim_all now w n js s).0
unfolding claim_all
claim_all-leases i now w n [] s pos v h = cc
claim_all-leases i now w n (j ∷ js) s pos v h =
    let s' = (claim_job j.next_run_at j now w n s).0 in
    let (valid, leases) = claim_job-leases j.next_run_at i j now w n s v in
    elim (Bool-cases (claims_run i (append_claim (claim_job j.next_run_at j now w n s).1 []))) [
      | inl here ↦
          (claim_all-Guarded i (now + seconds n) now w n (omega arith) js s' valid
            (leases here)).0.1
      | inr later ↦ claim_all-leases i now w n js s' pos valid (
          ground (
            arith,
            claims_append i (claim_job j.next_run_at j now w n s).1 (claim_all now w n js s').1,
          ))
    ]

pub claim_due-leases :
    (i now : ℕ) (w : String) (n : ℕ) (ids locked : ℕ → Bool) (s : Tables)
    → 0 < n
    → IsValid s
    → claims_run i (claim_due now w n ids locked s).1 ≡ true
    → Guarded i (now + seconds n) (claim_due now w n ids locked s).0
unfolding claim_due
claim_due-leases i now w n ids locked s pos v h =
    claim_all-leases i now w n (due_jobs now ids locked s.jobs) s pos v h

pub finish_run-Guarded :
    (i deadline : ℕ) (c : ClaimedIdlePreviewRun) (done next : ℕ) (result : RunResult) (s : Tables)
    → Guarded i deadline s
    → Guarded i deadline (finish_run c done next result s)
finish_run-Guarded i deadline c done next result s g =
    finish_run_cases (Guarded i deadline) c done next result s g λ r found was_open.
      let p : JobRun → Bool = λ q. q.id == c.run_id in
      let moved = first-update (λ q. q.id == i) p (finished result done) s.runs (λ q. refl) in
      record {
        run = if p g.run then finished result done g.run else g.run;
        found = rw moved (rw g.found);
        guard = ground (arith, g.guard);
      }
