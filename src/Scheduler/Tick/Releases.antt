-- ===== src/Scheduler/Tick/Releases.antt =====
-- How a tick gives up the lease (`tick` of IdlePreviewScheduler, scheduler.py).
use placegame_mcp.Errors.{Error, Result, ok, raised}
use placegame_mcp.Prelude.{
  ℕ, ◌≡◌, ◌≢◌, refl, sym, subst, arith, true, false, none, some, String, str_eq_iff,
}
use placegame_mcp.Scheduler.Rows.{SchedulerLease, Tables}
use placegame_mcp.Scheduler.Lease.{acquire_lease, release_lease}
use placegame_mcp.Scheduler.Store.{calls}
use placegame_mcp.Scheduler.Tick.{
  IdlePreviewScheduler, World, acquiring, releasing, tick_body, tick_release, tick_open, tick,
}

-- What a worker leaves of the lease: it owns none, and one that it has lost to another worker is as
-- that worker has it.
pub record Released (w : String) (before after : Tables) : Type 0 where
  pub free : (l : SchedulerLease) → after.lease ≡ some l → l.owner ≢ some w
  pub given_up :
      (l : SchedulerLease)
      → before.lease ≡ some l
      → l.owner ≡ some w
      → after.lease ≡ some (record l { owner = none; lease_expires_at = none })
  pub kept :
      (l : SchedulerLease) (o : String)
      → before.lease ≡ some l
      → l.owner ≡ some o
      → o ≢ w
      → after.lease ≡ some l
  pub jobs : after.jobs ≡ before.jobs
  pub runs : after.runs ≡ before.runs

release-free :
    (w : String) (s : Tables) (l : SchedulerLease)
    → (release_lease w s).lease ≡ some l
    → l.owner ≢ some w
unfolding release_lease
release-free w s l h own = ground (arith, str_eq_iff w w)

release-given_up :
    (w : String) (s : Tables) (l : SchedulerLease)
    → s.lease ≡ some l
    → l.owner ≡ some w
    → (release_lease w s).lease ≡ some (record l { owner = none; lease_expires_at = none })
unfolding release_lease
release-given_up w s l h own = ground (arith, str_eq_iff w w)

release-kept :
    (w : String) (s : Tables) (l : SchedulerLease) (o : String)
    → s.lease ≡ some l
    → l.owner ≡ some o
    → o ≢ w
    → (release_lease w s).lease ≡ some l
unfolding release_lease
release-kept w s l o h own other = ground (arith, str_eq_iff o w)

release_lease-Released : (w : String) (s : Tables) → Released w s (release_lease w s)
unfolding release_lease
release_lease-Released w s = record {
  free = release-free w s;
  given_up = release-given_up w s;
  kept = release-kept w s;
  jobs = ground arith;
  runs = ground arith;
}

refused_tables :
    (w : String) (now n : ℕ) (s : Tables)
    → ((acquire_lease w now n s).0.jobs ≡ s.jobs) × ((acquire_lease w now n s).0.runs ≡ s.runs)
unfolding acquire_lease
refused_tables w now n s = ground arith

-- How a tick ends that got the lease: `body` is what the body of its `try` leaves.
pub record Ends (scheduler : IdlePreviewScheduler) (world : World) (body out : Tables × Result ℕ)
    : Type 0 where
  pub released :
      world.fault releasing ≡ none
      → Released scheduler.worker_id (calls (world.others releasing) body.0) out.0
        × (out.1 ≡ body.1)
  pub failed :
      (e : Error)
      → world.fault releasing ≡ some e
      → out ≡ (calls (world.others releasing) body.0, raised e)
  pub unlisted :
      (e : Error) → world.list_accounts ≡ raised e → world.fault releasing ≡ none → out.1 ≡ raised e

tick_release-Ends :
    (scheduler : IdlePreviewScheduler) (world : World) (now : ℕ) (s : Tables)
    → let body = tick_body world.list_accounts scheduler world now s in
      Ends scheduler world body (tick_release scheduler world body)
unfolding tick_release tick_body
tick_release-Ends scheduler world now s = record {
  released = λ f.
      rw (f, tick_release)
        (
          release_lease-Released scheduler.worker_id (
              calls (world.others releasing)
                (tick_body world.list_accounts scheduler world now s).0),
          refl,
        );
  failed = λ e f. rw (f, tick_release) refl;
  unlisted = λ e l f.
      let raises : (tick_body world.list_accounts scheduler world now s).1 ≡ raised e = simp l in
      rw (f, tick_release) raises;
}

-- What a tick does that gets the lease.
pub tick_acquired :
    (scheduler : IdlePreviewScheduler) (world : World) (now : ℕ) (s : Tables)
    → let out =
        acquire_lease scheduler.worker_id now scheduler.lease_seconds
          (calls (world.others acquiring) s) in
      scheduler.closed ≡ false
      → world.fault acquiring ≡ none
      → out.1 ≡ true
      → tick scheduler world now s
        ≡ tick_release scheduler world (tick_body world.list_accounts scheduler world now out.0)
unfolding tick tick_open
tick_acquired scheduler world now s c f a = simp c (rw (f, a, tick_open) refl)

-- A tick that acquires the lease runs its body and releases the lease on every way out of it, also
-- when the account service or a transaction raises, whatever other workers do between its
-- transactions: if the release goes through, the worker owns no lease afterwards, a lease that it
-- lost to another worker stays with that one, and the tick returns or raises what its body did; if
-- the release raises, the tick raises that error. A scheduler that is closed changes nothing, one
-- that is refused changes no job and no run, both report no run, and an acquisition that raises
-- changes nothing.
pub tick-releases :
    (scheduler : IdlePreviewScheduler) (world : World) (now : ℕ) (s : Tables)
    → let w = scheduler.worker_id in
      let out = tick scheduler world now s in
      let begun = calls (world.others acquiring) s in
      let (taken, acquired) = acquire_lease w now scheduler.lease_seconds begun in
      (scheduler.closed ≡ true → out ≡ (s, ok 0))
      × (scheduler.closed ≡ false
          → (e : Error) → world.fault acquiring ≡ some e
          → out ≡ (begun, raised e))
      × (scheduler.closed ≡ false
          → world.fault acquiring ≡ none
          → acquired ≡ false
          → (out.0.jobs ≡ begun.jobs) × (out.0.runs ≡ begun.runs) × (out.1 ≡ ok 0))
      × (scheduler.closed ≡ false
          → world.fault acquiring ≡ none
          → acquired ≡ true
          → Ends scheduler world (tick_body world.list_accounts scheduler world now taken) out)
unfolding tick tick_open
tick-releases scheduler world now s = (
  λ c. simp c,
  λ c e f. rw (c, f, tick_open) refl,
  λ c f a.
      rw (c, f, a, tick_open)
        (let same =
            refused_tables scheduler.worker_id now scheduler.lease_seconds
              (calls (world.others acquiring) s) in
          (same.0, same.1, refl)),
  λ c f a.
      subst
        (Ends scheduler world (
          tick_body world.list_accounts scheduler world now
            (acquire_lease scheduler.worker_id now scheduler.lease_seconds
              (calls (world.others acquiring) s)).0))
        (sym (tick_acquired scheduler world now s c f a)) (tick_release-Ends scheduler world now _),
)
