-- ===== src/Scheduler/Lease/Exclusion.antt =====
-- One worker at a time has the lease of the scheduler.
use placegame_mcp.Prelude.{
  ℕ, ◌+◌, ◌≤◌, ◌<◌, ◌≡◌, ◌≢◌, arith, true, false, Option, some, List, [], ◌∷◌, String, str_eq,
  str_eq_iff, All, Bool-cases, inl, inr,
}
use placegame_mcp.Scheduler.Rows.{SchedulerLease, Tables, seconds}
use placegame_mcp.Scheduler.Lease.{acquire_lease, release_lease}

pub data LeaseCall : Type 0 where
  acquires : String → ℕ → ℕ → LeaseCall
  releases : String → LeaseCall

pub after : LeaseCall → Tables → Tables
after (acquires v now lease_seconds) s = (acquire_lease v now lease_seconds s).0
after (releases v) s = release_lease v s

pub run_calls : List LeaseCall → Tables → Tables
run_calls [] s = s
run_calls (c ∷ cs) s = run_calls cs (after c s)

-- The lease row is `w`'s, at least until `deadline`.
pub record Holds (w : String) (deadline : ℕ) (l : Option SchedulerLease) : Type 0 where
  row : SchedulerLease
  present : l ≡ some row
  owned : row.owner ≡ some w
  expiry : ℕ
  expires : row.lease_expires_at ≡ some expiry
  lasts : deadline ≤ expiry

-- A call before `deadline` that does not give `w`'s lease up: of another worker, or a renewal.
abbrev pub Keeps : String → ℕ → LeaseCall → Type 0
Keeps w deadline (acquires v now n) = (now < deadline) × (v ≡ w → deadline ≤ now + seconds n)
Keeps w deadline (releases v) = v ≢ w

acquire-Holds :
    (w : String) (now n : ℕ) (s : Tables)
    → (acquire_lease w now n s).1 ≡ true
    → Holds w (now + seconds n) (acquire_lease w now n s).0.lease
unfolding acquire_lease
acquire-Holds w now n s h = record {
  row = record { owner = some w; lease_expires_at = some (now + seconds n); updated_at = now };
  present = ground arith;
  owned = ground arith;
  expiry = now + seconds n;
  expires = ground arith;
  lasts = omega arith;
}

refused :
    (w v : String) (deadline now n : ℕ) (s : Tables)
    → v ≢ w
    → now < deadline
    → Holds w deadline s.lease
    → (acquire_lease v now n s).1 ≡ false
unfolding acquire_lease
refused w v deadline now n s other before h =
    ground (arith, h.present, h.owned, h.expires, h.lasts, str_eq_iff w v)

granted :
    (w : String) (deadline now n : ℕ) (s : Tables)
    → Holds w deadline s.lease
    → (acquire_lease w now n s).1 ≡ true
unfolding acquire_lease
granted w deadline now n s h = ground (arith, h.present, h.owned, h.expires, str_eq_iff w w)

-- A refused worker leaves the lease as it was.
acquire-refused :
    (v : String) (now n : ℕ) (s : Tables) (l : SchedulerLease)
    → s.lease ≡ some l
    → (acquire_lease v now n s).1 ≡ false
    → (acquire_lease v now n s).0.lease ≡ some l
unfolding acquire_lease
acquire-refused v now n s l e h = ground arith

acquire-Keeps :
    (w v : String) (deadline now n : ℕ) (s : Tables)
    → now < deadline
    → (v ≡ w → deadline ≤ now + seconds n)
    → Holds w deadline s.lease
    → Holds w deadline (acquire_lease v now n s).0.lease
acquire-Keeps w v deadline now n s before renews h = elim (Bool-cases (str_eq v w)) [
  | inl same ↦
      let e : v ≡ w = (str_eq_iff v w).0 same in
      let r : Holds v (now + seconds n) (acquire_lease v now n s).0.lease =
        acquire-Holds v now n s (rw e (granted w deadline now n s h)) in
      record {
        row = r.row;
        present = r.present;
        owned = rw r.owned (rw e);
        expiry = r.expiry;
        expires = r.expires;
        lasts = omega (arith, renews e, r.lasts);
      }
  | inr differs ↦ record {
    row = h.row;
    present =
        acquire-refused v now n s h.row h.present
          (refused w v deadline now n s (ground (arith, str_eq_iff v w)) before h);
    owned = h.owned;
    expiry = h.expiry;
    expires = h.expires;
    lasts = h.lasts;
  }
]

release-Keeps :
    (w v : String) (deadline : ℕ) (s : Tables)
    → v ≢ w
    → Holds w deadline s.lease
    → Holds w deadline (release_lease v s).lease
unfolding release_lease
release-Keeps w v deadline s other h = record {
  row = h.row;
  present = ground (arith, h.present, h.owned, str_eq_iff w v);
  owned = h.owned;
  expiry = h.expiry;
  expires = h.expires;
  lasts = h.lasts;
}

after-Keeps :
    (w : String) (deadline : ℕ) (c : LeaseCall) (s : Tables)
    → Keeps w deadline c
    → Holds w deadline s.lease
    → Holds w deadline (after c s).lease
unfolding after
after-Keeps w deadline (acquires v now n) s k h = acquire-Keeps w v deadline now n s k.0 k.1 h
after-Keeps w deadline (releases v) s k h = release-Keeps w v deadline s k h

run_calls-Keeps :
    (w : String) (deadline : ℕ) (cs : List LeaseCall) (s : Tables)
    → All (Keeps w deadline) cs
    → Holds w deadline s.lease
    → Holds w deadline (run_calls cs s).lease
unfolding run_calls
run_calls-Keeps w deadline [] s k h = h
run_calls-Keeps w deadline (c ∷ cs) s k h =
    run_calls-Keeps w deadline cs (after c s) k.1 (after-Keeps w deadline c s k.0 h)

-- Once a worker has acquired the lease for `n` seconds, every other worker is refused before those
-- seconds are over, whatever acquisitions and releases come between, so long as the holder itself
-- neither releases the lease nor renews it for a time that ends earlier.
pub acquire_lease_exclusive :
    (w v : String) (now n later m : ℕ) (cs : List LeaseCall) (s : Tables)
    → (acquire_lease w now n s).1 ≡ true
    → All (Keeps w (now + seconds n)) cs
    → v ≢ w
    → later < now + seconds n
    → (acquire_lease v later m (run_calls cs (acquire_lease w now n s).0)).1 ≡ false
acquire_lease_exclusive w v now n later m cs s won kept other before =
    refused w v (now + seconds n) later m (run_calls cs (acquire_lease w now n s).0) other before (
      run_calls-Keeps w (now + seconds n) cs (acquire_lease w now n s).0 kept
        (acquire-Holds w now n s won))

-- The lease is free again: a worker that had acquired it for `n` seconds keeps no other worker out
-- once it has released it, nor, if it never does, from the moment at which those seconds are over.
pub acquire_lease_available :
    (w v : String) (now n later m : ℕ) (s : Tables)
    → (acquire_lease w now n s).1 ≡ true
    → ((acquire_lease v later m (release_lease w (acquire_lease w now n s).0)).1 ≡ true)
      × (now + seconds n ≤ later → (acquire_lease v later m (acquire_lease w now n s).0).1 ≡ true)
unfolding acquire_lease release_lease
acquire_lease_available w v now n later m s won = ground (arith, str_eq_iff w w, str_eq_iff w v)
