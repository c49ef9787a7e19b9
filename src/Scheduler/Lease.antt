-- ===== src/Scheduler/Lease.antt =====
-- `acquire_lease` and `release_lease` of PostgresIdlePreviewStore (scheduler.py).
pub mod Exclusion
use placegame_mcp.Prelude.{
  ℕ, ◌+◌, Bool, true, false, not, ◌&&◌, Option, none, some, ltb, is_some_and, if◌then◌else◌, String,
  str_eq,
}
use placegame_mcp.Scheduler.Rows.{SchedulerLease, Tables, seconds}

-- `insert ... on conflict do nothing`: the table has one row at most, by its check on the name.
insert_lease : ℕ → Option SchedulerLease → Option SchedulerLease
insert_lease now none = some (record { owner = none; lease_expires_at = none; updated_at = now })
insert_lease now (some l) = some l

held_by_other : SchedulerLease → String → ℕ → Bool
held_by_other l worker_id now =
    is_some_and (λ o. not (str_eq o worker_id)) l.owner
    && is_some_and (λ t. ltb now t) l.lease_expires_at

-- The new tables, and whether the worker has the lease.
unfoldable pub acquire_lease : String → ℕ → ℕ → Tables → Tables × Bool
unfolding insert_lease held_by_other
acquire_lease worker_id now lease_seconds s = elim (insert_lease now s.lease) [
  | none ↦ (record s { lease = none }, false)
  | some l ↦ if held_by_other l worker_id now then (record s { lease = some l }, false) else (
    record s {
      lease = some (record {
        owner = some worker_id;
        lease_expires_at = some (now + seconds lease_seconds);
        updated_at = now;
      });
    },
    true,
  )
]

unfoldable pub release_lease : String → Tables → Tables
release_lease worker_id s = elim s.lease [
  | none ↦ s
  | some l ↦
      if is_some_and (λ o. str_eq o worker_id) l.owner
      then record s { lease = some (record l { owner = none; lease_expires_at = none }) }
      else s
]
