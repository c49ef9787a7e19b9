-- ===== src/Scheduler/Store.antt =====
-- The operations of PostgresIdlePreviewStore as steps on the tables (scheduler.py). Each runs in a
-- transaction of its own, so any number of workers is a sequence of calls.
pub mod Slots
pub mod Kept
use placegame_mcp.Prelude.{ℕ, Bool, List, [], ◌∷◌, String}
use placegame_mcp.Scheduler.Rows.{RunResult, Tables}
use placegame_mcp.Scheduler.Lease.{acquire_lease, release_lease}
use placegame_mcp.Scheduler.Runs.{ClaimedIdlePreviewRun, claim_due, finish_run}
use placegame_mcp.Scheduler.Jobs.{SchedulerAccount, ensure_jobs}

pub data StoreCall : Type 0 where
  acquires : String → ℕ → ℕ → StoreCall
  ensures : List SchedulerAccount → ℕ → ℕ → StoreCall
  claims : ℕ → String → ℕ → (ℕ → Bool) → (ℕ → Bool) → StoreCall
  finishes : ClaimedIdlePreviewRun → ℕ → ℕ → RunResult → StoreCall
  releases : String → StoreCall

unfoldable pub call : StoreCall → Tables → Tables
call (acquires w now n) s = (acquire_lease w now n s).0
call (ensures accounts now n) s = ensure_jobs accounts now n s
call (claims now w n ids locked) s = (claim_due now w n ids locked s).0
call (finishes c done next result) s = finish_run c done next result s
call (releases w) s = release_lease w s

unfoldable pub calls : List StoreCall → Tables → Tables
calls [] s = s
calls (c ∷ cs) s = calls cs (call c s)
