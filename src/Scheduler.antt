-- ===== src/Scheduler.antt =====
-- scheduler.py: the rows that the scheduler keeps (also models.py) and the store's operations.
-- The proofs are in the modules below.
pub mod Rows
pub mod Lease
pub mod Runs
pub mod Jobs
pub mod Store
pub mod Tick
pub mod Loop
mod Tests
