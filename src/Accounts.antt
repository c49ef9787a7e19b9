-- ===== src/Accounts.antt =====
-- accounts/service.py with accounts/repository.py: the managed accounts of the game, their sessions
-- and their mutations.
pub mod Rows
pub mod Session
pub mod Lifecycle
pub mod Enrolment
pub mod Secrets
pub mod Snapshots
pub mod Mutation
pub mod Registry
mod Tests
