-- ===== src/Plans.antt =====
-- policy/plans.py: the actions, decisions and plans, and the store of plans.
pub mod Rows
pub mod Canonical
pub mod Store
mod Tests
