-- ===== src/Idle.antt =====
-- application/idle.py: the planner, the preview, the claims on plans and the execution of a claim.
pub mod Planner
pub mod Previews
pub mod Claims
pub mod Execute
mod Tests
