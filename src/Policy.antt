-- ===== src/Policy.antt =====
-- rewards.py, boss_optimizer.py, policy/engine.py and policy/store.py: what is planned, and by which policy.
pub mod Fitting
pub mod Rewards
pub mod Professions
pub mod Worlds
pub mod Bosses
pub mod Projections
pub mod Engine
pub mod Versions
mod Tests
