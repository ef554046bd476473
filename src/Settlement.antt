-- ===== src/Settlement.antt =====
-- crates/data/src/chains/settlement and record/attempt.rs: the retry queue of claims and refunds,
-- the loop that drives it and the reconciliation at boot.
pub mod Attempt
pub mod Queue
pub mod Settler
pub mod Engine
pub mod Backoff
pub mod Schedule
pub mod Seeding
pub mod Driving
pub mod Pass
