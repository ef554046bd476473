-- ===== src/Tracker.antt =====
-- crates/protocol/src/swap_tracker: the record of every swap that the node has seen, its mutations
-- and its time queries. An operation that fails returns an error and has written nothing. The
-- system time is the argument `now`; SHA-256 and hex are crates, the record `Crypto`.
pub mod Record
pub mod Commit
pub mod Resolve
pub mod Expiry
pub mod History
pub mod Invariant
pub mod Valid
pub mod Stages
pub mod Acceptance
pub mod Lifecycle
pub mod Times
