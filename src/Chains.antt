-- ===== src/Chains.antt =====
-- crates/data/src/chains: what a chain remembers of the swaps that it still has to settle.
pub mod Pending
pub mod Polling
pub mod Evm
pub mod Persisted
pub mod Tracking
pub mod Settle
pub mod Replaced
pub mod Settling
pub mod Resent
pub mod Claimable
pub mod Events
pub mod Synced
pub mod Moves
pub mod Coverage
pub mod Gas
