-- ===== src/Tests.antt =====
-- Concrete inputs at which the theorems are applied.
pub mod Data
mod Tracking
mod Money
pub mod Queueing
pub mod Handling
pub mod Disk
pub mod Formats
mod Syncing
pub mod Crates
pub mod Scripts
mod Polls
pub mod Peers
mod Coordinating
mod Blocks
mod Tries
mod Resending
