-- ===== src/Handler.antt =====
-- crates/handler: what a node does on a swap request and on each event of a chain.
pub mod Config
pub mod Quoting
pub mod Mirror
pub mod Dispatch
pub mod Built
pub mod Timelock
pub mod Addresses
pub mod Addressed
pub mod Effects
pub mod Replay
