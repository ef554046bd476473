-- ===== src/Node.antt =====
-- crates/node: the claims that a taker waits to reveal.
pub mod Claims
pub mod Wire
pub mod Proposals
pub mod Signed
pub mod Coordinator
pub mod Forwarded
pub mod Replay
pub mod Taker
pub mod Registered
pub mod Spent
