-- ===== src/Network.antt =====
-- crates/p2p: the filter of gossip, the relay of messages and the digest that a proposal is signed by.
pub mod Seen
pub mod Relay
pub mod Digest
pub mod Framing
pub mod Window
pub mod Gossip
pub mod Recent
