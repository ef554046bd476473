-- ===== src/Protocol.antt =====
-- crates/protocol/src: the channels, the messages of version 1 and the chain clock.
pub mod Channel
pub mod V1
pub mod Clock
