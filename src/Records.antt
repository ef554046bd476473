-- ===== src/Records.antt =====
-- crates/data/src: what a node keeps of its swaps on disk (store.rs, types.rs, chains/record), and
-- how it reads that back after a restart.
pub mod Swap
pub mod Codec
pub mod Restore
pub mod Keeping
