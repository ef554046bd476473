-- ===== src/Kaspa.antt =====
-- crates/data/src/chains/kaspa: the HTLC script, what is read back from it, and the scan of blocks.
pub mod Script
pub mod Layout
pub mod Ops
pub mod Extract
pub mod Restored
pub mod Announce
pub mod Accepted
pub mod Spend
pub mod Scan
pub mod Funded
pub mod Emitted
pub mod Recognised
pub mod Payout
pub mod Spending
pub mod Funding
pub mod Intake
pub mod Confirmed
pub mod Unsent
pub mod Polled
pub mod Buffer
pub mod Events
pub mod Settle
pub mod Outcomes
pub mod Scheduled
pub mod Attempted
pub mod Pushed
pub mod Moves
pub mod Settled
