-- ===== src/Amounts.antt =====
-- crates/amounts: quotes of one chain's coin in another's, and the prices that they use.
pub mod Numbers
pub mod Quote
pub mod Rescale
pub mod Fair
pub mod Success
pub mod Prices
pub mod Breaker
