-- ===== src/Settlement/Settler.antt =====
-- settlement/settler.rs and metrics.rs: what the engine asks of a chain. A method returns the new
-- state of the chain's buffer. `settle` and `observe` talk to the network: `settle` returns `none`
-- where the caller's timeout has passed.
use stroemnet.Common.{ℕ, Bool, Option, List, Bytes}
use stroemnet.Settlement.Queue.{ActionKey}

pub data SettleOutcome : Type 0 where
  retry : Bytes → SettleOutcome
  fatal : Bytes → SettleOutcome

pub data Observation : Type 0 where
  settled not_settled unknown : Observation

pub data Metric : Type 0 where
  retried fatal_error deadline_exceeded reconciled : Metric

-- The calls of SettlementMetrics, in their order.
pub data Report : Type 0 where
  incr : Metric → Report
  queue_depth : ℕ → Report

pub record Settler (S : Type 0) : Type 0 where
  pub due_now : S → ℕ → List ActionKey
  pub settle : S → ActionKey → S × Option SettleOutcome
  pub observe : S → ActionKey → Observation
  pub record_success : S → ActionKey → S
  pub record_failure : S → ActionKey → ℕ → S
  pub is_stuck : S → ActionKey → ℕ → Bool
