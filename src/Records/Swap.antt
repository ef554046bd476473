-- ===== src/Records/Swap.antt =====
-- types.rs, store.rs and chains/record/restore.rs: the data of the swap records.
use stroemnet.Common.{ℕ, Bool, ◌&&◌, Option, List, [], Bytes, is_none}
use stroemnet.Common.Dict.{Dict}
use stroemnet.Protocol.V1.{RevealV1, RefundV1}
use stroemnet.Settlement.Attempt.{AttemptState}

pub record UtxoScript : Type 0 where
  pub redeem_script : Bytes
  pub unlock_ts : ℕ
  pub deposit_target : Bytes

pub record PersistedSwap : Type 0 where
  pub script : Option UtxoScript
  pub pending_refund : Option (RefundV1 × ℕ)
  pub pending_claim : Option RevealV1
  pub claim_attempt : Option AttemptState
  pub refund_attempt : Option AttemptState

unfoldable pub is_empty : PersistedSwap → Bool
is_empty p =
    is_none p.script
    && is_none p.pending_refund
    && is_none p.pending_claim
    && is_none p.claim_attempt
    && is_none p.refund_attempt

pub record RestoredSwaps : Type 0 where
  pub scripts : Dict Bytes UtxoScript
  pub pending_refunds : List (RefundV1 × ℕ)
  pub pending_claims : List RevealV1
  pub claim_attempts : Dict Bytes AttemptState
  pub refund_attempts : Dict Bytes AttemptState

-- The derived Default.
abbrev pub nothing_restored : RestoredSwaps
nothing_restored = record {
  scripts = [];
  pending_refunds = [];
  pending_claims = [];
  claim_attempts = [];
  refund_attempts = [];
}
