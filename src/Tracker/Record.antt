-- ===== src/Tracker/Record.antt =====
-- swap_tracker/mod.rs and error.rs: the state, its errors and the stage of a swap.
use stroemnet.Common.{ℕ, Option, none, some, [], Bytes, codes, ◌==◌, bytes_eq, if◌then◌else◌}
use stroemnet.Common.Dict.{Dict, get}
use stroemnet.Protocol.V1.{CommitmentV1}

pub record SwapRecord : Type 0 where
  pub init_commitment : CommitmentV1
  pub counter_commitment : Option CommitmentV1
  pub resolution : Option Bytes
  pub created_at : ℕ

pub record SwapTracker : Type 0 where
  pub swaps : Dict Bytes SwapRecord

pub data SwapStage : Type 0 where
  initialized locked completed refunded : SwapStage

-- The text of `ValidationFailed`, by the check that wrote it.
pub data Reason : Type 0 where
  swap_id_mismatch receiver_mismatch sender_destination_mismatch secret_hash_differs : Reason
  channel_mismatch : ℕ → ℕ → ℕ → ℕ → Reason

pub data SwapTrackerError : Type 0 where
  duplicate_swap : Bytes → SwapTrackerError
  swap_not_found : Bytes → SwapTrackerError
  already_counter_locked : Bytes → SwapTrackerError
  not_counter_locked : Bytes → SwapTrackerError
  already_resolved : Bytes → SwapTrackerError
  validation_failed : Bytes → Reason → SwapTrackerError
  secret_hash_mismatch : Bytes → SwapTrackerError

-- The crates sha2 and hex.
pub record Crypto : Type 0 where
  pub sha256 : Bytes → Bytes
  pub hex_encode : Bytes → Bytes

-- SwapTracker::new.
unfoldable pub new : SwapTracker
new = record { swaps = [] }

unfoldable pub get_swap : SwapTracker → Bytes → Option SwapRecord
get_swap t swap_id = get swap_id t.swaps

abbrev pub refunded_text : Bytes
refunded_text = codes "refunded"

stage_of : Option Bytes → Option CommitmentV1 → SwapStage
stage_of (some r) c = if r == refunded_text then refunded else completed
stage_of none (some c) = locked
stage_of none none = initialized

unfoldable pub stage : SwapRecord → SwapStage
unfolding stage_of
stage r = stage_of r.resolution r.counter_commitment
