-- ===== src/Tracker/Commit.antt =====
-- swap_tracker/commit.rs: the two commitments of a swap.
use stroemnet.Common.{
  ℕ, ◌||◌, not, none, some, Bytes, ◌==◌, bytes_eq, nat_eq, Result, ok, ok_or, fail_if, ◌>>=◌, ◌>>◌,
  is_some,
}
use stroemnet.Common.Dict.{get, insert, update}
use stroemnet.Protocol.V1.{CommitmentV1}
use stroemnet.Tracker.Record.{
  SwapRecord, SwapTracker, SwapTrackerError, duplicate_swap, swap_not_found, already_counter_locked,
  already_resolved, validation_failed, swap_id_mismatch, receiver_mismatch,
  sender_destination_mismatch, secret_hash_differs, channel_mismatch,
}

unfoldable pub set_init_commitment :
    ℕ → SwapTracker → Bytes → CommitmentV1 → Result SwapTrackerError SwapTracker
set_init_commitment now t swap_id commitment = do
  fail_if (is_some (get swap_id t.swaps)) (duplicate_swap swap_id)
  ok (record { swaps = insert swap_id fresh t.swaps })
  where
    fresh : SwapRecord
    fresh = record {
      init_commitment = commitment;
      counter_commitment = none;
      resolution = none;
      created_at = now;
    }

-- The checks of a counter commitment against the first one.
unfoldable pub validate_counter :
    Bytes → CommitmentV1 → CommitmentV1 → Result SwapTrackerError (Unit {0})
validate_counter swap_id init c = do
  fail_if (not (init.swap_id == c.swap_id)) (validation_failed swap_id swap_id_mismatch)
  fail_if (not (init.addresses.sender_destination == c.addresses.receiver))
      (validation_failed swap_id receiver_mismatch)
  fail_if (not (init.addresses.receiver == c.addresses.sender_destination))
      (validation_failed swap_id sender_destination_mismatch)
  fail_if (not (init.secret_hash == c.secret_hash)) (validation_failed swap_id secret_hash_differs)
  fail_if (not (init.source == c.destination) || not (init.destination == c.source)) (
      validation_failed swap_id
        (channel_mismatch init.source init.destination c.source c.destination))

unfoldable pub set_counter_commitment :
    SwapTracker → Bytes → CommitmentV1 → Result SwapTrackerError SwapTracker
set_counter_commitment t swap_id commitment = do
  r ← ok_or (get swap_id t.swaps) (swap_not_found swap_id)
  fail_if (is_some r.counter_commitment) (already_counter_locked swap_id)
  fail_if (is_some r.resolution) (already_resolved swap_id)
  validate_counter swap_id r.init_commitment commitment
  ok (record {
    swaps = update swap_id (λ s. record s { counter_commitment = some commitment }) t.swaps;
  })
