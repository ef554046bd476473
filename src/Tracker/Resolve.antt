-- ===== src/Tracker/Resolve.antt =====
-- swap_tracker/resolve.rs: how a locked swap ends.
use stroemnet.Common.{
  not, some, Bytes, ◌==◌, bytes_eq, Result, ok, ok_or, fail_if, ◌>>=◌, ◌>>◌, is_some, is_none,
}
use stroemnet.Common.Dict.{get, update}
use stroemnet.Tracker.Record.{
  SwapRecord, SwapTracker, SwapTrackerError, Crypto, refunded_text, swap_not_found,
  not_counter_locked, already_resolved, secret_hash_mismatch,
}

-- The record itself; the caller writes to it by `update`.
unfoldable pub locked_unresolved : SwapTracker → Bytes → Result SwapTrackerError SwapRecord
locked_unresolved t swap_id = do
  r ← ok_or (get swap_id t.swaps) (swap_not_found swap_id)
  fail_if (is_none r.counter_commitment) (not_counter_locked swap_id)
  fail_if (is_some r.resolution) (already_resolved swap_id)
  ok r

resolve : Bytes → Bytes → SwapTracker → SwapTracker
resolve swap_id text t = record {
  swaps = update swap_id (λ s. record s { resolution = some text }) t.swaps;
}

unfoldable pub set_revealed :
    Crypto → SwapTracker → Bytes → Bytes → Result SwapTrackerError SwapTracker
unfolding locked_unresolved resolve
set_revealed c t swap_id secret = do
  r ← locked_unresolved t swap_id
  counter ← ok_or r.counter_commitment (not_counter_locked swap_id)
  fail_if (not (c.sha256 secret == counter.secret_hash)) (secret_hash_mismatch swap_id)
  ok (resolve swap_id (c.hex_encode secret) t)

unfoldable pub set_refunded : SwapTracker → Bytes → Result SwapTrackerError SwapTracker
unfolding locked_unresolved resolve
set_refunded t swap_id = do r ← locked_unresolved t swap_id; ok (resolve swap_id refunded_text t)
