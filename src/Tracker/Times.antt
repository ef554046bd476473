-- ===== src/Tracker/Times.antt =====
-- About the time queries and the cleanup of swap_tracker/expiry.rs.
use stroemnet.Common.{
  ℕ, ◌-◌, ◌≤◌, ◌<◌, ◌≡◌, ◌≢◌, ◌↔◌, ◌⊎◌, true, Option, none, some, arith, Bytes, bytes_eq,
}
use stroemnet.Tracker.Record.{SwapRecord, SwapTracker, Crypto, get_swap}
use stroemnet.Tracker.Expiry.{
  is_expired, time_until_init_refund, time_until_ctpy_refund, cleanup_old_swaps, keeps,
}
use stroemnet.Tracker.Valid.{IsValid, cleanup-get}

-- The refund that a swap waits for: the counterparty's once that has locked, else the first one.
pub refund_timer : ℕ → SwapTracker → Bytes → Option ℕ
refund_timer now t id = elim (get_swap t id) [
  | none ↦ none
  | some r ↦ elim r.counter_commitment [
    | none ↦ time_until_init_refund now t id
    | some c ↦ time_until_ctpy_refund now t id
  ]
]

-- A swap is expired exactly when the time until the refund that it waits for is 0.
is_expired_iff :
    (now : ℕ) (t : SwapTracker) (id : Bytes)
    → (is_expired now t id ≡ true) ↔ (refund_timer now t id ≡ some 0)
unfolding is_expired refund_timer get_swap time_until_init_refund time_until_ctpy_refund
is_expired_iff now t id = ground arith

-- A cleanup leaves the record of a known swap alone if it is not resolved or is younger than the
-- maximal age, and removes it otherwise. In a valid tracker.
cleanup_old_swaps_lem :
    (k : Crypto) (now age : ℕ) (t : SwapTracker) (id : Bytes) (r : SwapRecord)
    → IsValid k t
    → get_swap t id ≡ some r
    → (((r.resolution ≡ none) ⊎ (now - r.created_at < age))
        × (get_swap (cleanup_old_swaps now t age) id ≡ some r))
      ⊎ ((r.resolution ≢ none)
          × (age ≤ now - r.created_at)
          × (get_swap (cleanup_old_swaps now t age) id ≡ none))
unfolding keeps
cleanup_old_swaps_lem k now age t id r v known = ground (arith, cleanup-get now age t id v.unique)
