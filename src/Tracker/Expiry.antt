-- ===== src/Tracker/Expiry.antt =====
-- swap_tracker/expiry.rs: time queries and the removal of old swaps.
use stroemnet.Common.{
  ℕ, ◌-◌, Bool, true, false, Option, none, some, Bytes, bytes_eq, leb, ltb, if◌then◌else◌, is_some,
}
use stroemnet.Common.Dict.{get, retain}
use stroemnet.Tracker.Record.{SwapRecord, SwapTracker}

expired_record : ℕ → SwapRecord → Bool
expired_record now r = if is_some r.resolution then false else elim r.counter_commitment [
  | some counter ↦ leb counter.unlock_ts now
  | none ↦ leb r.init_commitment.unlock_ts now
]

unfoldable pub is_expired : ℕ → SwapTracker → Bytes → Bool
unfolding expired_record
is_expired now t swap_id = elim (get swap_id t.swaps) [
  | some r ↦ expired_record now r
  | none ↦ false
]

-- `-` stops at 0, as saturating_sub does.
unfoldable pub time_until_init_refund : ℕ → SwapTracker → Bytes → Option ℕ
time_until_init_refund now t swap_id = elim (get swap_id t.swaps) [
  | none ↦ none
  | some r ↦ if is_some r.resolution then none else some (r.init_commitment.unlock_ts - now)
]

ctpy_refund : ℕ → SwapRecord → Option ℕ
ctpy_refund now r =
    if is_some r.resolution
    then none
    else elim r.counter_commitment [ none ↦ none | some c ↦ some (c.unlock_ts - now) ]

unfoldable pub time_until_ctpy_refund : ℕ → SwapTracker → Bytes → Option ℕ
unfolding ctpy_refund
time_until_ctpy_refund now t swap_id = elim (get swap_id t.swaps) [
  | none ↦ none
  | some r ↦ ctpy_refund now r
]

unfoldable pub keeps : ℕ → ℕ → SwapRecord → Bool
keeps now max_age_secs r =
    if is_some r.resolution then ltb (now - r.created_at) max_age_secs else true

unfoldable pub cleanup_old_swaps : ℕ → SwapTracker → ℕ → SwapTracker
cleanup_old_swaps now t max_age_secs = record { swaps = retain (keeps now max_age_secs) t.swaps }
