-- ===== src/Settlement/Engine.antt =====
-- settlement/engine.rs and reconcile.rs: one pass over the keys that are due, and the pass at boot.
use stroemnet.Common.{
  ℕ, Bool, true, false, Option, none, some, List, [], ◌∷◌, ◌++◌, if◌then◌else◌, length,
}
use stroemnet.Settlement.Queue.{ActionKey}
use stroemnet.Settlement.Settler.{
  Settler, SettleOutcome, retry, fatal, Observation, settled, Metric, retried, fatal_error,
  deadline_exceeded, reconciled, Report, incr, queue_depth,
}

abbrev pub is_settled : Observation → Bool
is_settled settled = true
is_settled _ = false

module _ {S : Type 0} (settler : Settler S) where
  open settler use {due_now, settle, observe, record_success, record_failure, is_stuck}

  -- A timeout counts as a retry.
  unfoldable pub outcome_metric : Option SettleOutcome → Metric
  outcome_metric none = retried
  outcome_metric (some (retry reason)) = retried
  outcome_metric (some (fatal e)) = fatal_error

  unfoldable pub attempt : S → ActionKey → ℕ → S × List Report
  unfolding outcome_metric
  attempt s key now =
      let (s', outcome) = settle s key in
      (record_failure s' key now, incr (outcome_metric outcome) ∷ [])

  unfoldable pub drive_key : S → ActionKey → ℕ → S × List Report
  unfolding attempt
  drive_key s key now =
      if is_stuck s key now
      then (if is_settled (observe s key)
          then (record_success s key, incr deadline_exceeded ∷ incr reconciled ∷ [])
          else ((attempt s key now).0, incr deadline_exceeded ∷ (attempt s key now).1))
      else attempt s key now

  unfoldable pub drive_keys : S → List ActionKey → ℕ → S × List Report
  drive_keys s [] now = (s, [])
  drive_keys s (k ∷ ks) now =
      let (s', log) = drive_key s k now in
      let (s'', rest) = drive_keys s' ks now in (s'', log ++ rest)

  unfoldable pub drive : S → ℕ → S × List Report
  drive s now =
      let (s', log) = drive_keys s (due_now s now) now in
      (s', log ++ queue_depth (length (due_now s' now)) ∷ [])

  unfoldable pub reconcile_key : S → ActionKey → S × List Report
  reconcile_key s key =
      if is_settled (observe s key) then (record_success s key, incr reconciled ∷ []) else (s, [])

  unfoldable pub reconcile : S → List ActionKey → S × List Report
  reconcile s [] = (s, [])
  reconcile s (k ∷ ks) =
      let (s', log) = reconcile_key s k in let (s'', rest) = reconcile s' ks in (s'', log ++ rest)

  unfoldable pub reconcile_on_boot : S → ℕ → S × List Report
  reconcile_on_boot s now = reconcile s (due_now s now)
