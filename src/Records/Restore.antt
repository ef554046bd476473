-- ===== src/Records/Restore.antt =====
-- chains/record/restore.rs: every row of the store is read back, or quarantined. The store's rows
-- and its `quarantine` are the SwapStore trait: the rows are an argument, and the calls of
-- `quarantine` come back as a list of the swap, its raw bytes and the error.
use stroemnet.Common.{Option, none, some, List, [], ◌∷◌, ◌++◌, Bytes, bytes_eq}
use stroemnet.Common.Dict.{Dict, insert}
use stroemnet.Records.Swap.{PersistedSwap, RestoredSwaps, nothing_restored}
use stroemnet.Records.Codec.{RecordError, Borsh, DecodeOutcome, current, corrupt, decode}

abbrev pub push_some {ℓ} : {A : Type ℓ} → Option A → List A → List A
push_some none xs = xs
push_some (some a) xs = xs ++ a ∷ []

abbrev pub insert_some {ℓ} : {V : Type ℓ} → Bytes → Option V → Dict Bytes V → Dict Bytes V
insert_some id none m = m
insert_some id (some v) m = insert id v m

unfoldable pub add_record : Bytes → PersistedSwap → RestoredSwaps → RestoredSwaps
add_record id r out = record {
  scripts = insert_some id r.script out.scripts;
  pending_refunds = push_some r.pending_refund out.pending_refunds;
  pending_claims = push_some r.pending_claim out.pending_claims;
  claim_attempts = insert_some id r.claim_attempt out.claim_attempts;
  refund_attempts = insert_some id r.refund_attempt out.refund_attempts;
}

-- A call of SwapStore::quarantine.
pub record Quarantined : Type 0 where
  pub swap_id : Bytes
  pub raw : Bytes
  pub error : RecordError

module _ (borsh : Borsh) where
  unfoldable pub restore_row :
      Bytes
      → Bytes
      → DecodeOutcome
      → RestoredSwaps × List Quarantined
      → RestoredSwaps × List Quarantined
  restore_row id raw (current r) (out, bad) = (add_record id r out, bad)
  restore_row id raw (corrupt e) (out, bad) =
      (out, bad ++ record { swap_id = id; raw = raw; error = e } ∷ [])

  unfoldable pub restore_rows :
      List (Bytes × Bytes) → RestoredSwaps × List Quarantined → RestoredSwaps × List Quarantined
  unfolding restore_row
  restore_rows [] acc = acc
  restore_rows ((id, raw) ∷ rows) acc =
      restore_rows rows (restore_row id raw (decode borsh raw) acc)

  -- `none` is a node without a store.
  unfoldable pub restore : Option (List (Bytes × Bytes)) → RestoredSwaps × List Quarantined
  unfolding restore_rows
  restore none = (nothing_restored, [])
  restore (some rows) = restore_rows rows (nothing_restored, [])
