-- ===== src/Chains/Evm.antt =====
-- chains/evm/mod.rs, persist.rs, settler.rs and reconcile.rs: the buffer of an EVM chain and its copy on
-- disk. The locks are held for one call each, and the fields of EvmState stand among those of Evm.
use stroemnet.Common.{
  ℕ, ◌+◌, Bool, true, false, not, Option, none, some, List, [], ◌∷◌, Bytes, bytes_eq, ok, err,
  if◌then◌else◌, find, retain,
}
use stroemnet.Common.Dict.{Dict, insert, remove}
use stroemnet.Protocol.Channel.{ChannelId}
use stroemnet.Protocol.V1.{RevealV1, RefundV1, ChainEvent, commitment}
use stroemnet.Records.Swap.{PersistedSwap, is_empty}
use stroemnet.Records.Codec.{Borsh, encode}
use stroemnet.Settlement.Queue.{
  Action, claim, refund, ActionKey, claim_key, refund_key, RetryQueue, attempt, ensure,
}
use stroemnet.Settlement.Queue
use stroemnet.Settlement.Settler.{Observation, settled, not_settled, unknown}
use stroemnet.Chains.Polling.{PollState}
use stroemnet.Chains.Pending.{is_refund_of, is_claim_of, queue_dequeue_refund_event, event_swap_id}

-- The rows of the channel in the SwapStore, where the node has one.
abbrev pub Rows : Type 0
Rows = Option (Dict Bytes Bytes)

-- Of the two providers there is whether the node has the signed one; the stored cursor is the number.
pub record Evm : Type 0 where
  pub channel_id : ChannelId
  pub minimum_block_confirmations : ℕ
  pub poll_interval_secs : ℕ
  pub max_blocks_per_poll : ℕ
  pub participate_ccr : Bool
  pub private_key : Option Bytes
  pub signed_provider : Bool
  pub poll : PollState
  pub pending_refunds : List (RefundV1 × ℕ)
  pub pending_claims : List RevealV1
  pub next_poll_secs : ℕ
  pub last_block_ts : Option (ℕ × ℕ)
  pub cursor_store : Option (Option ℕ)
  pub swap_store : Rows
  pub queue : RetryQueue

byte_sum : Bytes → ℕ
byte_sum [] = 0
byte_sum (b ∷ bs) = b + byte_sum bs

unfoldable pub jitter : ActionKey → ℕ
unfolding byte_sum
jitter key = byte_sum key.swap_id

unfoldable pub observation_from : Bool → Bool → Observation
observation_from finalized initialized =
    if finalized then settled else (if initialized then not_settled else unknown)

-- The record that persist_swap builds.
unfoldable pub swap_record : Evm → Bytes → PersistedSwap
swap_record st swap_id = record {
  script = none;
  pending_refund = find (is_refund_of swap_id) st.pending_refunds;
  pending_claim = find (is_claim_of swap_id) st.pending_claims;
  claim_attempt = attempt st.queue (claim_key swap_id);
  refund_attempt = attempt st.queue (refund_key swap_id);
}

abbrev pub is_commitment : ChainEvent → Bool
is_commitment (commitment c) = true
is_commitment _ = false

-- track_actionable_event, but for its last line.
unfoldable pub tracked : ℕ → ChainEvent → Evm → Evm
tracked now event st =
    let id = event_swap_id event in
    let refunds = queue_dequeue_refund_event st.pending_refunds event st.participate_ccr in
    if is_commitment event
    then record st {
      pending_refunds = refunds;
      queue = if st.participate_ccr then ensure (refund_key id) now st.queue else st.queue;
    }
    else record st {
      pending_refunds = refunds;
      pending_claims = retain (λ c. not (is_claim_of id c)) st.pending_claims;
      queue = Queue.record_success (refund_key id) (Queue.record_success (claim_key id) st.queue);
    }

module _ (borsh : Borsh) where
  -- The row is deleted if nothing is left of the swap. A failed encoding leaves it as it is.
  unfoldable pub save_row : Bytes → PersistedSwap → Dict Bytes Bytes → Dict Bytes Bytes
  save_row swap_id swap rows =
      if is_empty swap
      then remove swap_id rows
      else elim (encode borsh swap) [ ok bytes ↦ insert swap_id bytes rows | err e ↦ rows ]

  unfoldable pub persist_swap : Bytes → Evm → Evm
  unfolding save_row swap_record
  persist_swap swap_id st = elim st.swap_store [
    | none ↦ st
    | some rows ↦ record st { swap_store = some (save_row swap_id (swap_record st swap_id) rows) }
  ]

  -- Settler::record_success.
  unfoldable pub record_success : Evm → ActionKey → Evm
  unfolding persist_swap
  record_success st key = persist_swap key.swap_id (elim key.action [
    | Action.claim ↦ record st {
      queue = Queue.record_success key st.queue;
      pending_claims = retain (λ c. not (is_claim_of key.swap_id c)) st.pending_claims;
    }
    | Action.refund ↦ record st {
      queue = Queue.record_success key st.queue;
      pending_refunds = retain (λ r. not (is_refund_of key.swap_id r)) st.pending_refunds;
    }
  ])

  -- Settler::record_failure.
  unfoldable pub record_failure : Evm → ActionKey → ℕ → Evm
  unfolding persist_swap jitter
  record_failure st key now =
      persist_swap key.swap_id
        (record st { queue = Queue.record_failure key now (jitter key) st.queue })

  unfoldable pub track_actionable_event : ℕ → ChainEvent → Evm → Evm
  unfolding persist_swap tracked
  track_actionable_event now event st = persist_swap (event_swap_id event) (tracked now event st)
