-- ===== src/Kaspa/Buffer.antt =====
-- chains/kaspa/mod.rs, accessors.rs, persist.rs and settler.rs: the state of the Kaspa chain, its copy
-- on disk, and what is recorded of an attempt. A lock is held for one call each.
use stroemnet.Common.{
  ℕ, Bool, true, false, not, Option, none, some, List, Bytes, bytes_eq, Result, ok_or, find, retain,
  leb, sat_add64, if◌then◌else◌,
}
use stroemnet.Common.Dict
use stroemnet.Common.Dict.{Dict, get, insert, remove}
use stroemnet.Protocol.Channel.{ChannelId}
use stroemnet.Protocol.V1.{CommitmentV1, RevealV1, RefundV1, ChainEvent, commitment, reveal, refund}
use stroemnet.Records.Swap.{UtxoScript, PersistedSwap}
use stroemnet.Records.Codec.{Borsh}
use stroemnet.Settlement.Queue.{Action, ActionKey, claim_key, refund_key, RetryQueue, attempt}
use stroemnet.Settlement.Queue
use stroemnet.Chains.Pending.{is_refund_of, is_claim_of, queue_dequeue_refund_event}
use stroemnet.Chains.Pending
use stroemnet.Chains.Evm.{Rows, save_row, jitter}
use stroemnet.Kaspa.Ops.{KaspaError}
use stroemnet.Kaspa.Extract.{Prefix}
use stroemnet.Kaspa.Intake.{RpcBlock}

-- Those of DataError that the modelled code returns; a KaspaError is printed into the last one.
pub data DataError : Type 0 where
  unknown_channel missing_key : ChannelId → DataError
  other : KaspaError → DataError

pub record ScriptAnnouncement : Type 0 where
  pub address : Bytes
  pub swap_id : Bytes
  pub script : UtxoScript

pub record Kaspa : Type 0 where
  pub channel_id : ChannelId
  pub network_id : Bytes
  pub prefix : Prefix
  pub script_ttl_secs : ℕ
  pub participate_ccr : Bool
  pub private_key : Option Bytes
  pub utxo_scripts : Dict Bytes UtxoScript
  pub safe_blocks : List RpcBlock
  pub commitments : Dict Bytes CommitmentV1
  pub pending_refunds : List (RefundV1 × ℕ)
  pub pending_claims : List RevealV1
  pub announcements : List ScriptAnnouncement
  pub scripts : Dict Bytes UtxoScript
  pub swap_store : Rows
  pub queue : RetryQueue

unfoldable pub key : Kaspa → Result DataError Bytes
key st = ok_or st.private_key (missing_key st.channel_id)

unfoldable pub cache_commitment : CommitmentV1 → Kaspa → Kaspa
cache_commitment c st = record st { commitments = insert c.swap_id c st.commitments }

unfoldable pub commitment_of_swap : Bytes → Kaspa → Option CommitmentV1
commitment_of_swap swap_id st = get swap_id st.commitments

unfoldable pub prune_scripts : ℕ → Kaspa → Kaspa
prune_scripts now st = record st {
  utxo_scripts =
      Dict.retain (λ s. leb now (sat_add64 s.unlock_ts st.script_ttl_secs)) st.utxo_scripts;
}

unfoldable pub register_internal : Bytes → UtxoScript → Kaspa → Kaspa
register_internal address script st = record st {
  utxo_scripts = insert address script st.utxo_scripts;
}

unfoldable pub is_resolving : ChainEvent → Bool
is_resolving (reveal r) = true
is_resolving (refund r) = true
is_resolving (commitment c) = false

-- The record that persist_swap builds.
unfoldable pub swap_record : Kaspa → Bytes → PersistedSwap
swap_record st swap_id = record {
  script = get swap_id st.scripts;
  pending_refund = find (is_refund_of swap_id) st.pending_refunds;
  pending_claim = find (is_claim_of swap_id) st.pending_claims;
  claim_attempt = attempt st.queue (claim_key swap_id);
  refund_attempt = attempt st.queue (refund_key swap_id);
}

abbrev pub cached : ChainEvent → Kaspa → Kaspa
cached (commitment c) st = cache_commitment c st
cached (reveal r) st = st
cached (refund r) st = st

-- What track_actionable_event untracks of a swap that is resolved.
unfoldable pub forget : Bytes → Kaspa → Kaspa
forget id st = record st {
  queue = Queue.record_success (refund_key id) (Queue.record_success (claim_key id) st.queue);
  pending_claims = retain (λ c. not (is_claim_of id c)) st.pending_claims;
  commitments = remove id st.commitments;
  scripts = remove id st.scripts;
}

-- track_actionable_event, but for its last line.
unfoldable pub tracked : ChainEvent → Kaspa → Kaspa
unfolding cache_commitment is_resolving forget
tracked event st =
    let before = cached event st in
    let queued = record before {
      pending_refunds =
          queue_dequeue_refund_event before.pending_refunds event before.participate_ccr;
    } in
    if is_resolving event then forget (Pending.event_swap_id event) queued else queued

module _ (borsh : Borsh) where
  unfoldable pub persist_swap : Bytes → Kaspa → Kaspa
  unfolding swap_record
  persist_swap swap_id st = elim st.swap_store [
    | none ↦ st
    | some rows ↦ record st {
      swap_store = some (save_row borsh swap_id (swap_record st swap_id) rows);
    }
  ]

  unfoldable pub track_actionable_event : ChainEvent → Kaspa → Kaspa
  unfolding persist_swap tracked
  track_actionable_event event st = persist_swap (Pending.event_swap_id event) (tracked event st)

  -- Settler::record_success.
  unfoldable pub record_success : Kaspa → ActionKey → Kaspa
  unfolding persist_swap
  record_success st k = persist_swap k.swap_id (elim k.action [
    | Action.claim ↦ record st {
      queue = Queue.record_success k st.queue;
      pending_claims = retain (λ c. not (is_claim_of k.swap_id c)) st.pending_claims;
    }
    | Action.refund ↦ record st {
      queue = Queue.record_success k st.queue;
      pending_refunds = retain (λ r. not (is_refund_of k.swap_id r)) st.pending_refunds;
    }
  ])

  -- Settler::record_failure.
  unfoldable pub record_failure : Kaspa → ActionKey → ℕ → Kaspa
  unfolding persist_swap
  record_failure st k now =
      persist_swap k.swap_id (record st { queue = Queue.record_failure k now (jitter k) st.queue })
