-- ===== src/Kaspa/Moves.antt =====
-- chains/kaspa: the steps of the buffer, and what they keep.
use stroemnet.Common.{
  ℕ, ◌≡◌, ◌&&◌, List, Bytes, bytes_eq, Result, ok, is_some, Bool-cases, Result-cases, inl, inr,
}
use stroemnet.Protocol.V1.{CommitmentV1, ChainEvent, commitment, reveal, refund}
use stroemnet.Records.Codec.{Borsh}
use stroemnet.Settlement.Queue.{ActionKey}
use stroemnet.Kaspa.Ops.{KaspaError}
use stroemnet.Kaspa.Extract.{Crates}
use stroemnet.Kaspa.Announce.{validate_script_announce}
use stroemnet.Kaspa.Scan.{Transaction, BlockOutcomes, handle_block_added}
use stroemnet.Kaspa.Outcomes.{handle_block_added-IsCovered}
use stroemnet.Kaspa.Buffer.{
  Kaspa, key, cache_commitment, commitment_of_swap, prune_scripts, register_internal,
  record_success, record_failure,
}
use stroemnet.Kaspa.Events.{take_outcomes, register_script, submitted, emit_event}
use stroemnet.Kaspa.Scheduled.{
  IsScheduled, persist_swap-Scheduled, Scheduled-push_claim, record_success-IsScheduled,
  record_failure-IsScheduled,
}
use stroemnet.Kaspa.Attempted.{ResolvesLast, take_outcomes-IsScheduled}

module _ (crates : Crates) (borsh : Borsh) where
  -- The calls that change the buffer: a block of a poll, an event sent out, a script announced, and what
  -- the settlement engine records.
  pub data Moves : Kaspa → Kaspa → Type 0 where
    took_block :
        (now : ℕ) (transactions : List Transaction) (outcomes : BlockOutcomes) (st : Kaspa)
        → (handle_block_added crates transactions st.utxo_scripts st.prefix st.channel_id).1
          ≡ ok outcomes
        → ResolvesLast outcomes.events
        → Moves st (
            take_outcomes borsh now outcomes (record st {
              utxo_scripts =
                  (handle_block_added crates transactions st.utxo_scripts st.prefix
                    st.channel_id).0;
            }))
    emitted :
        (now : ℕ) (submit_commitment : Bytes → CommitmentV1 → Result KaspaError (Bytes × Bytes))
        (event : ChainEvent) (st : Kaspa)
        → Moves st (emit_event borsh now submit_commitment event st).0
    registered :
        (now : ℕ) (address redeem_script swap_id : Bytes) (unlock_ts : ℕ) (deposit_target : Bytes)
        (st : Kaspa)
        → Moves st
            (register_script borsh now crates address redeem_script swap_id unlock_ts deposit_target
              st).0
    succeeded : (k : ActionKey) (st : Kaspa) → Moves st (record_success borsh st k)
    failed : (k : ActionKey) (now : ℕ) (st : Kaspa) → Moves st (record_failure borsh st k now)

  pub data Runs : Kaspa → Kaspa → Type 0 where
    here : (st : Kaspa) → Runs st st
    then_move : (st mid next : Kaspa) → Runs st mid → Moves mid next → Runs st next

  emit_event-IsScheduled :
      (now : ℕ) (submit_commitment : Bytes → CommitmentV1 → Result KaspaError (Bytes × Bytes))
      (event : ChainEvent) (st : Kaspa)
      → IsScheduled st
      → IsScheduled (emit_event borsh now submit_commitment event st).0
  unfolding emit_event submitted cache_commitment register_internal
  emit_event-IsScheduled now submit (refund r) st s = s
  emit_event-IsScheduled now submit (reveal r) st s =
      elim (Bool-cases (st.participate_ccr && is_some (commitment_of_swap r.swap_id st))) [
        | inr idle ↦ rw idle s
        | inl claims ↦
            rw claims
              (persist_swap-Scheduled borsh r.swap_id _ (Scheduled-push_claim _ _ _ s r now))
      ]
  emit_event-IsScheduled now submit (commitment c) st s =
      let cached = cache_commitment c st in
      elim (Result-cases (key cached)) [
        | inr (e, locked) ↦ rw (emit_event, locked) s
        | inl (pk, held) ↦ elim (Result-cases (submit pk c)) [
          | inr (e, refused) ↦ rw (emit_event, held, refused) s
          | inl ((address, redeem_script), done) ↦
              rw (emit_event, held, done) (persist_swap-Scheduled borsh c.swap_id _ s)
        ]
      ]

  register_script-IsScheduled :
      (now : ℕ) (address redeem_script swap_id : Bytes) (unlock_ts : ℕ) (deposit_target : Bytes)
      (st : Kaspa)
      → IsScheduled st
      → IsScheduled
          (register_script borsh now crates address redeem_script swap_id unlock_ts deposit_target
            st).0
  unfolding register_script prune_scripts register_internal
  register_script-IsScheduled now address redeem_script swap_id unlock_ts target st s =
      elim (Result-cases (
        validate_script_announce crates st.network_id st.channel_id address redeem_script swap_id
          unlock_ts)) [
            | inr (e, refused) ↦ rw (register_script, refused) s
            | inl (done, valid) ↦
                rw (register_script, valid) (persist_swap-Scheduled borsh swap_id _ s)
          ]

  move-IsScheduled : (st next : Kaspa) → Moves st next → IsScheduled st → IsScheduled next
  move-IsScheduled st next (took_block now transactions outcomes _ scanned last) s =
      take_outcomes-IsScheduled borsh now outcomes _
        (handle_block_added-IsCovered crates st.prefix st.channel_id transactions st.utxo_scripts
          outcomes scanned)
        last s
  move-IsScheduled st next (emitted now submit event _) s =
      emit_event-IsScheduled now submit event st s
  move-IsScheduled st next (registered now address redeem_script id unlock_ts target _) s =
      register_script-IsScheduled now address redeem_script id unlock_ts target st s
  move-IsScheduled st next (succeeded k _) s =
      record_success-IsScheduled borsh st k.swap_id k.action s
  move-IsScheduled st next (failed k now _) s = record_failure-IsScheduled borsh st k now s

  -- Through whatever blocks, events sent out, announced scripts and recorded attempts: each pending claim
  -- and refund of the Kaspa chain stays in the queue from which the engine takes what it tries, if it is
  -- there at first and no block commits to a swap again behind its reveal or refund.
  pub runs-IsScheduled : (st next : Kaspa) → Runs st next → IsScheduled st → IsScheduled next
  runs-IsScheduled st next (here _) s = s
  runs-IsScheduled st next (then_move _ mid _ run move) s =
      move-IsScheduled mid next move (runs-IsScheduled st mid run s)
