-- ===== src/Kaspa/Events.antt =====
-- chains/kaspa/poll.rs, emit.rs and detector.rs: the events that the chain takes in and sends out. The
-- submission of a commitment is the client's and is an argument; `now` stands for the clock readings of
-- a call.
use stroemnet.Common.{
  ℕ, ◌&&◌, List, [], ◌∷◌, ◌++◌, Bytes, bytes_eq, Result, ok, err, is_some, if◌then◌else◌,
}
use stroemnet.Common.Dict.{insert}
use stroemnet.Protocol.Channel.{ChannelId}
use stroemnet.Protocol.V1.{CommitmentV1, ChainEvent, commitment, reveal, refund}
use stroemnet.Records.Swap.{UtxoScript}
use stroemnet.Records.Codec.{Borsh}
use stroemnet.Settlement.Queue.{claim_key, refund_key, ensure}
use stroemnet.Chains.Pending.{push_pending_claim, push_pending_refund}
use stroemnet.Kaspa.Ops.{KaspaError}
use stroemnet.Kaspa.Extract.{Crates}
use stroemnet.Kaspa.Announce.{validate_script_announce}
use stroemnet.Kaspa.Scan.{BlockOutcomes, handle_block_added}
use stroemnet.Kaspa.Intake.{RpcBlock}
use stroemnet.Kaspa.Buffer.{
  Kaspa, DataError, other, key, cache_commitment, commitment_of_swap, prune_scripts,
  register_internal, persist_swap, track_actionable_event,
}

module _ (borsh : Borsh) (now : ℕ) where
  -- The refunds of a block's outcomes: the loop under the lock, with `pushed`.
  unfoldable pub push_refunds : List (Bytes × ℕ) → Kaspa → Kaspa × List Bytes
  push_refunds [] st = (st, [])
  push_refunds ((swap_id, unlock_ts) ∷ refunds) st =
      let pushed = push_pending_refund st.pending_refunds swap_id unlock_ts in
      let rest = push_refunds refunds (record st { pending_refunds = pushed.0 }) in
      (rest.0, if pushed.1 then swap_id ∷ rest.1 else rest.1)

  unfoldable pub schedule_refunds : List Bytes → Kaspa → Kaspa
  schedule_refunds [] st = st
  schedule_refunds (swap_id ∷ pushed) st =
      schedule_refunds pushed (
        persist_swap borsh swap_id (record st { queue = ensure (refund_key swap_id) now st.queue }))

  unfoldable pub take_refunds : List (Bytes × ℕ) → Kaspa → Kaspa
  unfolding push_refunds schedule_refunds
  take_refunds refunds st =
      if st.participate_ccr
      then schedule_refunds (push_refunds refunds st).1 (push_refunds refunds st).0
      else st

  unfoldable pub track_all : List ChainEvent → Kaspa → Kaspa
  track_all [] st = st
  track_all (event ∷ events) st = track_all events (track_actionable_event borsh event st)

  abbrev pub stamped : ChannelId → List ChainEvent → List (ChannelId × ChainEvent)
  stamped channel_id [] = []
  stamped channel_id (event ∷ events) = (channel_id, event) ∷ stamped channel_id events

  unfoldable pub take_outcomes : BlockOutcomes → Kaspa → Kaspa
  unfolding take_refunds track_all
  take_outcomes outcomes st = track_all outcomes.events (take_refunds outcomes.refunds st)

  module _ (crates : Crates) where
    -- The loop over the blocks. An error ends the poll: the blocks behind it are dropped, and so are the
    -- events before it.
    unfoldable pub poll_blocks :
        List RpcBlock
        → List (ChannelId × ChainEvent)
        → Kaspa
        → Kaspa × Result DataError (List (ChannelId × ChainEvent))
    unfolding take_outcomes
    poll_blocks [] events st = (st, ok events)
    poll_blocks (block ∷ blocks) events st =
        let scanned =
          handle_block_added crates block.transactions st.utxo_scripts st.prefix st.channel_id in
        let watched = record st { utxo_scripts = scanned.0 } in
        elim scanned.1 [
          | err e ↦ (watched, err (other e))
          | ok outcomes ↦
              poll_blocks blocks (events ++ stamped st.channel_id outcomes.events)
                (take_outcomes outcomes watched)
        ]

    unfoldable pub poll_finalized : Kaspa → Kaspa × Result DataError (List (ChannelId × ChainEvent))
    unfolding poll_blocks prune_scripts
    poll_finalized st =
        let polled = poll_blocks st.safe_blocks [] (record st { safe_blocks = [] }) in
        elim polled.1 [
          | err e ↦ (polled.0, err e)
          | ok events ↦ (prune_scripts now polled.0, ok events)
        ]

    -- UtxoScriptDetector::register_script.
    unfoldable pub register_script :
        Bytes → Bytes → Bytes → ℕ → Bytes → Kaspa → Kaspa × Result DataError (Unit {0})
    unfolding register_internal prune_scripts
    register_script address redeem_script swap_id unlock_ts deposit_target st =
        elim (validate_script_announce crates st.network_id st.channel_id address redeem_script
          swap_id unlock_ts) [
            | err e ↦ (st, err (other e))
            | ok nothing ↦
                let script : UtxoScript = record {
                  redeem_script = redeem_script;
                  unlock_ts = unlock_ts;
                  deposit_target = deposit_target;
                } in
                let kept = record st { scripts = insert swap_id script st.scripts } in
                (
                  persist_swap borsh swap_id
                      (prune_scripts now (register_internal address script kept)),
                  ok tt,
                )
          ]

  -- What a node does with a commitment that it has submitted at an address under a script.
  unfoldable pub submitted : CommitmentV1 → Bytes → Bytes → Kaspa → Kaspa
  unfolding register_internal
  submitted c address redeem_script st =
      let script : UtxoScript = record {
        redeem_script = redeem_script;
        unlock_ts = c.unlock_ts;
        deposit_target = c.amount.value;
      } in
      let kept = record st { scripts = insert c.swap_id script st.scripts } in
      let watched = register_internal address script kept in
      persist_swap borsh c.swap_id (record watched {
        announcements =
            watched.announcements
            ++ (record { address = address; swap_id = c.swap_id; script = script } ∷ []);
      })

  unfoldable pub emit_event :
      (submit_commitment : Bytes → CommitmentV1 → Result KaspaError (Bytes × Bytes))
      → ChainEvent
      → Kaspa
      → Kaspa × Result DataError (Unit {0})
  unfolding submitted cache_commitment key commitment_of_swap
  emit_event submit_commitment (commitment c) st =
      let cached = cache_commitment c st in
      elim (key cached) [
        | err e ↦ (cached, err e)
        | ok pk ↦ elim (submit_commitment pk c) [
          | err e ↦ (cached, err (other e))
          | ok (address, redeem_script) ↦ (submitted c address redeem_script cached, ok tt)
        ]
      ]
  emit_event submit_commitment (reveal r) st = (
    if st.participate_ccr && is_some (commitment_of_swap r.swap_id st)
        then persist_swap borsh r.swap_id (record st {
          pending_claims = push_pending_claim st.pending_claims r;
          queue = ensure (claim_key r.swap_id) now st.queue;
        })
        else st,
    ok tt,
  )
  emit_event submit_commitment (refund r) st = (st, ok tt)
