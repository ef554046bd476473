-- ===== src/Chains/Events.antt =====
-- chains/evm/poll.rs, emit.rs and buffer.rs: the events that an EVM chain takes in and sends out. Logs and
-- how they decode are arguments, and so is the submission of a commitment; one `now` stands for the
-- clock readings of a call.
use stroemnet.Common.{
  ℕ, ◌+◌, ◌%◌, ◌^◌, max, Option, none, some, List, [], ◌∷◌, Result, ok, err, ltb, sat_mul64,
  if◌then◌else◌, ◌-◌,
}
use stroemnet.Protocol.Channel.{ChannelId}
use stroemnet.Protocol.V1.{CommitmentV1, ChainEvent, commitment, reveal, refund}
use stroemnet.Records.Codec.{Borsh}
use stroemnet.Settlement.Queue.{claim_key, ensure}
use stroemnet.Chains.Pending.{push_pending_claim}
use stroemnet.Chains.Polling.{PollState, Filter, Htlc, poll_once}
use stroemnet.Chains.Evm.{Evm, persist_swap, track_actionable_event}
use stroemnet.Chains.Settle.{signed}

unfoldable pub chain_now : ℕ → Evm → Option ℕ
chain_now now st = elim st.last_block_ts [
  | none ↦ none
  | some (ts, observed) ↦
      if ltb (max (sat_mul64 st.poll_interval_secs 3) 30) (now - observed) then none else some ts
]

unfoldable pub save_cursor : PollState → Evm → Evm
save_cursor poll st = record st {
  poll = poll;
  cursor_store = elim st.cursor_store [ none ↦ none | some row ↦ some (some poll.cursor) ];
}

unfoldable pub observe_time : Option ℕ → ℕ → Evm → Evm
observe_time none now st = st
observe_time (some ts) now st = record st { last_block_ts = some (ts, now) }

module _ (borsh : Borsh) (now : ℕ) where
  module _ {Log : Type 0} (decode_log : Log → Option ChainEvent) where
    unfoldable pub take_logs : List Log → Evm → Evm × List (ChannelId × ChainEvent)
    take_logs [] st = (st, [])
    take_logs (log ∷ logs) st = elim (decode_log log) [
      | none ↦ take_logs logs st
      | some event ↦
          let rest = take_logs logs (track_actionable_event borsh now event st) in
          (rest.0, (st.channel_id, event) ∷ rest.1)
    ]

    unfoldable pub poll_finalized :
        (head : Option ℕ) (get_logs : Filter → Option (List Log)) (htlc : Htlc)
        (block_timestamp : Option ℕ)
        → Evm
        → Evm × List (ChannelId × ChainEvent)
    unfolding take_logs save_cursor observe_time
    poll_finalized head get_logs htlc block_timestamp st =
        if ltb now st.next_poll_secs
        then (st, [])
        else (let polled =
              poll_once head get_logs htlc st.minimum_block_confirmations st.max_blocks_per_poll
                st.poll in
            let taken = take_logs polled.1 (
              save_cursor polled.0
                (record st { next_poll_secs = (now + st.poll_interval_secs) % 2 ^ 64 })) in
            (observe_time block_timestamp now taken.0, taken.1))

  unfoldable pub emit_event :
      {E : Type 0}
      → (submit_commitment : CommitmentV1 → Result E (Unit {0})) → (missing_key : ChannelId → E)
      → ChainEvent
      → Evm
      → Evm × Result E (Unit {0})
  emit_event submit_commitment missing_key (commitment c) st =
      (st, if signed st then submit_commitment c else err (missing_key st.channel_id))
  emit_event submit_commitment missing_key (reveal r) st = (
    if st.participate_ccr
        then persist_swap borsh r.swap_id (record st {
          pending_claims = push_pending_claim st.pending_claims r;
          queue = ensure (claim_key r.swap_id) now st.queue;
        })
        else st,
    ok tt,
  )
  emit_event submit_commitment missing_key (refund r) st = (st, ok tt)
