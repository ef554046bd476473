-- ===== src/Chains/Moves.antt =====
-- chains/evm: the calls that change the buffer, and what they keep.
use stroemnet.Common.{ℕ, Option, List, Bytes, Result}
use stroemnet.Protocol.Channel.{ChannelId}
use stroemnet.Protocol.V1.{CommitmentV1, ChainEvent}
use stroemnet.Records.Codec.{Borsh}
use stroemnet.Settlement.Queue.{ActionKey}
use stroemnet.Chains.Evm.{Evm, record_success, record_failure}
use stroemnet.Chains.Persisted.{Lossless, IsSynced}
use stroemnet.Chains.Tracking.{record_success-IsSynced, record_failure-IsSynced}
use stroemnet.Chains.Settle.{Provider, settle}
use stroemnet.Chains.Settling.{Progress, timed, settle-Attempts}
use stroemnet.Chains.Polling.{Filter, Htlc}
use stroemnet.Chains.Events.{poll_finalized, emit_event}
use stroemnet.Chains.Synced.{
  timed-IsSynced, Attempts-IsSynced, poll_finalized-IsSynced, emit_event-IsSynced,
}

module _ (borsh : Borsh) (sha256 : Bytes → Bytes) (address : Bytes → Option Bytes) (E : Type 0)
    {Log : Type 0} (decode_log : Log → Option ChainEvent) where
  -- A poll, an event sent out, an attempt of the settlement engine, and what the engine records.
  pub data Moves : Evm → Evm → Type 0 where
    polled :
        (now : ℕ) (head : Option ℕ) (get_logs : Filter → Option (List Log)) (htlc : Htlc)
        (block_timestamp : Option ℕ) (st : Evm)
        → Moves st (poll_finalized borsh now decode_log head get_logs htlc block_timestamp st).0
    emitted :
        (now : ℕ) (submit_commitment : CommitmentV1 → Result E (Unit {0}))
        (missing_key : ChannelId → E) (event : ChainEvent) (st : Evm)
        → Moves st (emit_event borsh now submit_commitment missing_key event st).0
    tried :
        (node : Provider) (progress : Progress) (key : ActionKey) (st : Evm)
        → Moves st (timed progress st (settle node address borsh sha256 st key)).0
    succeeded : (key : ActionKey) (st : Evm) → Moves st (record_success borsh st key)
    failed : (key : ActionKey) (now : ℕ) (st : Evm) → Moves st (record_failure borsh st key now)

  pub data Runs : Evm → Evm → Type 0 where
    here : (st : Evm) → Runs st st
    then_move : (st mid next : Evm) → Runs st mid → Moves mid next → Runs st next

  module _ (law : Lossless borsh) where
    move-IsSynced : (st next : Evm) → Moves st next → IsSynced borsh st → IsSynced borsh next
    move-IsSynced st next (polled now head get_logs htlc ts _) s =
        poll_finalized-IsSynced borsh law now decode_log head get_logs htlc ts st s
    move-IsSynced st next (emitted now submit missing_key event _) s =
        emit_event-IsSynced borsh law now submit missing_key event st s
    move-IsSynced st next (tried node progress key _) s = timed-IsSynced borsh law progress st _ s (
        Attempts-IsSynced borsh law node address sha256 key st _
          (settle-Attempts node address borsh sha256 st key.swap_id key.action) s)
    move-IsSynced st next (succeeded key _) s = record_success-IsSynced borsh law st key s
    move-IsSynced st next (failed key now _) s = record_failure-IsSynced borsh law st key now s

    -- Through whatever polls, events sent out, attempts to settle, cut off or not, and recorded
    -- results: the rows on disk are those of the swaps in the buffer of an EVM chain, if they are at
    -- first. Borsh writes every record and reads it back.
    pub runs-IsSynced : (st next : Evm) → Runs st next → IsSynced borsh st → IsSynced borsh next
    runs-IsSynced st next (here _) s = s
    runs-IsSynced st next (then_move _ mid _ run move) s =
        move-IsSynced mid next move (runs-IsSynced st mid run s)
