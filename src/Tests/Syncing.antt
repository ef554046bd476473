-- ===== src/Tests/Syncing.antt =====
-- An EVM buffer and its copy on disk.
use stroemnet.Common.{
  ◌∷◌, bytes_eq, ◌≡◌, inl, refl, true, Option, none, some, [], Bytes, Result, ok,
}
use stroemnet.Common.Dict.{get}
use stroemnet.Protocol.Channel.{ethereum_sepolia}
use stroemnet.Protocol.V1.{CommitmentV1, ChainEvent, commitment, reveal}
use stroemnet.Records.Swap.{is_empty}
use stroemnet.Records.Restore.{restore}
use stroemnet.Records.Keeping.{fields}
use stroemnet.Settlement.Queue.{default_queue, claim_key, refund_key, attempt}
use stroemnet.Chains.Evm.{Evm, swap_record, track_actionable_event, record_failure}
use stroemnet.Chains.Settle.{Provider, settle}
use stroemnet.Chains.Settling.{after_replacement, timed}
use stroemnet.Chains.Polling.{Htlc}
use stroemnet.Chains.Events.{poll_finalized, emit_event}
use stroemnet.Chains.Moves.{Runs, polled, emitted, tried, failed, here, then_move, runs-IsSynced}
use stroemnet.Chains.Persisted.{IsSynced, restart-fields}
use stroemnet.Chains.Tracking.{track_actionable_event-IsSynced}
use stroemnet.Tests.Data.{first_commitment, swap_1, secret_9}
use stroemnet.Tests.Formats.{toy_borsh, toy_borsh-Lossless}

-- A maker with an empty disk.
abbrev idle : Evm
idle = record {
  channel_id = ethereum_sepolia;
  minimum_block_confirmations = 12;
  poll_interval_secs = 15;
  max_blocks_per_poll = 500;
  private_key = some (7 ∷ []);
  signed_provider = true;
  poll = record { cursor = 100 };
  next_poll_secs = 0;
  last_block_ts = none;
  cursor_store = none;
  participate_ccr = true;
  queue = default_queue;
  pending_claims = [];
  pending_refunds = [];
  swap_store = some [];
}

idle-IsSynced : IsSynced toy_borsh idle
unfolding swap_record get is_empty attempt default_queue
idle-IsSynced = ([], refl, tt, λ id. inl (refl, refl))

-- The buffer once the maker has seen its own lock.
abbrev waiting : Evm
waiting = track_actionable_event toy_borsh 1000 (commitment first_commitment) idle

waiting-IsSynced : IsSynced toy_borsh waiting
waiting-IsSynced =
    track_actionable_event-IsSynced toy_borsh toy_borsh-Lossless 1000 (commitment first_commitment)
      idle idle-IsSynced

restart-fields_example :
    fields swap_1 (restore toy_borsh (some (waiting-IsSynced.0))).0
    ≡ (none, attempt waiting.queue (claim_key swap_1), attempt waiting.queue (refund_key swap_1))
restart-fields_example =
    restart-fields toy_borsh waiting waiting-IsSynced.0 swap_1 waiting-IsSynced waiting-IsSynced.1

abbrev own : Bytes → Option Bytes
own pk = some pk

abbrev same : Bytes → Bytes
same bytes = bytes

-- The node has a gas price and no contract.
abbrev node : Provider
node = record {
  current_block_timestamp = some 2000;
  gas_price = some 100;
  confirmed_count = λ addr. some 4;
  pending_count = λ addr. some 5;
  swaps = λ id. none;
  finalized_swaps = λ id. none;
  mines = λ c. true;
}

abbrev decode_log : ChainEvent → Option ChainEvent
decode_log event = some event

abbrev submit : CommitmentV1 → Result Bytes (Unit {0})
submit c = ok tt

abbrev htlc : Htlc
htlc = record { address = 1 ∷ []; commitment = 2 ∷ []; claim = 3 ∷ []; refund = 4 ∷ [] }

abbrev polled_state : Evm
polled_state =
    (poll_finalized toy_borsh 1000 decode_log (some 200)
      (λ asked. some (commitment first_commitment ∷ [])) htlc (some 990) idle).0

abbrev told : Evm
told =
    (emit_event toy_borsh 1010 submit (λ channel. [])
      (reveal (record { swap_id = swap_1; secret = secret_9 })) polled_state).0

-- The engine tries the claim, and its timeout ends the attempt once the gas price is stored.
abbrev tried_state : Evm
tried_state =
    (timed after_replacement told (settle node own toy_borsh same told (claim_key swap_1))).0

run :
    Runs toy_borsh same own Bytes decode_log idle
      (record_failure toy_borsh tried_state (claim_key swap_1) 1020)
run =
    then_move _ tried_state _
      (then_move _ told _
        (then_move _ polled_state _
          (then_move _ idle _ (here idle) (
            polled 1000 (some 200) (λ asked. some (commitment first_commitment ∷ [])) htlc
              (some 990) idle))
          (emitted 1010 submit (λ channel. [])
            (reveal (record { swap_id = swap_1; secret = secret_9 })) polled_state))
        (tried node after_replacement (claim_key swap_1) told))
      (failed (claim_key swap_1) 1020 tried_state)

runs-IsSynced_example :
    IsSynced toy_borsh (record_failure toy_borsh tried_state (claim_key swap_1) 1020)
runs-IsSynced_example =
    runs-IsSynced toy_borsh same own Bytes decode_log toy_borsh-Lossless idle
      (record_failure toy_borsh tried_state (claim_key swap_1) 1020) run idle-IsSynced
