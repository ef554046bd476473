-- ===== src/Tests/Queueing.antt =====
-- The claim of a swap in the retry queue of an EVM chain.
use stroemnet.Common.Equality.{list_beq}
use stroemnet.Common.{◌≡◌, refl, arith, true, Option, none, some, [], ◌∷◌, Bytes}
use stroemnet.Protocol.Channel.{ethereum_sepolia}
use stroemnet.Common.Dict.{get, remove}
use stroemnet.Settlement.Attempt.{AttemptState, new, expired, due}
use stroemnet.Settlement.Queue.{
  Action, claim, ActionKey, claim_key, key_beq, action_beq, RetryQueue, attempt, seed_queue,
  due_now,
}
use stroemnet.Settlement.Queue
use stroemnet.Settlement.Settler.{Settler}
use stroemnet.Settlement.Engine.{drive, drive_keys, drive_key, is_settled}
use stroemnet.Settlement.Engine
use stroemnet.Settlement.Driving.{QueueBacked}
use stroemnet.Settlement.Pass.{SettledInTurn, drive-due_now, drive-lost}
use stroemnet.Chains.Evm.{Evm, persist_swap, record_success, record_failure, observation_from}
use stroemnet.Chains.Settle.{Provider}
use stroemnet.Chains.Settling.{in_time, evm_settler, evm_settler-QueueBacked}
use stroemnet.Tests.Disk.{plain_borsh}

abbrev early : AttemptState
early = new 1000

abbrev late : AttemptState
late = record (new 1000) { next_attempt_at = 9000 }

-- A claim that is due and one that is not.
abbrev two_claims : RetryQueue
two_claims = record { attempts = (claim_key (1 ∷ []), early) ∷ (claim_key (2 ∷ []), late) ∷ [] }

-- A node whose swaps are settled on the chain.
abbrev pub settled_node : Provider
settled_node = record {
  current_block_timestamp = some 2000;
  gas_price = some 100;
  confirmed_count = λ addr. some 4;
  pending_count = λ addr. some 5;
  swaps = λ id. none;
  finalized_swaps =
      λ id. some record { initialized = true; finalized = true; secret_hash = []; timelock = 0 };
  mines = λ c. true;
}

abbrev pub own : Bytes → Option Bytes
own pk = some pk

-- An EVM chain whose swaps the contract does not know any more.
abbrev evm : Settler Evm
evm = evm_settler (λ st k. settled_node) (λ st k. in_time) own plain_borsh (λ bytes. bytes)

abbrev pub buffer : Evm
buffer = record {
  channel_id = ethereum_sepolia;
  minimum_block_confirmations = 12;
  poll_interval_secs = 15;
  max_blocks_per_poll = 500;
  private_key = some (7 ∷ []);
  signed_provider = true;
  poll = record { cursor = 100 };
  next_poll_secs = 0;
  last_block_ts = none;
  cursor_store = none;
  participate_ccr = true;
  queue = two_claims;
  pending_claims = record { swap_id = 1 ∷ []; secret = 9 ∷ [] } ∷ [];
  pending_refunds = [];
  swap_store = none;
}

abbrev queue_of : Evm → RetryQueue
queue_of st = st.queue

backed : QueueBacked evm queue_of
backed =
    evm_settler-QueueBacked (λ st k. settled_node) (λ st k. in_time) own plain_borsh
      (λ bytes. bytes)

evm_settler-QueueBacked_example : QueueBacked evm queue_of
evm_settler-QueueBacked_example =
    evm_settler-QueueBacked (λ st k. settled_node) (λ st k. in_time) own plain_borsh
      (λ bytes. bytes)

drive-due_now_example : evm.due_now (drive evm buffer 2000).0 2000 ≡ []
unfolding get key_beq list_beq action_beq
drive-due_now_example =
    drive-due_now evm queue_of backed 2000 buffer (omega arith) (refl, (refl, tt))

-- A pass after the deadline of the first claim.
drive-lost_example :
    SettledInTurn evm queue_of backed 700000 (evm.due_now buffer 700000) buffer (claim_key (1 ∷ []))
unfolding get remove key_beq list_beq action_beq attempt drive drive_keys drive_key evm_settler
    record_success record_failure persist_swap expired due Queue.due_now Queue.due_keys
    Queue.is_stuck Queue.record_success Queue.record_failure Engine.attempt new observation_from
drive-lost_example =
    drive-lost evm queue_of backed 700000 buffer (claim_key (1 ∷ [])) early refl refl
