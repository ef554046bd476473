-- ===== src/Tests/Resending.antt =====
-- The attempts to settle on an EVM chain at concrete inputs.
use stroemnet.Common.{
  ℕ, min, ◌*◌, ◌/◌, ◌≤◌, ◌≡◌, refl, true, false, some, [], ◌∷◌, arith, Bytes, bytes_eq, find,
}
use stroemnet.Common.Equality.{list_beq}
use stroemnet.Common.Dict.{get, update}
use stroemnet.Protocol.V1.{RevealV1}
use stroemnet.Settlement.Queue.{
  Action, ActionKey, claim_key, RetryQueue, key_beq, action_beq, attempt, set_nonce, set_last_gas,
}
use stroemnet.Settlement.Queue
use stroemnet.Settlement.Attempt.{new, on_failure, delay}
use stroemnet.Chains.Polling.{
  bump, bumped, escalated_gas, replacement_gas, kept_nonce, max_gas_price_wei,
}
use stroemnet.Chains.Evm.{persist_swap, record_failure}
use stroemnet.Chains.Pending.{is_claim_of}
use stroemnet.Chains.Settle.{
  Provider, HtlcCall, Call, claim_skip_reason, submit_claim, submitted, priced, replacement,
  own_address, signed, settle_claim, settle,
}
use stroemnet.Chains.Resent.{again, settle_again}
use stroemnet.Chains.Claimable.{Claimable, settle_claim-Claimable}
use stroemnet.Tests.Disk.{plain_borsh}
use stroemnet.Tests.Queueing.{buffer, settled_node, own}

-- The node's account has had four transactions, and the contract holds swap 1.
abbrev node : ℕ → Provider
node gas_price = record settled_node {
  gas_price = some gas_price;
  swaps = λ id.
      some record { initialized = true; finalized = false; secret_hash = 9 ∷ []; timelock = 3000 };
  mines = λ c. false;
}

abbrev same : Bytes → Bytes
same bytes = bytes

abbrev sent : ℕ → Call
sent gas_price = record {
  call = HtlcCall.claim (1 ∷ []) (9 ∷ []);
  nonce = 5;
  gas_price = gas_price;
}

first_sent :
    (settle (node 1000) own plain_borsh same buffer (claim_key (1 ∷ []))).2 ≡ sent 1000 ∷ []
unfolding settle settle_claim signed submitted submit_claim claim_skip_reason replacement
    own_address kept_nonce replacement_gas escalated_gas bumped priced attempt get key_beq
    action_beq list_beq is_claim_of new
first_sent = refl

-- The gas price of the node has fallen meanwhile.
second_sent :
    (settle
      (node 500)
      own
      plain_borsh
      same
      (again own plain_borsh same (1 ∷ []) Action.claim buffer 2000 (node 1000))
      (claim_key (1 ∷ []))).2
    ≡ sent 1150 ∷ []
unfolding settle settle_claim signed submitted submit_claim claim_skip_reason replacement
    own_address kept_nonce replacement_gas escalated_gas bumped bump priced attempt get key_beq
    action_beq list_beq is_claim_of new set_nonce set_last_gas update persist_swap record_failure
    Queue.record_failure on_failure delay
second_sent = refl

settle_again_example :
    ((sent 1150).nonce ≡ (sent 1000).nonce)
    × (min ((sent 1000).gas_price * 115 / 100) max_gas_price_wei ≤ (sent 1150).gas_price)
settle_again_example =
    settle_again own plain_borsh same (1 ∷ []) Action.claim buffer 2000 (node 1000) (node 500)
      (sent 1000) (sent 1150) first_sent second_sent (λ addr m e. ground (arith, e))

claim_sent :
    (settle_claim (node 1000) own plain_borsh same (claim_key (1 ∷ [])) buffer).2 ≡ sent 1000 ∷ []
unfolding settle
claim_sent = first_sent

settle_claim-Claimable_example :
    (r : RevealV1) × (find (is_claim_of (1 ∷ [])) buffer.pending_claims ≡ some r)
    × Claimable (node 1000) same r (sent 1000)
settle_claim-Claimable_example =
    settle_claim-Claimable (node 1000) same own plain_borsh (claim_key (1 ∷ [])) buffer (sent 1000)
      claim_sent
