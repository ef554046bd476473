-- ===== src/Chains/Settle.antt =====
-- chains/evm/settle.rs, replace.rs, broadcast and reconcile.rs: an attempt to settle on an EVM chain. The
-- answers of the node are arguments, `none` where the retries of a call have run out or the answer is an
-- error; the address of a key is that of alloy. A transaction that is sent is listed.
use stroemnet.Common.{
  ℕ, max, min, Bool, true, false, not, ◌||◌, Option, none, some, List, [], ◌∷◌, Bytes, bytes_eq,
  ◌==◌, codes, find, leb, ltb, u64_max, if◌then◌else◌,
}
use stroemnet.Protocol.V1.{RevealV1}
use stroemnet.Records.Codec.{Borsh}
use stroemnet.Settlement.Queue.{Action, ActionKey, attempt, set_nonce, set_last_gas}
use stroemnet.Settlement.Settler.{SettleOutcome, retry, fatal, Observation, unknown}
use stroemnet.Chains.Pending.{is_refund_of, is_claim_of}
use stroemnet.Chains.Polling.{replacement_gas, kept_nonce}
use stroemnet.Chains.Evm.{Evm, persist_swap, observation_from}

-- A call of the contract that stroemnet sends, with its nonce and gas price.
pub data HtlcCall : Type 0 where
  claim : Bytes → Bytes → HtlcCall
  refund : Bytes → HtlcCall

pub record Call : Type 0 where
  pub call : HtlcCall
  pub nonce : ℕ
  pub gas_price : ℕ

-- What the contract stores of a swap, by the fields that are read.
pub record HtlcSwap : Type 0 where
  pub initialized : Bool
  pub finalized : Bool
  pub secret_hash : Bytes
  pub timelock : ℕ

-- The answers of the node. `mines` says whether a transaction is sent and its receipt is ok.
pub record Provider : Type 0 where
  pub current_block_timestamp : Option ℕ
  pub gas_price : Option ℕ
  pub confirmed_count : Bytes → Option ℕ
  pub pending_count : Bytes → Option ℕ
  pub swaps : Bytes → Option HtlcSwap
  pub finalized_swaps : Bytes → Option HtlcSwap
  pub mines : Call → Bool

unfoldable pub claim_skip_reason : Bool → Bool → Bool → Option ℕ → ℕ → Option Bytes
claim_skip_reason initialized finalized secret_ok chain_now timelock =
    if not initialized || finalized
    then some (codes "not claimable")
    else if not secret_ok
    then some (codes "revealed secret does not match on-chain hash")
    else elim chain_now [
      | none ↦ none
      | some now ↦ if leb timelock now then some (codes "timelock expired") else none
    ]

abbrev pub outcome : Bool → SettleOutcome
outcome true = retry (codes "submitted_awaiting_inclusion")
outcome false = retry (codes "broadcast_error")

unfoldable pub submit_refund : Provider → Bytes → ℕ → ℕ → Bool × List Call
submit_refund node swap_id nonce gas_price =
    let sent : Call = record { call = refund swap_id; nonce = nonce; gas_price = gas_price } in
    (node.mines sent, sent ∷ [])

module _ (node : Provider) (sha256 : Bytes → Bytes) where
  -- A claim that is skipped counts as submitted.
  unfoldable pub submit_claim : RevealV1 → ℕ → ℕ → Bool × List Call
  unfolding claim_skip_reason
  submit_claim r nonce gas_price = elim (node.swaps r.swap_id) [
    | none ↦ (false, [])
    | some swap ↦
        elim (claim_skip_reason swap.initialized swap.finalized
          (sha256 r.secret == swap.secret_hash) node.current_block_timestamp
          (min swap.timelock u64_max)) [
            | some reason ↦ (true, [])
            | none ↦
                let sent : Call = record {
                  call = claim r.swap_id r.secret;
                  nonce = nonce;
                  gas_price = gas_price;
                } in
                (node.mines sent, sent ∷ [])
          ]
  ]

-- The last lines of `replacement`, with the nonce to use.
unfoldable pub priced : Borsh → ActionKey → ℕ → ℕ → Evm → Evm × Option (ℕ × ℕ)
priced borsh key n gas st = (
  persist_swap borsh key.swap_id (record st { queue = set_last_gas key gas st.queue }),
  some (n, gas),
)

-- The end of both attempts: `submit` takes the nonce and the gas price.
unfoldable pub submitted :
    (ℕ → ℕ → Bool × List Call) → Evm × Option (ℕ × ℕ) → Evm × SettleOutcome × List Call
submitted submit replaced = elim replaced.1 [
  | none ↦ (replaced.0, retry (codes "replacement_unavailable"), [])
  | some (nonce, gas) ↦ (replaced.0, outcome (submit nonce gas).0, (submit nonce gas).1)
]

-- Whether the node can sign transactions.
unfoldable pub signed : Evm → Bool
signed st = st.signed_provider

-- The account that the node signs with.
unfoldable pub own_address : (address_from_private_key : Bytes → Option Bytes) → Evm → Option Bytes
own_address address_from_private_key st = elim st.private_key [
  | none ↦ none
  | some pk ↦ address_from_private_key pk
]

module _ (node : Provider) (address_from_private_key : Bytes → Option Bytes) (borsh : Borsh) where
  unfoldable pub replacement : ActionKey → Evm → Evm × Option (ℕ × ℕ)
  unfolding priced
  replacement key st = elim (attempt st.queue key) [
    | none ↦ (st, none)
    | some a ↦ elim node.gas_price [
      | none ↦ (st, none)
      | some base ↦ elim (own_address address_from_private_key st) [
        | none ↦ (st, none)
        | some addr ↦ elim (node.confirmed_count addr) [
          | none ↦ (st, none)
          | some confirmed ↦
              let gas = replacement_gas base a.attempt_count a.last_gas in
              elim (kept_nonce a.nonce confirmed) [
                | some n ↦ priced borsh key n gas st
                | none ↦ elim (node.pending_count addr) [
                  | none ↦ (st, none)
                  | some pending ↦
                      let n = max pending confirmed in
                      priced borsh key n gas (record st { queue = set_nonce key n st.queue })
                ]
              ]
        ]
      ]
    ]
  ]

  module _ (sha256 : Bytes → Bytes) where
    unfoldable pub settle_refund : ActionKey → Evm → Evm × SettleOutcome × List Call
    unfolding replacement submitted submit_refund
    settle_refund key st =
        if not (signed st)
        then (st, fatal (codes "missing key"), [])
        else elim (find (is_refund_of key.swap_id) st.pending_refunds) [
          | none ↦ (st, retry (codes "no_refund_intent"), [])
          | some (r, unlock) ↦ elim node.current_block_timestamp [
            | none ↦ (st, retry (codes "block_ts_timeout"), [])
            | some block_ts ↦
                if ltb block_ts unlock
                then (st, retry (codes "not_yet_unlocked"), [])
                else submitted (submit_refund node key.swap_id) (replacement key st)
          ]
        ]

    unfoldable pub settle_claim : ActionKey → Evm → Evm × SettleOutcome × List Call
    unfolding replacement submitted submit_claim
    settle_claim key st =
        if not (signed st)
        then (st, fatal (codes "missing key"), [])
        else elim (find (is_claim_of key.swap_id) st.pending_claims) [
          | none ↦ (st, retry (codes "no_reveal"), [])
          | some r ↦ submitted (submit_claim node sha256 r) (replacement key st)
        ]

    -- Settler::settle.
    unfoldable pub settle : Evm → ActionKey → Evm × SettleOutcome × List Call
    unfolding settle_refund settle_claim
    settle st key = elim key.action [
      | Action.refund ↦ settle_refund key st
      | Action.claim ↦ settle_claim key st
    ]

unfoldable pub observe_onchain : Provider → Evm → ActionKey → Observation
observe_onchain node st key = elim (node.finalized_swaps key.swap_id) [
  | none ↦ unknown
  | some swap ↦ observation_from swap.finalized swap.initialized
]
