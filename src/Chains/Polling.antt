-- ===== src/Chains/Polling.antt =====
-- chains/evm/finality.rs and replace.rs: which blocks a poll of an EVM chain fetches, and the gas price
-- of a transaction that is sent again. The answers of the node are arguments: `none` where the retries
-- of a call have run out.
use stroemnet.Common.{
  ℕ, zero, suc, ◌+◌, ◌-◌, ◌*◌, ◌/◌, min, max, Option, none, some, List, [], leb, ltb, sat_add64,
  u64_max, if◌then◌else◌, Bytes, ◌∷◌,
}

pub record PollState : Type 0 where
  pub cursor : ℕ

-- u64::checked_sub and checked_add.
abbrev pub checked_sub64 : ℕ → ℕ → Option ℕ
checked_sub64 a b = if ltb a b then none else some (a - b)

abbrev pub checked_add64 : ℕ → ℕ → Option ℕ
checked_add64 a b = if ltb u64_max (a + b) then none else some (a + b)

-- The end of the blocks that have their confirmations, exclusive.
abbrev pub confirmed_end : ℕ → ℕ → Option ℕ
confirmed_end current_block confirmations = elim (checked_sub64 current_block confirmations) [
  | none ↦ none
  | some depth ↦ checked_add64 depth 1
]

unfoldable pub next_range : PollState → ℕ → ℕ → ℕ → Option (ℕ × ℕ)
next_range st current_block confirmations max_blocks_per_poll =
    elim (confirmed_end current_block confirmations) [
      | none ↦ none
      | some last ↦
          if leb last st.cursor
          then none
          else some (st.cursor, min last (sat_add64 st.cursor (max max_blocks_per_poll 1)))
    ]

-- The assertion of `advance` is for debug builds.
unfoldable pub advance : PollState → ℕ → PollState
advance st last = record st { cursor = last }

-- The contract: its address, and the signatures of its events that the crate generates.
pub record Htlc : Type 0 where
  pub address : Bytes
  pub commitment : Bytes
  pub claim : Bytes
  pub refund : Bytes

-- What eth_getLogs is asked for. The last block is inclusive.
pub record Filter : Type 0 where
  pub address : Bytes
  pub events : List Bytes
  pub from_block : ℕ
  pub to_block : ℕ

abbrev pub filter_of : Htlc → ℕ → ℕ → Filter
filter_of htlc first last = record {
  address = htlc.address;
  events = htlc.commitment ∷ htlc.claim ∷ htlc.refund ∷ [];
  from_block = first;
  to_block = last - 1;
}

module _ {Log : Type 0} where
  -- poll_once, with the answers of eth_blockNumber and eth_getLogs.
  unfoldable pub poll_once :
      (head : Option ℕ) (get_logs : Filter → Option (List Log)) (htlc : Htlc)
      (confirmations max_blocks : ℕ)
      → PollState
      → PollState × List Log
  poll_once none get_logs htlc confirmations max_blocks st = (st, [])
  poll_once (some current) get_logs htlc confirmations max_blocks st =
      elim (next_range st current confirmations max_blocks) [
        | none ↦ (st, [])
        | some (first, last) ↦ elim (get_logs (filter_of htlc first last)) [
          | none ↦ (st, [])
          | some logs ↦ (advance st last, logs)
        ]
      ]

-- MAX_GAS_BUMPS and MAX_GAS_PRICE_WEI.
abbrev pub max_gas_bumps : ℕ
max_gas_bumps = 12

abbrev pub max_gas_price_wei : ℕ
max_gas_price_wei = 5000000000000

abbrev pub u128_max : ℕ
u128_max = 340282366920938463463374607431768211455

-- `gas.saturating_mul(115) / 100`
unfoldable pub bump : ℕ → ℕ
bump gas = min (gas * 115) u128_max / 100

unfoldable pub bumped : ℕ → ℕ → ℕ
bumped zero gas = gas
bumped (suc bumps) gas = bumped bumps (bump gas)

unfoldable pub escalated_gas : ℕ → ℕ → ℕ
escalated_gas base attempt_count =
    min (bumped (min attempt_count max_gas_bumps) base) max_gas_price_wei

-- The gas price of `replacement`, from the node's price and the attempt's.
unfoldable pub replacement_gas : ℕ → ℕ → Option ℕ → ℕ
replacement_gas base attempt_count last_gas = elim last_gas [
  | none ↦ escalated_gas base attempt_count
  | some prev ↦ min (max (escalated_gas base attempt_count) (bump prev)) max_gas_price_wei
]

-- The nonce of the attempt, unless the chain has confirmed it.
unfoldable pub kept_nonce : Option ℕ → ℕ → Option ℕ
kept_nonce (some n) confirmed = if leb confirmed n then some n else none
kept_nonce none confirmed = none
