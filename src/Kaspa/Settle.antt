-- ===== src/Kaspa/Settle.antt =====
-- chains/kaspa/settle.rs, reconcile.rs and settler.rs: an attempt to settle, and Kaspa as the engine
-- sees it. The answers of the client are arguments: `none` where the retries have run out. The calls of
-- broadcast::submit_refund and submit_reveal are listed; such a call may send no transaction, and its
-- result is logged.
use stroemnet.Common.{
  ℕ, Bool, true, false, Option, none, some, List, [], ◌∷◌, Bytes, codes, Result, ok, err, leb, find,
  sat_mul64, if◌then◌else◌,
}
use stroemnet.Protocol.V1.{CommitmentV1, RevealV1}
use stroemnet.Records.Codec.{Borsh}
use stroemnet.Settlement.Queue.{Action, ActionKey}
use stroemnet.Settlement.Queue
use stroemnet.Settlement.Settler.{
  Settler, SettleOutcome, retry, fatal, Observation, not_settled, unknown,
}
use stroemnet.Chains.Pending.{is_claim_of}
use stroemnet.Kaspa.Extract.{Crates}
use stroemnet.Kaspa.Announce.{p2sh_components}
use stroemnet.Kaspa.Buffer.{
  Kaspa, DataError, key, commitment_of_swap, record_success, record_failure,
}

-- A call of broadcast::submit_refund or submit_reveal, with the arguments that differ. It may send
-- several transactions or none: none where the HTLC has no coins, there is no coin for the fee or the fee
-- cannot be computed.
pub data Submission : Type 0 where
  submit_refund : Bytes → CommitmentV1 → Submission
  submit_reveal : Bytes → CommitmentV1 → RevealV1 → Submission

-- The answers of the client: the past median time, whether a call of `broadcast` succeeds, how many coins lie at
-- an address, if the text is one.
pub record Client : Type 0 where
  pub past_median_time : Option ℕ
  pub submits : Submission → Bool
  pub parse_address : Bytes → Bool
  pub utxo_count : Bytes → Option ℕ

abbrev outcome : Bool → SettleOutcome
outcome true = retry (codes "submitted_awaiting_inclusion")
outcome false = retry (codes "broadcast_error")

-- `(Some(commitment), Ok(pk))`
abbrev both : Option CommitmentV1 → Result DataError Bytes → Option (CommitmentV1 × Bytes)
both (some c) (ok pk) = some (c, pk)
both (some c) (err e) = none
both none _ = none

module _ (client : Client) where
  unfoldable pub settle_refund : Bytes → Kaspa → SettleOutcome × List Submission
  unfolding commitment_of_swap key
  settle_refund swap_id st = elim (both (commitment_of_swap swap_id st) (key st)) [
    | none ↦ (fatal (codes "missing commitment or key"), [])
    | some (c, pk) ↦ elim client.past_median_time [
      | none ↦ (retry (codes "dag_info_timeout"), [])
      | some pmt ↦
          if leb pmt (sat_mul64 c.unlock_ts 1000)
          then (retry (codes "not_yet_unlocked"), [])
          else (outcome (client.submits (submit_refund pk c)), submit_refund pk c ∷ [])
    ]
  ]

  unfoldable pub settle_claim : Bytes → Kaspa → SettleOutcome × List Submission
  unfolding commitment_of_swap key
  settle_claim swap_id st = elim (both (commitment_of_swap swap_id st) (key st)) [
    | none ↦ (fatal (codes "missing commitment or key"), [])
    | some (c, pk) ↦ elim (find (is_claim_of swap_id) st.pending_claims) [
      | none ↦ (retry (codes "no_reveal"), [])
      | some r ↦ (outcome (client.submits (submit_reveal pk c r)), submit_reveal pk c r ∷ [])
    ]
  ]

  unfoldable pub settle : Kaspa → ActionKey → SettleOutcome × List Submission
  unfolding settle_refund settle_claim
  settle st k = elim k.action [
    | Action.refund ↦ settle_refund k.swap_id st
    | Action.claim ↦ settle_claim k.swap_id st
  ]

  unfoldable pub observe_onchain : Crates → Kaspa → ActionKey → Observation
  unfolding commitment_of_swap
  observe_onchain crates st k = elim (commitment_of_swap k.swap_id st) [
    | none ↦ unknown
    | some c ↦ elim (p2sh_components crates st.network_id c) [
      | err e ↦ unknown
      | ok (address, redeem) ↦
          if client.parse_address address
          then elim (client.utxo_count address) [
            | none ↦ unknown
            | some count ↦ if leb count 0 then unknown else not_settled
          ]
          else unknown
    ]
  ]

  -- An attempt changes nothing of the state. `timely` says whether it ends before the engine's timeout.
  unfoldable pub kaspa_settler :
      Crates → Borsh → (timely : Kaspa → ActionKey → Bool) → Settler Kaspa
  unfolding settle observe_onchain record_success record_failure
  kaspa_settler crates borsh timely = record {
    due_now = λ st now. Queue.due_now st.queue now;
    settle = λ st k. (st, if timely st k then some (settle st k).0 else none);
    observe = observe_onchain crates;
    record_success = record_success borsh;
    record_failure = record_failure borsh;
    is_stuck = λ st k now. Queue.is_stuck st.queue k now;
  }
