-- ===== src/Kaspa/Scan.antt =====
-- chains/kaspa/decode/outputs.rs and block.rs: the outputs of a transaction, and a whole block. An
-- error in one script ends the scan of the block: what it had found is dropped, while the scripts of
-- spends already seen stay removed.
use stroemnet.Common.{
  ℕ, ◌^◌, Option, none, some, List, [], ◌∷◌, ◌++◌, Bytes, Result, ok, err, leb, bytes_eq,
  if◌then◌else◌, nat_beq,
}
use stroemnet.Common.Dict.{Dict, get}
use stroemnet.Protocol.Channel.{ChannelId}
use stroemnet.Protocol.V1.{ChainEvent, commitment, CommitmentV1, parse_uint}
use stroemnet.Records.Swap.{UtxoScript}
use stroemnet.Kaspa.Ops.{KaspaError, tx_script}
use stroemnet.Kaspa.Extract.{Prefix, ScriptPublicKey, Crates, extract_commitment}
use stroemnet.Kaspa.Spend.{scan_inputs}

-- RpcTransaction, by the fields that the scans read.
pub record TxOutput : Type 0 where
  pub value : ℕ
  pub script_public_key : ScriptPublicKey

pub record Transaction : Type 0 where
  pub inputs : List Bytes
  pub outputs : List TxOutput

-- The events, and each refund to be scheduled with its unlock time.
pub record BlockOutcomes : Type 0 where
  pub events : List ChainEvent
  pub refunds : List (Bytes × ℕ)

unfoldable pub deposit_target_valid : Bytes → Option ℕ
deposit_target_valid target = elim (parse_uint (2 ^ 64) target) [
  | some v ↦ if nat_beq v 0 then none else some v
  | none ↦ none
]

-- What one matched output of that value adds.
unfoldable pub credit : ℕ → Option ℕ → CommitmentV1 → BlockOutcomes → BlockOutcomes
credit value none c found = found
credit value (some target) c found = record {
  refunds = found.refunds ++ ((c.swap_id, c.unlock_ts) ∷ []);
  events = if leb target value then found.events ++ (commitment c ∷ []) else found.events;
}

module _ (crates : Crates) where
  -- The outputs whose address has a known script, with that script.
  unfoldable pub match_outputs :
      Dict Bytes UtxoScript → Prefix → List TxOutput → List (ℕ × UtxoScript)
  match_outputs scripts prefix [] = []
  match_outputs scripts prefix (output ∷ outputs) =
      elim (crates.address_of_spk output.script_public_key prefix) [
        | err e ↦ match_outputs scripts prefix outputs
        | ok key ↦ elim (get key scripts) [
          | none ↦ match_outputs scripts prefix outputs
          | some utxo_script ↦ (output.value, utxo_script) ∷ match_outputs scripts prefix outputs
        ]
      ]

  unfoldable pub scan_matched :
      Prefix → ChannelId → List (ℕ × UtxoScript) → BlockOutcomes → Result KaspaError BlockOutcomes
  scan_matched prefix channel_id [] found = ok found
  scan_matched prefix channel_id ((value, utxo_script) ∷ matched) found =
      elim (crates.parse_script utxo_script.redeem_script) [
        | err e ↦ err (tx_script e)
        | ok script ↦
            scan_matched prefix channel_id matched
              (elim (extract_commitment crates script utxo_script.deposit_target prefix
                channel_id) [
                  | ok c ↦ credit value (deposit_target_valid utxo_script.deposit_target) c found
                  | err e ↦ found
                ])
      ]

  unfoldable pub scan_outputs :
      List TxOutput
      → Dict Bytes UtxoScript
      → Prefix
      → ChannelId
      → BlockOutcomes
      → Result KaspaError BlockOutcomes
  scan_outputs outputs scripts prefix channel_id found =
      scan_matched prefix channel_id (match_outputs scripts prefix outputs) found

  -- The scripts that are watched afterwards, also where a script's error has ended the scan.
  unfoldable pub handle_transactions :
      List Transaction
      → Dict Bytes UtxoScript
      → Prefix
      → ChannelId
      → BlockOutcomes
      → Dict Bytes UtxoScript × Result KaspaError BlockOutcomes
  handle_transactions [] scripts prefix channel_id found = (scripts, ok found)
  handle_transactions (tx ∷ txs) scripts prefix channel_id found =
      elim (scan_outputs tx.outputs scripts prefix channel_id found) [
        | err e ↦ (scripts, err e)
        | ok paid ↦
            let spent = scan_inputs crates tx.inputs scripts prefix channel_id paid.events in
            handle_transactions txs spent.0 prefix channel_id record paid { events = spent.1 }
      ]

  unfoldable pub handle_block_added :
      List Transaction
      → Dict Bytes UtxoScript
      → Prefix
      → ChannelId
      → Dict Bytes UtxoScript × Result KaspaError BlockOutcomes
  handle_block_added transactions scripts prefix channel_id =
      handle_transactions transactions scripts prefix channel_id
        record { events = []; refunds = [] }
