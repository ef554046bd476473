-- ===== src/Tests/Scripts.antt =====
-- The theorems about Kaspa's scripts, scans and spends at concrete inputs.
use stroemnet.Common.{
  ℕ, ◌≤◌, ◌<◌, ◌+◌, ◌≡◌, refl, ap, sym, ok_inj, inl, ◌⊎◌, Bool, true, false, some, List, [], ◌∷◌,
  arith, Bytes, Result, ok, err, codes, length, bytes_eq,
}
use stroemnet.Common.Equality.{list_beq}
use stroemnet.Common.Dict.{get, insert}
use stroemnet.Protocol.Channel.{kaspa_tn10, to_u8}
use stroemnet.Protocol.V1.{parse_uint, CommitmentV1, commitment, reveal, refund}
use stroemnet.Records.Swap.{UtxoScript}
use stroemnet.Kaspa.Layout.{expected_opcodes, data_type_beq}
use stroemnet.Kaspa.Script.{
  decode_u64_from_script, pad_to, create_htlc_script, Instruction, htlc_instructions,
}
use stroemnet.Kaspa.Ops.{
  KaspaError, insufficient_funds, collect_data, collect_from, extract_opcode_data, value_to_bytes,
}
use stroemnet.Kaspa.Extract.{
  testnet, spk_to_vec, extract_commitment, commitment_of, present, present_and_filled, exactly_32,
  address_of_bytes, spk_from_bytes, ScriptPublicKey, reconstruct,
}
use stroemnet.Kaspa.Announce.{
  p2sh_components, script_of, validate_script_announce, parse_network_prefix,
}
use stroemnet.Kaspa.Accepted.{validate_script_announce-p2sh_components, reconstruct-p2sh_components}
use stroemnet.Kaspa.Spend.{classify_spend, scan_inputs}
use stroemnet.Kaspa.Scan.{
  credit, deposit_target_valid, TxOutput, BlockOutcomes, scan_outputs, match_outputs, scan_matched,
}
use stroemnet.Kaspa.Recognised.{reveal_calls, refund_calls, classify_spend-calls}
use stroemnet.Kaspa.Emitted.{spends, scan_inputs-once}
use stroemnet.Kaspa.Funded.{Reports, Paid, scan_outputs-Paid}
use stroemnet.Kaspa.Funding.{
  Utxo, select_funding_utxos, total_of, sum_of, select_funding_utxos-total, AllMature, may_spend,
}
use stroemnet.Kaspa.Spending.{Settles, spend_transaction-Settles}
use stroemnet.Kaspa.Payout.{Spend, spend_transaction, spend_inputs, spend_outputs}
use stroemnet.Tests.Data.{thirty_two}
use stroemnet.Tests.Crates.{
  toy_crates, push, push-op, push-many, push-zero, push-byte, push-IsNumber, parse-drain,
}

abbrev pub deposit : CommitmentV1
deposit = record {
  swap_id = thirty_two 1;
  addresses = record {
    sender = 5 ∷ 5 ∷ [];
    receiver = 6 ∷ 6 ∷ [];
    sender_destination = 7 ∷ 7 ∷ [];
  };
  amount = record { value = b'5' ∷ b'0' ∷ []; decimals = 8 };
  secret_hash = thirty_two 2;
  unlock_ts = 1700;
  source = 0;
  destination = 1;
}

abbrev pub calls : List Instruction
calls =
    htlc_instructions (0 ∷ 0 ∷ 5 ∷ 5 ∷ []) (7 ∷ 7 ∷ []) (0 ∷ 0 ∷ 6 ∷ 6 ∷ []) (thirty_two 2) 1700000
      1 (thirty_two 1)

unfoldable pub text_of : Result Bytes Bytes → Bytes
text_of (ok text) = text
text_of (err e) = []

abbrev pub redeem : Bytes
redeem = text_of (toy_crates.drain calls)

abbrev pub testnet_id : Bytes
testnet_id = codes "testnet-10"

made : p2sh_components toy_crates testnet_id deposit ≡ ok (length redeem ∷ [], redeem)
unfolding p2sh_components script_of create_htlc_script parse_network_prefix spk_to_vec text_of
    toy_crates
made = refl

validate_script_announce-p2sh_components_example :
    validate_script_announce toy_crates testnet_id kaspa_tn10
      (length redeem ∷ [])
      redeem
      (thirty_two 1)
      1700
    ≡ ok tt
unfolding toy_crates
validate_script_announce-p2sh_components_example =
    validate_script_announce-p2sh_components toy_crates push push-op push-many push-zero push-byte
      push-IsNumber parse-drain testnet_id deposit (length redeem ∷ []) redeem kaspa_tn10 refl refl
      (omega arith) (omega arith) (omega arith) refl (λ a spk prefix h. (spk.script, refl)) made

abbrev pub stored : UtxoScript
stored = record { redeem_script = redeem; unlock_ts = 1700; deposit_target = b'5' ∷ b'0' ∷ [] }

reads : reconstruct toy_crates stored testnet kaspa_tn10 ≡ ok deposit
unfolding toy_crates parse_network_prefix to_u8
reads =
    reconstruct-p2sh_components toy_crates push push-op push-many push-zero push-byte push-IsNumber
      parse-drain testnet_id testnet deposit (length redeem ∷ []) redeem 1700 kaspa_tn10 refl refl
      refl refl refl (omega arith) (omega arith) (omega arith) refl
      (λ spk h. ap (λ (k : ScriptPublicKey). ok k.script) (sym (ok_inj h)))
      (λ spk h. ap (λ (k : ScriptPublicKey). ok k.script) (sym (ok_inj h))) made

reconstruct-p2sh_components_example : reconstruct toy_crates stored testnet kaspa_tn10 ≡ ok deposit
unfolding toy_crates parse_network_prefix to_u8
reconstruct-p2sh_components_example =
    reconstruct-p2sh_components toy_crates push push-op push-many push-zero push-byte push-IsNumber
      parse-drain testnet_id testnet deposit (length redeem ∷ []) redeem 1700 kaspa_tn10 refl refl
      refl refl refl (omega arith) (omega arith) (omega arith) refl
      (λ spk h. ap (λ (k : ScriptPublicKey). ok k.script) (sym (ok_inj h)))
      (λ spk h. ap (λ (k : ScriptPublicKey). ok k.script) (sym (ok_inj h))) made

abbrev claim_sig : Bytes
claim_sig = text_of (toy_crates.drain (reveal_calls (thirty_two 9) redeem))

abbrev refund_sig : Bytes
refund_sig = text_of (toy_crates.drain (refund_calls redeem))

classify_spend-calls_example :
    (classify_spend toy_crates claim_sig stored testnet kaspa_tn10
      ≡ ok (some (reveal record { swap_id = thirty_two 1; secret = thirty_two 9 }), true))
    × (classify_spend toy_crates refund_sig stored testnet kaspa_tn10
        ≡ ok (some (refund record { swap_id = thirty_two 1 }), true))
unfolding toy_crates text_of htlc_instructions
classify_spend-calls_example =
    classify_spend-calls toy_crates push push-op push-many parse-drain stored deposit (thirty_two 9)
      claim_sig refund_sig testnet kaspa_tn10 refl (omega arith) reads refl refl

scan_inputs-once_example :
    spends
      (thirty_two 1)
      (scan_inputs toy_crates
        (claim_sig ∷ refund_sig ∷ [])
        ((length redeem ∷ [], stored) ∷ [])
        testnet
        kaspa_tn10
        []).1
    ≤ spends (thirty_two 1) [] + 1
scan_inputs-once_example =
    scan_inputs-once toy_crates ((length redeem ∷ [], stored) ∷ []) testnet kaspa_tn10
      (thirty_two 1) (claim_sig ∷ refund_sig ∷ []) []

abbrev pub paying : TxOutput
paying = record {
  value = 60;
  script_public_key = record { version = 0; script = length redeem ∷ [] };
}

abbrev pub nothing_found : BlockOutcomes
nothing_found = record { events = []; refunds = [] }

abbrev pub deposit_found : BlockOutcomes
deposit_found = record { events = commitment deposit ∷ []; refunds = (thirty_two 1, 1700) ∷ [] }

pub found :
    scan_outputs toy_crates
      (paying ∷ [])
      ((length redeem ∷ [], stored) ∷ [])
      testnet
      kaspa_tn10
      nothing_found
    ≡ ok deposit_found
unfolding scan_outputs match_outputs scan_matched toy_crates get insert list_beq text_of
    htlc_instructions extract_commitment commitment_of collect_data collect_from expected_opcodes
    data_type_beq extract_opcode_data value_to_bytes present present_and_filled exactly_32
    address_of_bytes spk_from_bytes decode_u64_from_script pad_to credit deposit_target_valid
    parse_uint to_u8
found = refl

scan_outputs-Paid_example :
    Reports deposit []
    ⊎ Paid toy_crates ((length redeem ∷ [], stored) ∷ []) testnet kaspa_tn10 deposit (paying ∷ [])
scan_outputs-Paid_example =
    scan_outputs-Paid toy_crates ((length redeem ∷ [], stored) ∷ []) testnet kaspa_tn10 deposit
      (paying ∷ []) nothing_found deposit_found found (inl refl)

abbrev coin : ℕ → Bool → Utxo
coin amount fresh = record {
  transaction_id = amount ∷ [];
  index = 0;
  amount = amount;
  block_daa_score = 90;
  is_coinbase = fresh;
}

abbrev coins : List Utxo
coins = coin 500 true ∷ coin 70 false ∷ coin 40 false ∷ []

select_funding_utxos-total_example :
    let mature = may_spend 100 120 in
    ((selected : List Utxo) × (total : ℕ) × (100 ≤ total_of mature coins)
      × (select_funding_utxos coins 100 100 120 ≡ ok (selected, total))
      × (sum_of selected ≡ total)
      × AllMature mature selected
      × (100 ≤ total))
    ⊎ ((total_of mature coins < 100)
        × (select_funding_utxos coins 100 100 120
            ≡ err (insufficient_funds 100 (total_of mature coins))))
unfolding total_of may_spend
select_funding_utxos-total_example =
    select_funding_utxos-total coins 100 100 120 (omega arith) (omega arith)

abbrev flat_fee : Spend → Result KaspaError ℕ
flat_fee tx = ok 3000

abbrev spent : Spend
spent = record {
  inputs = spend_inputs (coin 50000000 false) (coin 40000 false);
  outputs = spend_outputs 40000000 10037000 (6 ∷ []) (8 ∷ []);
  lock_time = 0;
}

spend_transaction-Settles_example :
    Settles flat_fee (coin 50000000 false) (coin 40000 false) (6 ∷ []) (8 ∷ []) 0 spent
unfolding spend_transaction
spend_transaction-Settles_example =
    spend_transaction-Settles flat_fee (coin 50000000 false) (coin 40000 false) (6 ∷ []) (8 ∷ []) 0
      spent refl
