-- ===== src/Kaspa/Payout.antt =====
-- chains/kaspa/broadcast/spend.rs and txbuild.rs: the transactions that spend the coins of an HTLC.
-- The fee of a transaction, its signature and its submission are calls of the crates and the network,
-- and are parameters; a script public key is its bytes.
use stroemnet.Common.{
  ℕ, ◌+◌, ◌-◌, List, [], ◌∷◌, Bytes, Result, ok, err, ltb, u64_max, codes, if◌then◌else◌, ◌>>=◌,
  ◌>>◌, fail_if,
}
use stroemnet.Kaspa.Script.{solver_reward}
use stroemnet.Kaspa.Ops.{KaspaError, insufficient_funds, other}
use stroemnet.Kaspa.Funding.{Utxo}

pub record TransactionInput : Type 0 where
  pub transaction_id : Bytes
  pub index : ℕ
  pub signature_script : Bytes
  pub sequence : ℕ
  pub sig_op_count : ℕ

pub record TransactionOutput : Type 0 where
  pub value : ℕ
  pub script_public_key : Bytes

pub record Spend : Type 0 where
  pub inputs : List TransactionInput
  pub outputs : List TransactionOutput
  pub lock_time : ℕ

abbrev pub min_reward_output_sompi : ℕ
min_reward_output_sompi = 10000

unfoldable pub spend_inputs : Utxo → Utxo → List TransactionInput
spend_inputs htlc_utxo fee_utxo =
    record {
      transaction_id = htlc_utxo.transaction_id;
      index = htlc_utxo.index;
      signature_script = [];
      sequence = 0;
      sig_op_count = 0;
    }
    ∷ record {
      transaction_id = fee_utxo.transaction_id;
      index = fee_utxo.index;
      signature_script = [];
      sequence = 0;
      sig_op_count = 1;
    }
    ∷ []

unfoldable pub spend_outputs : ℕ → ℕ → Bytes → Bytes → List TransactionOutput
spend_outputs dest_amount reward dest_spk our_spk =
    record { value = dest_amount; script_public_key = dest_spk }
    ∷ record { value = reward; script_public_key = our_spk }
    ∷ []

-- u64::checked_sub with its error, and the addition that may overflow.
abbrev pub sub_or : ℕ → ℕ → KaspaError → Result KaspaError ℕ
sub_or a b e = if ltb a b then err e else ok (a - b)

abbrev pub add_or : ℕ → ℕ → KaspaError → Result KaspaError ℕ
add_or a b e = if ltb u64_max (a + b) then err e else ok (a + b)

module _ (fee_of : Spend → Result KaspaError ℕ) where
  -- The transaction for one coin of the HTLC.
  unfoldable pub spend_transaction : Utxo → Utxo → Bytes → Bytes → ℕ → Result KaspaError Spend
  spend_transaction utxo fee_utxo dest_spk our_spk lock_time = do
    dest_amount ← sub_or utxo.amount solver_reward (insufficient_funds solver_reward utxo.amount)
    reward_pre ←
        add_or solver_reward fee_utxo.amount (other (codes "Solver reward + fee UTXO overflow"))
    let inputs = spend_inputs utxo fee_utxo
    fee ← fee_of record {
      inputs = inputs;
      outputs = spend_outputs dest_amount reward_pre dest_spk our_spk;
      lock_time = lock_time;
    }
    reward ← sub_or reward_pre fee (insufficient_funds fee reward_pre)
    fail_if (ltb reward min_reward_output_sompi) (insufficient_funds min_reward_output_sompi reward)
    ok record {
      inputs = inputs;
      outputs = spend_outputs dest_amount reward dest_spk our_spk;
      lock_time = lock_time;
    }

  -- The loop over the coins: the transactions submitted, and how it ended.
  unfoldable pub submit_htlc_spend :
      (Spend → Result KaspaError (Unit {0}))
      → List Utxo
      → Utxo
      → Bytes
      → Bytes
      → ℕ
      → List Spend × Result KaspaError (Unit {0})
  submit_htlc_spend submit [] fee_utxo dest_spk our_spk lock_time = ([], ok tt)
  submit_htlc_spend submit (utxo ∷ utxos) fee_utxo dest_spk our_spk lock_time =
      elim (spend_transaction utxo fee_utxo dest_spk our_spk lock_time) [
        | err e ↦ ([], err e)
        | ok tx ↦ elim (submit tx) [
          | err e ↦ (tx ∷ [], err e)
          | ok done ↦
              let rest = submit_htlc_spend submit utxos fee_utxo dest_spk our_spk lock_time in
              (tx ∷ rest.0, rest.1)
        ]
      ]
