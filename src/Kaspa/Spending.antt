-- ===== src/Kaspa/Spending.antt =====
-- chains/kaspa/broadcast/spend.rs: what a transaction that spends a coin of an HTLC looks like.
use mathlib.Core.Path.{subst}
use stroemnet.Common.{
  refl, ℕ, ◌+◌, ◌-◌, ◌≤◌, ◌≡◌, [], ◌∷◌, arith, Bytes, Result, ok, ltb, codes, Bool-cases, inl, inr,
  ◌>>◌, fail_if, >>=-eq-ok, ok_inj,
}
use stroemnet.Kaspa.Script.{solver_reward}
use stroemnet.Kaspa.Ops.{KaspaError, insufficient_funds, other}
use stroemnet.Kaspa.Funding.{Utxo}
use stroemnet.Kaspa.Payout.{
  TransactionInput, TransactionOutput, Spend, min_reward_output_sompi, spend_inputs, spend_outputs,
  sub_or, add_or, spend_transaction,
}

module _ (fee_of : Spend → Result KaspaError ℕ) where
  -- An input that spends a coin: it is not signed yet, and its sequence of 0 makes the transaction's
  -- lock time count.
  pub record Spends (utxo : Utxo) (sig_ops : ℕ) (i : TransactionInput) : Type 0 where
    pub of_transaction : i.transaction_id ≡ utxo.transaction_id
    pub of_index : i.index ≡ utxo.index
    pub no_signature : i.signature_script ≡ []
    pub sequence_is_zero : i.sequence ≡ 0
    pub sig_ops_are : i.sig_op_count ≡ sig_ops

  -- A transaction that spends the coin of the HTLC and the fee coin, pays the destination and gives the
  -- node `reward`.
  pub record Pays (utxo fee_utxo : Utxo) (dest_spk our_spk : Bytes) (lock_time reward : ℕ)
      (tx : Spend) : Type 0 where
    pub htlc_input : TransactionInput
    pub fee_input : TransactionInput
    pub inputs_are : tx.inputs ≡ htlc_input ∷ fee_input ∷ []
    pub spends_htlc : Spends utxo 0 htlc_input
    pub spends_fee : Spends fee_utxo 1 fee_input
    pub to_dest : TransactionOutput
    pub to_us : TransactionOutput
    pub outputs_are : tx.outputs ≡ to_dest ∷ to_us ∷ []
    pub dest_value : to_dest.value + solver_reward ≡ utxo.amount
    pub dest_is : to_dest.script_public_key ≡ dest_spk
    pub our_value : to_us.value ≡ reward
    pub us_is : to_us.script_public_key ≡ our_spk
    pub locked : tx.lock_time ≡ lock_time

  -- The transaction to send, and the one of which the fee was computed: it is the same but for the
  -- node's output, from which the fee is not taken yet.
  pub record Settles (utxo fee_utxo : Utxo) (dest_spk our_spk : Bytes) (lock_time : ℕ) (tx : Spend)
      : Type 0 where
    pub fee : ℕ
    pub reward : ℕ
    pub draft : Spend
    pub pays : Pays utxo fee_utxo dest_spk our_spk lock_time reward tx
    pub drafted :
        Pays utxo fee_utxo dest_spk our_spk lock_time (solver_reward + fee_utxo.amount) draft
    pub charged : fee_of draft ≡ ok fee
    pub conserved : reward + fee ≡ solver_reward + fee_utxo.amount
    pub worth_it : min_reward_output_sompi ≤ reward

  abbrev spend_of : Utxo → Utxo → ℕ → ℕ → Bytes → Bytes → ℕ → Spend
  spend_of utxo fee_utxo dest reward dest_spk our_spk lock_time = record {
    inputs = spend_inputs utxo fee_utxo;
    outputs = spend_outputs dest reward dest_spk our_spk;
    lock_time = lock_time;
  }

  spend_of-Pays :
      (utxo fee_utxo : Utxo) (dest reward : ℕ) (dest_spk our_spk : Bytes) (lock_time : ℕ)
      → dest + solver_reward ≡ utxo.amount
      → Pays utxo fee_utxo dest_spk our_spk lock_time reward
          (spend_of utxo fee_utxo dest reward dest_spk our_spk lock_time)
  unfolding spend_inputs spend_outputs
  spend_of-Pays utxo fee_utxo dest reward dest_spk our_spk lock_time whole = record {
    htlc_input = _;
    fee_input = _;
    inputs_are = refl;
    spends_htlc = record {
      of_transaction = refl;
      of_index = refl;
      no_signature = refl;
      sequence_is_zero = refl;
      sig_ops_are = refl;
    };
    spends_fee = record {
      of_transaction = refl;
      of_index = refl;
      no_signature = refl;
      sequence_is_zero = refl;
      sig_ops_are = refl;
    };
    to_dest = _;
    to_us = _;
    outputs_are = refl;
    dest_value = whole;
    dest_is = refl;
    our_value = refl;
    us_is = refl;
    locked = refl;
  }

  sub_or-ok : (a b : ℕ) (e : KaspaError) {c : ℕ} → sub_or a b e ≡ ok c → (b ≤ a) × (c ≡ a - b)
  sub_or-ok a b e h = ground arith

  add_or-ok : (a b : ℕ) (e : KaspaError) {c : ℕ} → add_or a b e ≡ ok c → c ≡ a + b
  add_or-ok a b e h = ground arith

  last_line :
      (reward : ℕ) (e : KaspaError) (made tx : Spend)
      → (fail_if (ltb reward min_reward_output_sompi) e >> ok made) ≡ ok tx
      → (min_reward_output_sompi ≤ reward) × (made ≡ tx)
  last_line reward e made tx h = elim (Bool-cases (ltb reward min_reward_output_sompi)) [
    | inl low ↦ absurd (ground arith)
    | inr high ↦ (ground arith, ok_inj (rw high at h))
  ]

  -- A transaction that spend_transaction makes has two inputs: the HTLC's coin first, with no signature
  -- operation counted, and the fee coin, with one; the sequence of both is 0, and its lock time is the
  -- one given. It has two outputs: the coin's amount less the solver's reward to the destination, and to
  -- the node the solver's reward and the fee coin's amount less the fee, which is at least the minimum.
  -- The fee is the one computed of the same transaction with the fee not yet taken from the node's
  -- output.
  pub spend_transaction-Settles :
      (utxo fee_utxo : Utxo) (dest_spk our_spk : Bytes) (lock_time : ℕ) (tx : Spend)
      → spend_transaction fee_of utxo fee_utxo dest_spk our_spk lock_time ≡ ok tx
      → Settles utxo fee_utxo dest_spk our_spk lock_time tx
  unfolding spend_transaction
  spend_transaction-Settles utxo fee_utxo dest_spk our_spk lock_time tx h =
      let (dest, paid, h1) =
        >>=-eq-ok (sub_or utxo.amount solver_reward (insufficient_funds solver_reward utxo.amount))
          _ h in
      let (reward_pre, summed, h2) =
        >>=-eq-ok
          (add_or solver_reward fee_utxo.amount (other (codes "Solver reward + fee UTXO overflow")))
          _ h1 in
      let draft = spend_of utxo fee_utxo dest reward_pre dest_spk our_spk lock_time in
      let (fee, charged, h3) = >>=-eq-ok (fee_of draft) _ h2 in
      let (reward, left, h4) =
        >>=-eq-ok (sub_or reward_pre fee (insufficient_funds fee reward_pre)) _ h3 in
      let (enough, dest_is) = sub_or-ok _ _ _ paid in
      let pre = add_or-ok _ _ _ summed in
      let (within, reward_is) = sub_or-ok _ _ _ left in
      let whole : dest + solver_reward ≡ utxo.amount = omega arith in
      let (worth, made) =
        last_line reward (insufficient_funds min_reward_output_sompi reward)
          (spend_of utxo fee_utxo dest reward dest_spk our_spk lock_time) tx h4 in
      record {
        fee = fee;
        reward = reward;
        draft = draft;
        pays =
            subst (λ (t : Spend). Pays utxo fee_utxo dest_spk our_spk lock_time reward t) made
              (spend_of-Pays utxo fee_utxo dest reward dest_spk our_spk lock_time whole);
        drafted =
            subst (λ (r : ℕ). Pays utxo fee_utxo dest_spk our_spk lock_time r draft) pre
              (spend_of-Pays utxo fee_utxo dest reward_pre dest_spk our_spk lock_time whole);
        charged = charged;
        conserved = omega arith;
        worth_it = worth;
      }
