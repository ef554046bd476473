-- ===== src/Kaspa/Recognised.antt =====
-- chains/kaspa/broadcast/reveal.rs and refund.rs beside decode/classify.rs: the signature scripts that
-- the node spends a script with, and how a scan reads them.
use stroemnet.Common.{
  ◌≤◌, ◌≡◌, refl, true, some, List, [], ◌∷◌, map, arith, Bytes, ok, length, nat_beq, nat_beq_iff,
  >>=-eq-ok, map_err,
}
use stroemnet.Protocol.Channel.{ChannelId}
use stroemnet.Protocol.V1.{reveal, refund, CommitmentV1}
use stroemnet.Records.Swap.{UtxoScript}
use stroemnet.Kaspa.Script.{Opcode, op_true, op_false, Instruction, add_op, add_data}
use stroemnet.Kaspa.Ops.{
  tx_script, ParsedOp, extract_opcode_data, extract_reveal_secret, validate_refund_sig,
}
use stroemnet.Kaspa.Extract.{Prefix, Crates, reconstruct}
use stroemnet.Kaspa.Spend.{classify_spend, classify_ops}

-- The builder's calls for the claim branch, and for the refund branch.
unfoldable pub reveal_calls : Bytes → Bytes → List Instruction
reveal_calls secret htlc_script = add_data secret ∷ add_op op_true ∷ add_data htlc_script ∷ []

unfoldable pub refund_calls : Bytes → List Instruction
refund_calls htlc_script = add_op op_false ∷ add_data htlc_script ∷ []

module _ (crates : Crates) (push : Instruction → ParsedOp)
    (push-op : (o : Opcode) → (push (add_op o)).value ≡ crates.code o)
    (push-many : (d : Bytes) → 2 ≤ length d → (push (add_data d)).get_data ≡ d)
    (parse-drain : (calls : List Instruction) (script : Bytes)
      → crates.drain calls ≡ ok script
      → crates.parse_script script ≡ ok (map push calls)) where
  pushed : (d : Bytes) → 2 ≤ length d → extract_opcode_data (push (add_data d)) ≡ d
  unfolding extract_opcode_data
  pushed [] h = absurd (ground arith)
  pushed (b ∷ []) h = absurd (ground arith)
  pushed (a ∷ b ∷ d) h = rw (push-many (a ∷ b ∷ d) h) refl

  selected : (o : Opcode) → nat_beq (push (add_op o)).value (crates.code o) ≡ true
  selected o = (nat_beq_iff _ _).1 (push-op o)

  extract_reveal_secret-reveal_calls :
      (secret htlc_script : Bytes)
      → length secret ≡ 32
      → 2 ≤ length htlc_script
      → extract_reveal_secret crates.code (map push (reveal_calls secret htlc_script)) ≡ ok secret
  unfolding extract_reveal_secret reveal_calls
  extract_reveal_secret-reveal_calls [] htlc_script h long = absurd (ground arith)
  extract_reveal_secret-reveal_calls (b ∷ bs) [] h long = absurd (ground arith)
  extract_reveal_secret-reveal_calls (b ∷ bs) (a ∷ rest) h long =
      rw (selected op_true, pushed (b ∷ bs) (omega arith), pushed (a ∷ rest) long, h) (ground arith)

  validate_refund_sig-refund_calls :
      (htlc_script : Bytes)
      → 2 ≤ length htlc_script
      → validate_refund_sig crates.code (map push (refund_calls htlc_script)) ≡ ok tt
  unfolding validate_refund_sig refund_calls
  validate_refund_sig-refund_calls [] long = absurd (ground arith)
  validate_refund_sig-refund_calls (a ∷ rest) long =
      rw (selected op_false, pushed (a ∷ rest) long) (ground arith)

  -- The swap id that classify_spend finds in a script that reads as a commitment.
  classify_spend-reads :
      (sig : Bytes) (calls : List Instruction) (script : UtxoScript) (c : CommitmentV1)
      (prefix : Prefix) (channel : ChannelId)
      → crates.drain calls ≡ ok sig
      → reconstruct crates script prefix channel ≡ ok c
      → classify_spend crates sig script prefix channel
        ≡ ok (classify_ops crates (map push calls) (some c.swap_id))
  unfolding classify_spend reconstruct
  classify_spend-reads sig calls script c prefix channel drained reads =
      let (ops, parsed, extracted) =
        >>=-eq-ok (map_err tx_script (crates.parse_script script.redeem_script)) _ reads in
      rw (parse-drain calls sig drained, parsed, extracted) refl

  -- The signature script with which the node claims a script that reads as a commitment is read by
  -- classify_spend, for any prefix and channel, as the reveal of that swap with that 32-byte secret, and
  -- closes the script; the one with which it refunds the script is read as the refund of that swap, and
  -- closes it too.
  pub classify_spend-calls :
      (script : UtxoScript) (c : CommitmentV1) (secret claim_sig refund_sig : Bytes)
      (prefix : Prefix) (channel : ChannelId)
      → length secret ≡ 32
      → 2 ≤ length script.redeem_script
      → reconstruct crates script prefix channel ≡ ok c
      → crates.drain (reveal_calls secret script.redeem_script) ≡ ok claim_sig
      → crates.drain (refund_calls script.redeem_script) ≡ ok refund_sig
      → (classify_spend crates claim_sig script prefix channel
          ≡ ok (some (reveal record { swap_id = c.swap_id; secret = secret }), true))
        × (classify_spend crates refund_sig script prefix channel
            ≡ ok (some (refund record { swap_id = c.swap_id }), true))
  unfolding classify_ops extract_reveal_secret refund_calls
  classify_spend-calls script c secret claim_sig refund_sig prefix channel h long reads claimed
        refunded =
      (
        rw
            (
              classify_spend-reads claim_sig (reveal_calls secret script.redeem_script) script c
                  prefix channel claimed reads,
              classify_ops,
              extract_reveal_secret-reveal_calls secret script.redeem_script h long,
            )
            refl,
        rw
            (
              classify_spend-reads refund_sig (refund_calls script.redeem_script) script c prefix
                  channel refunded reads,
              classify_ops,
              validate_refund_sig-refund_calls script.redeem_script long,
            )
            refl,
      )
