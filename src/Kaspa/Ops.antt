-- ===== src/Kaspa/Ops.antt =====
-- chains/kaspa/contracts/extract/opdata.rs and sig.rs: the data of an opcode, of a whole HTLC script,
-- and of the signature scripts that spend one.
use stroemnet.Common.{
  ℕ, suc, ◌-◌, ◌&&◌, not, true, false, List, [], ◌∷◌, Bytes, Result, ok, err, fail_if, ◌>>◌,
  nat_beq, leb, nat_eq, ◌==◌, if◌then◌else◌, length,
}
use stroemnet.Common.Dict.{Dict, insert}
use stroemnet.Kaspa.Script.{Opcode, op_false, op_true}
use stroemnet.Kaspa.Layout.{
  ExpectedOpCode, exactly, pushes, DataType, opcode, data_type_eq, expected_opcodes,
}

-- The errors of error.rs that the modelled code returns; `other`, `tx_script`, `script_builder` and
-- `address_parse` hold the text of what a crate reports.
pub data KaspaError : Type 0 where
  tx_script script_builder address_parse from_utf8_error other : Bytes → KaspaError
  too_many_opcodes invalid_secret_hash_length invalid_swap_id_length : KaspaError
  missing_secret missing_redeem_script invalid_secret_length no_utxos : KaspaError
  opcode_mismatch : ℕ → KaspaError
  missing_data : DataType → KaspaError
  invalid_sig_script_length wrong_branch_selector insufficient_funds : ℕ → ℕ → KaspaError
  script_announce_address_mismatch script_announce_swap_id_mismatch : Bytes → Bytes → KaspaError
  script_announce_timelock_mismatch : ℕ → ℕ → KaspaError

-- A parsed opcode, by the two methods that the code calls of it.
pub record ParsedOp : Type 0 where
  pub value : ℕ
  pub get_data : Bytes

unfoldable pub value_to_bytes : ℕ → Bytes
value_to_bytes val =
    if nat_beq val 0 then 0 ∷ [] else (if leb 81 val && leb val 96 then (val - 80) ∷ [] else [])

unfoldable pub extract_opcode_data : ParsedOp → Bytes
extract_opcode_data op = elim op.get_data [ b ∷ bs ↦ b ∷ bs | [] ↦ value_to_bytes op.value ]

module _ (code : Opcode → ℕ) where
  -- The loop of collect_data, from position `i` on, over the opcodes beside what is expected there.
  unfoldable pub collect_from :
      ℕ
      → List (ExpectedOpCode × DataType)
      → List ParsedOp
      → Dict DataType Bytes
      → Result KaspaError (Dict DataType Bytes)
  collect_from i _ [] found = ok found
  collect_from i [] (op ∷ ops) found = err too_many_opcodes
  collect_from i ((exactly o, label) ∷ layout) (op ∷ ops) found = elim (nat_beq op.value (code o)) [
    | true ↦ collect_from (suc i) layout ops found
    | false ↦ err (opcode_mismatch i)
  ]
  collect_from i ((pushes, label) ∷ layout) (op ∷ ops) found =
      collect_from (suc i) layout ops
        (if label == opcode then found else insert label (extract_opcode_data op) found)

  unfoldable pub collect_data : List ParsedOp → Result KaspaError (Dict DataType Bytes)
  collect_data script = do
    fail_if (not (nat_beq (length script) (length expected_opcodes))) too_many_opcodes
    collect_from 0 expected_opcodes script []

  -- `secret.try_into()`, and the tests of the redeem script after it.
  abbrev reveal_of : Bytes → ParsedOp → Result KaspaError Bytes
  reveal_of [] redeem_op = err missing_secret
  reveal_of (b ∷ bs) redeem_op = do
    fail_if (not (nat_beq (length (b ∷ bs)) 32)) invalid_secret_length
    fail_if (nat_beq (length (extract_opcode_data redeem_op)) 0) missing_redeem_script
    ok (b ∷ bs)

  unfoldable pub extract_reveal_secret : List ParsedOp → Result KaspaError Bytes
  extract_reveal_secret (secret_op ∷ selector_op ∷ redeem_op ∷ []) = do
    fail_if (not (nat_beq selector_op.value (code op_true)))
        (wrong_branch_selector (code op_true) selector_op.value)
    reveal_of (extract_opcode_data secret_op) redeem_op
  extract_reveal_secret sig_script = err (invalid_sig_script_length 3 (length sig_script))

  unfoldable pub validate_refund_sig : List ParsedOp → Result KaspaError (Unit {0})
  validate_refund_sig (selector_op ∷ redeem_op ∷ []) = do
    fail_if (not (nat_beq selector_op.value (code op_false)))
        (wrong_branch_selector (code op_false) selector_op.value)
    fail_if (nat_beq (length (extract_opcode_data redeem_op)) 0) missing_redeem_script
    ok tt
  validate_refund_sig sig_script = err (invalid_sig_script_length 2 (length sig_script))
