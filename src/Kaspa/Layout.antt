-- ===== src/Kaspa/Layout.antt =====
-- chains/kaspa/contracts/contract_v1.rs: what each position of an HTLC script has to hold.
use stroemnet.Common.{◌≡◌, ◌↔◌, Bool, true, false, List, [], ◌∷◌, arith, Eq}
use stroemnet.Kaspa.Script.{
  Opcode, op_false, op_if, op_else, op_end_if, op_equal_verify, op_sub, op_num_equal_verify,
  op_greater_than_or_equal, op_sha256, op_check_lock_time_verify, op_tx_input_count,
  op_tx_output_count, op_tx_input_index, op_tx_input_amount, op_tx_output_amount, op_tx_output_spk,
}

pub data ExpectedOpCode : Type 0 where
  exactly : Opcode → ExpectedOpCode
  pushes : ExpectedOpCode

pub data DataType : Type 0 where
  opcode secret_hash swap_id receiver_spk sender_spk timelock : DataType
  sender_receiver_address destination : DataType

unfoldable pub data_type_beq : DataType → DataType → Bool
data_type_beq opcode opcode = true
data_type_beq secret_hash secret_hash = true
data_type_beq swap_id swap_id = true
data_type_beq receiver_spk receiver_spk = true
data_type_beq sender_spk sender_spk = true
data_type_beq timelock timelock = true
data_type_beq sender_receiver_address sender_receiver_address = true
data_type_beq destination destination = true
data_type_beq _ _ = false

pub data_type_beq_iff : (a b : DataType) → (data_type_beq a b ≡ true) ↔ (a ≡ b)
unfolding data_type_beq
data_type_beq_iff a b = ground arith

instance abbrev pub data_type_eq : Eq DataType
data_type_eq = record { beq = data_type_beq; beq_iff = data_type_beq_iff }

abbrev is_opcode : Opcode → ExpectedOpCode × DataType
is_opcode o = (exactly o, opcode)

abbrev is_data : DataType → ExpectedOpCode × DataType
is_data label = (pushes, label)

unfoldable pub expected_opcodes : List (ExpectedOpCode × DataType)
expected_opcodes =
    is_opcode op_if
    ∷ is_opcode op_sha256
    ∷ is_data secret_hash
    ∷ is_opcode op_equal_verify
    ∷ is_opcode op_tx_input_count
    ∷ is_data opcode
    ∷ is_opcode op_num_equal_verify
    ∷ is_opcode op_tx_output_count
    ∷ is_data opcode
    ∷ is_opcode op_num_equal_verify
    ∷ is_data receiver_spk
    ∷ is_data opcode
    ∷ is_opcode op_tx_output_spk
    ∷ is_opcode op_equal_verify
    ∷ is_data opcode
    ∷ is_opcode op_tx_output_amount
    ∷ is_opcode op_tx_input_index
    ∷ is_opcode op_tx_input_amount
    ∷ is_data opcode
    ∷ is_opcode op_sub
    ∷ is_opcode op_greater_than_or_equal
    ∷ is_opcode op_else
    ∷ is_data timelock
    ∷ is_opcode op_check_lock_time_verify
    ∷ is_opcode op_tx_input_count
    ∷ is_data opcode
    ∷ is_opcode op_num_equal_verify
    ∷ is_opcode op_tx_output_count
    ∷ is_data opcode
    ∷ is_opcode op_num_equal_verify
    ∷ is_data sender_spk
    ∷ is_data opcode
    ∷ is_opcode op_tx_output_spk
    ∷ is_opcode op_equal_verify
    ∷ is_data opcode
    ∷ is_opcode op_tx_output_amount
    ∷ is_opcode op_tx_input_index
    ∷ is_opcode op_tx_input_amount
    ∷ is_data opcode
    ∷ is_opcode op_sub
    ∷ is_opcode op_greater_than_or_equal
    ∷ is_opcode op_end_if
    ∷ is_opcode op_false
    ∷ is_opcode op_if
    ∷ is_data swap_id
    ∷ is_data sender_receiver_address
    ∷ is_data destination
    ∷ is_opcode op_end_if
    ∷ []
