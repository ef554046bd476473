-- ===== src/Kaspa/Script.antt =====
-- chains/kaspa/contracts/script.rs: the HTLC script as the calls that create_htlc_script makes of
-- the ScriptBuilder. The opcode bytes and the builder are of the crate kaspa_txscript and are
-- parameters.
use stroemnet.Common.{ℕ, zero, suc, List, [], ◌∷◌, Bytes, Result, le_value}

-- The opcodes that the code names.
pub data Opcode : Type 0 where
  op_false op_true op_if op_else op_end_if op_equal_verify op_sub : Opcode
  op_num_equal_verify op_greater_than_or_equal op_sha256 : Opcode
  op_check_lock_time_verify op_tx_input_count op_tx_output_count : Opcode
  op_tx_input_index op_tx_input_amount op_tx_output_amount op_tx_output_spk : Opcode

-- One call of the builder: add_op, add_data or add_i64. An i64 is given by its 64 bits, two's
-- complement, as a u64: `timelock as i64` has the bits of `timelock`.
pub data Instruction : Type 0 where
  add_op : Opcode → Instruction
  add_data : Bytes → Instruction
  add_i64 : ℕ → Instruction

abbrev pub solver_reward : ℕ
solver_reward = 10000000

unfoldable pub htlc_instructions : Bytes → Bytes → Bytes → Bytes → ℕ → ℕ → Bytes → List Instruction
htlc_instructions sender_spk sender_receiver_address receiver_spk secret_hash timelock destination
      swap_id =
    add_op op_if
    ∷ add_op op_sha256
    ∷ add_data secret_hash
    ∷ add_op op_equal_verify
    ∷ add_op op_tx_input_count
    ∷ add_i64 2
    ∷ add_op op_num_equal_verify
    ∷ add_op op_tx_output_count
    ∷ add_i64 2
    ∷ add_op op_num_equal_verify
    ∷ add_data receiver_spk
    ∷ add_i64 0
    ∷ add_op op_tx_output_spk
    ∷ add_op op_equal_verify
    ∷ add_i64 0
    ∷ add_op op_tx_output_amount
    ∷ add_op op_tx_input_index
    ∷ add_op op_tx_input_amount
    ∷ add_i64 solver_reward
    ∷ add_op op_sub
    ∷ add_op op_greater_than_or_equal
    ∷ add_op op_else
    ∷ add_i64 timelock
    ∷ add_op op_check_lock_time_verify
    ∷ add_op op_tx_input_count
    ∷ add_i64 2
    ∷ add_op op_num_equal_verify
    ∷ add_op op_tx_output_count
    ∷ add_i64 2
    ∷ add_op op_num_equal_verify
    ∷ add_data sender_spk
    ∷ add_i64 0
    ∷ add_op op_tx_output_spk
    ∷ add_op op_equal_verify
    ∷ add_i64 0
    ∷ add_op op_tx_output_amount
    ∷ add_op op_tx_input_index
    ∷ add_op op_tx_input_amount
    ∷ add_i64 solver_reward
    ∷ add_op op_sub
    ∷ add_op op_greater_than_or_equal
    ∷ add_op op_end_if
    ∷ add_op op_false
    ∷ add_op op_if
    ∷ add_data swap_id
    ∷ add_data sender_receiver_address
    ∷ add_data (destination ∷ [])
    ∷ add_op op_end_if
    ∷ []

-- `drain` stands for a new builder that runs the calls in turn, each with its `?`, and is drained.
unfoldable pub create_htlc_script :
    (List Instruction → Result Bytes Bytes)
    → Bytes
    → Bytes
    → Bytes
    → Bytes
    → ℕ
    → ℕ
    → Bytes
    → Result Bytes Bytes
create_htlc_script drain sender_spk sender_receiver_address receiver_spk secret_hash timelock
      destination swap_id =
    drain (
      htlc_instructions sender_spk sender_receiver_address receiver_spk secret_hash timelock
        destination swap_id)

-- `padded.iter_mut().zip(bytes)`: the first `slots` bytes, and zeros up to there.
unfoldable pub pad_to : ℕ → Bytes → Bytes
pad_to zero bytes = []
pad_to (suc slots) [] = 0 ∷ pad_to slots []
pad_to (suc slots) (b ∷ bytes) = b ∷ pad_to slots bytes

unfoldable pub decode_u64_from_script : Bytes → ℕ
decode_u64_from_script bytes = le_value (pad_to 8 bytes)
