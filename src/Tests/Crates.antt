-- ===== src/Tests/Crates.antt =====
-- The crates of Kaspa as small functions: scripts of opcodes that each stand with their data's length,
-- and addresses that are their own scripts.
use stroemnet.Common.{
  ℕ, zero, suc, ◌+◌, ◌≤◌, ◌<◌, ◌^◌, ◌≡◌, refl, inr, List, [], ◌∷◌, ◌++◌, map, arith, Bytes, ok,
  length, length-append, leb, nat_beq, le_bytes, le_value-le_bytes, if◌then◌else◌, ok_inj, ap,
}
use stroemnet.Kaspa.Script.{
  Opcode, op_false, op_true, op_if, op_else, op_end_if, op_equal_verify, op_sub,
  op_num_equal_verify, op_greater_than_or_equal, op_sha256, op_check_lock_time_verify,
  op_tx_input_count, op_tx_output_count, op_tx_input_index, op_tx_input_amount, op_tx_output_amount,
  op_tx_output_spk, Instruction, add_op, add_data, add_i64,
}
use stroemnet.Kaspa.Ops.{ParsedOp}
use stroemnet.Kaspa.Extract.{Crates}
use stroemnet.Kaspa.Restored.{IsNumber}

abbrev pub code : Opcode → ℕ
code op_false = 0
code op_true = 81
code op_if = 99
code op_else = 103
code op_end_if = 104
code op_equal_verify = 136
code op_sub = 148
code op_num_equal_verify = 157
code op_greater_than_or_equal = 162
code op_sha256 = 168
code op_check_lock_time_verify = 176
code op_tx_input_count = 179
code op_tx_output_count = 180
code op_tx_input_index = 185
code op_tx_input_amount = 190
code op_tx_output_amount = 194
code op_tx_output_spk = 195

abbrev pub push : Instruction → ParsedOp
push (add_op o) = record { value = code o; get_data = [] }
push (add_data []) = record { value = 0; get_data = [] }
push (add_data (n ∷ [])) =
    if nat_beq n 0
    then record { value = 0; get_data = [] }
    else (if leb n 16
        then record { value = 80 + n; get_data = [] }
        else record { value = 1; get_data = n ∷ [] })
push (add_data (m ∷ n ∷ d)) = record { value = length (m ∷ n ∷ d); get_data = m ∷ n ∷ d }
push (add_i64 n) = record { value = 8; get_data = le_bytes 8 n }

pub push-op : (o : Opcode) → (push (add_op o)).value ≡ code o
push-op o = refl

pub push-many : (d : Bytes) → 2 ≤ length d → (push (add_data d)).get_data ≡ d
push-many [] h = absurd (ground arith)
push-many (n ∷ []) h = absurd (ground arith)
push-many (m ∷ n ∷ d) h = refl

pub push-zero : push (add_data (0 ∷ [])) ≡ record { value = 0; get_data = [] }
push-zero = refl

pub push-byte :
    (n : ℕ) → 1 ≤ n → n ≤ 16 → push (add_data (n ∷ [])) ≡ record { value = 80 + n; get_data = [] }
push-byte n low high = ground arith

pub push-IsNumber : (n : ℕ) → n < 2 ^ 63 → IsNumber n (push (add_i64 n))
push-IsNumber n h = inr (inr (ground arith, omega arith, le_value-le_bytes 8 n (omega arith)))

encode_ops : List ParsedOp → Bytes
encode_ops [] = []
encode_ops (op ∷ ops) = op.value ∷ length op.get_data ∷ (op.get_data ++ encode_ops ops)

take : ℕ → Bytes → Bytes
take zero bytes = []
take (suc n) [] = []
take (suc n) (b ∷ bytes) = b ∷ take n bytes

drop : ℕ → Bytes → Bytes
drop zero bytes = bytes
drop (suc n) [] = []
drop (suc n) (b ∷ bytes) = drop n bytes

decode_ops : ℕ → Bytes → List ParsedOp
decode_ops zero bytes = []
decode_ops (suc fuel) [] = []
decode_ops (suc fuel) (v ∷ []) = []
decode_ops (suc fuel) (v ∷ n ∷ rest) =
    record { value = v; get_data = take n rest } ∷ decode_ops fuel (drop n rest)

take-append : (xs ys : Bytes) → take (length xs) (xs ++ ys) ≡ xs
unfolding take
take-append [] ys = refl
take-append (x ∷ xs) ys = ap (λ (l : Bytes). x ∷ l) (take-append xs ys)

drop-append : (xs ys : Bytes) → drop (length xs) (xs ++ ys) ≡ ys
unfolding drop
drop-append [] ys = refl
drop-append (x ∷ xs) ys = drop-append xs ys

decode_ops-encode_ops :
    (fuel : ℕ) (ops : List ParsedOp) → length ops ≤ fuel → decode_ops fuel (encode_ops ops) ≡ ops
unfolding decode_ops encode_ops
decode_ops-encode_ops zero [] h = refl
decode_ops-encode_ops zero (op ∷ ops) h = absurd (omega arith)
decode_ops-encode_ops (suc fuel) [] h = refl
decode_ops-encode_ops (suc fuel) (op ∷ ops) h =
    rw (take-append op.get_data (encode_ops ops), drop-append op.get_data (encode_ops ops))
      (ap (λ (l : List ParsedOp). op ∷ l) (decode_ops-encode_ops fuel ops (omega arith)))

length-encode_ops : (ops : List ParsedOp) → length ops ≤ length (encode_ops ops)
unfolding encode_ops
length-encode_ops [] = omega arith
length-encode_ops (op ∷ ops) =
    omega (arith, length-encode_ops ops, length-append op.get_data (encode_ops ops))

unfoldable pub toy_crates : Crates
unfolding encode_ops decode_ops take drop
toy_crates = record {
  code = code;
  drain = λ calls. ok (encode_ops (map push calls));
  parse_script = λ bytes. ok (decode_ops (length bytes) bytes);
  spk_of_address = λ address. ok record { version = 0; script = address };
  address_of_spk = λ spk prefix. ok spk.script;
  pay_to_script_hash_script = λ script. record { version = 0; script = length script ∷ [] };
  from_utf8 = λ bytes. ok bytes;
}

pub parse-drain :
    (calls : List Instruction) (script : Bytes)
    → toy_crates.drain calls ≡ ok script
    → toy_crates.parse_script script ≡ ok (map push calls)
unfolding toy_crates
parse-drain calls script h =
    let ops = map push calls in
    let same : encode_ops ops ≡ script = ok_inj h in
    ap ok
      (rw (← same) (decode_ops-encode_ops (length (encode_ops ops)) ops (length-encode_ops ops)))
