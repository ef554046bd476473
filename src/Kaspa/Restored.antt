-- ===== src/Kaspa/Restored.antt =====
-- chains/kaspa/contracts/extract beside contracts/script.rs: what extraction finds in the script that
-- create_htlc_script makes. `push` gives the opcode that a call of the builder appends, as it parses
-- back; its laws are those of the ScriptBuilder's canonical pushes.
use stroemnet.Common.{
  le_value, ℕ, zero, suc, ◌+◌, ◌*◌, ◌/◌, ◌%◌, ◌^◌, ◌≤◌, ◌<◌, ◌≡◌, ◌≢◌, refl, ◌∙◌, ◌⊎◌, inl, inr,
  List, [], ◌∷◌, map, arith, Bytes, ok, length, ◌==◌, if◌then◌else◌,
}
use stroemnet.Common.Dict.{Dict, insert, get}
use stroemnet.Protocol.Channel.{ChannelId, to_u8}
use stroemnet.Kaspa.Script.{
  Opcode, Instruction, add_op, add_data, add_i64, htlc_instructions, pad_to, decode_u64_from_script,
}
use stroemnet.Kaspa.Layout.{
  ExpectedOpCode, exactly, pushes, DataType, opcode, data_type_eq, data_type_beq, expected_opcodes,
  secret_hash, swap_id, receiver_spk, sender_spk, timelock, sender_receiver_address, destination,
}
use stroemnet.Kaspa.Ops.{ParsedOp, value_to_bytes, extract_opcode_data, collect_from, collect_data}
use stroemnet.Kaspa.Extract.{
  Prefix, ScriptPublicKey, Crates, spk_from_bytes, spk_to_vec, present, present_and_filled,
  exactly_32, address_of_bytes, commitment_of, extract_commitment,
}

-- How a number of an i64 push stands in its opcode: zero and the numbers up to 16 have an opcode of
-- their own, any other is pushed as at most eight bytes, the lowest first.
abbrev pub IsNumber : ℕ → ParsedOp → Type 0
IsNumber n op =
    ((n ≡ 0) × (op.value ≡ 0) × (op.get_data ≡ []))
    ⊎ ((1 ≤ n) × (n ≤ 16) × (op.value ≡ 80 + n) × (op.get_data ≡ []))
    ⊎ ((op.get_data ≢ []) × (length op.get_data ≤ 8) × (le_value op.get_data ≡ n))

-- The calls of the builder put at each position what the layout expects there.
abbrev Fits : List (ExpectedOpCode × DataType) → List Instruction → Type 0
Fits [] [] = Unit
Fits ((exactly o, label) ∷ layout) (add_op p ∷ calls) = (o ≡ p) × Fits layout calls
Fits ((pushes, label) ∷ layout) (call ∷ calls) = Fits layout calls
Fits [] (call ∷ calls) = ◌≡◌ {A = ℕ} 0 1
Fits ((exactly o, label) ∷ layout) (add_data d ∷ calls) = ◌≡◌ {A = ℕ} 0 1
Fits ((exactly o, label) ∷ layout) (add_i64 n ∷ calls) = ◌≡◌ {A = ℕ} 0 1
Fits (entry ∷ layout) [] = ◌≡◌ {A = ℕ} 0 1

le_value-pad_to :
    (slots : ℕ) (bytes : Bytes)
    → length bytes ≤ slots
    → le_value (pad_to slots bytes) ≡ le_value bytes
unfolding pad_to
le_value-pad_to zero [] h = ground arith
le_value-pad_to zero (b ∷ bytes) h = ground arith
le_value-pad_to (suc slots) [] h = ground (arith, le_value-pad_to slots [])
le_value-pad_to (suc slots) (b ∷ bytes) h = ground (arith, le_value-pad_to slots bytes)

value_to_bytes-small : (n : ℕ) → 1 ≤ n → n ≤ 16 → value_to_bytes (80 + n) ≡ n ∷ []
unfolding value_to_bytes
value_to_bytes-small n lo hi = ground arith

spk_to_vec-long : (spk : ScriptPublicKey) → 2 ≤ length (spk_to_vec spk)
unfolding spk_to_vec
spk_to_vec-long spk = omega arith

decode-long :
    (n : ℕ) (d : Bytes)
    → d ≢ []
    → length d ≤ 8
    → le_value d ≡ n
    → (b : ℕ) × (bs : Bytes) × (d ≡ b ∷ bs) × (decode_u64_from_script (b ∷ bs) ≡ n)
unfolding decode_u64_from_script
decode-long n [] ne short e = absurd (ne refl)
decode-long n (b ∷ bs) ne short e = (b, bs, refl, le_value-pad_to 8 (b ∷ bs) short ∙ e)

extract_opcode_data-filled :
    (op : ParsedOp) (b : ℕ) (bs : Bytes) → op.get_data ≡ b ∷ bs → extract_opcode_data op ≡ b ∷ bs
unfolding extract_opcode_data
extract_opcode_data-filled op b bs h = rw h refl

-- The bytes of a number read back as it, and there is one at least.
extract_opcode_data-number :
    (n : ℕ) (op : ParsedOp)
    → IsNumber n op
    → (b : ℕ) × (bs : Bytes) × (extract_opcode_data op ≡ b ∷ bs)
      × (decode_u64_from_script (b ∷ bs) ≡ n)
unfolding extract_opcode_data value_to_bytes decode_u64_from_script pad_to
extract_opcode_data-number n op (inl (e, v, d)) = (0, [], ground arith, ground arith)
extract_opcode_data-number n op (inr (inl (lo, hi, v, d))) = (n, [], ground arith, ground arith)
extract_opcode_data-number n op (inr (inr (ne, short, e))) =
    let (b, bs, shown, back) = decode-long n op.get_data ne short e in
    (b, bs, extract_opcode_data-filled op b bs shown, back)

gather :
    (layout : List (ExpectedOpCode × DataType))
    → List ParsedOp
    → Dict DataType Bytes
    → Dict DataType Bytes
gather _ [] found = found
gather [] (op ∷ ops) found = found
gather ((exactly o, label) ∷ layout) (op ∷ ops) found = gather layout ops found
gather ((pushes, label) ∷ layout) (op ∷ ops) found =
    gather layout ops
      (if label == opcode then found else insert label (extract_opcode_data op) found)

module _ (crates : Crates) (push : Instruction → ParsedOp)
    (push-op : (o : Opcode) → (push (add_op o)).value ≡ crates.code o) where
  collect_from-Fits :
      (i : ℕ) (layout : List (ExpectedOpCode × DataType)) (calls : List Instruction)
      (found : Dict DataType Bytes)
      → Fits layout calls
      → collect_from crates.code i layout (map push calls) found
        ≡ ok (gather layout (map push calls) found)
  unfolding collect_from gather
  collect_from-Fits i [] [] found h = refl
  collect_from-Fits i ((exactly o, label) ∷ layout) (add_op p ∷ calls) found (e, h) =
      ground (arith, push-op o, collect_from-Fits (suc i) layout calls found)
  collect_from-Fits i ((pushes, label) ∷ layout) (call ∷ calls) found h =
      collect_from-Fits (suc i) layout calls _ h
  collect_from-Fits i [] (call ∷ calls) found h = absurd (ground arith)
  collect_from-Fits i ((exactly o, label) ∷ layout) (add_data d ∷ calls) found h =
      absurd (ground arith)
  collect_from-Fits i ((exactly o, label) ∷ layout) (add_i64 n ∷ calls) found h =
      absurd (ground arith)
  collect_from-Fits i (entry ∷ layout) [] found h = absurd (ground arith)

  -- What the layout finds in the script of a swap.
  collect_data-htlc :
      (sender receiver_address receiver hash : Bytes) (lock target : ℕ) (id : Bytes)
      → let data_of = λ (call : Instruction). extract_opcode_data (push call) in
        collect_data crates.code
          (map push (htlc_instructions sender receiver_address receiver hash lock target id))
        ≡ ok (
            (secret_hash, data_of (add_data hash))
            ∷ (receiver_spk, data_of (add_data receiver))
            ∷ (timelock, data_of (add_i64 lock))
            ∷ (sender_spk, data_of (add_data sender))
            ∷ (swap_id, data_of (add_data id))
            ∷ (sender_receiver_address, data_of (add_data receiver_address))
            ∷ (destination, data_of (add_data (target ∷ [])))
            ∷ [])
  unfolding collect_data htlc_instructions expected_opcodes gather insert data_type_beq
  collect_data-htlc sender receiver_address receiver hash lock target id =
      collect_from-Fits 0 expected_opcodes
        (htlc_instructions sender receiver_address receiver hash lock target id) [] (ground arith)

module _ (crates : Crates) where
  address_of_bytes-spk_to_vec :
      (spk : ScriptPublicKey) (prefix : Prefix) (address : Bytes)
      → crates.address_of_spk spk prefix ≡ ok address
      → address_of_bytes crates (spk_to_vec spk) prefix ≡ ok address
  unfolding address_of_bytes spk_to_vec spk_from_bytes
  address_of_bytes-spk_to_vec spk prefix address h =
      let e : spk.version / 256 * 256 + spk.version % 256 ≡ spk.version = omega arith in
      rw (e, h) refl

  commitment_of-found :
      (sender receiver : ScriptPublicKey) (b a c lock target : ℕ) (bs hash rest : Bytes)
      (id amount sender_address receiver_text : Bytes) (prefix : Prefix)
      (source_channel_id : ChannelId)
      → length id ≡ 32
      → length hash ≡ 32
      → decode_u64_from_script (b ∷ bs) ≡ lock
      → crates.address_of_spk sender prefix ≡ ok sender_address
      → crates.address_of_spk receiver prefix ≡ ok receiver_text
      → crates.from_utf8 (a ∷ c ∷ rest) ≡ ok (a ∷ c ∷ rest)
      → commitment_of crates
          ((secret_hash, hash)
            ∷ (receiver_spk, spk_to_vec receiver)
            ∷ (timelock, b ∷ bs)
            ∷ (sender_spk, spk_to_vec sender)
            ∷ (swap_id, id)
            ∷ (sender_receiver_address, a ∷ c ∷ rest)
            ∷ (destination, target ∷ [])
            ∷ [])
          amount
          prefix
          source_channel_id
        ≡ ok record {
          swap_id = id;
          addresses = record {
            sender = sender_address;
            receiver = receiver_text;
            sender_destination = a ∷ c ∷ rest;
          };
          amount = record { value = amount; decimals = 8 };
          secret_hash = hash;
          unlock_ts = lock / 1000;
          source = to_u8 source_channel_id;
          destination = target;
        }
  unfolding commitment_of present present_and_filled get data_type_beq exactly_32 spk_to_vec
  commitment_of-found sender receiver b a c lock target bs hash rest id amount sender_address
        receiver_text prefix source_channel_id id32 hash32 e sent received text =
      rw
        (
          id32,
          hash32,
          address_of_bytes-spk_to_vec sender prefix sender_address sent,
          address_of_bytes-spk_to_vec receiver prefix receiver_text received,
          text,
          e,
        )
        refl

module _ (crates : Crates) (push : Instruction → ParsedOp)
    (push-op : (o : Opcode) → (push (add_op o)).value ≡ crates.code o)
    (push-many : (d : Bytes) → 2 ≤ length d → (push (add_data d)).get_data ≡ d)
    (push-zero : push (add_data (0 ∷ [])) ≡ record { value = 0; get_data = [] })
    (push-byte : (n : ℕ)
      → 1 ≤ n
      → n ≤ 16
      → push (add_data (n ∷ [])) ≡ record { value = 80 + n; get_data = [] })
    (push-number : (n : ℕ) → n < 2 ^ 63 → IsNumber n (push (add_i64 n))) where
  extract_opcode_data-many :
      (d : Bytes) → 2 ≤ length d → extract_opcode_data (push (add_data d)) ≡ d
  unfolding extract_opcode_data
  extract_opcode_data-many [] h = absurd (ground arith)
  extract_opcode_data-many (b ∷ []) h = absurd (ground arith)
  extract_opcode_data-many (a ∷ b ∷ d) h = rw (push-many (a ∷ b ∷ d) h) refl

  extract_opcode_data-byte :
      (n : ℕ) → n ≤ 16 → extract_opcode_data (push (add_data (n ∷ []))) ≡ n ∷ []
  unfolding extract_opcode_data value_to_bytes
  extract_opcode_data-byte zero h = rw push-zero refl
  extract_opcode_data-byte (suc n) h =
      rw (push-byte (suc n) (omega arith) h) (value_to_bytes-small (suc n) (omega arith) h)

  extract_commitment-shown :
      (sender receiver : ScriptPublicKey) (b a c lock target : ℕ) (bs rest hash : Bytes)
      (id amount sender_address receiver_text : Bytes) (prefix : Prefix)
      (source_channel_id : ChannelId)
      → length id ≡ 32
      → length hash ≡ 32
      → extract_opcode_data (push (add_i64 lock)) ≡ b ∷ bs
      → decode_u64_from_script (b ∷ bs) ≡ lock
      → target ≤ 16
      → crates.address_of_spk sender prefix ≡ ok sender_address
      → crates.address_of_spk receiver prefix ≡ ok receiver_text
      → crates.from_utf8 (a ∷ c ∷ rest) ≡ ok (a ∷ c ∷ rest)
      → extract_commitment crates
          (map push (
            htlc_instructions
              (spk_to_vec sender)
              (a ∷ c ∷ rest)
              (spk_to_vec receiver)
              hash
              lock
              target
              id))
          amount
          prefix
          source_channel_id
        ≡ ok record {
          swap_id = id;
          addresses = record {
            sender = sender_address;
            receiver = receiver_text;
            sender_destination = a ∷ c ∷ rest;
          };
          amount = record { value = amount; decimals = 8 };
          secret_hash = hash;
          unlock_ts = lock / 1000;
          source = to_u8 source_channel_id;
          destination = target;
        }
  unfolding extract_commitment
  extract_commitment-shown sender receiver b a c lock target bs rest hash id amount sender_address
        receiver_text prefix source_channel_id id32 hash32 shown e byte sent received text =
      rw
        (
          collect_data-htlc crates push push-op (spk_to_vec sender) (a ∷ c ∷ rest)
              (spk_to_vec receiver) hash lock target id,
          shown,
          extract_opcode_data-many hash (omega arith),
          extract_opcode_data-many id (omega arith),
          extract_opcode_data-many (spk_to_vec sender) (spk_to_vec-long sender),
          extract_opcode_data-many (spk_to_vec receiver) (spk_to_vec-long receiver),
          extract_opcode_data-many (a ∷ c ∷ rest) (omega arith),
          extract_opcode_data-byte target byte,
        )
        (commitment_of-found crates sender receiver b a c lock target bs hash rest id amount
          sender_address receiver_text prefix source_channel_id id32 hash32 e sent received text)

  -- A script that create_htlc_script makes of 32-byte ids and hashes, of two script public keys, of
  -- an address of two bytes or more, of a time lock below 2^63 and of a destination of at most 16
  -- is read back as the commitment with those fields: its time lock in seconds, its addresses those
  -- that the crates print for the two keys, its amount the one that the caller gives.
  pub extract_commitment-htlc :
      (sender receiver : ScriptPublicKey) (receiver_address hash : Bytes) (lock target : ℕ)
      (id amount sender_address receiver_text : Bytes) (prefix : Prefix)
      (source_channel_id : ChannelId)
      → length id ≡ 32
      → length hash ≡ 32
      → 2 ≤ length receiver_address
      → lock < 2 ^ 63
      → target ≤ 16
      → crates.address_of_spk sender prefix ≡ ok sender_address
      → crates.address_of_spk receiver prefix ≡ ok receiver_text
      → crates.from_utf8 receiver_address ≡ ok receiver_address
      → extract_commitment crates
          (map push (
            htlc_instructions
              (spk_to_vec sender)
              receiver_address
              (spk_to_vec receiver)
              hash
              lock
              target
              id))
          amount
          prefix
          source_channel_id
        ≡ ok record {
          swap_id = id;
          addresses = record {
            sender = sender_address;
            receiver = receiver_text;
            sender_destination = receiver_address;
          };
          amount = record { value = amount; decimals = 8 };
          secret_hash = hash;
          unlock_ts = lock / 1000;
          source = to_u8 source_channel_id;
          destination = target;
        }
  extract_commitment-htlc sender receiver [] hash lock target id amount sender_address receiver_text
        prefix source_channel_id id32 hash32 long small byte sent received text =
      absurd (ground arith)
  extract_commitment-htlc sender receiver (a ∷ []) hash lock target id amount sender_address
        receiver_text prefix source_channel_id id32 hash32 long small byte sent received text =
      absurd (ground arith)
  extract_commitment-htlc sender receiver (a ∷ c ∷ rest) hash lock target id amount sender_address
        receiver_text prefix source_channel_id id32 hash32 long small byte sent received text =
      let (b, bs, shown, e) =
        extract_opcode_data-number lock (push (add_i64 lock)) (push-number lock small) in
      extract_commitment-shown sender receiver b a c lock target bs rest hash id amount
        sender_address receiver_text prefix source_channel_id id32 hash32 shown e byte sent received
        text
