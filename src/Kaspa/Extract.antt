-- ===== src/Kaspa/Extract.antt =====
-- chains/kaspa/contracts/extract/commitment.rs and restore.rs: the commitment that an HTLC script
-- holds. The crates of Kaspa are the record `Crates`.
use stroemnet.Common.{
  ℕ, ◌+◌, ◌*◌, ◌/◌, ◌%◌, not, none, some, List, [], ◌∷◌, Bytes, Result, ok, err, map_err, ok_or,
  fail_if, ◌>>=◌, ◌>>◌, nat_beq, length, bytes_eq,
}
use stroemnet.Common.Dict.{Dict, get, insert}
use stroemnet.Protocol.Channel.{ChannelId, to_u8}
use stroemnet.Protocol.V1.{CommitmentV1}
use stroemnet.Records.Swap.{UtxoScript}
use stroemnet.Kaspa.Script.{Opcode, Instruction, decode_u64_from_script}
use stroemnet.Kaspa.Layout.{
  DataType, data_type_eq, swap_id, sender_spk, receiver_spk, secret_hash, timelock,
  sender_receiver_address, destination,
}
use stroemnet.Kaspa.Ops.{
  KaspaError, tx_script, from_utf8_error, missing_data, invalid_swap_id_length,
  invalid_secret_hash_length, invalid_sig_script_length, ParsedOp, collect_data,
}

-- kaspa_addresses::Prefix.
pub data Prefix : Type 0 where
  mainnet testnet simnet devnet : Prefix

-- kaspa_consensus_core's ScriptPublicKey, by its version and its script.
pub record ScriptPublicKey : Type 0 where
  pub version : ℕ
  pub script : Bytes

-- What the code calls of the crates: the opcodes' bytes, the ScriptBuilder, deserialize_next_opcode
-- to the end of a script, Address::try_from with pay_to_address_script, extract_script_pub_key_address
-- with to_string, pay_to_script_hash_script, and the check of String::from_utf8. An error is its text.
pub record Crates : Type 0 where
  pub code : Opcode → ℕ
  pub drain : List Instruction → Result Bytes Bytes
  pub parse_script : Bytes → Result Bytes (List ParsedOp)
  pub spk_of_address : Bytes → Result Bytes ScriptPublicKey
  pub address_of_spk : ScriptPublicKey → Prefix → Result Bytes Bytes
  pub pay_to_script_hash_script : Bytes → ScriptPublicKey
  pub from_utf8 : Bytes → Result Bytes Bytes

unfoldable pub spk_from_bytes : Bytes → Result KaspaError ScriptPublicKey
spk_from_bytes (v0 ∷ v1 ∷ script) = ok record { version = v0 * 256 + v1; script = script }
spk_from_bytes bytes = err (invalid_sig_script_length 2 (length bytes))

-- broadcast/utxo.rs: the version of a ScriptPublicKey is a u16.
unfoldable pub spk_to_vec : ScriptPublicKey → Bytes
spk_to_vec spk = (spk.version / 256) ∷ (spk.version % 256) ∷ spk.script

-- `data.get(label).ok_or(MissingData(label))`
unfoldable pub present : DataType → Dict DataType Bytes → Result KaspaError Bytes
present label found = ok_or (get label found) (missing_data label)

-- The same with `.filter(|v| !v.is_empty())`.
unfoldable pub present_and_filled : DataType → Dict DataType Bytes → Result KaspaError Bytes
present_and_filled label found = elim (get label found) [
  | some (b ∷ bs) ↦ ok (b ∷ bs)
  | some [] ↦ err (missing_data label)
  | none ↦ err (missing_data label)
]

-- `.first().ok_or(MissingData(label))`
abbrev first_byte : DataType → Bytes → Result KaspaError ℕ
first_byte label [] = err (missing_data label)
first_byte label (b ∷ bs) = ok b

-- `try_into()` to a [u8; 32].
unfoldable pub exactly_32 : KaspaError → Bytes → Result KaspaError Bytes
exactly_32 e bytes = do fail_if (not (nat_beq (length bytes) 32)) e; ok bytes

module _ (crates : Crates) where
  -- The address of a serialized script public key.
  unfoldable pub address_of_bytes : Bytes → Prefix → Result KaspaError Bytes
  address_of_bytes bytes prefix = do
    spk ← spk_from_bytes bytes
    map_err tx_script (crates.address_of_spk spk prefix)

  -- extract_commitment, from the data that collect_data has found.
  unfoldable pub commitment_of :
      Dict DataType Bytes → Bytes → Prefix → ChannelId → Result KaspaError CommitmentV1
  commitment_of found amount prefix source_channel_id = do
    id ← present swap_id found >>= exactly_32 invalid_swap_id_length
    sender ← present_and_filled sender_spk found
    receiver ← present_and_filled receiver_spk found
    hash ← present secret_hash found >>= exactly_32 invalid_secret_hash_length
    unlock_ts_ms ← present_and_filled timelock found
    sender_destination ← present_and_filled sender_receiver_address found
    target ← present destination found >>= first_byte destination
    sender_address ← address_of_bytes sender prefix
    receiver_address ← address_of_bytes receiver prefix
    destination_address ← map_err from_utf8_error (crates.from_utf8 sender_destination)
    ok record {
      swap_id = id;
      addresses = record {
        sender = sender_address;
        receiver = receiver_address;
        sender_destination = destination_address;
      };
      amount = record { value = amount; decimals = 8 };
      secret_hash = hash;
      unlock_ts = decode_u64_from_script unlock_ts_ms / 1000;
      source = to_u8 source_channel_id;
      destination = target;
    }

  unfoldable pub extract_commitment :
      List ParsedOp → Bytes → Prefix → ChannelId → Result KaspaError CommitmentV1
  extract_commitment script amount prefix source_channel_id = do
    found ← collect_data crates.code script
    commitment_of found amount prefix source_channel_id

  unfoldable pub reconstruct : UtxoScript → Prefix → ChannelId → Result KaspaError CommitmentV1
  reconstruct script prefix source_channel_id = do
    ops ← map_err tx_script (crates.parse_script script.redeem_script)
    extract_commitment ops script.deposit_target prefix source_channel_id

  -- A script that cannot be read is logged and left out.
  unfoldable pub commitments_from_scripts :
      Dict Bytes UtxoScript → Prefix → ChannelId → Dict Bytes CommitmentV1 → Dict Bytes CommitmentV1
  commitments_from_scripts [] prefix source_channel_id out = out
  commitments_from_scripts ((id, script) ∷ scripts) prefix source_channel_id out =
      commitments_from_scripts scripts prefix source_channel_id
        (elim (reconstruct script prefix source_channel_id) [
          | ok c ↦ insert id c out
          | err e ↦ out
        ])
