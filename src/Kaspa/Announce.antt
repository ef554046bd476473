-- ===== src/Kaspa/Announce.antt =====
-- chains/kaspa/signing/p2sh.rs, signing/keys.rs and broadcast/htlc.rs: the script and the address of
-- a commitment, and the check of an announced script.
use Prim.Native.String.{String}
use stroemnet.Common.{
  starts_with, ℕ, not, ◌++◌, Bytes, codes, Result, ok, err, map_err, fail_if, ◌>>=◌, ◌>>◌, nat_beq,
  bytes_eq, ◌==◌, sat_mul64, if◌then◌else◌,
}
use stroemnet.Protocol.Channel.{ChannelId}
use stroemnet.Protocol.V1.{CommitmentV1}
use stroemnet.Kaspa.Script.{create_htlc_script}
use stroemnet.Kaspa.Ops.{
  KaspaError, tx_script, script_builder, address_parse, other, script_announce_swap_id_mismatch,
  script_announce_timelock_mismatch, script_announce_address_mismatch,
}
use stroemnet.Kaspa.Extract.{
  Prefix, mainnet, testnet, simnet, devnet, ScriptPublicKey, Crates, spk_to_vec, extract_commitment,
}

unfoldable pub parse_network_prefix : Bytes → Result KaspaError Prefix
parse_network_prefix network_id =
    if starts_with (codes "mainnet") network_id
    then ok mainnet
    else (if starts_with (codes "testnet") network_id
        then ok testnet
        else (if starts_with (codes "simnet") network_id
            then ok simnet
            else (if starts_with (codes "devnet") network_id
                then ok devnet
                else err (other (codes "unknown kaspa network id: " ++ network_id)))))

-- `KaspaError::Other(format!("<label>{e}"))`
abbrev pub labelled : String → Bytes → KaspaError
labelled label e = other (codes label ++ e)

module _ (crates : Crates) where
  -- The call of create_htlc_script that p2sh_components and htlc_script_from_commitment share.
  unfoldable pub script_of :
      CommitmentV1 → ScriptPublicKey → ScriptPublicKey → Result KaspaError Bytes
  script_of c sender_spk receiver_spk = map_err script_builder (
      create_htlc_script crates.drain (spk_to_vec sender_spk) c.addresses.sender_destination
        (spk_to_vec receiver_spk) c.secret_hash (sat_mul64 c.unlock_ts 1000) c.destination
        c.swap_id)

  unfoldable pub htlc_script_from_commitment :
      CommitmentV1 → Result KaspaError (Bytes × ScriptPublicKey × ScriptPublicKey × ℕ)
  htlc_script_from_commitment c = do
    sender_spk ← map_err address_parse (crates.spk_of_address c.addresses.sender)
    receiver_spk ← map_err address_parse (crates.spk_of_address c.addresses.receiver)
    htlc_script ← script_of c sender_spk receiver_spk
    ok (htlc_script, sender_spk, receiver_spk, sat_mul64 c.unlock_ts 1000)

  unfoldable pub p2sh_components : Bytes → CommitmentV1 → Result KaspaError (Bytes × Bytes)
  p2sh_components network_id c = do
    prefix ← parse_network_prefix network_id
    sender_spk ← map_err (labelled "sender address: ") (crates.spk_of_address c.addresses.sender)
    receiver_spk ←
        map_err (labelled "receiver address: ") (crates.spk_of_address c.addresses.receiver)
    redeem_script ← script_of c sender_spk receiver_spk
    let p2sh_spk = crates.pay_to_script_hash_script redeem_script
    p2sh_addr ← map_err (labelled "p2sh address derive: ") (crates.address_of_spk p2sh_spk prefix)
    ok (p2sh_addr, redeem_script)

  unfoldable pub validate_script_announce :
      Bytes → ChannelId → Bytes → Bytes → Bytes → ℕ → Result KaspaError (Unit {0})
  validate_script_announce network_id channel_id announced_address redeem_script expected_swap_id
        expected_expiration_secs =
      do
        prefix ← parse_network_prefix network_id
        opcodes ← map_err tx_script (crates.parse_script redeem_script)
        extracted ← extract_commitment crates opcodes (codes "0") prefix channel_id
        fail_if (not (extracted.swap_id == expected_swap_id))
            (script_announce_swap_id_mismatch extracted.swap_id expected_swap_id)
        fail_if (not (nat_beq extracted.unlock_ts expected_expiration_secs))
            (script_announce_timelock_mismatch extracted.unlock_ts expected_expiration_secs)
        derived ←
            map_err (labelled "p2sh derive: ")
              (crates.address_of_spk (crates.pay_to_script_hash_script redeem_script) prefix)
        fail_if (not (derived == announced_address))
            (script_announce_address_mismatch announced_address derived)
        ok tt
