-- ===== src/Kaspa/Accepted.antt =====
-- chains/kaspa/signing/p2sh.rs beside contracts/extract: the script of a commitment is accepted when it
-- is announced, and gives the commitment back after a restart.
use mathlib.Core.Path.{subst}
use stroemnet.Common.{
  map_err-ok, ℕ, ◌+◌, ◌*◌, ◌/◌, ◌^◌, ◌≤◌, ◌<◌, ◌≡◌, refl, ap, ◌∙◌, true, List, [], ◌∷◌, map, arith,
  Bytes, ok, length, nat_beq, nat_beq_iff, >>=-eq-ok, sat_mul64, codes, map_err, beq_refl, bytes_eq,
}
use stroemnet.Protocol.Channel.{ChannelId, to_u8}
use stroemnet.Protocol.V1.{CommitmentV1}
use stroemnet.Kaspa.Script.{
  Opcode, Instruction, add_op, add_data, add_i64, htlc_instructions, create_htlc_script,
}
use stroemnet.Kaspa.Ops.{ParsedOp, script_builder}
use stroemnet.Kaspa.Extract.{Prefix, ScriptPublicKey, Crates, spk_to_vec, reconstruct}
use stroemnet.Kaspa.Announce.{
  labelled, parse_network_prefix, script_of, p2sh_components, validate_script_announce,
}
use stroemnet.Kaspa.Restored.{IsNumber, extract_commitment-htlc}

abbrev pub calls_of : CommitmentV1 → ScriptPublicKey → ScriptPublicKey → List Instruction
calls_of c sender receiver =
    htlc_instructions (spk_to_vec sender) c.addresses.sender_destination (spk_to_vec receiver)
      c.secret_hash (sat_mul64 c.unlock_ts 1000) c.destination c.swap_id

-- What a call of p2sh_components that succeeds has done.
record Made (crates : Crates) (network_id : Bytes) (c : CommitmentV1) (address redeem : Bytes)
    : Type 0 where
  prefix : Prefix
  sender : ScriptPublicKey
  receiver : ScriptPublicKey
  network : parse_network_prefix network_id ≡ ok prefix
  from_sender : crates.spk_of_address c.addresses.sender ≡ ok sender
  from_receiver : crates.spk_of_address c.addresses.receiver ≡ ok receiver
  drained : crates.drain (calls_of c sender receiver) ≡ ok redeem
  hashed : crates.address_of_spk (crates.pay_to_script_hash_script redeem) prefix ≡ ok address

same_nat : (n : ℕ) → nat_beq n n ≡ true
same_nat n = (nat_beq_iff n n).1 refl

whole_seconds : (secs : ℕ) → secs * 1000 < 2 ^ 63 → sat_mul64 secs 1000 / 1000 ≡ secs
whole_seconds secs h = omega arith

p2sh_components-Made :
    (crates : Crates) (network_id : Bytes) (c : CommitmentV1) (address redeem : Bytes)
    → p2sh_components crates network_id c ≡ ok (address, redeem)
    → Made crates network_id c address redeem
unfolding p2sh_components script_of create_htlc_script
p2sh_components-Made crates network_id c address redeem h =
    let (prefix, network, h1) = >>=-eq-ok (parse_network_prefix network_id) _ h in
    let (sender, sent, h2) =
      >>=-eq-ok (map_err (labelled "sender address: ") (crates.spk_of_address c.addresses.sender)) _
        h1 in
    let (receiver, received, h3) =
      >>=-eq-ok
        (map_err (labelled "receiver address: ") (crates.spk_of_address c.addresses.receiver)) _
        h2 in
    let (script, drained, h4) =
      >>=-eq-ok (map_err script_builder (crates.drain (calls_of c sender receiver))) _ h3 in
    let (text, hashed, h5) =
      >>=-eq-ok
        (map_err (labelled "p2sh address derive: ")
          (crates.address_of_spk (crates.pay_to_script_hash_script script) prefix))
        _ h4 in
    let same : (text ≡ address) × (script ≡ redeem) = (cc, cc) in
    record {
      prefix = prefix;
      sender = sender;
      receiver = receiver;
      network = network;
      from_sender = map_err-ok _ _ sent;
      from_receiver = map_err-ok _ _ received;
      drained = map_err-ok _ _ drained ∙ ap ok same.1;
      hashed =
          subst
            (λ (s : Bytes).
              crates.address_of_spk (crates.pay_to_script_hash_script s) prefix ≡ ok address)
            same.1 (map_err-ok _ _ hashed ∙ ap ok same.0);
    }

module _ (crates : Crates) (push : Instruction → ParsedOp)
    (push-op : (o : Opcode) → (push (add_op o)).value ≡ crates.code o)
    (push-many : (d : Bytes) → 2 ≤ length d → (push (add_data d)).get_data ≡ d)
    (push-zero : push (add_data (0 ∷ [])) ≡ record { value = 0; get_data = [] })
    (push-byte : (n : ℕ)
      → 1 ≤ n
      → n ≤ 16
      → push (add_data (n ∷ [])) ≡ record { value = 80 + n; get_data = [] })
    (push-number : (n : ℕ) → n < 2 ^ 63 → IsNumber n (push (add_i64 n)))
    (parse-drain : (calls : List Instruction) (script : Bytes)
      → crates.drain calls ≡ ok script
      → crates.parse_script script ≡ ok (map push calls)) where
  -- A script that p2sh_components makes of a commitment, announced with the address that it gives,
  -- the commitment's swap id and its unlock time, is accepted. The commitment has a 32-byte id and
  -- hash, a time lock below 2^63 milliseconds, a destination of at most 16 and a text of two bytes or
  -- more as the sender's destination; the keys of its two addresses print as some address.
  pub validate_script_announce-p2sh_components :
      (network_id : Bytes) (c : CommitmentV1) (address redeem : Bytes) (channel : ChannelId)
      → length c.swap_id ≡ 32
      → length c.secret_hash ≡ 32
      → 2 ≤ length c.addresses.sender_destination
      → c.unlock_ts * 1000 < 2 ^ 63
      → c.destination ≤ 16
      → crates.from_utf8 c.addresses.sender_destination ≡ ok c.addresses.sender_destination
      → ((a : Bytes) (spk : ScriptPublicKey) (prefix : Prefix)
          → crates.spk_of_address a ≡ ok spk
          → (text : Bytes) × (crates.address_of_spk spk prefix ≡ ok text))
      → p2sh_components crates network_id c ≡ ok (address, redeem)
      → validate_script_announce crates network_id channel address redeem c.swap_id c.unlock_ts
        ≡ ok tt
  unfolding validate_script_announce
  validate_script_announce-p2sh_components network_id c address redeem channel id32 hash32 long
        small byte text readable h =
      let made = p2sh_components-Made crates network_id c address redeem h in
      let lock : sat_mul64 c.unlock_ts 1000 ≡ c.unlock_ts * 1000 = omega arith in
      let (sender_text, sent) =
        readable c.addresses.sender made.sender made.prefix made.from_sender in
      let (receiver_text, received) =
        readable c.addresses.receiver made.receiver made.prefix made.from_receiver in
      let found =
        extract_commitment-htlc crates push push-op push-many push-zero push-byte push-number
          made.sender made.receiver c.addresses.sender_destination c.secret_hash
          (sat_mul64 c.unlock_ts 1000) c.destination c.swap_id (codes "0") sender_text receiver_text
          made.prefix channel id32 hash32 long (rw lock small) byte sent received text in
      rw
        (
          made.network,
          parse-drain (calls_of c made.sender made.receiver) redeem made.drained,
          found,
          made.hashed,
          whole_seconds c.unlock_ts small,
          beq_refl c.swap_id,
          same_nat c.unlock_ts,
          beq_refl address,
        )
        refl

  -- The script that p2sh_components makes of a commitment on this chain, stored with the commitment's
  -- amount and read again, gives back the whole commitment. The commitment has 8 decimals and the
  -- chain as its source, and of its other fields the conditions of
  -- validate_script_announce-p2sh_components; the keys of its two
  -- addresses print as those addresses on the network.
  pub reconstruct-p2sh_components :
      (network_id : Bytes) (prefix : Prefix) (c : CommitmentV1) (address redeem : Bytes)
      (unlock : ℕ) (channel : ChannelId)
      → parse_network_prefix network_id ≡ ok prefix
      → c.amount.decimals ≡ 8
      → c.source ≡ to_u8 channel
      → length c.swap_id ≡ 32
      → length c.secret_hash ≡ 32
      → 2 ≤ length c.addresses.sender_destination
      → c.unlock_ts * 1000 < 2 ^ 63
      → c.destination ≤ 16
      → crates.from_utf8 c.addresses.sender_destination ≡ ok c.addresses.sender_destination
      → ((spk : ScriptPublicKey)
          → crates.spk_of_address c.addresses.sender ≡ ok spk
          → crates.address_of_spk spk prefix ≡ ok c.addresses.sender)
      → ((spk : ScriptPublicKey)
          → crates.spk_of_address c.addresses.receiver ≡ ok spk
          → crates.address_of_spk spk prefix ≡ ok c.addresses.receiver)
      → p2sh_components crates network_id c ≡ ok (address, redeem)
      → reconstruct crates
          record { redeem_script = redeem; unlock_ts = unlock; deposit_target = c.amount.value }
          prefix
          channel
        ≡ ok c
  unfolding reconstruct
  reconstruct-p2sh_components network_id prefix c address redeem unlock channel network places
        source id32 hash32 long small byte text sender_prints receiver_prints h =
      let made = p2sh_components-Made crates network_id c address redeem h in
      let lock : sat_mul64 c.unlock_ts 1000 ≡ c.unlock_ts * 1000 = omega arith in
      let found =
        extract_commitment-htlc crates push push-op push-many push-zero push-byte push-number
          made.sender made.receiver c.addresses.sender_destination c.secret_hash
          (sat_mul64 c.unlock_ts 1000) c.destination c.swap_id c.amount.value c.addresses.sender
          c.addresses.receiver prefix channel id32 hash32 long (rw lock small) byte
          (sender_prints made.sender made.from_sender)
          (receiver_prints made.receiver made.from_receiver) text in
      rw (parse-drain (calls_of c made.sender made.receiver) redeem made.drained)
        (found ∙ rw (whole_seconds c.unlock_ts small, ← places, ← source) refl)
