-- ===== src/Node/Registered.antt =====
-- node/src/node/taker.rs with apply.rs: from the start of a swap to the reveal of its secret.
use stroemnet.Common.{
  ℕ, ◌^◌, ◌≡◌, ◌≤◌, ◌<◌, refl, sym, ap, ◌∙◌, not, some, arith, Bytes, bytes_eq, nat_beq, ◌==◌,
  Result, ok, ok_or, fail_if, map_err, map_err-ok, >>=-eq-ok, ok_inj, some_inj, Result-cases, inl,
  inr, list_beq_iff, nat_beq_iff,
}
use stroemnet.Common.Dict.{insert, get-insert}
use stroemnet.Protocol.Channel.{
  ChannelId, try_from, try_from_iff, to_u8, kaspa_tn10, ethereum_sepolia, igra_galleon,
}
use stroemnet.Protocol.V1.{CommitmentV1, parse_uint}
use stroemnet.Handler.Config.{Outside}
use stroemnet.Handler.Built.{ok_or-some}
use stroemnet.Node.Wire.{P2pMsg, Role, ScriptAnnounce}
use stroemnet.Node.Claims.{PendingClaim, transmit_reveal, transmit_reveal_iff}
use stroemnet.Node.Taker.{
  Deposits, Node, refuse_lp, register_kaspa_deposit, checked_claim, deposit_address,
  register_commitment,
}

module _ {S : Type 0} (deposits : Deposits S) (sha256 : Bytes → Bytes)
    (encode : P2pMsg → Result Bytes Bytes) (to_json : CommitmentV1 → Result Bytes Bytes)
    (role : Role) where
  -- What the guards of register_commitment have found.
  record IsChecked (c : CommitmentV1) (secret expected : Bytes) (claim : PendingClaim)
      : Type 0 where
    pub hash : sha256 secret ≡ c.secret_hash
    pub destination : c.destination ≡ to_u8 claim.expected_counter_chain
    pub value : ℕ
    pub parsed : parse_uint (2 ^ 128) expected ≡ some value
    pub positive : 0 < value
    pub secret_kept : claim.secret ≡ secret
    pub hash_kept : claim.expected_secret_hash ≡ c.secret_hash
    pub amount : claim.expected_amount_out.value ≡ expected

  checked_claim-IsChecked :
      (c : CommitmentV1) (secret expected : Bytes) (source : ChannelId) (claim : PendingClaim)
      → checked_claim deposits sha256 encode to_json role c secret expected ≡ ok (source, claim)
      → IsChecked c secret expected claim
  unfolding checked_claim
  checked_claim-IsChecked c secret expected source claim e =
      let (_, a, e1) = >>=-eq-ok (refuse_lp deposits sha256 encode to_json role) _ e in
      let (_, b, e2) = >>=-eq-ok (fail_if (not (sha256 secret == c.secret_hash)) _) _ e1 in
      let (from, d, e3) = >>=-eq-ok (map_err _ (try_from c.source)) _ e2 in
      let (to, f, e4) = >>=-eq-ok (map_err _ (try_from c.destination)) _ e3 in
      let (value, g, e5) = >>=-eq-ok (ok_or (parse_uint (2 ^ 128) expected) _) _ e4 in
      let (_, i, e6) = >>=-eq-ok (fail_if (nat_beq value 0) _) _ e5 in
      let same = ap (λ (r : ChannelId × PendingClaim). r.1) (ok_inj e6) in
      rw (← same) (record {
        hash = ground (arith, list_beq_iff (sha256 secret) c.secret_hash);
        destination = (try_from_iff _ _).0 (map_err-ok _ _ f);
        value = value;
        parsed = ok_or-some _ _ g;
        positive = ground (arith, nat_beq_iff value 0);
        secret_kept = refl;
        hash_kept = refl;
        amount = refl;
      })

  kaspa_deposit-claims :
      (source : ChannelId) (c : CommitmentV1) (node node' : Node S) (address : Bytes)
      → register_kaspa_deposit deposits sha256 encode to_json role source c node
        ≡ ok (node', address)
      → node'.pending_claims ≡ node.pending_claims
  unfolding register_kaspa_deposit
  kaspa_deposit-claims source c node node' address done =
      let (derived, a, e1) =
        >>=-eq-ok (map_err _ (deposits.derive_deposit node.sink source c)) _ done in
      let script : ScriptAnnounce = record {
        address = derived.0;
        swap_id = c.swap_id;
        redeem_script = derived.1;
        unlock_ts = c.unlock_ts;
        deposit_target = c.amount.value;
      } in
      let (sink, b, e2) =
        >>=-eq-ok (map_err _ (deposits.register_script node.sink source script)) _ e1 in
      sym (ap (λ (r : Node S × Bytes). r.0.pending_claims) (ok_inj e2))

  deposit_address-claims :
      (source : ChannelId) (c : CommitmentV1) (node : Node S)
      → (deposit_address deposits sha256 encode to_json role source c node).0.pending_claims
        ≡ node.pending_claims
  unfolding deposit_address
  deposit_address-claims ethereum_sepolia c node = refl
  deposit_address-claims igra_galleon c node = refl
  deposit_address-claims kaspa_tn10 c node =
      elim (Result-cases
        (register_kaspa_deposit deposits sha256 encode to_json role kaspa_tn10 c node)) [
          | inr (e, refused) ↦ rw (deposit_address, refused) refl
          | inl ((node', address), done) ↦
              rw (deposit_address, done) (kaspa_deposit-claims kaspa_tn10 c node node' address done)
        ]

  registered :
      (c : CommitmentV1) (secret expected address : Bytes) (node : Node S)
      → (register_commitment deposits sha256 encode to_json role c secret expected node).1
        ≡ ok address
      → (claim : PendingClaim) × IsChecked c secret expected claim
        × ((register_commitment deposits sha256 encode to_json role c secret expected
              node).0.pending_claims
            ≡ insert c.swap_id claim node.pending_claims)
  unfolding register_commitment
  registered c secret expected address node e =
      elim (Result-cases (checked_claim deposits sha256 encode to_json role c secret expected)) [
        | inr (x, refused) ↦ absurd (ground arith)
        | inl ((source, claim), checked) ↦ (
          claim,
          checked_claim-IsChecked c secret expected source claim checked,
          rw (register_commitment, checked) (deposit_address-claims source c _),
        )
      ]

  -- What a commitment gives a taker who asked for `value` or more in return for the secret.
  pub record Pays (c d : CommitmentV1) (secret : Bytes) (value : ℕ) : Type 0 where
    pub hash : sha256 secret ≡ d.secret_hash
    pub chain : d.source ≡ c.destination
    pub paid : ℕ
    pub parsed : parse_uint (2 ^ 128) d.amount.value ≡ some paid
    pub enough : value ≤ paid

  -- Once a taker has begun a swap, a commitment that is seen for it makes the secret go out only if it
  -- is locked under that secret, on the chain of the taker's choice, for an amount that reads as at
  -- least the positive number that the taker expects; and the secret that goes out is the taker's.
  pub register_commitment-transmit_reveal :
      {F : Type 0} (o : Outside F) (c d : CommitmentV1) (secret expected address : Bytes)
      (node : Node S) (claim : PendingClaim)
      → (register_commitment deposits sha256 encode to_json role c secret expected node).1
        ≡ ok address
      → d.swap_id ≡ c.swap_id
      → (transmit_reveal o d
          (register_commitment deposits sha256 encode to_json role c secret expected
            node).0.pending_claims).1
        ≡ some claim
      → (claim.secret ≡ secret)
        × (value : ℕ) × (0 < value)
        × (parse_uint (2 ^ 128) expected ≡ some value)
        × Pays c d secret value
  register_commitment-transmit_reveal o c d secret expected address node claim e id fired =
      let (stored, k, claims) = registered c secret expected address node e in
      let (found, honours) =
        (transmit_reveal_iff o d (insert c.swap_id stored node.pending_claims) claim).0
          (rw claims at fired) in
      let same : stored ≡ claim = some_inj (
        sym (
          get-insert d.swap_id c.swap_id stored node.pending_claims
          ∙ ground (arith, list_beq_iff d.swap_id c.swap_id, id))
        ∙ found) in
      let covers = honours.amount in
      let asked : covers.asked ≡ k.value =
        some_inj (sym covers.needed ∙ rw (← same, k.amount) k.parsed) in
      (
        rw (← same) k.secret_kept,
        k.value,
        k.positive,
        k.parsed,
        record {
          hash = k.hash ∙ (sym k.hash_kept ∙ (rw same honours.hash));
          chain = honours.chain ∙ (rw (← same) (sym k.destination));
          paid = covers.paid;
          parsed = covers.parsed;
          enough = omega (arith, covers.enough, asked);
        },
      )
