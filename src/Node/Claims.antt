-- ===== src/Node/Claims.antt =====
-- node/src/claim.rs and node/src/node/apply.rs: when the secret of a taker is revealed. The map of
-- pending claims is behind a lock that is held for the whole of a step.
use stroemnet.Common.{
  ℕ, ◌≤◌, ◌^◌, is_some, some_inj, sym, ap, ◌∙◌, ◌≡◌, ◌↔◌, refl, Bool, true, ◌&&◌, Option, none,
  some, arith, Bytes, bytes_eq, nat_eq, ◌==◌, list_beq_iff, nat_beq_iff, Option-cases, Bool-cases,
  inl, inr, if◌then◌else◌,
}
use stroemnet.Common.Dict.{Dict, get, insert, remove, get-insert, get-remove}
use stroemnet.Protocol.Channel.{ChannelId, to_u8}
use stroemnet.Protocol.V1.{AmountV1, CommitmentV1, parse_uint, at_least}
use stroemnet.Handler.Config.{Outside, normalised_address_eq}
use stroemnet.Handler.Addresses.{IsSameAddress, normalised_address_eq_iff}

pub record PendingClaim : Type 0 where
  pub secret : Bytes
  pub expected_counter_chain : ChannelId
  pub expected_secret_hash : Bytes
  pub expected_destination_address : Bytes
  pub expected_amount_out : AmountV1

-- An amount in the same decimals that reads as a number of at least the other one, within 128 bits.
pub record Covers (have need : AmountV1) : Type 0 where
  pub decimals : have.decimals ≡ need.decimals
  pub paid : ℕ
  pub asked : ℕ
  pub parsed : parse_uint (2 ^ 128) have.value ≡ some paid
  pub needed : parse_uint (2 ^ 128) need.value ≡ some asked
  pub enough : asked ≤ paid

at_least-Covers : (have need : AmountV1) → at_least have need ≡ true → Covers have need
unfolding at_least
at_least-Covers have need h = elim (Option-cases (parse_uint (2 ^ 128) have.value)) [
  | inl garbled ↦ absurd (ground arith)
  | inr (paid, parsed) ↦ elim (Option-cases (parse_uint (2 ^ 128) need.value)) [
    | inl unread ↦ absurd (ground arith)
    | inr (asked, needed) ↦ record {
      decimals = ground (arith, nat_beq_iff have.decimals need.decimals);
      paid = paid;
      asked = asked;
      parsed = parsed;
      needed = needed;
      enough = ground arith;
    }
  ]
]

Covers-at_least : (have need : AmountV1) → Covers have need → at_least have need ≡ true
unfolding at_least
Covers-at_least have need c =
    ground
      (arith, c.decimals, c.parsed, c.needed, c.enough, nat_beq_iff have.decimals need.decimals)

module _ {F : Type 0} (o : Outside F) where
  unfoldable pub pending_claim_matches : PendingClaim → CommitmentV1 → Bool
  pending_claim_matches claim detected =
      (claim.expected_secret_hash == detected.secret_hash)
      && ((detected.source == to_u8 claim.expected_counter_chain)
          && (normalised_address_eq o claim.expected_counter_chain detected.addresses.receiver
                claim.expected_destination_address
              && at_least detected.amount claim.expected_amount_out))

  -- The branch of apply_event for Effect::TransmitReveal: the map afterwards, and the claim to fire. A
  -- claim that does not match is taken out and put back.
  unfoldable pub transmit_reveal :
      CommitmentV1 → Dict Bytes PendingClaim → Dict Bytes PendingClaim × Option PendingClaim
  transmit_reveal c claims =
      let without = remove c.swap_id claims in
      elim (get c.swap_id claims) [
        | none ↦ (without, none)
        | some claim ↦
            if pending_claim_matches claim c
            then (without, some claim)
            else (insert c.swap_id claim without, none)
      ]

  -- What the taker asked for before the secret may go out.
  pub record Honours (claim : PendingClaim) (c : CommitmentV1) : Type 0 where
    pub hash : claim.expected_secret_hash ≡ c.secret_hash
    pub chain : c.source ≡ to_u8 claim.expected_counter_chain
    pub receiver :
        IsSameAddress o claim.expected_counter_chain c.addresses.receiver
          claim.expected_destination_address
    pub amount : Covers c.amount claim.expected_amount_out

  matches_sound :
      (claim : PendingClaim) (c : CommitmentV1)
      → pending_claim_matches claim c ≡ true
      → Honours claim c
  unfolding pending_claim_matches
  matches_sound claim c h =
      let there =
        normalised_address_eq_iff o claim.expected_counter_chain c.addresses.receiver
          claim.expected_destination_address in
      record {
        hash = ground (arith, list_beq_iff claim.expected_secret_hash c.secret_hash);
        chain = ground (arith, nat_beq_iff c.source (to_u8 claim.expected_counter_chain));
        receiver = there.0 (ground arith);
        amount = at_least-Covers c.amount claim.expected_amount_out (ground arith);
      }

  matches_complete :
      (claim : PendingClaim) (c : CommitmentV1)
      → Honours claim c
      → pending_claim_matches claim c ≡ true
  unfolding pending_claim_matches
  matches_complete claim c h =
      let same = (list_beq_iff claim.expected_secret_hash c.secret_hash).1 h.hash in
      let chain = (nat_beq_iff c.source (to_u8 claim.expected_counter_chain)).1 h.chain in
      let there =
        (normalised_address_eq_iff o claim.expected_counter_chain c.addresses.receiver
            claim.expected_destination_address).1
          h.receiver in
      let enough = Covers-at_least c.amount claim.expected_amount_out h.amount in
      rw (same, chain, there, enough) refl

  -- A secret goes out for a detected commitment exactly when a claim waits for that swap and the
  -- commitment locks an amount that reads as at least the expected one, in the same decimals, under the
  -- claim's hash, on the expected chain, for the expected address.
  pub transmit_reveal_iff :
      (c : CommitmentV1) (claims : Dict Bytes PendingClaim) (claim : PendingClaim)
      → ((transmit_reveal c claims).1 ≡ some claim)
        ↔ ((get c.swap_id claims ≡ some claim) × Honours claim c)
  unfolding transmit_reveal
  transmit_reveal_iff c claims claim = elim (Option-cases (get c.swap_id claims)) [
    | inl missing ↦ (λ h. absurd (ground arith), λ h. absurd (ground arith))
    | inr (there, e) ↦ elim (Bool-cases (pending_claim_matches there c)) [
      | inr apart ↦ (
        λ h. absurd (ground arith),
        λ h.
            let same : there ≡ claim = some_inj (sym e ∙ h.0) in
            absurd (ground (arith, same, matches_complete claim c h.1)),
      )
      | inl fits ↦ (
        λ h.
            let same : there ≡ claim = some_inj (rw (transmit_reveal, e, fits) at h) in
            (rw e (ap some same), rw (← same) (matches_sound there c fits)),
        λ h. rw (transmit_reveal, e, fits) (sym e ∙ h.0),
      )
    ]
  ]

  -- The claim that fires no longer waits, and every other claim waits as before; where none fires, all
  -- do.
  get-transmit_reveal :
      (c : CommitmentV1) (claims : Dict Bytes PendingClaim) (id : Bytes)
      → let result = transmit_reveal c claims in
        get id result.0 ≡ (if (id == c.swap_id) && is_some result.1 then none else get id claims)
  unfolding transmit_reveal
  get-transmit_reveal c claims id = elim (Option-cases (get c.swap_id claims)) [
    | inl missing ↦
        rw (transmit_reveal, missing)
          (ground (arith, get-remove id c.swap_id claims, list_beq_iff id c.swap_id))
    | inr (claim, e) ↦ elim (Bool-cases (pending_claim_matches claim c)) [
      | inl fits ↦ rw (transmit_reveal, e, fits) (ground (arith, get-remove id c.swap_id claims))
      | inr apart ↦
          rw (transmit_reveal, e, apart)
            (ground (
              arith,
              get-remove id c.swap_id claims,
              list_beq_iff id c.swap_id,
              get-insert id c.swap_id claim (remove c.swap_id claims),
            ))
    ]
  ]
