-- ===== src/Chains/Claimable.antt =====
-- chains/evm/settle.rs and broadcast/claim.rs: when a claim goes to the contract.
use stroemnet.Common.{
  ℕ, min, u64_max, ◌==◌, ◌<◌, ◌≡◌, sym, ap, refl, inl, inr, Bool, true, false, Option, none, some,
  List, [], ◌∷◌, arith, Bytes, bytes_eq, list_beq_iff, find, Bool-cases, Option-cases,
}
use stroemnet.Protocol.V1.{RevealV1}
use stroemnet.Records.Codec.{Borsh}
use stroemnet.Settlement.Queue.{ActionKey}
use stroemnet.Chains.Evm.{Evm}
use stroemnet.Chains.Pending.{is_claim_of}
use stroemnet.Chains.Settle.{
  Provider, HtlcCall, Call, HtlcSwap, claim_skip_reason, submit_claim, submitted, replacement,
  signed, settle_claim,
}

abbrev called : HtlcCall → List Call → HtlcCall
called call [] = call
called call (c ∷ cs) = c.call

module _ (node : Provider) (sha256 : Bytes → Bytes) where
  -- What must hold for a claim to be sent with the secret of a reveal.
  pub record Claimable (r : RevealV1) (c : Call) : Type 0 where
    pub calls : c.call ≡ HtlcCall.claim r.swap_id r.secret
    pub swap : HtlcSwap
    pub locked : node.swaps r.swap_id ≡ some swap
    pub initialized : swap.initialized ≡ true
    pub unpaid : swap.finalized ≡ false
    pub opens : sha256 r.secret ≡ swap.secret_hash
    pub early : (t : ℕ) → node.current_block_timestamp ≡ some t → t < swap.timelock

  claim_skip_reason-none :
      (initialized finalized secret_ok : Bool) (chain_now : Option ℕ) (timelock : ℕ)
      → claim_skip_reason initialized finalized secret_ok chain_now timelock ≡ none
      → (initialized ≡ true)
        × (finalized ≡ false)
        × (secret_ok ≡ true)
        × ((t : ℕ) → chain_now ≡ some t → t < timelock)
  unfolding claim_skip_reason
  claim_skip_reason-none true false true none timelock h =
      (refl, refl, refl, λ t e. absurd (ground (arith, e)))
  claim_skip_reason-none true false true (some now) timelock h =
      (refl, refl, refl, λ t e. ground (arith, h, e))
  claim_skip_reason-none true false false chain_now timelock h = absurd (ground (arith, h))
  claim_skip_reason-none true true secret_ok chain_now timelock h = absurd (ground (arith, h))
  claim_skip_reason-none false finalized secret_ok chain_now timelock h = absurd (ground (arith, h))

  submit_claim-Claimable :
      (r : RevealV1) (nonce gas : ℕ) (c : Call)
      → (submit_claim node sha256 r nonce gas).1 ≡ c ∷ []
      → Claimable r c
  unfolding submit_claim
  submit_claim-Claimable r nonce gas c h = elim (Option-cases (node.swaps r.swap_id)) [
    | inl e ↦ absurd (ground (arith, h))
    | inr (swap, e) ↦
        elim (Option-cases (
          claim_skip_reason swap.initialized swap.finalized (sha256 r.secret == swap.secret_hash)
            node.current_block_timestamp (min swap.timelock u64_max))) [
              | inr (reason, f) ↦ absurd (ground (arith, h))
              | inl f ↦
                  let (initialized, unpaid, opens, early) =
                    claim_skip_reason-none swap.initialized swap.finalized _ _ _ f in
                  record {
                    calls = sym (ap (called c.call) (rw (submit_claim, e, f) at h));
                    swap = swap;
                    locked = e;
                    initialized = initialized;
                    unpaid = unpaid;
                    opens = (list_beq_iff _ _).0 opens;
                    early = λ t g. omega (arith, early t g);
                  }
            ]
  ]

  module _ (address : Bytes → Option Bytes) (borsh : Borsh) (key : ActionKey) (st : Evm) where
    -- A claim goes to the contract only with a secret that has been revealed for the swap and that
    -- opens the contract's hash lock, and only while the contract holds the swap, has not paid it out
    -- and, where the node knows the time, has not reached its time lock.
    pub settle_claim-Claimable :
        (c : Call)
        → (settle_claim node address borsh sha256 key st).2 ≡ c ∷ []
        → (r : RevealV1) × (find (is_claim_of key.swap_id) st.pending_claims ≡ some r)
          × Claimable r c
    unfolding settle_claim submitted
    settle_claim-Claimable c h = elim (Bool-cases (signed st)) [
      | inr e ↦ absurd (ground (arith, h))
      | inl e ↦ elim (Option-cases (find (is_claim_of key.swap_id) st.pending_claims)) [
        | inl f ↦ absurd (ground (arith, h))
        | inr (r, f) ↦ elim (Option-cases (replacement node address borsh key st).1) [
          | inl g ↦ absurd (ground (arith, h))
          | inr ((nonce, gas), g) ↦ (
            r,
            f,
            submit_claim-Claimable r nonce gas c (rw (settle_claim, e, f, submitted, g) at h),
          )
        ]
      ]
    ]
