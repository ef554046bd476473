-- ===== src/Kaspa/Scheduled.antt =====
-- chains/kaspa: every pending claim and refund of the Kaspa buffer is in the queue of attempts.
use stroemnet.Common.{
  ℕ, ◌≡◌, ◌∙◌, refl, Bool, true, false, not, ◌&&◌, ◌||◌, List, [], ◌∷◌, arith, Bytes, bytes_eq,
  ◌==◌, any, any-append, retain, is_some, Bool-cases, Option-cases, inl, inr, list_beq_iff,
}
use stroemnet.Protocol.V1.{RevealV1, RefundV1}
use stroemnet.Records.Codec.{Borsh}
use stroemnet.Settlement.Queue.{
  Action, action_beq, key_beq, ActionKey, key_eq, claim_key, refund_key, RetryQueue, attempt,
  ensure,
}
use stroemnet.Settlement.Queue
use stroemnet.Settlement.Schedule.{attempt-ensure, attempt-record_success, attempt-record_failure}
use stroemnet.Chains.Pending.{is_refund_of, is_claim_of, push_pending_claim}
use stroemnet.Kaspa.Buffer.{Kaspa, persist_swap, record_success, record_failure}

abbrev pub in_queue : ActionKey → RetryQueue → Bool
in_queue k q = is_some (attempt q k)

pub record Scheduled (q : RetryQueue) (refunds : List (RefundV1 × ℕ)) (claims : List RevealV1)
    : Type 0 where
  pub refund_queued :
      (id : Bytes) → any (is_refund_of id) refunds ≡ true → in_queue (refund_key id) q ≡ true
  pub claim_queued :
      (id : Bytes) → any (is_claim_of id) claims ≡ true → in_queue (claim_key id) q ≡ true

abbrev pub IsScheduled : Kaspa → Type 0
IsScheduled st = Scheduled st.queue st.pending_refunds st.pending_claims

pub in_queue-ensure :
    (j k : ActionKey) (now : ℕ) (q : RetryQueue)
    → in_queue j (ensure k now q) ≡ ((j == k) || in_queue j q)
in_queue-ensure j k now q = elim (Bool-cases (j == k)) [
  | inl here ↦ rw (attempt-ensure j k now q, here) refl
  | inr there ↦ rw (attempt-ensure j k now q, there) refl
]

in_queue-record_success :
    (j k : ActionKey) (q : RetryQueue)
    → in_queue j (Queue.record_success k q) ≡ (not (j == k) && in_queue j q)
in_queue-record_success j k q = elim (Bool-cases (j == k)) [
  | inl here ↦ rw (attempt-record_success j k q, here) refl
  | inr there ↦ rw (attempt-record_success j k q, there) refl
]

in_queue-record_failure :
    (j k : ActionKey) (now jitter : ℕ) (q : RetryQueue)
    → in_queue j (Queue.record_failure k now jitter q) ≡ in_queue j q
in_queue-record_failure j k now jitter q = elim (Bool-cases (j == k)) [
  | inr there ↦ rw (attempt-record_failure j k now jitter q, there) refl
  | inl here ↦ elim (Option-cases (attempt q j)) [
    | inl e ↦ rw (attempt-record_failure j k now jitter q, here, e) refl
    | inr (a, e) ↦ rw (attempt-record_failure j k now jitter q, here, e) refl
  ]
]

module _ (a b : Bytes) where
  pub same_refund : (refund_key a == refund_key b) ≡ (a == b)
  unfolding key_beq action_beq
  same_refund = ground arith

  same_claim : (claim_key a == claim_key b) ≡ (a == b)
  unfolding key_beq action_beq
  same_claim = ground arith

  refund-claim : (refund_key a == claim_key b) ≡ false
  unfolding key_beq action_beq
  refund-claim = ground arith

  pub claim-refund : (claim_key a == refund_key b) ≡ false
  unfolding key_beq action_beq
  claim-refund = ground arith

  pub any-retain-refund :
      (refunds : List (RefundV1 × ℕ))
      → any (is_refund_of a) (retain (λ r. not (is_refund_of b r)) refunds)
        ≡ (not (a == b) && any (is_refund_of a) refunds)
  any-retain-refund [] = ground arith
  any-retain-refund ((r, n) ∷ refunds) = ground (
    arith,
    any-retain-refund refunds,
    list_beq_iff r.swap_id a,
    list_beq_iff r.swap_id b,
    list_beq_iff a b,
  )

  any-retain-claim :
      (claims : List RevealV1)
      → any (is_claim_of a) (retain (λ c. not (is_claim_of b c)) claims)
        ≡ (not (a == b) && any (is_claim_of a) claims)
  any-retain-claim [] = ground arith
  any-retain-claim (c ∷ claims) = ground (
    arith,
    any-retain-claim claims,
    list_beq_iff c.swap_id a,
    list_beq_iff c.swap_id b,
    list_beq_iff a b,
  )

-- A write to disk leaves the queue and the pending lists alone.
pub persist_swap-Scheduled :
    (borsh : Borsh) (id : Bytes) (st : Kaspa)
    → IsScheduled st
    → IsScheduled (persist_swap borsh id st)
unfolding persist_swap
persist_swap-Scheduled borsh id st s = elim (Option-cases st.swap_store) [
  | inl e ↦ rw (persist_swap, e) s
  | inr (rows, e) ↦ rw (persist_swap, e) s
]

module _ (q : RetryQueue) (refunds : List (RefundV1 × ℕ)) (claims : List RevealV1)
    (s : Scheduled q refunds claims) where
  -- A reveal or refund of a swap takes both of its keys and both of its entries.
  pub Scheduled-forget :
      (id : Bytes)
      → Scheduled
          (Queue.record_success (refund_key id) (Queue.record_success (claim_key id) q))
          (retain (λ r. not (is_refund_of id r)) refunds)
          (retain (λ c. not (is_claim_of id c)) claims)
  Scheduled-forget id = record {
    refund_queued = λ j h. ground (
      arith,
      s.refund_queued j,
      any-retain-refund j id refunds,
      in_queue-record_success (refund_key j) (refund_key id)
          (Queue.record_success (claim_key id) q),
      in_queue-record_success (refund_key j) (claim_key id) q,
      same_refund j id,
      refund-claim j id,
    );
    claim_queued = λ j h. ground (
      arith,
      s.claim_queued j,
      any-retain-claim j id claims,
      in_queue-record_success (claim_key j) (refund_key id) (Queue.record_success (claim_key id) q),
      in_queue-record_success (claim_key j) (claim_key id) q,
      same_claim j id,
      claim-refund j id,
    );
  }

  Scheduled-success_claim :
      (id : Bytes)
      → Scheduled
          (Queue.record_success (claim_key id) q)
          refunds
          (retain (λ c. not (is_claim_of id c)) claims)
  Scheduled-success_claim id = record {
    refund_queued = λ j h. ground (
      arith,
      s.refund_queued j,
      in_queue-record_success (refund_key j) (claim_key id) q,
      refund-claim j id,
    );
    claim_queued = λ j h. ground (
      arith,
      s.claim_queued j,
      any-retain-claim j id claims,
      in_queue-record_success (claim_key j) (claim_key id) q,
      same_claim j id,
    );
  }

  Scheduled-success_refund :
      (id : Bytes)
      → Scheduled
          (Queue.record_success (refund_key id) q)
          (retain (λ r. not (is_refund_of id r)) refunds)
          claims
  Scheduled-success_refund id = record {
    refund_queued = λ j h. ground (
      arith,
      s.refund_queued j,
      any-retain-refund j id refunds,
      in_queue-record_success (refund_key j) (refund_key id) q,
      same_refund j id,
    );
    claim_queued = λ j h. ground (
      arith,
      s.claim_queued j,
      in_queue-record_success (claim_key j) (refund_key id) q,
      claim-refund j id,
    );
  }

  Scheduled-failure :
      (k : ActionKey) (now jitter : ℕ)
      → Scheduled (Queue.record_failure k now jitter q) refunds claims
  Scheduled-failure k now jitter = record {
    refund_queued =
        λ j h. in_queue-record_failure (refund_key j) k now jitter q ∙ s.refund_queued j h;
    claim_queued = λ j h. in_queue-record_failure (claim_key j) k now jitter q ∙ s.claim_queued j h;
  }

  pub Scheduled-push_claim :
      (r : RevealV1) (now : ℕ)
      → Scheduled (ensure (claim_key r.swap_id) now q) refunds (push_pending_claim claims r)
  unfolding push_pending_claim
  Scheduled-push_claim r now = record {
    refund_queued = λ j h.
        ground
          (arith, s.refund_queued j, in_queue-ensure (refund_key j) (claim_key r.swap_id) now q);
    claim_queued = λ j h. ground (
      arith,
      s.claim_queued j,
      in_queue-ensure (claim_key j) (claim_key r.swap_id) now q,
      same_claim j r.swap_id,
      any-append (is_claim_of j) claims (r ∷ []),
      list_beq_iff r.swap_id j,
      list_beq_iff j r.swap_id,
    );
  }

pub record_success-IsScheduled :
    (borsh : Borsh) (st : Kaspa) (id : Bytes) (action : Action)
    → IsScheduled st
    → IsScheduled (record_success borsh st (record { swap_id = id; action = action }))
unfolding record_success
record_success-IsScheduled borsh st id Action.claim s =
    persist_swap-Scheduled borsh id _ (Scheduled-success_claim _ _ _ s id)
record_success-IsScheduled borsh st id Action.refund s =
    persist_swap-Scheduled borsh id _ (Scheduled-success_refund _ _ _ s id)

pub record_failure-IsScheduled :
    (borsh : Borsh) (st : Kaspa) (k : ActionKey) (now : ℕ)
    → IsScheduled st
    → IsScheduled (record_failure borsh st k now)
unfolding record_failure
record_failure-IsScheduled borsh st k now s =
    persist_swap-Scheduled borsh k.swap_id _ (Scheduled-failure _ _ _ s k now _)
