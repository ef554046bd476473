-- ===== src/Chains/Tracking.antt =====
-- About the operations of the EVM buffer (chains/evm/persist.rs and settler.rs) and its copy on disk.
use stroemnet.Common.{
  ℕ, ◌≡◌, refl, ◌∙◌, inl, inr, Bool, true, false, not, ◌&&◌, List, [], ◌∷◌, ◌++◌, arith, Bytes,
  bytes_eq, ◌==◌, beq-ne, list_beq_iff, Bool-cases, if◌then◌else◌, find, retain, any,
}
use stroemnet.Protocol.V1.{CommitmentV1, RevealV1, RefundV1, ChainEvent, commitment, reveal, refund}
use stroemnet.Records.Codec.{Borsh}
use stroemnet.Settlement.Queue.{ActionKey, key_eq, claim_key, refund_key, attempt, ensure, Action}
use stroemnet.Settlement.Queue
use stroemnet.Settlement.Schedule.{attempt-ensure, attempt-record_success, attempt-record_failure}
use stroemnet.Chains.Pending.{is_refund_of, is_claim_of, queue_dequeue_refund_event, event_swap_id}
use stroemnet.Chains.Evm.{
  Evm, swap_record, record_success, record_failure, track_actionable_event, jitter, tracked,
}
use stroemnet.Chains.Persisted.{Lossless, IsSynced, persist_swap-IsSynced}

module _ {A : Type 0} (p q : A → Bool) (apart : (x : A) → q x ≡ true → p x ≡ false) where
  find-retain : (xs : List A) → find p (retain (λ x. not (q x)) xs) ≡ find p xs
  find-retain [] = refl
  find-retain (x ∷ xs) = elim (Bool-cases (q x)) [
    | inl here ↦ rw (here, apart x here) (find-retain xs)
    | inr there ↦ ground (arith, find-retain xs)
  ]

pub find-append :
    {A : Type 0} (p : A → Bool) (xs : List A) (x : A)
    → p x ≡ false
    → find p (xs ++ x ∷ []) ≡ find p xs
find-append p [] x h = rw h refl
find-append p (y ∷ xs) x h = ground (arith, find-append p xs x h)

pub key_ne : (a b : ActionKey) → (a.swap_id == b.swap_id) ≡ false → (a == b) ≡ false
key_ne a b h = beq-ne a b (λ e. absurd (ground (arith, list_beq_iff a.swap_id b.swap_id)))

module _ (id j : Bytes) (ne : (j == id) ≡ false) where
  refund_apart : (x : RefundV1 × ℕ) → is_refund_of id x ≡ true → is_refund_of j x ≡ false
  refund_apart (r, n) h =
      ground (arith, list_beq_iff r.swap_id id, list_beq_iff r.swap_id j, list_beq_iff j id)

  pub claim_apart : (x : RevealV1) → is_claim_of id x ≡ true → is_claim_of j x ≡ false
  claim_apart r h =
      ground (arith, list_beq_iff r.swap_id id, list_beq_iff r.swap_id j, list_beq_iff j id)

  pub id_ne : (id == j) ≡ false
  id_ne = ground (arith, list_beq_iff id j, list_beq_iff j id)

  refunds_ne :
      (pending : List (RefundV1 × ℕ)) (event : ChainEvent) (ccr : Bool)
      → event_swap_id event ≡ id
      → find (is_refund_of j) (queue_dequeue_refund_event pending event ccr)
        ≡ find (is_refund_of j) pending
  unfolding queue_dequeue_refund_event event_swap_id
  refunds_ne pending (commitment c) ccr e =
      elim (Bool-cases (ccr && not (any (is_refund_of c.swap_id) pending))) [
        | inl new ↦ rw new (find-append (is_refund_of j) pending _ (rw e id_ne))
        | inr old ↦ rw old refl
      ]
  refunds_ne pending (reveal r) ccr e =
      rw e (find-retain (is_refund_of j) (is_refund_of id) refund_apart pending)
  refunds_ne pending (refund r) ccr e =
      rw e (find-retain (is_refund_of j) (is_refund_of id) refund_apart pending)

  success_ne :
      (a b : ActionKey) (q : Queue.RetryQueue)
      → a.swap_id ≡ j
      → b.swap_id ≡ id
      → attempt (Queue.record_success b q) a ≡ attempt q a
  success_ne a b q e f = attempt-record_success a b q ∙ (rw (key_ne a b (rw (e, f) ne)) refl)

  failure_ne :
      (a b : ActionKey) (now k : ℕ) (q : Queue.RetryQueue)
      → a.swap_id ≡ j
      → b.swap_id ≡ id
      → attempt (Queue.record_failure b now k q) a ≡ attempt q a
  failure_ne a b now k q e f =
      attempt-record_failure a b now k q ∙ (rw (key_ne a b (rw (e, f) ne)) refl)

  pub ensure_ne :
      (a b : ActionKey) (now : ℕ) (q : Queue.RetryQueue)
      → a.swap_id ≡ j
      → b.swap_id ≡ id
      → attempt (ensure b now q) a ≡ attempt q a
  ensure_ne a b now q e f = attempt-ensure a b now q ∙ (rw (key_ne a b (rw (e, f) ne)) refl)

tracked_store :
    (now : ℕ) (event : ChainEvent) (st : Evm) → (tracked now event st).swap_store ≡ st.swap_store
unfolding tracked
tracked_store now (commitment c) st = refl
tracked_store now (reveal r) st = refl
tracked_store now (refund r) st = refl

module _ (now : ℕ) (st : Evm) (j : Bytes) where
  started_ne :
      (c : CommitmentV1) (k : ActionKey)
      → (j == c.swap_id) ≡ false
      → k.swap_id ≡ j
      → attempt
          (if st.participate_ccr then ensure (refund_key c.swap_id) now st.queue else st.queue)
          k
        ≡ attempt st.queue k
  started_ne c k ne e = elim (Bool-cases st.participate_ccr) [
    | inl ours ↦ rw ours (ensure_ne c.swap_id j ne k (refund_key c.swap_id) now st.queue e refl)
    | inr others ↦ rw others refl
  ]

  ended_ne :
      (id : Bytes) (k : ActionKey)
      → (j == id) ≡ false
      → k.swap_id ≡ j
      → attempt
          (Queue.record_success (refund_key id) (Queue.record_success (claim_key id) st.queue))
          k
        ≡ attempt st.queue k
  ended_ne id k ne e =
      success_ne id j ne k (refund_key id) (Queue.record_success (claim_key id) st.queue) e refl
      ∙ success_ne id j ne k (claim_key id) st.queue e refl

  tracked_ne :
      (event : ChainEvent)
      → (j == event_swap_id event) ≡ false
      → swap_record (tracked now event st) j ≡ swap_record st j
  unfolding tracked swap_record event_swap_id
  tracked_ne (commitment c) ne =
      rw
        (
          started_ne c (claim_key j) ne refl,
          started_ne c (refund_key j) ne refl,
          refunds_ne c.swap_id j ne st.pending_refunds (commitment c) st.participate_ccr refl,
        )
        refl
  tracked_ne (reveal r) ne =
      rw
        (
          ended_ne r.swap_id (claim_key j) ne refl,
          ended_ne r.swap_id (refund_key j) ne refl,
          find-retain (is_claim_of j) (is_claim_of r.swap_id) (claim_apart r.swap_id j ne)
              st.pending_claims,
          refunds_ne r.swap_id j ne st.pending_refunds (reveal r) st.participate_ccr refl,
        )
        refl
  tracked_ne (refund r) ne =
      rw
        (
          ended_ne r.swap_id (claim_key j) ne refl,
          ended_ne r.swap_id (refund_key j) ne refl,
          find-retain (is_claim_of j) (is_claim_of r.swap_id) (claim_apart r.swap_id j ne)
              st.pending_claims,
          refunds_ne r.swap_id j ne st.pending_refunds (refund r) st.participate_ccr refl,
        )
        refl

module _ (borsh : Borsh) (law : Lossless borsh) where
  success_synced :
      (st : Evm) (id : Bytes) (a : Action)
      → IsSynced borsh st
      → IsSynced borsh (record_success borsh st (record { swap_id = id; action = a }))
  unfolding record_success swap_record
  success_synced st id Action.claim s = persist_swap-IsSynced borsh law id st _ s refl (λ j ne.
      rw
        (
          success_ne id j ne (claim_key j) (claim_key id) st.queue refl refl,
          success_ne id j ne (refund_key j) (claim_key id) st.queue refl refl,
          find-retain (is_claim_of j) (is_claim_of id) (claim_apart id j ne) st.pending_claims,
        )
        refl)
  success_synced st id Action.refund s = persist_swap-IsSynced borsh law id st _ s refl (λ j ne.
      rw
        (
          success_ne id j ne (claim_key j) (refund_key id) st.queue refl refl,
          success_ne id j ne (refund_key j) (refund_key id) st.queue refl refl,
          find-retain (is_refund_of j) (is_refund_of id) (refund_apart id j ne) st.pending_refunds,
        )
        refl)

  -- A success that is recorded leaves the disk in step with the buffer. Borsh writes every
  -- record and reads it back.
  pub record_success-IsSynced :
      (st : Evm) (key : ActionKey)
      → IsSynced borsh st
      → IsSynced borsh (record_success borsh st key)
  record_success-IsSynced st key = success_synced st key.swap_id key.action

  -- A failure that is recorded leaves the disk in step with the buffer. Borsh writes every
  -- record and reads it back.
  pub record_failure-IsSynced :
      (st : Evm) (key : ActionKey) (now : ℕ)
      → IsSynced borsh st
      → IsSynced borsh (record_failure borsh st key now)
  unfolding record_failure swap_record
  record_failure-IsSynced st key now s =
      persist_swap-IsSynced borsh law key.swap_id st _ s refl (λ j ne.
        rw
          (
            failure_ne key.swap_id j ne (claim_key j) key now (jitter key) st.queue refl refl,
            failure_ne key.swap_id j ne (refund_key j) key now (jitter key) st.queue refl refl,
          )
          refl)

  -- An event of the chain leaves the disk in step with the buffer. Borsh writes every record and
  -- reads it back.
  pub track_actionable_event-IsSynced :
      (now : ℕ) (event : ChainEvent) (st : Evm)
      → IsSynced borsh st
      → IsSynced borsh (track_actionable_event borsh now event st)
  unfolding track_actionable_event
  track_actionable_event-IsSynced now event st s =
      persist_swap-IsSynced borsh law (event_swap_id event) st (tracked now event st) s
        (tracked_store now event st) (λ j. tracked_ne now st j event)
