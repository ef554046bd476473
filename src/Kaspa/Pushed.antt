-- ===== src/Kaspa/Pushed.antt =====
-- chains/kaspa/poll.rs: the refunds of a block become pending and enter the queue of attempts.
use stroemnet.Common.{
  ℕ, ◌≡◌, ◌∙◌, ap, refl, Bool, true, false, ◌&&◌, ◌||◌, List, [], ◌∷◌, arith, Bytes, bytes_eq, ◌==◌,
  any, any-append, Bool-cases, Option-cases, inl, inr, list_beq_iff, if◌then◌else◌,
}
use stroemnet.Protocol.V1.{RefundV1}
use stroemnet.Records.Codec.{Borsh}
use stroemnet.Settlement.Queue.{claim_key, refund_key, ensure}
use stroemnet.Chains.Pending.{is_refund_of, push_pending_refund}
use stroemnet.Kaspa.Outcomes.{listed}
use stroemnet.Kaspa.Buffer.{Kaspa, persist_swap}
use stroemnet.Kaspa.Events.{push_refunds, schedule_refunds, take_refunds}
use stroemnet.Kaspa.Scheduled.{in_queue, IsScheduled, in_queue-ensure, same_refund, claim-refund}

abbrev pub is_pending : Bytes → Kaspa → Bool
is_pending id st = any (is_refund_of id) st.pending_refunds

abbrev among : Bytes → List Bytes → Bool
among id ids = any (λ i. id == i) ids

module _ (refunds : List (RefundV1 × ℕ)) (i : Bytes) (unlock_ts : ℕ) (id : Bytes) where
  push_pending :
      any (is_refund_of id) (push_pending_refund refunds i unlock_ts).0
      ≡ (any (is_refund_of id) refunds || (i == id))
  unfolding push_pending_refund
  push_pending = elim (Bool-cases (any (is_refund_of i) refunds)) [
    | inl old ↦ elim (Bool-cases (i == id)) [
      | inl same ↦
          let e : i ≡ id = (list_beq_iff i id).0 same in
          rw (push_pending_refund, old) (ground (arith, e))
      | inr apart ↦ rw (push_pending_refund, old) (ground arith)
    ]
    | inr new ↦
        rw (push_pending_refund, new)
          (ground (
            arith,
            any-append (is_refund_of id) refunds ((record { swap_id = i }, unlock_ts) ∷ []),
          ))
  ]

  push_pending_new :
      any (is_refund_of id) (push_pending_refund refunds i unlock_ts).0 ≡ true
      → (any (is_refund_of id) refunds
          || ((push_pending_refund refunds i unlock_ts).1 && (id == i)))
        ≡ true
  unfolding push_pending_refund
  push_pending_new h = elim (Bool-cases (any (is_refund_of i) refunds)) [
    | inl old ↦ rw (push_pending_refund, old) (ground arith)
    | inr new ↦
        rw (push_pending_refund, new)
          (ground (
            arith,
            list_beq_iff i id,
            list_beq_iff id i,
            any-append (is_refund_of id) refunds ((record { swap_id = i }, unlock_ts) ∷ []),
          ))
  ]

module _ (borsh : Borsh) (now : ℕ) where
  -- What the loop over the refunds of a block leaves.
  record Pushes (refunds : List (Bytes × ℕ)) (st : Kaspa) (pushed : Kaspa × List Bytes)
      : Type 0 where
    pub queue : pushed.0.queue ≡ st.queue
    pub claims : pushed.0.pending_claims ≡ st.pending_claims
    pub ccr : pushed.0.participate_ccr ≡ st.participate_ccr
    pub pending : (id : Bytes) → is_pending id pushed.0 ≡ (is_pending id st || listed id refunds)
    pub fresh :
        (id : Bytes)
        → is_pending id pushed.0 ≡ true
        → (is_pending id st || among id pushed.1) ≡ true

  push_refunds-Pushes :
      (refunds : List (Bytes × ℕ)) (st : Kaspa)
      → Pushes refunds st (push_refunds borsh now refunds st)
  unfolding push_refunds
  push_refunds-Pushes [] st = record {
    queue = refl;
    claims = refl;
    ccr = refl;
    pending = λ id. ground arith;
    fresh = λ id h. ground arith;
  }
  push_refunds-Pushes ((i, unlock_ts) ∷ refunds) st =
      let pushed = push_pending_refund st.pending_refunds i unlock_ts in
      let rest = push_refunds-Pushes refunds (record st { pending_refunds = pushed.0 }) in
      record {
        queue = rest.queue;
        claims = rest.claims;
        ccr = rest.ccr;
        pending =
            λ id. ground (arith, rest.pending id, push_pending st.pending_refunds i unlock_ts id);
        fresh = λ id h. elim (Bool-cases pushed.1) [
          | inl new ↦
              rw (push_refunds, new)
                (ground (arith, rest.fresh id, push_pending_new st.pending_refunds i unlock_ts id))
          | inr old ↦
              rw (push_refunds, old)
                (ground (arith, rest.fresh id, push_pending_new st.pending_refunds i unlock_ts id))
        ];
      }

  -- The parts of the state that scheduling is about.
  pub record SameLists (a b : Kaspa) : Type 0 where
    pub queue : a.queue ≡ b.queue
    pub refunds : a.pending_refunds ≡ b.pending_refunds
    pub claims : a.pending_claims ≡ b.pending_claims
    pub ccr : a.participate_ccr ≡ b.participate_ccr

  pub persist_swap-SameLists : (i : Bytes) (st : Kaspa) → SameLists (persist_swap borsh i st) st
  unfolding persist_swap
  persist_swap-SameLists i st = elim (Option-cases st.swap_store) [
    | inl e ↦
        rw (persist_swap, e) (record { queue = refl; refunds = refl; claims = refl; ccr = refl })
    | inr (rows, e) ↦
        rw (persist_swap, e) (record { queue = refl; refunds = refl; claims = refl; ccr = refl })
  ]

  record Schedules (pushed : List Bytes) (st next : Kaspa) : Type 0 where
    pub refunds : next.pending_refunds ≡ st.pending_refunds
    pub claims : next.pending_claims ≡ st.pending_claims
    pub ccr : next.participate_ccr ≡ st.participate_ccr
    pub refund_kept :
        (id : Bytes)
        → (in_queue (refund_key id) st.queue || among id pushed) ≡ true
        → in_queue (refund_key id) next.queue ≡ true
    pub claim_kept :
        (id : Bytes)
        → in_queue (claim_key id) st.queue ≡ true
        → in_queue (claim_key id) next.queue ≡ true

  schedule_refunds-Schedules :
      (pushed : List Bytes) (st : Kaspa)
      → Schedules pushed st (schedule_refunds borsh now pushed st)
  unfolding schedule_refunds
  schedule_refunds-Schedules [] st = record {
    refunds = refl;
    claims = refl;
    ccr = refl;
    refund_kept = λ id h. ground arith;
    claim_kept = λ id h. h;
  }
  schedule_refunds-Schedules (i ∷ pushed) st =
      let ensured : Kaspa = record st { queue = ensure (refund_key i) now st.queue } in
      let same = persist_swap-SameLists i ensured in
      let rest = schedule_refunds-Schedules pushed (persist_swap borsh i ensured) in
      record {
        refunds = rest.refunds ∙ same.refunds;
        claims = rest.claims ∙ same.claims;
        ccr = rest.ccr ∙ same.ccr;
        refund_kept = λ id h. rest.refund_kept id (
            rw same.queue (
              ground (
                arith,
                in_queue-ensure (refund_key id) (refund_key i) now st.queue,
                same_refund id i,
              )));
        claim_kept = λ id h. rest.claim_kept id (
            rw same.queue (
              ground (
                arith,
                in_queue-ensure (claim_key id) (refund_key i) now st.queue,
                claim-refund id i,
              )));
      }

  pub record TakesRefunds (refunds : List (Bytes × ℕ)) (st next : Kaspa) : Type 0 where
    pub scheduled : IsScheduled next
    pub ccr : next.participate_ccr ≡ st.participate_ccr
    pub pending :
        (id : Bytes)
        → st.participate_ccr ≡ true
        → listed id refunds ≡ true
        → is_pending id next ≡ true

  take_refunds_if :
      (refunds : List (Bytes × ℕ)) (st : Kaspa) (b : Bool)
      → st.participate_ccr ≡ b
      → take_refunds borsh now refunds st ≡ (
          if b
          then schedule_refunds borsh now
              (push_refunds borsh now refunds st).1
              (push_refunds borsh now refunds st).0
          else st)
  unfolding take_refunds
  take_refunds_if refunds st b e =
      ap
        (λ c.
          if c
          then schedule_refunds borsh now (push_refunds borsh now refunds st).1
              (push_refunds borsh now refunds st).0
          else st)
        e

  pub take_refunds-TakesRefunds :
      (refunds : List (Bytes × ℕ)) (st : Kaspa)
      → IsScheduled st
      → TakesRefunds refunds st (take_refunds borsh now refunds st)
  take_refunds-TakesRefunds refunds st s = elim (Bool-cases st.participate_ccr) [
    | inr observes ↦
        rw (take_refunds_if refunds st false observes)
          (record { scheduled = s; ccr = refl; pending = λ id h l. absurd (ground arith) })
    | inl takes_part ↦
        let pushed = push_refunds borsh now refunds st in
        let p = push_refunds-Pushes refunds st in
        let q = schedule_refunds-Schedules pushed.1 pushed.0 in
        rw (take_refunds_if refunds st true takes_part) (record {
          scheduled = record {
            refund_queued = λ id h. q.refund_kept id (
                ground (
                  arith,
                  p.fresh id (rw q.refunds at h),
                  s.refund_queued id,
                  ap (in_queue (refund_key id)) p.queue,
                ));
            claim_queued = λ id h. q.claim_kept id (
                ap (in_queue (claim_key id)) p.queue
                ∙ s.claim_queued id (rw (q.claims, p.claims) at h));
          };
          ccr = q.ccr ∙ p.ccr;
          pending =
              λ id h l. ap (any (is_refund_of id)) q.refunds ∙ ground (arith, p.pending id, l);
        })
  ]
