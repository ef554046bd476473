-- ===== src/Kaspa/Attempted.antt =====
-- chains/kaspa/poll.rs and persist.rs: what is pending after the outcomes of a block is in the queue of
-- attempts.
use stroemnet.Common.{
  ℕ, ◌≡◌, ◌∙◌, ap, sym, refl, true, false, not, ◌&&◌, List, [], ◌∷◌, arith, Bytes, bytes_eq, ◌==◌,
  any, list_beq_iff,
}
use stroemnet.Protocol.V1.{ChainEvent, commitment, reveal, refund}
use stroemnet.Records.Codec.{Borsh}
use stroemnet.Chains.Pending.{is_refund_of, queue_dequeue_refund_event, event_swap_id}
use stroemnet.Kaspa.Scan.{BlockOutcomes}
use stroemnet.Kaspa.Outcomes.{commits, IsCovered}
use stroemnet.Kaspa.Buffer.{
  Kaspa, cache_commitment, is_resolving, forget, tracked, persist_swap, track_actionable_event,
}
use stroemnet.Kaspa.Events.{track_all, take_outcomes}
use stroemnet.Kaspa.Scheduled.{
  IsScheduled, any-retain-refund, persist_swap-Scheduled, Scheduled-forget,
}
use stroemnet.Kaspa.Pushed.{is_pending, persist_swap-SameLists, take_refunds-TakesRefunds}

-- No swap that one of the events resolves is committed to by a later one.
abbrev pub ResolvesLast : List ChainEvent → Type 0
ResolvesLast [] = Unit
ResolvesLast (commitment c ∷ events) = ResolvesLast events
ResolvesLast (reveal r ∷ events) = (commits r.swap_id events ≡ false) × ResolvesLast events
ResolvesLast (refund r ∷ events) = (commits r.swap_id events ≡ false) × ResolvesLast events

-- The swaps that the events commit to are pending, where the node takes part in refunds.
abbrev AllPending : List ChainEvent → Kaspa → Type 0
AllPending events st =
    (id : Bytes) → st.participate_ccr ≡ true → commits id events ≡ true → is_pending id st ≡ true

module _ (borsh : Borsh) (now : ℕ) where
  record Tracks (event : ChainEvent) (st next : Kaspa) : Type 0 where
    pub scheduled : IsScheduled next
    pub ccr : next.participate_ccr ≡ st.participate_ccr
    pub pending :
        (id : Bytes)
        → (is_resolving event && (id == event_swap_id event)) ≡ false
        → is_pending id next ≡ is_pending id st

  Tracks-persist :
      (i : Bytes) (event : ChainEvent) (st next : Kaspa)
      → Tracks event st next
      → Tracks event st (persist_swap borsh i next)
  Tracks-persist i event st next t =
      let same = persist_swap-SameLists borsh now i next in
      record {
        scheduled = persist_swap-Scheduled borsh i next t.scheduled;
        ccr = same.ccr ∙ t.ccr;
        pending = λ id h. ap (any (is_refund_of id)) same.refunds ∙ t.pending id h;
      }

  resolved-Tracks :
      (id : Bytes) (st : Kaspa)
      → IsScheduled st
      → Tracks (refund (record { swap_id = id })) st (
          forget id (record st {
            pending_refunds =
                queue_dequeue_refund_event st.pending_refunds
                  (refund (record { swap_id = id }))
                  st.participate_ccr;
          }))
  unfolding forget queue_dequeue_refund_event is_resolving event_swap_id
  resolved-Tracks id st s = record {
    scheduled = Scheduled-forget _ _ _ s id;
    ccr = refl;
    pending = λ j h. ground (arith, any-retain-refund j id st.pending_refunds);
  }

  tracked-Tracks :
      (event : ChainEvent) (st : Kaspa)
      → IsScheduled st
      → AllPending (event ∷ []) st
      → Tracks event st (tracked event st)
  unfolding tracked cache_commitment is_resolving forget queue_dequeue_refund_event event_swap_id
  tracked-Tracks (reveal r) st s ready =
      let t = resolved-Tracks r.swap_id st s in
      record { scheduled = t.scheduled; ccr = t.ccr; pending = t.pending }
  tracked-Tracks (refund r) st s ready =
      let t = resolved-Tracks r.swap_id st s in
      record { scheduled = t.scheduled; ccr = t.ccr; pending = t.pending }
  tracked-Tracks (commitment c) st s ready =
      let known : (st.participate_ccr && not (is_pending c.swap_id st)) ≡ false =
        ground (arith, ready c.swap_id, list_beq_iff c.swap_id c.swap_id) in
      rw known (record { scheduled = s; ccr = refl; pending = λ j h. refl })

  track_actionable_event-Tracks :
      (event : ChainEvent) (st : Kaspa)
      → IsScheduled st
      → AllPending (event ∷ []) st
      → Tracks event st (track_actionable_event borsh event st)
  unfolding track_actionable_event
  track_actionable_event-Tracks event st s ready =
      Tracks-persist (event_swap_id event) event st (tracked event st)
        (tracked-Tracks event st s ready)

  -- What is committed to later is not what an event resolves.
  later_apart :
      (event : ChainEvent) (events : List ChainEvent) (id : Bytes)
      → ResolvesLast (event ∷ events)
      → commits id events ≡ true
      → (is_resolving event && (id == event_swap_id event)) ≡ false
  unfolding is_resolving event_swap_id
  later_apart (commitment c) events id last h = refl
  later_apart (reveal r) events id (none_later, last) h =
      ground (arith, list_beq_iff id r.swap_id, ap (λ i. commits i events))
  later_apart (refund r) events id (none_later, last) h =
      ground (arith, list_beq_iff id r.swap_id, ap (λ i. commits i events))

  resolves_later :
      (event : ChainEvent) (events : List ChainEvent)
      → ResolvesLast (event ∷ events)
      → ResolvesLast events
  resolves_later (commitment c) events last = last
  resolves_later (reveal r) events last = last.1
  resolves_later (refund r) events last = last.1

  track_all-IsScheduled :
      (events : List ChainEvent) (st : Kaspa)
      → ResolvesLast events
      → IsScheduled st
      → AllPending events st
      → IsScheduled (track_all borsh now events st)
  unfolding track_all
  track_all-IsScheduled [] st last s ready = s
  track_all-IsScheduled (event ∷ events) st last s ready =
      let t = track_actionable_event-Tracks event st s (λ id h c. ready id h (ground arith)) in
      track_all-IsScheduled events (track_actionable_event borsh event st)
        (resolves_later event events last) t.scheduled
        (λ id h c.
          t.pending id (later_apart event events id last c)
          ∙ ready id (sym t.ccr ∙ h) (ground arith))

  -- After the outcomes of a block are taken in, everything pending is in the queue of attempts, if it was
  -- before, each commitment of the outcomes is among their refunds, and no commitment of a swap follows
  -- its own reveal or refund.
  pub take_outcomes-IsScheduled :
      (outcomes : BlockOutcomes) (st : Kaspa)
      → IsCovered outcomes
      → ResolvesLast outcomes.events
      → IsScheduled st
      → IsScheduled (take_outcomes borsh now outcomes st)
  unfolding take_outcomes
  take_outcomes-IsScheduled outcomes st covered last s =
      let taken = take_refunds-TakesRefunds borsh now outcomes.refunds st s in
      track_all-IsScheduled outcomes.events _ last taken.scheduled
        (λ id h c. taken.pending id (sym taken.ccr ∙ h) (covered id c))
