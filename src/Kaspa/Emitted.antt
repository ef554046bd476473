-- ===== src/Kaspa/Emitted.antt =====
-- chains/kaspa/decode/inputs.rs: how often the scan of a transaction's inputs reports a swap.
use stroemnet.Common.{
  ℕ, ◌+◌, ◌≤◌, ◌≡◌, Bool, true, false, none, some, List, [], ◌∷◌, ◌++◌, arith, Bytes, bytes_eq,
  list_beq_iff, is_some, if◌then◌else◌, ◌==◌, Option-cases, Result-cases, inl, inr,
}
use stroemnet.Common.Dict.{Dict, get, get-insert}
use stroemnet.Protocol.Channel.{ChannelId}
use stroemnet.Protocol.V1.{ChainEvent, commitment, reveal, refund}
use stroemnet.Records.Swap.{UtxoScript}
use stroemnet.Kaspa.Extract.{Prefix, Crates}
use stroemnet.Kaspa.Spend.{
  event_swap_id, last_redeem, derive_p2sh_addr, classify_spend, Scanned, emit, scan_input,
  scan_each, scan_inputs,
}

-- Whether an event says of the swap that it was revealed or refunded.
is_spend_of : Bytes → ChainEvent → Bool
is_spend_of id (reveal r) = id == r.swap_id
is_spend_of id (refund r) = id == r.swap_id
is_spend_of id (commitment c) = false

-- How many of the events say that the swap was revealed or refunded.
unfoldable pub spends : Bytes → List ChainEvent → ℕ
unfolding is_spend_of
spends id [] = 0
spends id (event ∷ events) = (if is_spend_of id event then 1 else 0) + spends id events

-- Whether the scan of this transaction has reported the swap already.
abbrev reported : Bytes → Scanned → ℕ
reported id st = if is_some (get id st.emit_dedup) then 1 else 0

spends-append :
    (id : Bytes) (xs ys : List ChainEvent) → spends id (xs ++ ys) ≡ spends id xs + spends id ys
unfolding spends
spends-append id [] ys = omega arith
spends-append id (x ∷ xs) ys = omega (arith, spends-append id xs ys)

emit-spends :
    (id : Bytes) (start : ℕ) (event : ChainEvent) (closed : Bool) (addr : Bytes) (st : Scanned)
    → spends id st.events ≤ start + reported id st
    → spends id (emit event closed addr st).events ≤ start + reported id (emit event closed addr st)
unfolding emit event_swap_id spends is_spend_of
emit-spends id start (reveal r) closed addr st h = ground (
  arith,
  get-insert id r.swap_id true st.emit_dedup,
  spends-append id st.events (reveal r ∷ []),
  list_beq_iff id r.swap_id,
)
emit-spends id start (refund r) closed addr st h = ground (
  arith,
  get-insert id r.swap_id true st.emit_dedup,
  spends-append id st.events (refund r ∷ []),
  list_beq_iff id r.swap_id,
)
emit-spends id start (commitment c) closed addr st h =
    ground (arith, spends-append id st.events (commitment c ∷ []))

module _ (crates : Crates) (scripts : Dict Bytes UtxoScript) (prefix : Prefix)
    (channel_id : ChannelId) where
  scan_input-spends :
      (id : Bytes) (start : ℕ) (sig : Bytes) (st : Scanned)
      → spends id st.events ≤ start + reported id st
      → let next = scan_input crates scripts prefix channel_id sig st in
        spends id next.events ≤ start + reported id next
  unfolding scan_input
  scan_input-spends id start sig st h = elim (Option-cases (last_redeem crates sig)) [
    | inl e ↦ rw (scan_input, e) h
    | inr (redeem, e) ↦ elim (Option-cases (derive_p2sh_addr crates redeem prefix)) [
      | inl e2 ↦ rw (scan_input, e, e2) h
      | inr (addr, e2) ↦ elim (Option-cases (get addr scripts)) [
        | inl e3 ↦ rw (scan_input, e, e2, e3) h
        | inr (us, e3) ↦ elim (Result-cases (classify_spend crates sig us prefix channel_id)) [
          | inr (failure, e4) ↦ rw (scan_input, e, e2, e3, e4) h
          | inl ((none, closed), e4) ↦ rw (scan_input, e, e2, e3, e4) h
          | inl ((some event, closed), e4) ↦
              rw (scan_input, e, e2, e3, e4) (emit-spends id start event closed addr st h)
        ]
      ]
    ]
  ]

  scan_each-spends :
      (id : Bytes) (start : ℕ) (sigs : List Bytes) (st : Scanned)
      → spends id st.events ≤ start + reported id st
      → let next = scan_each crates scripts prefix channel_id sigs st in
        spends id next.events ≤ start + reported id next
  unfolding scan_each
  scan_each-spends id start [] st h = h
  scan_each-spends id start (sig ∷ sigs) st h =
      scan_each-spends id start sigs (scan_input crates scripts prefix channel_id sig st)
        (scan_input-spends id start sig st h)

  -- The scan of a transaction's inputs adds at most one event that says of a swap that it was
  -- revealed or refunded, however many of the inputs spend scripts of that swap.
  pub scan_inputs-once :
      (id : Bytes) (inputs : List Bytes) (events : List ChainEvent)
      → spends id (scan_inputs crates inputs scripts prefix channel_id events).1
        ≤ spends id events + 1
  unfolding scan_inputs
  scan_inputs-once id inputs events =
      let start : Scanned = record { closed_addrs = []; emit_dedup = []; events = events } in
      let bound = scan_each-spends id (spends id events) inputs start (ground arith) in ground arith
