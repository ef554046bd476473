-- ===== src/Kaspa/Outcomes.antt =====
-- chains/kaspa/decode: each commitment that a block's scan reports is among its refunds.
use stroemnet.Common.{
  ℕ, ◌≡◌, ◌∙◌, refl, Bool, true, false, Option, none, some, List, [], ◌∷◌, arith, Bytes, bytes_eq,
  ◌==◌, any, any-append, ok, map_err, >>=-eq-ok, ok_inj, leb, Bool-cases, Option-cases,
  Result-cases, inl, inr, is_some,
}
use stroemnet.Common.Dict.{Dict, get}
use stroemnet.Protocol.Channel.{ChannelId}
use stroemnet.Protocol.V1.{CommitmentV1, ChainEvent, commitment, reveal, refund}
use stroemnet.Records.Swap.{UtxoScript}
use stroemnet.Kaspa.Ops.{tx_script, ParsedOp, extract_reveal_secret, validate_refund_sig}
use stroemnet.Kaspa.Extract.{Prefix, Crates, extract_commitment}
use stroemnet.Kaspa.Spend.{
  event_swap_id, last_redeem, derive_p2sh_addr, classify_ops, classify_spend, Scanned, emit,
  scan_input, scan_each, scan_inputs,
}
use stroemnet.Kaspa.Scan.{
  Transaction, BlockOutcomes, deposit_target_valid, credit, match_outputs, scan_matched,
  scan_outputs, handle_transactions, handle_block_added,
}

abbrev pub is_commitment_of : Bytes → ChainEvent → Bool
is_commitment_of id (commitment c) = c.swap_id == id
is_commitment_of id (reveal r) = false
is_commitment_of id (refund r) = false

abbrev pub commits : Bytes → List ChainEvent → Bool
commits id events = any (is_commitment_of id) events

abbrev pub listed : Bytes → List (Bytes × ℕ) → Bool
listed id refunds = any (λ (r : Bytes × ℕ). r.0 == id) refunds

abbrev pub IsCovered : BlockOutcomes → Type 0
IsCovered found = (id : Bytes) → commits id found.events ≡ true → listed id found.refunds ≡ true

credit-IsCovered :
    (value : ℕ) (target : Option ℕ) (c : CommitmentV1) (found : BlockOutcomes)
    → IsCovered found
    → IsCovered (credit value target c found)
unfolding credit
credit-IsCovered value none c found covered id h = covered id h
credit-IsCovered value (some target) c found covered id h = elim (Bool-cases (leb target value)) [
  | inl enough ↦ ground (
    arith,
    covered id,
    any-append (is_commitment_of id) found.events (commitment c ∷ []),
    any-append (λ (r : Bytes × ℕ). r.0 == id) found.refunds ((c.swap_id, c.unlock_ts) ∷ []),
  )
  | inr short ↦ ground (
    arith,
    covered id,
    any-append (λ (r : Bytes × ℕ). r.0 == id) found.refunds ((c.swap_id, c.unlock_ts) ∷ []),
  )
]

module _ (crates : Crates) (prefix : Prefix) (channel_id : ChannelId) where
  scan_matched-IsCovered :
      (matched : List (ℕ × UtxoScript)) (found result : BlockOutcomes)
      → scan_matched crates prefix channel_id matched found ≡ ok result
      → IsCovered found
      → IsCovered result
  unfolding scan_matched
  scan_matched-IsCovered [] found result e covered = rw (← ok_inj e) covered
  scan_matched-IsCovered ((value, script) ∷ matched) found result e covered =
      elim (Result-cases (crates.parse_script script.redeem_script)) [
        | inr (failure, failed) ↦ absurd (ground arith)
        | inl (ops, parsed) ↦
            elim (Result-cases
              (extract_commitment crates ops script.deposit_target prefix channel_id)) [
                | inr (failure, odd) ↦
                    scan_matched-IsCovered matched found result
                      (rw (scan_matched, parsed, odd) at e) covered
                | inl (c, reads) ↦
                    scan_matched-IsCovered matched
                      (credit value (deposit_target_valid script.deposit_target) c found) result
                      (rw (scan_matched, parsed, reads) at e)
                      (credit-IsCovered value (deposit_target_valid script.deposit_target) c found
                        covered)
              ]
      ]

  no_commitment :
      (ops : List ParsedOp) (swap_id : Option Bytes) (c : CommitmentV1) (closed : Bool)
      → ¬ (classify_ops crates ops swap_id ≡ (some (commitment c), closed))
  unfolding classify_ops
  no_commitment ops swap_id c closed e =
      elim (Result-cases (extract_reveal_secret crates.code ops)) [
        | inl (secret, shown) ↦ elim (Option-cases swap_id) [
          | inl missing ↦ absurd (ground arith)
          | inr (id, there) ↦ absurd (ground arith)
        ]
        | inr (e1, hidden) ↦ elim (Result-cases (validate_refund_sig crates.code ops)) [
          | inr (e2, invalid) ↦ absurd (ground arith)
          | inl (done, valid) ↦ elim (Option-cases swap_id) [
            | inl missing ↦ absurd (ground arith)
            | inr (id, there) ↦ absurd (ground arith)
          ]
        ]
      ]

  classify_spend-spend :
      (sig : Bytes) (script : UtxoScript) (id : Bytes) (event : ChainEvent) (closed : Bool)
      → classify_spend crates sig script prefix channel_id ≡ ok (some event, closed)
      → is_commitment_of id event ≡ false
  unfolding classify_spend
  classify_spend-spend sig script id (reveal r) closed e = refl
  classify_spend-spend sig script id (refund r) closed e = refl
  classify_spend-spend sig script id (commitment c) closed e =
      let (ops, a, e1) = >>=-eq-ok (map_err tx_script (crates.parse_script sig)) _ e in
      let (redeem, b, e2) =
        >>=-eq-ok (map_err tx_script (crates.parse_script script.redeem_script)) _ e1 in
      absurd (no_commitment ops _ c closed (ok_inj e2))

  emit-commits :
      (id : Bytes) (event : ChainEvent) (closed : Bool) (addr : Bytes) (st : Scanned)
      → is_commitment_of id event ≡ false
      → commits id (emit event closed addr st).events ≡ commits id st.events
  unfolding emit event_swap_id
  emit-commits id event closed addr st h = elim (Option-cases (event_swap_id event)) [
    | inl e ↦ rw (emit, e) (ground (arith, any-append (is_commitment_of id) st.events (event ∷ [])))
    | inr (j, e) ↦ elim (Bool-cases (is_some (get j st.emit_dedup))) [
      | inl again ↦ rw (emit, e, again) refl
      | inr first ↦
          rw (emit, e, first)
            (ground (arith, any-append (is_commitment_of id) st.events (event ∷ [])))
    ]
  ]

  module _ (scripts : Dict Bytes UtxoScript) (id : Bytes) where
    scan_input-commits :
        (sig : Bytes) (st : Scanned)
        → commits id (scan_input crates scripts prefix channel_id sig st).events
          ≡ commits id st.events
    unfolding scan_input
    scan_input-commits sig st = elim (Option-cases (last_redeem crates sig)) [
      | inl e ↦ rw (scan_input, e) refl
      | inr (redeem, e) ↦ elim (Option-cases (derive_p2sh_addr crates redeem prefix)) [
        | inl e2 ↦ rw (scan_input, e, e2) refl
        | inr (addr, e2) ↦ elim (Option-cases (get addr scripts)) [
          | inl e3 ↦ rw (scan_input, e, e2, e3) refl
          | inr (us, e3) ↦ elim (Result-cases (classify_spend crates sig us prefix channel_id)) [
            | inr (failure, e4) ↦ rw (scan_input, e, e2, e3, e4) refl
            | inl ((none, closed), e4) ↦ rw (scan_input, e, e2, e3, e4) refl
            | inl ((some event, closed), e4) ↦
                rw (scan_input, e, e2, e3, e4)
                  (emit-commits id event closed addr st
                    (classify_spend-spend sig us id event closed e4))
          ]
        ]
      ]
    ]

    scan_each-commits :
        (sigs : List Bytes) (st : Scanned)
        → commits id (scan_each crates scripts prefix channel_id sigs st).events
          ≡ commits id st.events
    unfolding scan_each
    scan_each-commits [] st = refl
    scan_each-commits (sig ∷ sigs) st =
        scan_each-commits sigs (scan_input crates scripts prefix channel_id sig st)
        ∙ scan_input-commits sig st

    scan_inputs-commits :
        (inputs : List Bytes) (events : List ChainEvent)
        → commits id (scan_inputs crates inputs scripts prefix channel_id events).1
          ≡ commits id events
    unfolding scan_inputs
    scan_inputs-commits inputs events =
        scan_each-commits inputs (record { closed_addrs = []; emit_dedup = []; events = events })

  handle_transactions-IsCovered :
      (txs : List Transaction) (scripts : Dict Bytes UtxoScript) (found result : BlockOutcomes)
      → (handle_transactions crates txs scripts prefix channel_id found).1 ≡ ok result
      → IsCovered found
      → IsCovered result
  unfolding handle_transactions scan_outputs
  handle_transactions-IsCovered [] scripts found result e covered = rw (← ok_inj e) covered
  handle_transactions-IsCovered (tx ∷ txs) scripts found result e covered =
      elim (Result-cases (scan_outputs crates tx.outputs scripts prefix channel_id found)) [
        | inr (failure, failed) ↦ absurd (ground arith)
        | inl (paid, done) ↦
            let spent = scan_inputs crates tx.inputs scripts prefix channel_id paid.events in
            let after =
              scan_matched-IsCovered (match_outputs crates scripts prefix tx.outputs) found paid
                done covered in
            handle_transactions-IsCovered txs spent.0 (record paid { events = spent.1 }) result
              (rw (handle_transactions, done) at e)
              (λ id h. after id (rw (scan_inputs-commits scripts id tx.inputs paid.events) at h))
      ]

  -- A commitment that the scan of a block reports is among the refunds that the scan schedules.
  pub handle_block_added-IsCovered :
      (txs : List Transaction) (scripts : Dict Bytes UtxoScript) (result : BlockOutcomes)
      → (handle_block_added crates txs scripts prefix channel_id).1 ≡ ok result
      → IsCovered result
  unfolding handle_block_added
  handle_block_added-IsCovered txs scripts result e =
      handle_transactions-IsCovered txs scripts (record { events = []; refunds = [] }) result e
        (λ id h. absurd (ground arith))
