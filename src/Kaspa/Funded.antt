-- ===== src/Kaspa/Funded.antt =====
-- chains/kaspa/decode/outputs.rs: what stands behind a commitment that the scan of a block reports.
use mathlib.Core.Logic.{◌⊎◌}
use stroemnet.Common.{
  ℕ, ◌≤◌, ◌<◌, ◌≡◌, refl, some, List, [], ◌∷◌, ◌++◌, arith, Bytes, ok, ok_inj, leb, leb→le,
  Bool-cases, Option-cases, Result-cases, inl, inr, bytes_eq,
}
use stroemnet.Common.Dict.{Dict, get}
use stroemnet.Protocol.Channel.{ChannelId}
use stroemnet.Protocol.V1.{ChainEvent, commitment, CommitmentV1}
use stroemnet.Records.Swap.{UtxoScript}
use stroemnet.Kaspa.Extract.{Prefix, Crates, extract_commitment, reconstruct}
use stroemnet.Kaspa.Scan.{
  TxOutput, BlockOutcomes, deposit_target_valid, credit, match_outputs, scan_matched, scan_outputs,
}

deposit_target_pos :
    (text : Bytes) (target : ℕ) → deposit_target_valid text ≡ some target → 0 < target
unfolding deposit_target_valid
deposit_target_pos text target h = ground arith

-- The commitment is among the events.
abbrev pub Reports : CommitmentV1 → List ChainEvent → Type 0
Reports c [] = ⊥
Reports c (event ∷ events) = (event ≡ commitment c) ⊎ Reports c events

Reports-append :
    (c : CommitmentV1) (events : List ChainEvent) (event : ChainEvent)
    → Reports c (events ++ (event ∷ []))
    → Reports c events ⊎ (event ≡ commitment c)
Reports-append c [] event (inl e) = inr e
Reports-append c [] event (inr h) = elim h [ ]
Reports-append c (first ∷ events) event (inl e) = inl (inl e)
Reports-append c (first ∷ events) event (inr h) = elim (Reports-append c events event h) [
  | inl there ↦ inl (inr there)
  | inr e ↦ inr e
]

module _ (crates : Crates) (scripts : Dict Bytes UtxoScript) (prefix : Prefix)
    (channel_id : ChannelId) where
  -- An output pays the target of a known script, at the script's address, and the script reads as the
  -- commitment.
  pub record Pays (c : CommitmentV1) (value : ℕ) (script : UtxoScript) : Type 0 where
    pub reads : reconstruct crates script prefix channel_id ≡ ok c
    pub target : ℕ
    pub parsed : deposit_target_valid script.deposit_target ≡ some target
    pub positive : 0 < target
    pub enough : target ≤ value

  abbrev pub Matched : CommitmentV1 → List (ℕ × UtxoScript) → Type 0
  Matched c [] = ⊥
  Matched c ((value, script) ∷ matched) = Pays c value script ⊎ Matched c matched

  -- One of the outputs pays the commitment's script.
  abbrev pub Paid : CommitmentV1 → List TxOutput → Type 0
  Paid c [] = ⊥
  Paid c (output ∷ outputs) =
      ((key : Bytes) × (script : UtxoScript) × (crates.address_of_spk output.script_public_key
            prefix
          ≡ ok key)
        × (get key scripts ≡ some script)
        × Pays c output.value script)
      ⊎ Paid c outputs

  Matched-Paid :
      (c : CommitmentV1) (outputs : List TxOutput)
      → Matched c (match_outputs crates scripts prefix outputs)
      → Paid c outputs
  unfolding match_outputs
  Matched-Paid c [] h = h
  Matched-Paid c (output ∷ outputs) h =
      elim (Result-cases (crates.address_of_spk output.script_public_key prefix)) [
        | inr (e, failed) ↦ inr (Matched-Paid c outputs (rw (match_outputs, failed) at h))
        | inl (key, printed) ↦ elim (Option-cases (get key scripts)) [
          | inl missing ↦ inr (Matched-Paid c outputs (rw (match_outputs, printed, missing) at h))
          | inr (script, there) ↦ elim (rw (match_outputs, printed, there) at h) [
            | inl pays ↦ inl (key, script, printed, there, pays)
            | inr later ↦ inr (Matched-Paid c outputs later)
          ]
        ]
      ]

  -- What one output that is matched adds.
  credit-Reports :
      (c d : CommitmentV1) (value : ℕ) (text : Bytes) (found : BlockOutcomes)
      → Reports c (credit value (deposit_target_valid text) d found).events
      → Reports c found.events
        ⊎ ((target : ℕ) × (d ≡ c) × (deposit_target_valid text ≡ some target) × (target ≤ value))
  unfolding credit
  credit-Reports c d value text found h = elim (Option-cases (deposit_target_valid text)) [
    | inl e ↦ inl (rw (credit, e) at h)
    | inr (target, e) ↦ elim (Bool-cases (leb target value)) [
      | inr low ↦ inl (rw (credit, e, low) at h)
      | inl high ↦ elim (Reports-append c found.events (commitment d) (rw (credit, e, high) at h)) [
        | inl there ↦ inl there
        | inr same ↦ inr (target, cc, e, leb→le target value high)
      ]
    ]
  ]

  scan_matched-Reports :
      (c : CommitmentV1) (matched : List (ℕ × UtxoScript)) (found result : BlockOutcomes)
      → scan_matched crates prefix channel_id matched found ≡ ok result
      → Reports c result.events
      → Reports c found.events ⊎ Matched c matched
  unfolding scan_matched reconstruct
  scan_matched-Reports c [] found result h there = inl (rw (ok_inj h) there)
  scan_matched-Reports c ((value, script) ∷ matched) found result h there =
      elim (Result-cases (crates.parse_script script.redeem_script)) [
        | inr (e, failed) ↦ absurd (ground arith)
        | inl (ops, parsed) ↦
            elim (Result-cases
              (extract_commitment crates ops script.deposit_target prefix channel_id)) [
                | inr (e, unread) ↦
                    elim (scan_matched-Reports c matched found result
                      (rw (scan_matched, parsed, unread) at h) there) [
                        | inl before ↦ inl before
                        | inr later ↦ inr (inr later)
                      ]
                | inl (d, reads) ↦
                    elim (scan_matched-Reports c matched
                      (credit value (deposit_target_valid script.deposit_target) d found) result
                      (rw (scan_matched, parsed, reads) at h) there) [
                        | inr later ↦ inr (inr later)
                        | inl now ↦
                            elim (credit-Reports c d value script.deposit_target found now) [
                              | inl before ↦ inl before
                              | inr (target, same, valid, enough) ↦ inr (
                                  inl record {
                                    reads = rw (parsed, reads, same) refl;
                                    target = target;
                                    parsed = valid;
                                    positive =
                                        deposit_target_pos script.deposit_target target valid;
                                    enough = enough;
                                  })
                            ]
                      ]
              ]
      ]

  -- A commitment that the scan of a transaction's outputs adds to the events is backed: one of the
  -- outputs is at the address of a known script that reads as this commitment, and its value is at
  -- least the script's deposit target, a number above zero.
  pub scan_outputs-Paid :
      (c : CommitmentV1) (outputs : List TxOutput) (found result : BlockOutcomes)
      → scan_outputs crates outputs scripts prefix channel_id found ≡ ok result
      → Reports c result.events
      → Reports c found.events ⊎ Paid c outputs
  unfolding scan_outputs
  scan_outputs-Paid c outputs found result h there =
      elim (scan_matched-Reports c (match_outputs crates scripts prefix outputs) found result h
        there) [ inl before ↦ inl before | inr now ↦ inr (Matched-Paid c outputs now) ]
