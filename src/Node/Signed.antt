-- ===== src/Node/Signed.antt =====
-- coordinator/proposal.rs and response.rs: the quote that the asker sees is the one that the maker
-- signed.
use stroemnet.Common.{
  map_err-ok, ℕ, ◌≡◌, refl, sym, ap, ◌∙◌, true, some, arith, Bytes, ok, map_err, >>=-eq-ok, ok_inj,
  Result-cases, inl, inr, Option-cases, ◌&&◌, Bool-cases, some_inj,
}
use stroemnet.Protocol.Channel.{ChannelId, try_from, to_u8, try_from_iff}
use stroemnet.Network.Digest.{proposal_digest}
use stroemnet.Handler.Config.{Handler, HandlerError, Outside, knows_channel, rejection_reason}
use stroemnet.Handler.Quoting.{SwapRequest, TradeProposal, create_proposal}
use stroemnet.Handler.Timelock.{create_proposal-Proposed}
use stroemnet.Node.Wire.{ProposalRequest, ProposalResponse, CheckedQuote, proposal_response}
use stroemnet.Node.Proposals.{
  Sink, data_error, proposal_of, known_origin, unsigned, signed_response, answer, checked_quote,
}

-- A message that the maker's wallet signs for a balance verifies at the asker's, for the maker's
-- address and for that balance.
abbrev pub Vouches : Sink → Sink → Type 0
Vouches maker asker =
    (channel : ChannelId) (digest balance address signer signature : Bytes)
    → maker.lp_address channel ≡ ok address
    → maker.sign_message channel digest balance ≡ ok (signer, signature)
    → asker.verify_message channel digest address signature balance ≡ ok (true, true)

module _ {F : Type 0} (o : Outside F) (h : Handler F) (sink : Sink) where
  -- What a signed response says of the request and of the proposal.
  record Answers (req : ProposalRequest) (proposal : TradeProposal) (r : ProposalResponse)
      : Type 0 where
    pub id : r.swap_id ≡ req.swap_id
    pub origin : r.origin ≡ to_u8 proposal.origin
    pub destination : r.destination ≡ to_u8 proposal.destination
    pub amount : r.amount_out ≡ proposal.amount_out
    pub offset : r.commit_unlock_offset_secs ≡ proposal.commit_unlock_offset_secs
    pub address : sink.lp_address proposal.origin ≡ ok r.lp_sender_address
    pub signer : Bytes
    pub signed :
        sink.sign_message proposal.origin
          (proposal_digest o.crypto.sha256 (proposal_of r))
          r.amount_in
        ≡ ok (signer, r.lp_signature)

  signed_response-Answers :
      (req : ProposalRequest) (proposal : TradeProposal) (r : ProposalResponse)
      → signed_response o h sink req proposal ≡ ok r
      → Answers req proposal r
  unfolding signed_response unsigned proposal_of
  signed_response-Answers req proposal r e =
      let (address, a, e1) = >>=-eq-ok (map_err data_error (sink.lp_address proposal.origin)) _ e in
      let draft = unsigned o h sink req proposal address in
      let (signed, b, e2) =
        >>=-eq-ok
          (map_err data_error (
            sink.sign_message proposal.origin (proposal_digest o.crypto.sha256 (proposal_of draft))
              proposal.amount_in))
          _ e1 in
      let same : record draft { lp_signature = signed.1 } ≡ r = ok_inj e2 in
      rw (← same) (record {
        id = refl;
        origin = refl;
        destination = refl;
        amount = refl;
        offset = refl;
        address = map_err-ok _ _ a;
        signer = signed.0;
        signed = map_err-ok _ _ b;
      })

  answer-Answers :
      (show : HandlerError F → Bytes) (now : ℕ) (req : ProposalRequest) (r : ProposalResponse)
      → answer o h sink show now req ≡ ok (proposal_response r)
      → (proposal : TradeProposal) × (create_proposal o h now
            (record { origin = req.origin; destination = req.destination; amount = req.amount })
          ≡ ok proposal)
        × Answers req proposal r
  unfolding answer
  answer-Answers show now req r e =
      let request : SwapRequest = record {
        origin = req.origin;
        destination = req.destination;
        amount = req.amount;
      } in
      elim (Result-cases (create_proposal o h now request)) [
        | inl (proposal, made) ↦
            let (response, signed, e1) =
              >>=-eq-ok (signed_response o h sink req proposal) _ (rw (answer, made) at e) in
            let same : response ≡ r = cc in
            (proposal, made, signed_response-Answers req proposal r (signed ∙ ap ok same))
        | inr (failed, made) ↦ elim (Option-cases (rejection_reason show failed)) [
          | inl silent ↦ absurd (ground arith)
          | inr (reason, loud) ↦ absurd (ground arith)
        ]
      ]

known_origin-first :
    {F : Type 0} (o : Outside F) (h : Handler F) (sink : Sink) (a b : ℕ) (c : ChannelId)
    → known_origin o h sink a b ≡ some c
    → try_from a ≡ ok c
unfolding known_origin
known_origin-first o h sink a b c e = elim (Result-cases (try_from a)) [
  | inr (x, odd) ↦ absurd (ground arith)
  | inl (from, reads) ↦ elim (Result-cases (try_from b)) [
    | inr (x, odd) ↦ absurd (ground arith)
    | inl (to, other) ↦ elim (Bool-cases (knows_channel h from && knows_channel h to)) [
      | inl both ↦ reads ∙ ap ok (some_inj (rw (known_origin, reads, other, both) at e))
      | inr neither ↦ absurd (ground arith)
    ]
  ]
]

-- The quote that the asker is shown for a response.
abbrev pub quote_for : ProposalRequest → ProposalResponse → CheckedQuote
quote_for req r = record {
  swap_id = req.swap_id;
  origin = req.origin;
  destination = req.destination;
  amount_in = req.amount;
  amount_out = r.amount_in;
  sender_destination_address = r.sender_destination_address;
  commit_unlock_offset_secs = r.commit_unlock_offset_secs;
  lp_sender_address = r.lp_sender_address;
  lp_signature = r.lp_signature;
  lp_block_confirmations = r.lp_block_confirmations;
  signature_valid = true;
  balance_sufficient = true;
}

-- The response of a maker to a request comes out at the asker as a quote with a valid signature and
-- enough balance, for the swap, the two channels and the amount that were asked for, provided that the
-- asker knows both channels and that its chains verify what the maker's wallet signs.
pub answer-checked_quote :
    {F : Type 0} (o : Outside F) (maker asker : Handler F) (sink theirs : Sink)
    (show : HandlerError F → Bytes) (now : ℕ) (req : ProposalRequest) (r : ProposalResponse)
    (channel : ChannelId)
    → answer o maker sink show now req ≡ ok (proposal_response r)
    → Vouches sink theirs
    → known_origin o asker theirs req.destination req.origin ≡ some channel
    → checked_quote o asker theirs r ≡ some (quote_for req r)
unfolding checked_quote
answer-checked_quote o maker asker sink theirs show now req r channel e vouch known =
    let (proposal, made, a) = answer-Answers o maker sink show now req r e in
    let p = create_proposal-Proposed o maker now _ proposal made in
    let from : req.destination ≡ r.origin = (try_from_iff _ _).0 p.origin ∙ sym a.origin in
    let to : req.origin ≡ r.destination = (try_from_iff _ _).0 p.destination ∙ sym a.destination in
    let same : channel ≡ proposal.origin =
      ok_inj (sym (known_origin-first o asker theirs _ _ channel known) ∙ p.origin) in
    let here : known_origin o asker theirs r.origin r.destination ≡ some proposal.origin =
      rw (← from, ← to) (known ∙ ap some same) in
    let verified = vouch proposal.origin _ _ _ _ _ a.address a.signed in
    rw (checked_quote, here, verified) (rw (a.id, ← to, ← from, a.amount, p.amount) refl)
