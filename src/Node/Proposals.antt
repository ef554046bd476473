-- ===== src/Node/Proposals.antt =====
-- coordinator/proposal.rs and coordinator/response.rs: the signed answer to a request, and what the
-- asker makes of it. The sink is an interface: its signatures and balances come from the chains.
use stroemnet.Common.{
  ℕ, ◌&&◌, Bool, false, Option, none, some, [], List, Bytes, Result, ok, err, map_err, ◌>>=◌,
  if◌then◌else◌,
}
use stroemnet.Common.Dict.{get}
use stroemnet.Protocol.Channel.{ChannelId, channel_eq, try_from, to_u8}
use stroemnet.Network.Digest.{Proposal, proposal_digest}
use stroemnet.Handler.Config.{Handler, HandlerError, Outside, knows_channel, rejection_reason}
use stroemnet.Handler.Quoting.{TradeProposal, create_proposal}
use stroemnet.Node.Wire.{
  ProposalRequest, ProposalResponse, P2pMsg, CheckedQuote, proposal_response, proposal_error,
}

-- What the coordinator reads of the chains. sign_message gives the signer's address and the
-- signature, verify_message whether the address matches and whether the balance is enough.
pub record Sink : Type 0 where
  pub channels : List ChannelId
  pub script_channel : Option ChannelId
  pub lp_address : ChannelId → Result Bytes Bytes
  pub sign_message : ChannelId → Bytes → Bytes → Result Bytes (Bytes × Bytes)
  pub verify_message : ChannelId → Bytes → Bytes → Bytes → Bytes → Result Bytes (Bool × Bool)

-- The error behind `Box<dyn Error>`.
pub data DynError (F : Type 0) : Type 0 where
  handler_error : HandlerError F → DynError F
  p2p_error : Bytes → DynError F
  data_error : Bytes → DynError F

-- The fields of a response that its digest covers.
unfoldable pub proposal_of : ProposalResponse → Proposal
proposal_of r = record {
  swap_id = r.swap_id;
  origin = r.origin;
  destination = r.destination;
  amount_in = r.amount_in;
  amount_out = r.amount_out;
  sender_destination_address = r.sender_destination_address;
  lp_sender_address = r.lp_sender_address;
  commit_unlock_offset_secs = r.commit_unlock_offset_secs;
  lp_block_confirmations = r.lp_block_confirmations;
}

-- `.copied().unwrap_or(0)`
abbrev pub confirmations : Option ℕ → ℕ
confirmations none = 0
confirmations (some n) = n

-- A failed check counts as two failures.
abbrev pub verdict : Result Bytes (Bool × Bool) → Bool × Bool
verdict (ok v) = v
verdict (err e) = (false, false)

module _ {F : Type 0} (o : Outside F) (h : Handler F) (sink : Sink) where
  -- The test that requests and responses begin with, and the origin that it yields.
  unfoldable pub known_origin : ℕ → ℕ → Option ChannelId
  known_origin origin destination = elim (try_from origin) [
    | err e ↦ none
    | ok from ↦ elim (try_from destination) [
      | err e ↦ none
      | ok to ↦ if knows_channel h from && knows_channel h to then some from else none
    ]
  ]

  -- The response but for its signature.
  unfoldable pub unsigned : ProposalRequest → TradeProposal → Bytes → ProposalResponse
  unsigned req proposal lp_sender_address = record {
    swap_id = req.swap_id;
    origin = to_u8 proposal.origin;
    destination = to_u8 proposal.destination;
    amount_in = proposal.amount_in;
    amount_out = proposal.amount_out;
    sender_destination_address = proposal.sender_destination_address;
    commit_unlock_offset_secs = proposal.commit_unlock_offset_secs;
    lp_sender_address = lp_sender_address;
    lp_signature = [];
    lp_block_confirmations = confirmations (get proposal.destination h.block_confirmations);
    extra_data = [];
  }

  unfoldable pub signed_response :
      ProposalRequest → TradeProposal → Result (DynError F) ProposalResponse
  unfolding unsigned
  signed_response req proposal = do
    lp_sender_address ← map_err data_error (sink.lp_address proposal.origin)
    let draft = unsigned req proposal lp_sender_address
    signed ← map_err data_error (
        sink.sign_message proposal.origin (proposal_digest o.crypto.sha256 (proposal_of draft))
          proposal.amount_in)
    ok (record draft { lp_signature = signed.1 })

  -- The message that handle_proposal sends back. The argument is the `to_string` of the error.
  unfoldable pub answer :
      (HandlerError F → Bytes) → ℕ → ProposalRequest → Result (DynError F) P2pMsg
  unfolding signed_response
  answer show now req =
      elim (create_proposal o h now
        (record { origin = req.origin; destination = req.destination; amount = req.amount })) [
          | ok proposal ↦ do
            response ← signed_response req proposal
            ok (proposal_response response)
          | err e ↦ elim (rejection_reason show e) [
            | none ↦ err (handler_error e)
            | some reason ↦ ok (
                proposal_error (record {
                  swap_id = req.swap_id;
                  origin = req.origin;
                  destination = req.destination;
                  reason = reason;
                }))
          ]
        ]

  -- on_proposal_response of the wasm build: the quote that goes to the front end, where one does.
  unfoldable pub checked_quote : ProposalResponse → Option CheckedQuote
  unfolding known_origin
  checked_quote r = elim (known_origin r.origin r.destination) [
    | none ↦ none
    | some origin ↦
        let checked = verdict (
          sink.verify_message origin (proposal_digest o.crypto.sha256 (proposal_of r))
            r.lp_sender_address r.lp_signature r.amount_in) in
        some (record {
          swap_id = r.swap_id;
          origin = r.destination;
          destination = r.origin;
          amount_in = r.amount_out;
          amount_out = r.amount_in;
          sender_destination_address = r.sender_destination_address;
          commit_unlock_offset_secs = r.commit_unlock_offset_secs;
          lp_sender_address = r.lp_sender_address;
          lp_signature = r.lp_signature;
          lp_block_confirmations = r.lp_block_confirmations;
          signature_valid = checked.0;
          balance_sufficient = checked.1;
        })
  ]
