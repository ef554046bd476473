-- ===== src/Tests/Coordinating.antt =====
-- The theorems about the coordinator and a taker at concrete inputs.
use stroemnet.Common.{
  ℕ, ◌^◌, ◌<◌, ◌≡◌, refl, sym, ap, true, some, List, [], ◌∷◌, arith, Bytes, Result, ok, ok_inj,
  list_beq_iff,
}
use stroemnet.Common.Equality.{list_beq}
use stroemnet.Common.Dict.{get, insert}
use stroemnet.Protocol.Channel.{
  ethereum_sepolia, kaspa_tn10, try_from, to_u8, decimals, channel_beq,
}
use stroemnet.Protocol.V1.{CommitmentV1, parse_uint, at_least}
use stroemnet.Network.Relay.{ConnectedPeer}
use stroemnet.Handler.Config.{HandlerError, knows_channel, normalised_address_eq, same_address}
use stroemnet.Node.Wire.{
  ProposalRequest, ProposalResponse, ScriptAnnounce, P2pMsg, proposal_request, proposal_response,
  reveal, lp, observer,
}
use stroemnet.Node.Proposals.{
  Sink, known_origin, unsigned, proposal_of, signed_response, answer, checked_quote,
}
use stroemnet.Node.Signed.{Vouches, quote_for, answer-checked_quote}
use stroemnet.Node.Coordinator.{Parts, handle_incoming}
use stroemnet.Node.Forwarded.{IsSpent}
use stroemnet.Network.Seen.{contains}
use stroemnet.Node.Spent.{handle_all, handle_incoming_again}
use stroemnet.Node.Claims.{PendingClaim, transmit_reveal, pending_claim_matches}
use stroemnet.Node.Taker.{
  Deposits, Node, register_kaspa_deposit, checked_claim, deposit_address, register_commitment,
}
use stroemnet.Node.Registered.{Pays, register_commitment-transmit_reveal}
use stroemnet.Network.Digest.{proposal_digest}
use stroemnet.Tests.Data.{
  toy_outside, maker, begun, tracking, swap_1, secret_9, first_commitment, our_counter,
}
use stroemnet.Tests.Handling.{proposal, proposed}
use stroemnet.Tests.Peers.{peer, net, empty-IsWindow}

abbrev sink : Sink
sink = record {
  channels = kaspa_tn10 ∷ ethereum_sepolia ∷ [];
  script_channel = some kaspa_tn10;
  lp_address = λ channel. ok (8 ∷ []);
  sign_message = λ channel digest balance. ok (8 ∷ [], digest);
  verify_message = λ channel digest address signature balance. ok (list_beq signature digest, true);
}

vouches : Vouches sink sink
vouches channel digest balance address signer signature a s =
    let same : digest ≡ signature = ap (λ (r : Bytes × Bytes). r.1) (ok_inj s) in
    rw ((list_beq_iff signature digest).1 (sym same)) refl

abbrev asked : ProposalRequest
asked = record {
  swap_id = swap_1;
  origin = 0;
  destination = 1;
  amount = 1000000000 ∷ [];
  extra_data = [];
}

abbrev draft : ProposalResponse
draft = unsigned toy_outside maker sink asked proposal (8 ∷ [])

abbrev response : ProposalResponse
response = record draft {
  lp_signature = proposal_digest toy_outside.crypto.sha256 (proposal_of draft);
}

abbrev show : HandlerError ℕ → Bytes
show e = []

maker_answers : answer toy_outside maker sink show 1000 asked ≡ ok (proposal_response response)
unfolding answer signed_response
maker_answers = rw (answer, proposed) refl

answer-checked_quote_example :
    checked_quote toy_outside maker sink response ≡ some (quote_for asked response)
unfolding known_origin knows_channel try_from get channel_beq
answer-checked_quote_example =
    answer-checked_quote toy_outside maker maker sink sink show 1000 asked response ethereum_sepolia
      maker_answers vouches refl

abbrev parts : Parts
parts = record { net = net; tracker = tracking begun }

abbrev encoded : P2pMsg → Result Bytes Bytes
encoded (reveal r) = ok (7 ∷ [])
encoded other = ok (9 ∷ [])

abbrev sent : ConnectedPeer → Bytes → Result Bytes (Unit {0})
sent peer bytes = ok tt

abbrev told : P2pMsg
told = reveal (record { swap_id = swap_1; secret = secret_9 })

-- A reveal comes twice between the request and its repetition.
abbrev others : List (ℕ × Bytes × P2pMsg)
others = (1001, 3 ∷ [], told) ∷ (1002, 2 ∷ [], told) ∷ []

handle_incoming_again_example :
    IsSpent
      (handle_incoming toy_outside maker sink lp show encoded sent 1010
        (3 ∷ [])
        (proposal_request asked))
      (handle_all toy_outside maker sink lp show encoded sent others
        (handle_incoming toy_outside maker sink lp show encoded sent 1000
          (2 ∷ [])
          (proposal_request asked)
          parts).parts)
unfolding contains
handle_incoming_again_example =
    handle_incoming_again toy_outside maker sink lp show encoded sent 1000 1010 (2 ∷ []) (3 ∷ [])
      (proposal_request asked) (9 ∷ []) parts others tt refl empty-IsWindow refl (omega arith)

abbrev deposits : Deposits (List ScriptAnnounce)
deposits = record {
  derive_deposit = λ scripts channel c. ok (3 ∷ [], 4 ∷ []);
  register_script = λ scripts channel s. ok (s ∷ scripts);
}

abbrev node : Node (List ScriptAnnounce)
node = record { pending_claims = []; net = net; sink = []; statuses = [] }

abbrev as_json : CommitmentV1 → Result Bytes Bytes
as_json c = ok []

abbrev seen : CommitmentV1
seen = record our_counter { amount = record { value = b'5' ∷ []; decimals = 18 } }

abbrev stored : PendingClaim
stored = record {
  secret = secret_9;
  expected_counter_chain = ethereum_sepolia;
  expected_secret_hash = secret_9;
  expected_destination_address = 6 ∷ [];
  expected_amount_out = record { value = b'1' ∷ []; decimals = 18 };
}

register_commitment-transmit_reveal_example :
    (secret_9 ≡ secret_9)
    × (value : ℕ) × (0 < value)
    × (parse_uint (2 ^ 128) (b'1' ∷ []) ≡ some value)
    × Pays deposits (λ b. b) encoded as_json observer first_commitment seen secret_9 value
unfolding register_commitment checked_claim deposit_address register_kaspa_deposit try_from decimals
    parse_uint transmit_reveal pending_claim_matches at_least normalised_address_eq same_address
    insert get list_beq to_u8
register_commitment-transmit_reveal_example =
    register_commitment-transmit_reveal deposits (λ b. b) encoded as_json observer toy_outside
      first_commitment seen secret_9 (b'1' ∷ []) (3 ∷ []) node stored refl refl refl
