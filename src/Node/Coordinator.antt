-- ===== src/Node/Coordinator.antt =====
-- node/src/coordinator, the native build: what a message from a peer does. The dispatch loop takes
-- one message after the other. The calls into the sink and the sockets are listed; their errors are
-- logged, but for the answer to a request.
use stroemnet.Common.{
  ℕ, none, some, List, [], ◌∷◌, map, ltb, length, Bytes, Result, ok, err, if◌then◌else◌,
}
use stroemnet.Protocol.Channel.{ChannelId}
use stroemnet.Protocol.V1
use stroemnet.Protocol.V1.{ChainEvent, RevealV1}
use stroemnet.Tracker.Record.{SwapTracker}
use stroemnet.Network.Relay.{ConnectedPeer, P2p, forward, send_to, process_peer_addrs}
use stroemnet.Handler.Config.{Handler, HandlerError, Outside}
use stroemnet.Handler.Dispatch.{handle_external_reveal}
use stroemnet.Node.Wire.{
  ProposalRequest, ScriptAnnounce, P2pMsg, Role, state, proposal_request, proposal_response, reveal,
  script_announce, proposal_error, lp, observer,
}
use stroemnet.Node.Proposals.{Sink, DynError, p2p_error, known_origin, answer}

abbrev pub max_redeem_script_bytes : ℕ
max_redeem_script_bytes = 512

-- The state that the coordinator shares with the rest of the node.
pub record Parts : Type 0 where
  pub net : P2p
  pub tracker : SwapTracker

pub data Call : Type 0 where
  send : List ConnectedPeer → P2pMsg → Call
  dial : List Bytes → Call
  register_script : ChannelId → ScriptAnnounce → Call
  broadcast_event : ChannelId → ChainEvent → Call

pub record Handled (F : Type 0) : Type 0 where
  pub parts : Parts
  pub calls : List Call
  pub result : Result (DynError F) (Unit {0})

abbrev pub quiet : {F : Type 0} → Parts → Handled F
quiet parts = record { parts = parts; calls = []; result = ok tt }

abbrev pub failed : {F : Type 0} → Parts → DynError F → Handled F
failed parts e = record { parts = parts; calls = []; result = err e }

module _ {F : Type 0} (o : Outside F) (h : Handler F) (sink : Sink) (role : Role)
    (show : HandlerError F → Bytes) (encode : P2pMsg → Result Bytes Bytes)
    (send_timed : ConnectedPeer → Bytes → Result Bytes (Unit {0})) where
  -- `if !self.network.forward(from, &msg).await? { return Ok(()); }` and what follows it.
  unfoldable pub after_forward : Bytes → P2pMsg → Parts → (Parts → Handled F) → Handled F
  after_forward from msg parts next = elim (forward encode o.crypto.sha256 from msg parts.net) [
    | err e ↦ failed parts (p2p_error e)
    | ok (net, sent, fresh) ↦
        let parts' = record parts { net = net } in
        let handled = next parts' in
        if fresh then record handled { calls = send sent msg ∷ handled.calls } else quiet parts'
  ]

  unfoldable pub handle_proposal : ℕ → Bytes → ProposalRequest → Parts → Handled F
  handle_proposal now from req parts = elim (answer o h sink show now req) [
    | err e ↦ failed parts e
    | ok msg ↦ elim (send_to encode o.crypto.sha256 send_timed from msg parts.net) [
      | err e ↦ failed parts (p2p_error e)
      | ok none ↦ quiet parts
      | ok (some peer) ↦ record (quiet parts) { calls = send (peer ∷ []) msg ∷ [] }
    ]
  ]

  -- Only a maker answers.
  unfoldable pub serve : ℕ → Bytes → ProposalRequest → Parts → Handled F
  unfolding handle_proposal
  serve now from req parts = elim role [
    | lp ↦ handle_proposal now from req parts
    | observer ↦ quiet parts
  ]

  unfoldable pub on_proposal_request : ℕ → Bytes → ProposalRequest → Parts → Handled F
  unfolding after_forward serve
  on_proposal_request now from req parts = elim (known_origin o h sink req.origin req.destination) [
    | none ↦ quiet parts
    | some origin ↦ after_forward from (proposal_request req) parts (λ p. serve now from req p)
  ]

  unfoldable pub announced : ScriptAnnounce → Parts → Handled F
  announced s parts = elim sink.script_channel [
    | none ↦ quiet parts
    | some channel ↦ record (quiet parts) { calls = register_script channel s ∷ [] }
  ]

  unfoldable pub on_script_announce : Bytes → ScriptAnnounce → Parts → Handled F
  unfolding after_forward announced
  on_script_announce from s parts =
      if ltb max_redeem_script_bytes (length s.redeem_script)
      then quiet parts
      else after_forward from (script_announce s) parts (λ p. announced s p)

  -- The tracker after a reveal; a reveal that it refuses is logged.
  unfoldable pub revealed : RevealV1 → SwapTracker → SwapTracker
  revealed r tracker = elim (handle_external_reveal o h tracker r) [
    | ok tracker' ↦ tracker'
    | err e ↦ tracker
  ]

  unfoldable pub pass_on : RevealV1 → Parts → Handled F
  unfolding revealed
  pass_on r parts = record {
    parts = record parts { tracker = revealed r parts.tracker };
    calls = map (λ channel. broadcast_event channel (V1.reveal r)) sink.channels;
    result = ok tt;
  }

  unfoldable pub on_reveal : Bytes → RevealV1 → Parts → Handled F
  unfolding after_forward pass_on
  on_reveal from r parts = after_forward from (reveal r) parts (λ p. pass_on r p)

  unfoldable pub handle_incoming : ℕ → Bytes → P2pMsg → Parts → Handled F
  unfolding on_proposal_request on_script_announce on_reveal
  handle_incoming now from (state s) parts = record (quiet parts) {
    calls = dial (process_peer_addrs s.peers parts.net) ∷ [];
  }
  handle_incoming now from (proposal_request req) parts = on_proposal_request now from req parts
  handle_incoming now from (proposal_response r) parts = quiet parts
  handle_incoming now from (reveal r) parts = on_reveal from r parts
  handle_incoming now from (script_announce s) parts = on_script_announce from s parts
  handle_incoming now from (proposal_error e) parts = quiet parts
