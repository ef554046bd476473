-- ===== src/Node/Replay.antt =====
-- node/src/coordinator: what a message does to the filter of seen messages, and a message whose hash is
-- in it.
use stroemnet.Common.{
  ℕ, ◌≡◌, refl, ap, true, false, none, some, Bytes, Result, ok, Result-cases, ◌⊎◌, Bool-cases,
  Option-cases, inl, inr, ltb, length,
}
use stroemnet.Protocol.Channel.{ChannelId}
use stroemnet.Protocol.V1.{RevealV1}
use stroemnet.Network.Relay.{ConnectedPeer, send_to}
use stroemnet.Network.Seen.{contains, insert}
use stroemnet.Handler.Config.{Handler, HandlerError, Outside}
use stroemnet.Node.Wire.{
  ProposalRequest, ScriptAnnounce, P2pMsg, Role, state, proposal_request, proposal_response, reveal,
  script_announce, proposal_error, lp, observer,
}
use stroemnet.Node.Proposals.{Sink, known_origin, answer}
use stroemnet.Node.Coordinator.{
  Parts, quiet, after_forward, serve, announced, pass_on, handle_proposal, on_proposal_request,
  on_script_announce, on_reveal, handle_incoming, max_redeem_script_bytes,
}
use stroemnet.Node.Forwarded.{
  KeepsNet, IsSpent, Took, after_forward-stores, after_forward_held, after_forward-Took,
}

-- The messages that go round the network.
abbrev pub Gossips : P2pMsg → Type 0
Gossips (proposal_request req) = Unit
Gossips (reveal r) = Unit
Gossips (script_announce s) = Unit
Gossips (state s) = ⊥
Gossips (proposal_response r) = ⊥
Gossips (proposal_error e) = ⊥

role-cases : (role : Role) → (role ≡ lp) ⊎ (role ≡ observer)
role-cases lp = inl refl
role-cases observer = inr refl

module _ {F : Type 0} (o : Outside F) (h : Handler F) (sink : Sink) (role : Role)
    (show : HandlerError F → Bytes) (encode : P2pMsg → Result Bytes Bytes)
    (send_timed : ConnectedPeer → Bytes → Result Bytes (Unit {0})) where
  handle_proposal-KeepsParts :
      (now : ℕ) (from : Bytes) (req : ProposalRequest) (parts : Parts)
      → (handle_proposal o h sink role show encode send_timed now from req parts).parts ≡ parts
  unfolding handle_proposal
  handle_proposal-KeepsParts now from req parts =
      elim (Result-cases (answer o h sink show now req)) [
        | inr (e, refused) ↦ rw (handle_proposal, refused) refl
        | inl (msg, answered) ↦
            elim (Result-cases (send_to encode o.crypto.sha256 send_timed from msg parts.net)) [
              | inr (e, unsent) ↦ rw (handle_proposal, answered, unsent) refl
              | inl (none, gone) ↦ rw (handle_proposal, answered, gone) refl
              | inl (some peer, sent) ↦ rw (handle_proposal, answered, sent) refl
            ]
      ]

  serve-KeepsNet :
      (now : ℕ) (from : Bytes) (req : ProposalRequest)
      → KeepsNet (λ p. serve o h sink role show encode send_timed now from req p)
  unfolding serve
  serve-KeepsNet now from req parts = elim (role-cases role) [
    | inl maker ↦
        rw (serve, maker)
          (ap (λ (p : Parts). p.net) (handle_proposal-KeepsParts now from req parts))
    | inr taker ↦ rw (serve, taker) refl
  ]

  announced-KeepsNet :
      (s : ScriptAnnounce) → KeepsNet (λ p. announced o h sink role show encode send_timed s p)
  unfolding announced
  announced-KeepsNet s parts = elim (Option-cases sink.script_channel) [
    | inl missing ↦ rw (announced, missing) refl
    | inr (channel, there) ↦ rw (announced, there) refl
  ]

  request_unknown :
      (now : ℕ) (from : Bytes) (req : ProposalRequest) (parts : Parts)
      → known_origin o h sink req.origin req.destination ≡ none
      → on_proposal_request o h sink role show encode send_timed now from req parts ≡ quiet parts
  unfolding on_proposal_request
  request_unknown now from req parts unknown = rw (on_proposal_request, unknown) refl

  request_known :
      (now : ℕ) (from : Bytes) (req : ProposalRequest) (parts : Parts) (origin : ChannelId)
      → known_origin o h sink req.origin req.destination ≡ some origin
      → on_proposal_request o h sink role show encode send_timed now from req parts
        ≡ after_forward o h sink role show encode send_timed from
            (proposal_request req)
            parts
            (λ p. serve o h sink role show encode send_timed now from req p)
  unfolding on_proposal_request
  request_known now from req parts origin known = rw (on_proposal_request, known) refl

  pass_on-KeepsNet :
      (r : RevealV1) → KeepsNet (λ p. pass_on o h sink role show encode send_timed r p)
  unfolding pass_on
  pass_on-KeepsNet r parts = refl

  script_large :
      (from : Bytes) (s : ScriptAnnounce) (parts : Parts)
      → ltb max_redeem_script_bytes (length s.redeem_script) ≡ true
      → on_script_announce o h sink role show encode send_timed from s parts ≡ quiet parts
  unfolding on_script_announce
  script_large from s parts large = rw (on_script_announce, large) refl

  script_small :
      (from : Bytes) (s : ScriptAnnounce) (parts : Parts)
      → ltb max_redeem_script_bytes (length s.redeem_script) ≡ false
      → on_script_announce o h sink role show encode send_timed from s parts
        ≡ after_forward o h sink role show encode send_timed from
            (script_announce s)
            parts
            (λ p. announced o h sink role show encode send_timed s p)
  unfolding on_script_announce
  script_small from s parts small = rw (on_script_announce, small) refl

  pub handle_incoming-Took :
      (now : ℕ) (from : Bytes) (msg : P2pMsg) (parts : Parts)
      → Took o.crypto.sha256 parts
          (handle_incoming o h sink role show encode send_timed now from msg parts).parts
  unfolding handle_incoming on_reveal
  handle_incoming-Took now from (reveal r) parts =
      after_forward-Took o h sink role show encode send_timed from (reveal r) parts
        (λ p. pass_on o h sink role show encode send_timed r p) (pass_on-KeepsNet r)
  handle_incoming-Took now from (script_announce s) parts =
      elim (Bool-cases (ltb max_redeem_script_bytes (length s.redeem_script))) [
        | inl large ↦ rw (script_large from s parts large) (inl refl)
        | inr small ↦ rw (script_small from s parts small) (
            after_forward-Took o h sink role show encode send_timed from (script_announce s) parts
              (λ p. announced o h sink role show encode send_timed s p) (announced-KeepsNet s))
      ]
  handle_incoming-Took now from (proposal_request req) parts =
      elim (Option-cases (known_origin o h sink req.origin req.destination)) [
        | inl unknown ↦ rw (request_unknown now from req parts unknown) (inl refl)
        | inr (origin, known) ↦ rw (request_known now from req parts origin known) (
            after_forward-Took o h sink role show encode send_timed from (proposal_request req)
              parts (λ p. serve o h sink role show encode send_timed now from req p)
              (serve-KeepsNet now from req))
      ]
  handle_incoming-Took now from (state s) parts = inl refl
  handle_incoming-Took now from (proposal_response r) parts = inl refl
  handle_incoming-Took now from (proposal_error e) parts = inl refl

  -- While the filter holds its hash, a message is spent.
  pub handle_incoming_held :
      (later : ℕ) (again : Bytes) (msg : P2pMsg) (bytes : Bytes) (parts : Parts)
      → Gossips msg
      → encode msg ≡ ok bytes
      → contains (o.crypto.sha256 bytes) parts.net.seen.set ≡ true
      → IsSpent (handle_incoming o h sink role show encode send_timed later again msg) parts
  unfolding handle_incoming on_reveal
  handle_incoming_held later again (reveal r) bytes parts g coded held =
      after_forward_held o h sink role show encode send_timed again (reveal r) bytes parts
        (λ p. pass_on o h sink role show encode send_timed r p) coded held
  handle_incoming_held later again (script_announce s) bytes parts g coded held =
      elim (Bool-cases (ltb max_redeem_script_bytes (length s.redeem_script))) [
        | inl large ↦ rw (script_large again s parts large) (refl, refl)
        | inr small ↦ rw (script_small again s parts small) (
            after_forward_held o h sink role show encode send_timed again (script_announce s) bytes
              parts (λ p. announced o h sink role show encode send_timed s p) coded held)
      ]
  handle_incoming_held later again (proposal_request req) bytes parts g coded held =
      elim (Option-cases (known_origin o h sink req.origin req.destination)) [
        | inl unknown ↦ rw (request_unknown later again req parts unknown) (refl, refl)
        | inr (origin, known) ↦ rw (request_known later again req parts origin known) (
            after_forward_held o h sink role show encode send_timed again (proposal_request req)
              bytes parts (λ p. serve o h sink role show encode send_timed later again req p) coded
              held)
      ]
  handle_incoming_held later again (state s) bytes parts g coded held = absurd g
  handle_incoming_held later again (proposal_response r) bytes parts g coded held = absurd g
  handle_incoming_held later again (proposal_error e) bytes parts g coded held = absurd g

  -- A message is spent in any state, or the filter takes its hash.
  pub handle_incoming-stores :
      (now later : ℕ) (from again : Bytes) (msg : P2pMsg) (bytes : Bytes) (parts : Parts)
      → Gossips msg
      → encode msg ≡ ok bytes
      → ((p : Parts)
          → IsSpent (handle_incoming o h sink role show encode send_timed later again msg) p)
        ⊎ ((handle_incoming o h sink role show encode send_timed now from msg parts).parts.net.seen
            ≡ (insert (o.crypto.sha256 bytes) parts.net.seen).0)
  unfolding handle_incoming on_reveal
  handle_incoming-stores now later from again (reveal r) bytes parts g coded = inr (
      after_forward-stores o h sink role show encode send_timed from (reveal r) bytes parts
        (λ p. pass_on o h sink role show encode send_timed r p) (pass_on-KeepsNet r) coded)
  handle_incoming-stores now later from again (script_announce s) bytes parts g coded =
      elim (Bool-cases (ltb max_redeem_script_bytes (length s.redeem_script))) [
        | inl large ↦ inl (λ p. rw (script_large again s p large) (refl, refl))
        | inr small ↦ inr (
            rw (script_small from s parts small) (
              after_forward-stores o h sink role show encode send_timed from (script_announce s)
                bytes parts (λ p. announced o h sink role show encode send_timed s p)
                (announced-KeepsNet s) coded))
      ]
  handle_incoming-stores now later from again (proposal_request req) bytes parts g coded =
      elim (Option-cases (known_origin o h sink req.origin req.destination)) [
        | inl unknown ↦ inl (λ p. rw (request_unknown later again req p unknown) (refl, refl))
        | inr (origin, known) ↦ inr (
            rw (request_known now from req parts origin known) (
              after_forward-stores o h sink role show encode send_timed from (proposal_request req)
                bytes parts (λ p. serve o h sink role show encode send_timed now from req p)
                (serve-KeepsNet now from req) coded))
      ]
  handle_incoming-stores now later from again (state s) bytes parts g coded = absurd g
  handle_incoming-stores now later from again (proposal_response r) bytes parts g coded = absurd g
  handle_incoming-stores now later from again (proposal_error e) bytes parts g coded = absurd g
