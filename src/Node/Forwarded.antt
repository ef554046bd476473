-- ===== src/Node/Forwarded.antt =====
-- node/src/coordinator: a message that is forwarded, and the filter of seen messages.
use stroemnet.Common.{
  ◌≡◌, refl, ap, ◌∙◌, Bool, true, false, List, [], Bytes, Result, ok, err, Result-cases, ◌⊎◌, inl,
  inr,
}
use stroemnet.Network.Relay.{ConnectedPeer, P2p, forward}
use stroemnet.Network.Seen.{contains, insert}
use stroemnet.Network.Gossip.{insert_held, forward_held, forward_failed, forward_coded}
use stroemnet.Handler.Config.{Handler, HandlerError, Outside}
use stroemnet.Node.Wire.{P2pMsg, Role}
use stroemnet.Node.Proposals.{Sink}
use stroemnet.Node.Coordinator.{Parts, Handled, after_forward}

-- The peers' part stays as the forward has left it.
abbrev pub KeepsNet : {F : Type 0} → (Parts → Handled F) → Type 0
KeepsNet next = (parts : Parts) → (next parts).parts.net ≡ parts.net

-- Handled again, the message changes nothing and calls nothing.
abbrev pub IsSpent : {F : Type 0} → (Parts → Handled F) → Parts → Type 0
IsSpent again parts = ((again parts).parts ≡ parts) × ((again parts).calls ≡ [])

-- What one message does to the filter: nothing, or it takes one hash.
abbrev pub Took : (Bytes → Bytes) → Parts → Parts → Type 0
Took sha256 parts next =
    (next.net.seen ≡ parts.net.seen)
    ⊎ ((bytes : Bytes) × (next.net.seen ≡ (insert (sha256 bytes) parts.net.seen).0))

module _ {F : Type 0} (o : Outside F) (h : Handler F) (sink : Sink) (role : Role)
    (show : HandlerError F → Bytes) (encode : P2pMsg → Result Bytes Bytes)
    (send_timed : ConnectedPeer → Bytes → Result Bytes (Unit {0})) where
  known-IsSpent :
      (again : Bytes) (msg : P2pMsg) (next : Parts → Handled F) (parts : Parts)
      → forward encode o.crypto.sha256 again msg parts.net ≡ ok (parts.net, [], false)
      → IsSpent (λ p. after_forward o h sink role show encode send_timed again msg p next) parts
  unfolding after_forward
  known-IsSpent again msg next parts known = rw (after_forward, known) (refl, refl)

  net-after_forward :
      (from : Bytes) (msg : P2pMsg) (next : Parts → Handled F) (parts : Parts) (net : P2p)
      (sent : List ConnectedPeer) (fresh : Bool)
      → KeepsNet next
      → forward encode o.crypto.sha256 from msg parts.net ≡ ok (net, sent, fresh)
      → (after_forward o h sink role show encode send_timed from msg parts next).parts.net ≡ net
  unfolding after_forward
  net-after_forward from msg next parts net sent true keeps done =
      rw (after_forward, done) (keeps (record parts { net = net }))
  net-after_forward from msg next parts net sent false keeps done = rw (after_forward, done) refl

  after_forward-err :
      (from : Bytes) (msg : P2pMsg) (next : Parts → Handled F) (parts : Parts) (e : Bytes)
      → forward encode o.crypto.sha256 from msg parts.net ≡ err e
      → (after_forward o h sink role show encode send_timed from msg parts next).parts ≡ parts
  unfolding after_forward
  after_forward-err from msg next parts e refused = rw (after_forward, refused) refl

  -- The filter takes the hash of a message that is forwarded.
  pub after_forward-stores :
      (from : Bytes) (msg : P2pMsg) (bytes : Bytes) (parts : Parts) (next : Parts → Handled F)
      → KeepsNet next
      → encode msg ≡ ok bytes
      → (after_forward o h sink role show encode send_timed from msg parts next).parts.net.seen
        ≡ (insert (o.crypto.sha256 bytes) parts.net.seen).0
  after_forward-stores from msg bytes parts next keeps coded =
      let (net, sent, fresh, done, kept) =
        forward_coded encode o.crypto.sha256 from msg bytes parts.net coded in
      ap (λ (n : P2p). n.seen) (net-after_forward from msg next parts net sent fresh keeps done)
      ∙ kept

  -- A message whose hash the filter holds.
  pub after_forward_held :
      (again : Bytes) (msg : P2pMsg) (bytes : Bytes) (parts : Parts) (next : Parts → Handled F)
      → encode msg ≡ ok bytes
      → contains (o.crypto.sha256 bytes) parts.net.seen.set ≡ true
      → IsSpent (λ p. after_forward o h sink role show encode send_timed again msg p next) parts
  after_forward_held again msg bytes parts next coded held = known-IsSpent again msg next parts (
      forward_held encode o.crypto.sha256 again msg bytes parts.net coded
        (insert_held (o.crypto.sha256 bytes) parts.net.seen held))

  pub after_forward-Took :
      (from : Bytes) (msg : P2pMsg) (parts : Parts) (next : Parts → Handled F)
      → KeepsNet next
      → Took o.crypto.sha256 parts
          (after_forward o h sink role show encode send_timed from msg parts next).parts
  after_forward-Took from msg parts next keeps = elim (Result-cases (encode msg)) [
    | inr (e, failed) ↦ inl (
        ap (λ (p : Parts). p.net.seen)
          (after_forward-err from msg next parts e
            (forward_failed encode o.crypto.sha256 from msg e parts.net failed)))
    | inl (bytes, coded) ↦ inr (bytes, after_forward-stores from msg bytes parts next keeps coded)
  ]
