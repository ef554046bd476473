-- ===== src/Node/Spent.antt =====
-- node/src/coordinator: a message that comes again, after others, is without effect.
use stroemnet.Common.{
  ℕ, suc, ◌+◌, ◌<◌, ◌≡◌, true, false, List, [], ◌∷◌, arith, Bytes, Result, ok, length, inl, inr,
}
use stroemnet.Network.Relay.{ConnectedPeer}
use stroemnet.Network.Seen.{contains}
use stroemnet.Network.Window.{IsWindow}
use stroemnet.Network.Recent.{
  Remembers, Remembers-contains, insert-Remembers_new, insert-Remembers, Remembers-weaken,
}
use stroemnet.Handler.Config.{Handler, HandlerError, Outside}
use stroemnet.Node.Wire.{P2pMsg, Role}
use stroemnet.Node.Proposals.{Sink}
use stroemnet.Node.Coordinator.{Parts, handle_incoming}
use stroemnet.Node.Forwarded.{IsSpent}
use stroemnet.Node.Replay.{
  Gossips, handle_incoming-Took, handle_incoming_held, handle_incoming-stores,
}

module _ {F : Type 0} (o : Outside F) (h : Handler F) (sink : Sink) (role : Role)
    (show : HandlerError F → Bytes) (encode : P2pMsg → Result Bytes Bytes)
    (send_timed : ConnectedPeer → Bytes → Result Bytes (Unit {0})) where
  -- The state after messages one after the other, each with the time and the peer that it came from.
  unfoldable pub handle_all : List (ℕ × Bytes × P2pMsg) → Parts → Parts
  handle_all [] parts = parts
  handle_all ((now, from, msg) ∷ others) parts =
      handle_all others
        (handle_incoming o h sink role show encode send_timed now from msg parts).parts

  handle_all-Remembers :
      (others : List (ℕ × Bytes × P2pMsg)) (cap : ℕ) (hash : Bytes) (count : ℕ) (parts : Parts)
      → count + length others < cap
      → Remembers cap hash count parts.net.seen
      → contains hash (handle_all others parts).net.seen.set ≡ true
  unfolding handle_all
  handle_all-Remembers [] cap hash count parts room r =
      Remembers-contains cap hash count parts.net.seen r
  handle_all-Remembers ((now, from, msg) ∷ others) cap hash count parts room r =
      let next = (handle_incoming o h sink role show encode send_timed now from msg parts).parts in
      let kept : Remembers cap hash (suc count) next.net.seen =
        elim (handle_incoming-Took o h sink role show encode send_timed now from msg parts) [
          | inl same ↦ rw same (Remembers-weaken cap hash count parts.net.seen r)
          | inr (bytes, took) ↦ rw took (
              insert-Remembers cap hash (o.crypto.sha256 bytes) count parts.net.seen (omega arith)
                r)
        ] in
      handle_all-Remembers others cap hash (suc count) next (omega arith) kept

  -- A request, a reveal or a script announcement whose hash the filter did not hold is spent once it is
  -- handled, as long as fewer other messages than the filter's capacity have been handled since: when
  -- it comes again, at whatever time and from whichever peer, the peers' part and the tracker stay as
  -- they are, nothing is sent, and no script or event reaches the chains. The filter is a window, and
  -- the message has an encoding.
  pub handle_incoming_again :
      (now later : ℕ) (from again : Bytes) (msg : P2pMsg) (bytes : Bytes) (parts : Parts)
      (others : List (ℕ × Bytes × P2pMsg))
      → Gossips msg
      → encode msg ≡ ok bytes
      → IsWindow parts.net.seen
      → contains (o.crypto.sha256 bytes) parts.net.seen.set ≡ false
      → length others < parts.net.seen.cap
      → IsSpent (handle_incoming o h sink role show encode send_timed later again msg) (
          handle_all others
            (handle_incoming o h sink role show encode send_timed now from msg parts).parts)
  handle_incoming_again now later from again msg bytes parts others g coded w fresh few =
      let first = (handle_incoming o h sink role show encode send_timed now from msg parts).parts in
      let hash = o.crypto.sha256 bytes in
      elim (handle_incoming-stores o h sink role show encode send_timed now later from again msg
        bytes parts g coded) [
          | inl always ↦ always (handle_all others first)
          | inr stored ↦
              let taken : Remembers parts.net.seen.cap hash 0 first.net.seen =
                rw stored (insert-Remembers_new hash parts.net.seen w (omega arith) fresh) in
              handle_incoming_held o h sink role show encode send_timed later again msg bytes
                (handle_all others first) g coded
                (handle_all-Remembers others parts.net.seen.cap hash 0 first (omega arith) taken)
        ]
