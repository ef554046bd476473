-- ===== src/Network/Gossip.antt =====
-- p2p/src/network: a message goes round once, and the dials that a list of peers leads to are bounded.
use stroemnet.Common.{
  ℕ, suc, ◌+◌, ◌≤◌, ◌≡◌, refl, ap, ◌∙◌, Bool, true, false, Option, some, List, [], ◌∷◌, arith,
  Bytes, Result, ok, err, bytes_eq, ◌==◌, any, leb, length, Bool-cases, Result-cases, inl, inr,
  list_beq_iff, ok_inj, max,
}
use stroemnet.Network.Seen.{SeenSet, contains, insert}
use stroemnet.Network.Window.{IsWindow, slide, insert-IsWindow, contains-append}
use stroemnet.Network.Relay.{
  ConnectedPeer, PeerAddr, P2p, targets, observe, forward, wanted, request_dials,
  process_peer_addrs, connected_addrs,
}

slide-holds :
    (cap : ℕ) (hash : Bytes) (window : List Bytes)
    → 1 ≤ cap
    → contains hash (slide cap hash window).0 ≡ true
unfolding slide contains
slide-holds cap hash [] one = ground (arith, list_beq_iff hash hash)
slide-holds cap hash (h ∷ window) one =
    ground (arith, list_beq_iff hash hash, contains-append hash window (hash ∷ []))

pub insert_held :
    (hash : Bytes) (s : SeenSet) → contains hash s.set ≡ true → insert hash s ≡ (s, false)
unfolding insert
insert_held hash s h = rw h refl

insert_twice :
    (hash : Bytes) (s : SeenSet)
    → IsWindow s
    → 1 ≤ s.cap
    → insert hash (insert hash s).0 ≡ ((insert hash s).0, false)
insert_twice hash s w one =
    let (next, cap, order, answer) = insert-IsWindow s hash w in
    let held : contains hash (insert hash s).0.set ≡ true =
      next.same hash ∙ (ap (contains hash) order ∙ slide-holds s.cap hash s.order one) in
    insert_held hash (insert hash s).0 held

away :
    (from : Bytes) (peers : List ConnectedPeer)
    → any (λ p. p.url == from) (targets (some from) peers) ≡ false
unfolding targets
away from [] = refl
away from (p ∷ peers) = ground (arith, away from peers)

module _ {Msg : Type 0} (encode : Msg → Result Bytes Bytes) (sha256 : Bytes → Bytes) where
  pub forward_held :
      (again : Bytes) (msg : Msg) (bytes : Bytes) (net : P2p)
      → encode msg ≡ ok bytes
      → insert (sha256 bytes) net.seen ≡ (net.seen, false)
      → forward encode sha256 again msg net ≡ ok (net, [], false)
  unfolding forward observe
  forward_held again msg bytes net coded held = rw (forward, observe, coded, held) refl

  pub forward_failed :
      (from : Bytes) (msg : Msg) (e : Bytes) (net : P2p)
      → encode msg ≡ err e
      → forward encode sha256 from msg net ≡ err e
  unfolding forward
  forward_failed from msg e net failed = rw (forward, failed) refl

  pub forward_coded :
      (from : Bytes) (msg : Msg) (bytes : Bytes) (net : P2p)
      → encode msg ≡ ok bytes
      → (next : P2p) × (sent : List ConnectedPeer) × (fresh : Bool) × (forward encode sha256 from
            msg net
          ≡ ok (next, sent, fresh))
        × (next.seen ≡ (insert (sha256 bytes) net.seen).0)
  unfolding forward observe
  forward_coded from msg bytes net coded = elim (Bool-cases (insert (sha256 bytes) net.seen).1) [
    | inl yes_new ↦ (
      (observe encode sha256 bytes net).0,
      targets (some from) net.connected_peers,
      true,
      rw (forward, observe, coded, yes_new) refl,
      refl,
    )
    | inr known ↦ (
      (observe encode sha256 bytes net).0,
      [],
      false,
      rw (forward, observe, coded, known) refl,
      refl,
    )
  ]

  -- A message that is forwarded does not go back to the peer that it came from, and is remembered:
  -- when it comes again with none in between, from whichever peer, it goes to none and the state stays.
  -- The filter of the node is a window with room for one hash at least.
  pub forward_once :
      (from again : Bytes) (msg : Msg) (net next : P2p) (sent : List ConnectedPeer) (fresh : Bool)
      → IsWindow net.seen
      → 1 ≤ net.seen.cap
      → forward encode sha256 from msg net ≡ ok (next, sent, fresh)
      → (any (λ p. p.url == from) sent ≡ false)
        × (forward encode sha256 again msg next ≡ ok (next, [], false))
  unfolding forward observe
  forward_once from again msg net next sent fresh w one h = elim (Result-cases (encode msg)) [
    | inr (e, failed) ↦ absurd (ground arith)
    | inl (bytes, coded) ↦ elim (Bool-cases (insert (sha256 bytes) net.seen).1) [
      | inl yes_new ↦
          let e = ok_inj (rw (forward, observe, coded, yes_new) at h) in
          let kept : (insert (sha256 bytes) net.seen).0 ≡ next.seen =
            ap (λ (r : P2p × List ConnectedPeer × Bool). r.0.seen) e in
          let went : targets (some from) net.connected_peers ≡ sent =
            ap (λ (r : P2p × List ConnectedPeer × Bool). r.1) e in
          (
            rw (← went) (away from net.connected_peers),
            forward_held again msg bytes next coded
                (rw (← kept) (insert_twice (sha256 bytes) net.seen w one)),
          )
      | inr known ↦
          let e = ok_inj (rw (forward, observe, coded, known) at h) in
          let kept : (insert (sha256 bytes) net.seen).0 ≡ next.seen =
            ap (λ (r : P2p × List ConnectedPeer × Bool). r.0.seen) e in
          let went : [] ≡ sent = ap (λ (r : P2p × List ConnectedPeer × Bool). r.1) e in
          (
            rw (← went) refl,
            forward_held again msg bytes next coded
                (rw (← kept) (insert_twice (sha256 bytes) net.seen w one)),
          )
    ]
  ]

abbrev AllWanted : Option Bytes → List Bytes → List Bytes → Type 0
AllWanted ours connected [] = Unit
AllWanted ours connected (url ∷ urls) =
    (wanted ours connected url ≡ true) × AllWanted ours connected urls

request_dials-bounds :
    (ours : Option Bytes) (connected : List Bytes) (target requested : ℕ) (addrs : List PeerAddr)
    → AllWanted ours connected (request_dials ours connected target requested addrs)
      × (length connected + requested + length (request_dials ours connected target requested addrs)
          ≤ max target (length connected + requested))
unfolding request_dials
request_dials-bounds ours connected target requested [] = (tt, omega arith)
request_dials-bounds ours connected target requested (entry ∷ addrs) =
    elim (Bool-cases (leb target (length connected + requested))) [
      | inl full ↦ rw (request_dials, full) (tt, omega arith)
      | inr room ↦ elim (Bool-cases (wanted ours connected entry.url)) [
        | inr spurned ↦
            rw (request_dials, room, spurned)
              (request_dials-bounds ours connected target requested addrs)
        | inl chosen ↦
            let (all, few) = request_dials-bounds ours connected target (suc requested) addrs in
            rw (request_dials, room, chosen) ((chosen, all), ground (arith, few))
      ]
    ]

-- Of a list of addresses, the node asks to dial only web socket addresses that are neither its
-- own nor a connected peer's, and no more than the target leaves room for beside the connected peers.
process_peer_addrs-bounds :
    (addrs : List PeerAddr) (net : P2p)
    → let connected = connected_addrs net.connected_peers in
      AllWanted net.advertised_listen_addr connected (process_peer_addrs addrs net)
      × (length connected + length (process_peer_addrs addrs net)
          ≤ max net.target_outbound (length connected))
unfolding process_peer_addrs
process_peer_addrs-bounds addrs net =
    let connected = connected_addrs net.connected_peers in
    let (all, few) =
      request_dials-bounds net.advertised_listen_addr connected net.target_outbound 0 addrs in
    (all, omega (arith, few))
