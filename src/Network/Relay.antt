-- ===== src/Network/Relay.antt =====
-- p2p/src/addr.rs and p2p/src/network: to whom a message is sent, and which peers are dialled. A peer
-- is what the code reads of its ConnectedPeer; the codec is borsh and is an argument. A send to
-- all that fails is logged, so the model lists the sends.
use stroemnet.Common.{
  starts_with, ℕ, suc, ◌+◌, Bool, true, false, not, ◌&&◌, ◌||◌, Option, none, some, List, [], ◌∷◌,
  ◌++◌, Bytes, Result, ok, err, bytes_eq, ◌==◌, any, find, retain, leb, length, codes,
  if◌then◌else◌, nat_beq, map,
}
use stroemnet.Network.Seen.{SeenSet, insert}

pub record ConnectedPeer : Type 0 where
  pub url : Bytes
  pub advertised_listen : Option Bytes
  pub connected_at : ℕ

pub record PeerAddr : Type 0 where
  pub url : Bytes
  pub last_seen : ℕ

pub record P2p : Type 0 where
  pub connected_peers : List ConnectedPeer
  pub seen : SeenSet
  pub blacklist : List Bytes
  pub advertised_listen_addr : Option Bytes
  pub target_outbound : ℕ

-- `to_ascii_lowercase`, and `trim_end_matches('/')` on the text from its end.
unfoldable pub lower : ℕ → ℕ
lower c = if leb 65 c && leb c 90 then c + 32 else c

abbrev all_slashes : Bytes → Bool
all_slashes [] = true
all_slashes (c ∷ cs) = nat_beq c b'/' && all_slashes cs

unfoldable pub trim_end : Bytes → Bytes
trim_end [] = []
trim_end (c ∷ cs) = if all_slashes (c ∷ cs) then [] else c ∷ trim_end cs

unfoldable pub normalize_listen_addr : Bytes → Bytes
normalize_listen_addr s = map lower (trim_end s)

unfoldable pub listen_addrs_equal : Bytes → Bytes → Bool
listen_addrs_equal a b = map lower (trim_end a) == map lower (trim_end b)

-- add_connected_peer and remove_connected_peer.
unfoldable pub add_connected_peer : ConnectedPeer → P2p → P2p
add_connected_peer peer net = record net { connected_peers = net.connected_peers ++ (peer ∷ []) }

unfoldable pub remove_connected_peer : Bytes → P2p → P2p
remove_connected_peer url net = record net {
  connected_peers = retain (λ p. not (p.url == url)) net.connected_peers;
}

unfoldable pub blacklist_peer : Bytes → P2p → P2p
blacklist_peer node_id net = record net { blacklist = node_id ∷ net.blacklist }

unfoldable pub is_blacklisted : Bytes → P2p → Bool
is_blacklisted node_id net = any (λ b. node_id == b) net.blacklist

unfoldable pub is_connected_peer : Bytes → P2p → Bool
is_connected_peer listen_url_norm net =
    any
      (λ p. elim p.advertised_listen [
        | none ↦ false
        | some u ↦ listen_addrs_equal u listen_url_norm
      ])
      net.connected_peers

-- The addresses that the node tells of its peers: not its own.
abbrev peer_addrs : Option Bytes → List ConnectedPeer → List PeerAddr
peer_addrs ours [] = []
peer_addrs ours (p ∷ peers) = elim p.advertised_listen [
  | none ↦ peer_addrs ours peers
  | some url ↦
      let rest = peer_addrs ours peers in
      elim ours [
        | none ↦ record { url = url; last_seen = p.connected_at } ∷ rest
        | some own ↦
            if listen_addrs_equal url own
            then rest
            else record { url = url; last_seen = p.connected_at } ∷ rest
      ]
]

unfoldable pub connected_peer_addrs : P2p → List PeerAddr
connected_peer_addrs net = peer_addrs net.advertised_listen_addr net.connected_peers

-- The peers that send_bytes_to_all sends to.
unfoldable pub targets : Option Bytes → List ConnectedPeer → List ConnectedPeer
targets none peers = peers
targets (some from) peers = retain (λ p. not (p.url == from)) peers

-- `send_timed(&peer, bytes).await?`
abbrev sent_to : ConnectedPeer → Result Bytes (Unit {0}) → Result Bytes (Option ConnectedPeer)
sent_to peer (ok _) = ok (some peer)
sent_to peer (err e) = err e

module _ {Msg : Type 0} (encode : Msg → Result Bytes Bytes) (sha256 : Bytes → Bytes) where
  unfoldable pub observe : Bytes → P2p → P2p × Bool
  observe payload net =
      let result = insert (sha256 payload) net.seen in (record net { seen = result.0 }, result.1)

  -- The state afterwards, and whom the message goes to, or the codec's error.
  unfoldable pub broadcast : Msg → P2p → Result Bytes (P2p × List ConnectedPeer)
  broadcast msg net = elim (encode msg) [
    | err e ↦ err e
    | ok bytes ↦ ok ((observe bytes net).0, targets none net.connected_peers)
  ]

  -- The peer that the message goes to, if it is connected. Here an error of the send is returned.
  unfoldable pub send_to :
      (ConnectedPeer → Bytes → Result Bytes (Unit {0}))
      → Bytes
      → Msg
      → P2p
      → Result Bytes (Option ConnectedPeer)
  send_to send_timed url msg net = elim (encode msg) [
    | err e ↦ err e
    | ok bytes ↦ elim (find (λ p. p.url == url) net.connected_peers) [
      | none ↦ ok none
      | some peer ↦ sent_to peer (send_timed peer bytes)
    ]
  ]

  unfoldable pub forward : Bytes → Msg → P2p → Result Bytes (P2p × List ConnectedPeer × Bool)
  forward from msg net = elim (encode msg) [
    | err e ↦ err e
    | ok bytes ↦
        let seen = observe bytes net in
        ok (
          if seen.1
          then (seen.0, targets (some from) net.connected_peers, true)
          else (seen.0, [], false))
  ]

-- The listening addresses of the connected peers, normalized. The HashSet holds each once.
abbrev add_once : Bytes → List Bytes → List Bytes
add_once url urls = if any (λ u. url == u) urls then urls else url ∷ urls

unfoldable pub connected_addrs : List ConnectedPeer → List Bytes
connected_addrs [] = []
connected_addrs (p ∷ peers) = elim p.advertised_listen [
  | none ↦ connected_addrs peers
  | some url ↦ add_once (normalize_listen_addr url) (connected_addrs peers)
]

-- Whether an address of the list is asked to be dialled.
unfoldable pub wanted : Option Bytes → List Bytes → Bytes → Bool
wanted ours connected url =
    let norm = normalize_listen_addr url in
    not (elim ours [ none ↦ false | some own ↦ normalize_listen_addr own == norm ])
    && not (any (λ u. norm == u) connected)
    && (starts_with (codes "ws://") norm || starts_with (codes "wss://") norm)

-- The loop of process_peer_addrs, with the number of dials requested; the dial channel stays open.
unfoldable pub request_dials : Option Bytes → List Bytes → ℕ → ℕ → List PeerAddr → List Bytes
request_dials ours connected target requested [] = []
request_dials ours connected target requested (entry ∷ addrs) =
    elim (leb target (length connected + requested)) [
      | true ↦ []
      | false ↦ elim (wanted ours connected entry.url) [
        | true ↦ entry.url ∷ request_dials ours connected target (suc requested) addrs
        | false ↦ request_dials ours connected target requested addrs
      ]
    ]

unfoldable pub process_peer_addrs : List PeerAddr → P2p → List Bytes
process_peer_addrs addrs net =
    request_dials net.advertised_listen_addr (connected_addrs net.connected_peers)
      net.target_outbound 0 addrs
