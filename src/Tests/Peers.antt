-- ===== src/Tests/Peers.antt =====
-- The theorems about the peer-to-peer network and the claims of a taker at concrete inputs.
use stroemnet.Common.{
  ℕ, ◌<◌, ◌≡◌, ◌≢◌, ◌⊎◌, ◌↔◌, refl, true, false, none, some, [], ◌∷◌, arith, Bytes, Result, ok, any,
  ◌==◌, bytes_eq, u64_mod,
}
use stroemnet.Common.Equality.{list_beq}
use stroemnet.Common.Dict.{get}
use stroemnet.Protocol.Channel.{ethereum_sepolia}
use stroemnet.Network.Seen.{new, insert, evict, contains}
use stroemnet.Network.Window.{IsWindow, answers, slide_answers, answers-new}
use stroemnet.Network.Relay.{ConnectedPeer, P2p, forward, observe, targets}
use stroemnet.Network.Gossip.{forward_once}
use stroemnet.Network.Digest.{Proposal}
use stroemnet.Network.Framing.{IsTyped, proposal_digest-injective}
use stroemnet.Node.Claims.{PendingClaim, transmit_reveal, Honours, transmit_reveal_iff}
use stroemnet.Tests.Data.{toy_outside, our_counter, swap_1, thirty_two, secret_9, doubled}

answers-new_example :
    answers (new 2) ((1 ∷ []) ∷ (2 ∷ []) ∷ (1 ∷ []) ∷ (3 ∷ []) ∷ (1 ∷ []) ∷ [])
    ≡ slide_answers 2 [] ((1 ∷ []) ∷ (2 ∷ []) ∷ (1 ∷ []) ∷ (3 ∷ []) ∷ (1 ∷ []) ∷ [])
answers-new_example = answers-new 2 ((1 ∷ []) ∷ (2 ∷ []) ∷ (1 ∷ []) ∷ (3 ∷ []) ∷ (1 ∷ []) ∷ [])

abbrev pub peer : ℕ → ConnectedPeer
peer n = record { url = n ∷ []; advertised_listen = none; connected_at = 0 }

abbrev pub net : P2p
net = record {
  connected_peers = peer 1 ∷ peer 2 ∷ peer 3 ∷ [];
  seen = record { cap = 5; set = []; order = [] };
  blacklist = [];
  advertised_listen_addr = none;
  target_outbound = 8;
}

abbrev after : P2p
after = record net { seen = record { cap = 5; set = (9 ∷ []) ∷ []; order = (9 ∷ []) ∷ [] } }

abbrev plain : Bytes → Result Bytes Bytes
plain bytes = ok bytes

pub empty-IsWindow : IsWindow record { cap = 5; set = []; order = [] }
empty-IsWindow = record {
  same = λ h. refl;
  set_distinct = tt;
  order_distinct = tt;
  sizes = refl;
  bounded = omega arith;
}

forward_once_example :
    (any (λ (p : ConnectedPeer). p.url == (2 ∷ [])) (peer 1 ∷ peer 3 ∷ []) ≡ false)
    × (forward plain (λ (b : Bytes). b) (3 ∷ []) (9 ∷ []) after ≡ ok (after, [], false))
unfolding forward observe insert evict contains targets list_beq
forward_once_example =
    forward_once plain (λ (b : Bytes). b) (2 ∷ []) (3 ∷ []) (9 ∷ []) net after
      (peer 1 ∷ peer 3 ∷ []) true empty-IsWindow (omega arith) refl

abbrev offer : ℕ → Proposal
offer n = record {
  swap_id = thirty_two 4;
  origin = 0;
  destination = 1;
  amount_in = b'1' ∷ [];
  amount_out = b'2' ∷ b'3' ∷ [];
  sender_destination_address = 7 ∷ [];
  lp_sender_address = 8 ∷ [];
  commit_unlock_offset_secs = n;
  lp_block_confirmations = 12;
}

offer-IsTyped : (n : ℕ) → n < u64_mod → IsTyped (offer n)
offer-IsTyped n h = record {
  id = refl;
  paid = omega arith;
  received = omega arith;
  sender = omega arith;
  lp = omega arith;
  offset = h;
  depth = omega arith;
}

proposal_digest-injective_example :
    (offer 300 ≡ offer 300) ⊎ ((x : Bytes) × (y : Bytes) × (x ≢ y) × (doubled x ≡ doubled y))
proposal_digest-injective_example =
    proposal_digest-injective doubled (offer 300) (offer 300) (offer-IsTyped 300 (omega arith))
      (offer-IsTyped 300 (omega arith)) refl

abbrev waiting_claim : PendingClaim
waiting_claim = record {
  secret = secret_9;
  expected_counter_chain = ethereum_sepolia;
  expected_secret_hash = secret_9;
  expected_destination_address = 6 ∷ [];
  expected_amount_out = our_counter.amount;
}

transmit_reveal_iff_example :
    ((transmit_reveal toy_outside our_counter ((swap_1, waiting_claim) ∷ [])).1
      ≡ some waiting_claim)
    ↔ ((get swap_1 ((swap_1, waiting_claim) ∷ []) ≡ some waiting_claim)
        × Honours toy_outside waiting_claim our_counter)
transmit_reveal_iff_example =
    transmit_reveal_iff toy_outside our_counter ((swap_1, waiting_claim) ∷ []) waiting_claim
