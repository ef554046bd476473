-- ===== src/Node/Taker.antt =====
-- node/src/node/taker.rs and deposit.rs, the wasm build: how a taker begins a swap. The JSON text of a
-- commitment is of the crate serde_json and is an argument.
use Prim.Native.String.{String}
use stroemnet.Common.{
  ◌^◌, not, Option, some, List, [], ◌∷◌, ◌++◌, Bytes, codes, bytes_eq, nat_beq, ◌==◌, Result, ok,
  err, ok_or, fail_if, map_err, ◌>>=◌, ◌>>◌,
}
use stroemnet.Common.Dict.{Dict, insert}
use stroemnet.Protocol.Channel.{
  ChannelId, channel_eq, try_from, to_u8, decimals, kaspa_tn10, ethereum_sepolia, igra_galleon,
}
use stroemnet.Protocol.V1.{CommitmentV1, parse_uint}
use stroemnet.Network.Relay.{ConnectedPeer, P2p, broadcast}
use stroemnet.Node.Wire.{
  ProposalRequest, ScriptAnnounce, P2pMsg, Role, proposal_request, script_announce, lp, observer,
}
use stroemnet.Node.Claims.{PendingClaim}

-- The errors that the modelled code returns.
pub data StroemnetError : Type 0 where
  lp_mode_forbids_initiation secret_hash_mismatch : StroemnetError
  other : Bytes → StroemnetError

-- The stage that the modelled code reports, without the time of the report.
pub record AwaitingDeposit : Type 0 where
  pub swap_id : Bytes
  pub chain : ChannelId
  pub address : Bytes
  pub deposit_target : Option Bytes

-- The sink, by its state: an announced script is kept there.
pub record Deposits (S : Type 0) : Type 0 where
  pub derive_deposit : S → ChannelId → CommitmentV1 → Result Bytes (Bytes × Bytes)
  pub register_script : S → ChannelId → ScriptAnnounce → Result Bytes S

pub record Node (S : Type 0) : Type 0 where
  pub pending_claims : Dict Bytes PendingClaim
  pub net : P2p
  pub sink : S
  pub statuses : List AwaitingDeposit

abbrev labelled : String → Bytes → StroemnetError
labelled label e = other (codes label ++ e)

module _ {S : Type 0} (deposits : Deposits S) (sha256 : Bytes → Bytes)
    (encode : P2pMsg → Result Bytes Bytes) (to_json : CommitmentV1 → Result Bytes Bytes)
    (role : Role) where
  abbrev pub refuse_lp : Result StroemnetError (Unit {0})
  refuse_lp = elim role [ lp ↦ err lp_mode_forbids_initiation | observer ↦ ok tt ]

  unfoldable pub request_quote :
      Bytes
      → ChannelId
      → ChannelId
      → Bytes
      → Node S
      → Result StroemnetError (Node S × List ConnectedPeer)
  request_quote swap_id origin destination amount node = do
    refuse_lp
    let req : ProposalRequest = record {
      swap_id = swap_id;
      origin = to_u8 origin;
      destination = to_u8 destination;
      amount = amount;
      extra_data = [];
    }
    sent ←
        map_err (labelled "broadcast: ") (broadcast encode sha256 (proposal_request req) node.net)
    ok (record node { net = sent.0 }, sent.1)

  -- A broadcast that fails is logged.
  unfoldable pub announce : ScriptAnnounce → P2p → P2p
  announce s net = elim (broadcast encode sha256 (script_announce s) net) [
    | ok sent ↦ sent.0
    | err e ↦ net
  ]

  unfoldable pub register_kaspa_deposit :
      ChannelId → CommitmentV1 → Node S → Result StroemnetError (Node S × Bytes)
  unfolding announce
  register_kaspa_deposit source c node = do
    derived ←
        map_err (labelled "kaspa deposit derive: ") (deposits.derive_deposit node.sink source c)
    let script : ScriptAnnounce = record {
      address = derived.0;
      swap_id = c.swap_id;
      redeem_script = derived.1;
      unlock_ts = c.unlock_ts;
      deposit_target = c.amount.value;
    }
    sink ← map_err (labelled "register script: ") (deposits.register_script node.sink source script)
    let status : AwaitingDeposit = record {
      swap_id = c.swap_id;
      chain = source;
      address = derived.0;
      deposit_target = some c.amount.value;
    }
    ok (
      record node {
        sink = sink;
        net = announce script node.net;
        statuses = node.statuses ++ (status ∷ []);
      },
      derived.0,
    )

  -- The guards before the claim is stored: the chain of the deposit, and the claim.
  unfoldable pub checked_claim :
      CommitmentV1 → Bytes → Bytes → Result StroemnetError (ChannelId × PendingClaim)
  checked_claim c secret expected_amount_out = do
    refuse_lp
    fail_if (not (sha256 secret == c.secret_hash)) secret_hash_mismatch
    source ← map_err (labelled "source channel id: ") (try_from c.source)
    destination ← map_err (labelled "destination channel id: ") (try_from c.destination)
    expected_value ←
        ok_or (parse_uint (2 ^ 128) expected_amount_out)
          (labelled "expected_amount_out must be a base-unit integer: " expected_amount_out)
    fail_if (nat_beq expected_value 0)
        (other (codes "expected_amount_out must be greater than zero"))
    ok (
      source,
      record {
        secret = secret;
        expected_counter_chain = destination;
        expected_secret_hash = c.secret_hash;
        expected_destination_address = c.addresses.sender_destination;
        expected_amount_out = record {
          value = expected_amount_out;
          decimals = decimals destination;
        };
      },
    )

  -- What register_commitment returns for the chain of the deposit.
  unfoldable pub deposit_address :
      ChannelId → CommitmentV1 → Node S → Node S × Result StroemnetError Bytes
  unfolding register_kaspa_deposit
  deposit_address ethereum_sepolia c node =
      (node, map_err (labelled "commitment params: ") (to_json c))
  deposit_address igra_galleon c node = (node, map_err (labelled "commitment params: ") (to_json c))
  deposit_address kaspa_tn10 c node = elim (register_kaspa_deposit kaspa_tn10 c node) [
    | ok (node', address) ↦ (node', ok address)
    | err e ↦ (node, err e)
  ]

  unfoldable pub register_commitment :
      CommitmentV1 → Bytes → Bytes → Node S → Node S × Result StroemnetError Bytes
  unfolding checked_claim deposit_address
  register_commitment c secret expected_amount_out node =
      elim (checked_claim c secret expected_amount_out) [
        | err e ↦ (node, err e)
        | ok (source, claim) ↦
            deposit_address source c
              (record node { pending_claims = insert c.swap_id claim node.pending_claims })
      ]
