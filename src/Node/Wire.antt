-- ===== src/Node/Wire.antt =====
-- p2p/src/wire/message.rs and node/src/lib.rs: the messages between peers and the quote that a taker
-- is shown. The Borsh form is not modelled.
use stroemnet.Common.{ℕ, Bool, Option, List, Bytes}
use stroemnet.Protocol.V1.{RevealV1}
use stroemnet.Network.Relay.{PeerAddr}

pub record NodeState : Type 0 where
  pub node_id : Bytes
  pub listen_addr : Option Bytes
  pub peers : List PeerAddr

pub record ProposalRequest : Type 0 where
  pub swap_id : Bytes
  pub origin : ℕ
  pub destination : ℕ
  pub amount : Bytes
  pub extra_data : Bytes

pub record ProposalResponse : Type 0 where
  pub swap_id : Bytes
  pub origin : ℕ
  pub destination : ℕ
  pub amount_in : Bytes
  pub amount_out : Bytes
  pub sender_destination_address : Bytes
  pub commit_unlock_offset_secs : ℕ
  pub lp_sender_address : Bytes
  pub lp_signature : Bytes
  pub lp_block_confirmations : ℕ
  pub extra_data : Bytes

pub record ProposalError : Type 0 where
  pub swap_id : Bytes
  pub origin : ℕ
  pub destination : ℕ
  pub reason : Bytes

pub record ScriptAnnounce : Type 0 where
  pub address : Bytes
  pub swap_id : Bytes
  pub redeem_script : Bytes
  pub unlock_ts : ℕ
  pub deposit_target : Bytes

pub data P2pMsg : Type 0 where
  state : NodeState → P2pMsg
  proposal_request : ProposalRequest → P2pMsg
  proposal_response : ProposalResponse → P2pMsg
  reveal : RevealV1 → P2pMsg
  script_announce : ScriptAnnounce → P2pMsg
  proposal_error : ProposalError → P2pMsg

pub record CheckedQuote : Type 0 where
  pub swap_id : Bytes
  pub origin : ℕ
  pub destination : ℕ
  pub amount_in : Bytes
  pub amount_out : Bytes
  pub sender_destination_address : Bytes
  pub commit_unlock_offset_secs : ℕ
  pub lp_sender_address : Bytes
  pub lp_signature : Bytes
  pub lp_block_confirmations : ℕ
  pub signature_valid : Bool
  pub balance_sufficient : Bool

-- coordinator/mod.rs.
pub data Role : Type 0 where
  lp observer : Role
