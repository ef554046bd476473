-- ===== src/Network/Digest.antt =====
-- p2p/src/identity.rs: the digest of a proposal. The hash is of the crate sha2 and is an argument.
use stroemnet.Common.{le_bytes, ℕ, ◌∷◌, ◌++◌, Bytes, codes, length}

-- The arguments of proposal_digest.
pub record Proposal : Type 0 where
  pub swap_id : Bytes
  pub origin : ℕ
  pub destination : ℕ
  pub amount_in : Bytes
  pub amount_out : Bytes
  pub sender_destination_address : Bytes
  pub lp_sender_address : Bytes
  pub commit_unlock_offset_secs : ℕ
  pub lp_block_confirmations : ℕ

-- A text after its length.
unfoldable pub framed : Bytes → Bytes
framed text = le_bytes 8 (length text) ++ text

-- All that `h.update` is given, in turn.
unfoldable pub preimage : Proposal → Bytes
preimage p =
    codes "stroemnet:proposal:v3"
    ++ (p.swap_id
        ++ (p.origin
            ∷ p.destination
            ∷ (framed p.amount_in
                ++ (framed p.amount_out
                    ++ (framed p.sender_destination_address
                        ++ (framed p.lp_sender_address
                            ++ (le_bytes 8 p.commit_unlock_offset_secs
                                ++ le_bytes 8 p.lp_block_confirmations)))))))

unfoldable pub proposal_digest : (Bytes → Bytes) → Proposal → Bytes
proposal_digest sha256 p = sha256 (preimage p)
