-- ===== src/Tests/Disk.antt =====
-- Records of one swap on disk. The toy Borsh form keeps a pending claim of one byte.
use stroemnet.Common.{bytes_eq, Option, none, some, [], ◌∷◌, Bytes, Result, ok, err}
use stroemnet.Protocol.V1.{RevealV1}
use stroemnet.Records.Swap.{PersistedSwap}
use stroemnet.Records.Codec.{Borsh}

abbrev claim_of : Bytes → Bytes → PersistedSwap
claim_of id secret = record {
  script = none;
  pending_refund = none;
  pending_claim = some (record { swap_id = id; secret = secret });
  claim_attempt = none;
  refund_attempt = none;
}

abbrev write_claim : Option RevealV1 → Result Bytes Bytes
write_claim none = err []
write_claim (some r) = ok r.secret

-- Writes the secret of the claim of swap 1.
abbrev pub plain_borsh : Borsh
plain_borsh = record {
  to_vec = λ p. write_claim p.pending_claim;
  try_from_slice = λ body. ok (claim_of (1 ∷ []) body);
}
