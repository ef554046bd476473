-- ===== src/Records/Codec.antt =====
-- chains/record/codec.rs: a record is a magic byte, a version byte and the Borsh form of the swap.
-- Borsh is a crate: the record `Borsh` holds its two functions on a PersistedSwap.
use stroemnet.Common.{ℕ, [], ◌∷◌, Bytes, Result, ok, err, nat_beq, if◌then◌else◌}
use stroemnet.Records.Swap.{PersistedSwap}

pub data RecordError : Type 0 where
  decode_error : Bytes → RecordError
  unknown_version : ℕ → RecordError
  truncated : RecordError

pub record Borsh : Type 0 where
  pub to_vec : PersistedSwap → Result Bytes Bytes
  pub try_from_slice : Bytes → Result Bytes PersistedSwap

pub data DecodeOutcome : Type 0 where
  current : PersistedSwap → DecodeOutcome
  corrupt : RecordError → DecodeOutcome

abbrev pub magic : ℕ
magic = 0x53

abbrev pub version_1 : ℕ
version_1 = 1

module _ (borsh : Borsh) where
  unfoldable pub encode : PersistedSwap → Result RecordError Bytes
  encode swap = elim (borsh.to_vec swap) [
    | ok body ↦ ok (magic ∷ version_1 ∷ body)
    | err e ↦ err (decode_error e)
  ]

  unfoldable pub decode_versioned : Bytes → DecodeOutcome
  decode_versioned [] = corrupt truncated
  decode_versioned (v ∷ body) =
      if nat_beq v version_1
      then elim (borsh.try_from_slice body) [
        | ok swap ↦ current swap
        | err e ↦ corrupt (decode_error e)
      ]
      else corrupt (unknown_version v)

  unfoldable pub decode : Bytes → DecodeOutcome
  unfolding decode_versioned
  decode [] = corrupt truncated
  decode (m ∷ rest) = if nat_beq m magic then decode_versioned rest else corrupt truncated
