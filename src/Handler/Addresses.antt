-- ===== src/Handler/Addresses.antt =====
-- About normalised_address_eq of handler/src/address.rs.
use stroemnet.Common.{
  ◌≡◌, ◌↔◌, refl, ◌⊎◌, inl, inr, true, false, Option, some, none, Bytes, bytes_eq, list_beq_iff,
  ◌==◌, arith, Bool-cases,
}
use stroemnet.Protocol.Channel.{ChannelId, is_evm, kaspa_tn10, ethereum_sepolia, igra_galleon}
use stroemnet.Handler.Config.{Outside, normalised_address_eq, same_address}

module _ {F : Type 0} (o : Outside F) where
  -- The two texts are the same but for the space around them, or the chain is an EVM chain and they
  -- are two spellings of one address.
  abbrev pub IsSameAddress : ChannelId → Bytes → Bytes → Type 0
  IsSameAddress channel a b =
      (o.trim a ≡ o.trim b)
      ⊎ ((is_evm channel ≡ true)
          × ((address : Bytes) × (o.parse_address (o.trim a) ≡ some address)
              × (o.parse_address (o.trim b) ≡ some address)))

  same_address_sound :
      (x y : Option Bytes) → same_address x y ≡ true → (a : Bytes) × (x ≡ some a) × (y ≡ some a)
  unfolding same_address
  same_address_sound none y h = absurd (ground arith)
  same_address_sound (some a) none h = absurd (ground arith)
  same_address_sound (some a) (some b) h = (a, refl, ground (arith, list_beq_iff a b))

  same_address_refl : (a : Bytes) → same_address (some a) (some a) ≡ true
  unfolding same_address
  same_address_refl a = ground (arith, list_beq_iff a a)

  apart_sound :
      (channel : ChannelId) (a b : Bytes)
      → (o.trim a == o.trim b) ≡ false
      → normalised_address_eq o channel a b ≡ true
      → IsSameAddress channel a b
  unfolding normalised_address_eq is_evm
  apart_sound kaspa_tn10 a b there h = absurd (ground (arith, there))
  apart_sound ethereum_sepolia a b there h = inr (
    refl,
    same_address_sound (o.parse_address (o.trim a)) (o.parse_address (o.trim b)) (rw there at h),
  )
  apart_sound igra_galleon a b there h = inr (
    refl,
    same_address_sound (o.parse_address (o.trim a)) (o.parse_address (o.trim b)) (rw there at h),
  )

  apart_complete :
      (channel : ChannelId) (a b : Bytes)
      → (o.trim a == o.trim b) ≡ false
      → IsSameAddress channel a b
      → normalised_address_eq o channel a b ≡ true
  unfolding normalised_address_eq is_evm
  apart_complete channel a b there (inl same) =
      absurd (ground (arith, list_beq_iff (o.trim a) (o.trim b)))
  apart_complete kaspa_tn10 a b there (inr (evm, _)) = absurd (ground arith)
  apart_complete ethereum_sepolia a b there (inr (evm, (address, e, f))) =
      rw (there, e, f) (same_address_refl address)
  apart_complete igra_galleon a b there (inr (evm, (address, e, f))) =
      rw (there, e, f) (same_address_refl address)

  -- Two addresses are equal on a channel exactly when their texts are, but for the space around
  -- them, or, on an EVM chain, when they are two spellings of one address.
  pub normalised_address_eq_iff :
      (channel : ChannelId) (a b : Bytes)
      → (normalised_address_eq o channel a b ≡ true) ↔ IsSameAddress channel a b
  unfolding normalised_address_eq is_evm
  normalised_address_eq_iff channel a b = elim (Bool-cases (o.trim a == o.trim b)) [
    | inl here ↦
        let same : o.trim a ≡ o.trim b = ground (arith, list_beq_iff (o.trim a) (o.trim b)) in
        (λ h. inl same, λ h. (rw here refl))
    | inr there ↦ (apart_sound channel a b there, apart_complete channel a b there)
  ]
