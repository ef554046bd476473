-- ===== src/Protocol/V1.antt =====
-- crates/protocol/src/v1: the messages that chains and peers exchange. Their Borsh form is not
-- modelled.
use stroemnet.Common.{
  ℕ, ◌+◌, ◌-◌, ◌*◌, ◌^◌, ◌≡◌, ◌↔◌, Bool, true, false, ◌&&◌, Option, none, some, [], ◌∷◌, arith,
  Bytes, Eq, ◌==◌, leb, ltb, nat_beq, bytes_eq, nat_eq, list_beq_iff, list_beq, if◌then◌else◌, not,
}

pub record AddressesV1 : Type 0 where
  pub sender : Bytes
  pub receiver : Bytes
  pub sender_destination : Bytes

pub record AmountV1 : Type 0 where
  pub value : Bytes
  pub decimals : ℕ

pub record CommitmentV1 : Type 0 where
  pub swap_id : Bytes
  pub addresses : AddressesV1
  pub amount : AmountV1
  pub secret_hash : Bytes
  pub unlock_ts : ℕ
  pub source : ℕ
  pub destination : ℕ

pub record RevealV1 : Type 0 where
  pub swap_id : Bytes
  pub secret : Bytes

pub record RefundV1 : Type 0 where
  pub swap_id : Bytes

pub data ChainEvent : Type 0 where
  commitment : CommitmentV1 → ChainEvent
  reveal : RevealV1 → ChainEvent
  refund : RefundV1 → ChainEvent

-- str::parse of an unsigned integer below `bound`: digits behind at most one `+`, no overflow.
parse_digits : ℕ → ℕ → Bytes → Option ℕ
parse_digits bound acc [] = some acc
parse_digits bound acc (c ∷ cs) =
    let next = acc * 10 + (c - 48) in
    let rest = parse_digits bound next cs in
    if leb 48 c && leb c 57 && ltb next bound then rest else none

unfoldable pub parse_uint : ℕ → Bytes → Option ℕ
unfolding parse_digits
parse_uint bound [] = none
parse_uint bound (c ∷ []) = if nat_beq c b'+' then none else parse_digits bound 0 (c ∷ [])
parse_uint bound (c ∷ d ∷ cs) = parse_digits bound 0 (if nat_beq c b'+' then d ∷ cs else c ∷ d ∷ cs)

-- `match (a, b) { (Ok(have), Ok(need)) => have >= need, _ => false }`
abbrev parsed_at_least : Option ℕ → Option ℕ → Bool
parsed_at_least (some have) (some need) = leb need have
parsed_at_least none _ = false
parsed_at_least (some have) none = false

unfoldable pub at_least : AmountV1 → AmountV1 → Bool
at_least a required =
    if not (a.decimals == required.decimals)
    then false
    else parsed_at_least (parse_uint (2 ^ 128) a.value) (parse_uint (2 ^ 128) required.value)

-- The derived PartialEq of CommitmentV1.
unfoldable pub commitment_beq : CommitmentV1 → CommitmentV1 → Bool
commitment_beq a b =
    list_beq a.swap_id b.swap_id
    && list_beq a.addresses.sender b.addresses.sender
    && list_beq a.addresses.receiver b.addresses.receiver
    && list_beq a.addresses.sender_destination b.addresses.sender_destination
    && list_beq a.amount.value b.amount.value
    && nat_beq a.amount.decimals b.amount.decimals
    && list_beq a.secret_hash b.secret_hash
    && nat_beq a.unlock_ts b.unlock_ts
    && nat_beq a.source b.source
    && nat_beq a.destination b.destination

pub commitment_beq_iff : (a b : CommitmentV1) → (commitment_beq a b ≡ true) ↔ (a ≡ b)
unfolding commitment_beq
commitment_beq_iff a b = ground (
  arith,
  list_beq_iff a.swap_id b.swap_id,
  list_beq_iff a.addresses.sender b.addresses.sender,
  list_beq_iff a.addresses.receiver b.addresses.receiver,
  list_beq_iff a.addresses.sender_destination b.addresses.sender_destination,
  list_beq_iff a.amount.value b.amount.value,
  list_beq_iff a.secret_hash b.secret_hash,
)

instance abbrev pub commitment_eq : Eq CommitmentV1
commitment_eq = record { beq = commitment_beq; beq_iff = commitment_beq_iff }
