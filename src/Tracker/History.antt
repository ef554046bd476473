-- ===== src/Tracker/History.antt =====
-- About each operation of swap_tracker: what it has written when it succeeded, and calls in a row.
use stroemnet.Common.{
  ℕ, ◌≡◌, inl, inr, none, some, List, [], ◌∷◌, arith, Bytes, ◌==◌, bytes_eq, nat_eq, list_beq_iff,
  Result, ok, err, if◌then◌else◌, Option-cases,
}
use stroemnet.Common.Dict.{get, get-insert, get-update}
use stroemnet.Protocol.V1.{CommitmentV1}
use stroemnet.Tracker.Record.{
  SwapRecord, SwapTracker, SwapTrackerError, Crypto, get_swap, refunded_text,
}
use stroemnet.Tracker.Commit.{set_init_commitment, validate_counter, set_counter_commitment}
use stroemnet.Tracker.Resolve.{set_revealed, set_refunded}
use stroemnet.Tracker.Expiry.{cleanup_old_swaps}

-- The counter commitment answers the first one: the same swap and secret, the parties crossed and
-- the chains swapped.
pub record Mirrors (init c : CommitmentV1) : Type 0 where
  pub same_swap : init.swap_id ≡ c.swap_id
  pub receiver_is_sender : init.addresses.sender_destination ≡ c.addresses.receiver
  pub sender_is_receiver : init.addresses.receiver ≡ c.addresses.sender_destination
  pub same_secret : init.secret_hash ≡ c.secret_hash
  pub source_crossed : init.source ≡ c.destination
  pub destination_crossed : init.destination ≡ c.source

pub validate_counter-Mirrors :
    (id : Bytes) (init c : CommitmentV1) → validate_counter id init c ≡ ok tt → Mirrors init c
unfolding validate_counter
validate_counter-Mirrors id init c h = ground (
  arith,
  list_beq_iff init.swap_id c.swap_id,
  list_beq_iff init.addresses.sender_destination c.addresses.receiver,
  list_beq_iff init.addresses.receiver c.addresses.sender_destination,
  list_beq_iff init.secret_hash c.secret_hash,
)

pub Mirrors-validate_counter :
    (id : Bytes) (init c : CommitmentV1) → Mirrors init c → validate_counter id init c ≡ ok tt
unfolding validate_counter
Mirrors-validate_counter id init c h = ground (
  arith,
  list_beq_iff init.swap_id c.swap_id,
  list_beq_iff init.addresses.sender_destination c.addresses.receiver,
  list_beq_iff init.addresses.receiver c.addresses.sender_destination,
  list_beq_iff init.secret_hash c.secret_hash,
)

-- Nothing but the entry of `id` has changed, and that is now `r`.
abbrev pub Writes : SwapTracker → Bytes → SwapRecord → SwapTracker → Type 0
Writes t id r t' = (j : Bytes) → get_swap t' j ≡ (if j == id then some r else get_swap t j)

abbrev pub fresh_record : ℕ → CommitmentV1 → SwapRecord
fresh_record now c = record {
  init_commitment = c;
  counter_commitment = none;
  resolution = none;
  created_at = now;
}

module _ (t : SwapTracker) (id : Bytes) where
  pub set_init_commitment-ok :
      (now : ℕ) (c : CommitmentV1) {t' : SwapTracker}
      → set_init_commitment now t id c ≡ ok t'
      → (get_swap t id ≡ none) × Writes t id (fresh_record now c) t'
  unfolding set_init_commitment get_swap
  set_init_commitment-ok now c h = elim (Option-cases (get id t.swaps)) [
    | inl e ↦ (e, λ j. ground (arith, get-insert j id (fresh_record now c) t.swaps))
    | inr (r, e) ↦ absurd (ground arith)
  ]

  pub set_counter_commitment-ok :
      (c : CommitmentV1) {t' : SwapTracker}
      → set_counter_commitment t id c ≡ ok t'
      → (r : SwapRecord) × (get_swap t id ≡ some r)
        × (r.counter_commitment ≡ none)
        × (r.resolution ≡ none)
        × Mirrors r.init_commitment c
        × Writes t id (record r { counter_commitment = some c }) t'
  unfolding set_counter_commitment get_swap
  set_counter_commitment-ok c h = elim (Option-cases (get id t.swaps)) [
    | inl e ↦ absurd (ground arith)
    | inr (r, e) ↦ (
      r,
      e,
      ground arith,
      ground arith,
      validate_counter-Mirrors id r.init_commitment c (ground arith),
      λ j. ground (
        arith,
        get-update j id (λ s. record s { counter_commitment = some c }) t.swaps,
        list_beq_iff j id,
      ),
    )
  ]

  pub set_revealed-ok :
      (k : Crypto) (secret : Bytes) {t' : SwapTracker}
      → set_revealed k t id secret ≡ ok t'
      → (r : SwapRecord) × (c : CommitmentV1) × (get_swap t id ≡ some r)
        × (r.counter_commitment ≡ some c)
        × (r.resolution ≡ none)
        × (k.sha256 secret ≡ c.secret_hash)
        × Writes t id (record r { resolution = some (k.hex_encode secret) }) t'
  unfolding set_revealed get_swap
  set_revealed-ok k secret h = elim (Option-cases (get id t.swaps)) [
    | inl e ↦ absurd (ground arith)
    | inr (r, e) ↦ elim (Option-cases r.counter_commitment) [
      | inl f ↦ absurd (ground arith)
      | inr (c, f) ↦ (
        r,
        c,
        e,
        f,
        ground arith,
        ground (arith, list_beq_iff (k.sha256 secret) c.secret_hash),
        λ j. ground (
          arith,
          get-update j id (λ s. record s { resolution = some (k.hex_encode secret) }) t.swaps,
          list_beq_iff j id,
        ),
      )
    ]
  ]

  pub set_refunded-ok :
      {t' : SwapTracker}
      → set_refunded t id ≡ ok t'
      → (r : SwapRecord) × (c : CommitmentV1) × (get_swap t id ≡ some r)
        × (r.counter_commitment ≡ some c)
        × (r.resolution ≡ none)
        × Writes t id (record r { resolution = some refunded_text }) t'
  unfolding set_refunded get_swap
  set_refunded-ok h = elim (Option-cases (get id t.swaps)) [
    | inl e ↦ absurd (ground arith)
    | inr (r, e) ↦ elim (Option-cases r.counter_commitment) [
      | inl f ↦ absurd (ground arith)
      | inr (c, f) ↦ (
        r,
        c,
        e,
        f,
        ground arith,
        λ j. ground (
          arith,
          get-update j id (λ s. record s { resolution = some refunded_text }) t.swaps,
          list_beq_iff j id,
        ),
      )
    ]
  ]

-- A call on the tracker, with the system time where the code reads it.
pub data Call : Type 0 where
  init_call : ℕ → Bytes → CommitmentV1 → Call
  counter_call : Bytes → CommitmentV1 → Call
  reveal_call : Bytes → Bytes → Call
  refund_call : Bytes → Call
  cleanup_call : ℕ → ℕ → Call

-- A call that fails leaves the tracker as it was.
abbrev pub after : SwapTracker → Result SwapTrackerError SwapTracker → SwapTracker
after t (ok t') = t'
after t (err e) = t

unfoldable pub step : Crypto → SwapTracker → Call → SwapTracker
step k t (init_call now id c) = after t (set_init_commitment now t id c)
step k t (counter_call id c) = after t (set_counter_commitment t id c)
step k t (reveal_call id secret) = after t (set_revealed k t id secret)
step k t (refund_call id) = after t (set_refunded t id)
step k t (cleanup_call now age) = cleanup_old_swaps now t age

unfoldable pub run : Crypto → SwapTracker → List Call → SwapTracker
run k t [] = t
run k t (c ∷ cs) = run k (step k t c) cs
