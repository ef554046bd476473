-- ===== src/Tracker/Acceptance.antt =====
-- About the guards of swap_tracker/commit.rs and resolve.rs.
use stroemnet.Common.{
  ◌≡◌, ◌≢◌, ◌↔◌, inl, inr, none, some, arith, Bytes, ◌==◌, bytes_eq, Result, ok, Bool-cases,
  beq_sound, list_beq_iff,
}
use stroemnet.Common.Dict.{update}
use stroemnet.Protocol.V1.{CommitmentV1}
use stroemnet.Tracker.Record.{
  SwapRecord, SwapTracker, SwapTrackerError, Crypto, get_swap, refunded_text,
}
use stroemnet.Tracker.Commit.{set_counter_commitment}
use stroemnet.Tracker.Resolve.{set_revealed, set_refunded}
use stroemnet.Tracker.History.{
  Mirrors, Writes, set_counter_commitment-ok, set_revealed-ok, set_refunded-ok,
  Mirrors-validate_counter,
}

abbrev pub Succeeds : Result SwapTrackerError SwapTracker → Type 0
Succeeds m = (t : SwapTracker) × (m ≡ ok t)

-- The swap is known, neither locked nor resolved, and the commitment mirrors the first one.
abbrev pub CanLock : SwapTracker → Bytes → CommitmentV1 → Type 0
CanLock t id c =
    (r : SwapRecord) × (get_swap t id ≡ some r)
    × (r.counter_commitment ≡ none)
    × (r.resolution ≡ none)
    × Mirrors r.init_commitment c

-- The swap is locked by `c`, and not resolved.
abbrev pub IsPending : SwapTracker → Bytes → CommitmentV1 → Type 0
IsPending t id c =
    (r : SwapRecord) × (get_swap t id ≡ some r)
    × (r.counter_commitment ≡ some c)
    × (r.resolution ≡ none)

module _ (t : SwapTracker) (id : Bytes) where
  counter-Succeeds : (c : CommitmentV1) → CanLock t id c → Succeeds (set_counter_commitment t id c)
  unfolding set_counter_commitment get_swap
  counter-Succeeds c (r, at, unlocked, pending, m) = (
    record { swaps = update id (λ s. record s { counter_commitment = some c }) t.swaps },
    ground (arith, Mirrors-validate_counter id r.init_commitment c m),
  )

  CanLock-of_ok : (c : CommitmentV1) → Succeeds (set_counter_commitment t id c) → CanLock t id c
  CanLock-of_ok c (t', h) =
      let (r, at, unlocked, pending, m, w) = set_counter_commitment-ok t id c h in
      (r, at, unlocked, pending, m)

  revealed-Succeeds :
      (k : Crypto) (secret : Bytes) (c : CommitmentV1)
      → IsPending t id c
      → k.sha256 secret ≡ c.secret_hash
      → Succeeds (set_revealed k t id secret)
  unfolding set_revealed get_swap
  revealed-Succeeds k secret c (r, at, held, pending) opens = (
    record {
      swaps = update id (λ s. record s { resolution = some (k.hex_encode secret) }) t.swaps;
    },
    ground (arith, list_beq_iff (k.sha256 secret) c.secret_hash),
  )

  refunded-Succeeds : (c : CommitmentV1) → IsPending t id c → Succeeds (set_refunded t id)
  unfolding set_refunded get_swap
  refunded-Succeeds c (r, at, held, pending) = (
    record { swaps = update id (λ s. record s { resolution = some refunded_text }) t.swaps },
    ground arith,
  )

  -- A counter commitment is accepted exactly when the swap is known, neither locked nor resolved,
  -- and the commitment mirrors the first one.
  pub set_counter_commitment_iff :
      (c : CommitmentV1) → Succeeds (set_counter_commitment t id c) ↔ CanLock t id c
  set_counter_commitment_iff c = (CanLock-of_ok c, counter-Succeeds c)

  -- A reveal is accepted exactly when the swap is locked, not resolved, and the secret hashes to
  -- the counter commitment's secret hash.
  pub set_revealed_iff :
      (k : Crypto) (secret : Bytes)
      → Succeeds (set_revealed k t id secret)
        ↔ ((c : CommitmentV1) × IsPending t id c × (k.sha256 secret ≡ c.secret_hash))
  set_revealed_iff k secret = (
    (λ (t', h).
        let (r, c, at, held, pending, opens, w) = set_revealed-ok t id k secret h in
        (c, (r, at, held, pending), opens)),
    λ (c, p, opens). revealed-Succeeds k secret c p opens,
  )

  -- A refund is recorded exactly when the swap is locked and not resolved.
  set_refunded_iff : Succeeds (set_refunded t id) ↔ ((c : CommitmentV1) × IsPending t id c)
  set_refunded_iff = (
    (λ (t', h).
        let (r, c, at, held, pending, w) = set_refunded-ok t id h in (c, (r, at, held, pending))),
    λ (c, p). refunded-Succeeds c p,
  )

module _ (t t' : SwapTracker) (id j : Bytes) (q : SwapRecord) (known : get_swap t j ≡ some q) where
  -- A write to an entry that `id` has and that is not `q` leaves `q` alone.
  pub write-keeps :
      (r r' : SwapRecord)
      → get_swap t id ≡ some r
      → r.resolution ≢ q.resolution
      → Writes t id r' t'
      → get_swap t' j ≡ some q
  write-keeps r r' at differ w = elim (Bool-cases (j == id)) [
    | inl e ↦ absurd (differ (ground (arith, beq_sound j id e)))
    | inr e ↦ ground (arith, w j)
  ]
