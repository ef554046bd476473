-- ===== src/Settlement/Driving.antt =====
-- About one turn of `drive` (settlement/engine.rs) over a settler that stands on a retry queue.
use mathlib.Core.Option
use stroemnet.Common.{
  ℕ, ◌<◌, ◌≡◌, ◌≢◌, ◌∙◌, ◌⊎◌, inl, inr, true, Option, none, some, arith, ◌==◌, beq_sound, beq_refl,
  Bool-cases, Option-cases, u64_max,
}
use stroemnet.Common.Dict.{IsUnique}
use stroemnet.Common.Dict.Unique.{remove-IsUnique, update-IsUnique}
use stroemnet.Settlement.Attempt.{AttemptState, on_failure}
use stroemnet.Settlement.Backoff.{on_failure_later}
use stroemnet.Settlement.Queue.{ActionKey, key_eq, RetryQueue, attempt}
use stroemnet.Settlement.Queue
use stroemnet.Settlement.Schedule.{attempt-record_success, attempt-record_failure}
use stroemnet.Settlement.Settler.{Settler}
use stroemnet.Settlement.Engine.{is_settled, drive_key}

-- A settler that keeps its attempts in a retry queue, as those of the two chains do: `settle` may
-- set the nonce and the gas of attempts, and leaves their times alone.
pub record QueueBacked {S : Type 0} (settler : Settler S) (queue : S → RetryQueue) : Type 0 where
  pub jitter : ActionKey → ℕ
  pub due_now-queue : (s : S) (now : ℕ) → settler.due_now s now ≡ Queue.due_now (queue s) now
  pub is_stuck-queue :
      (s : S) (k : ActionKey) (now : ℕ) → settler.is_stuck s k now ≡ Queue.is_stuck (queue s) k now
  pub queue-record_success :
      (s : S) (k : ActionKey)
      → queue (settler.record_success s k) ≡ Queue.record_success k (queue s)
  pub queue-record_failure :
      (s : S) (k : ActionKey) (now : ℕ)
      → queue (settler.record_failure s k now) ≡ Queue.record_failure k now (jitter k) (queue s)
  pub settle_times :
      (s : S) (k j : ActionKey)
      → Option.map
          (λ (a : AttemptState). a.next_attempt_at)
          (attempt (queue (settler.settle s k).0) j)
        ≡ Option.map (λ (a : AttemptState). a.next_attempt_at) (attempt (queue s) j)
  pub settle_unique :
      (s : S) (k : ActionKey)
      → IsUnique (queue s).attempts
      → IsUnique (queue (settler.settle s k).0).attempts

-- When a key is due next, if it is in the queue.
abbrev pub next_at : RetryQueue → ActionKey → Option ℕ
next_at q k = Option.map (λ (a : AttemptState). a.next_attempt_at) (attempt q k)

abbrev pub IsLater : ℕ → Option ℕ → Type 0
IsLater now none = Unit
IsLater now (some n) = now < n

next_at_failure_self :
    (q : RetryQueue) (k : ActionKey) (now jitter : ℕ)
    → now < u64_max
    → IsLater now (next_at (Queue.record_failure k now jitter q) k)
next_at_failure_self q k now jitter h = elim (Option-cases (attempt q k)) [
  | inl e ↦
      let f : attempt (Queue.record_failure k now jitter q) k ≡ none =
        ground (arith, attempt-record_failure k k now jitter q) in
      rw f tt
  | inr (a, e) ↦
      let f : attempt (Queue.record_failure k now jitter q) k ≡ some (on_failure now jitter a) =
        ground (arith, attempt-record_failure k k now jitter q, beq_refl k) in
      rw f (on_failure_later now jitter a h)
]

next_at_success_self :
    (q : RetryQueue) (k : ActionKey) → next_at (Queue.record_success k q) k ≡ none
next_at_success_self q k = ground (arith, attempt-record_success k k q, beq_refl k)

next_at_success_ne :
    (q : RetryQueue) (k j : ActionKey) → j ≢ k → next_at (Queue.record_success k q) j ≡ next_at q j
next_at_success_ne q k j h = ground (arith, attempt-record_success j k q, key_eq.beq_iff j k)

next_at_failure_ne :
    (q : RetryQueue) (k j : ActionKey) (now jitter : ℕ)
    → j ≢ k
    → next_at (Queue.record_failure k now jitter q) j ≡ next_at q j
next_at_failure_ne q k j now jitter h =
    ground (arith, attempt-record_failure j k now jitter q, key_eq.beq_iff j k)

next_at_failure_some :
    (q : RetryQueue) (j k : ActionKey) (now jitter n : ℕ)
    → next_at q j ≡ some n
    → (m : ℕ) × (next_at (Queue.record_failure k now jitter q) j ≡ some m)
next_at_failure_some q j k now jitter n e = elim (Option-cases (attempt q j)) [
  | inl f ↦ absurd (ground arith)
  | inr (a, f) ↦ elim (Bool-cases (j == k)) [
    | inl here ↦ (
      (on_failure now jitter a).next_attempt_at,
      ground (arith, attempt-record_failure j k now jitter q),
    )
    | inr there ↦ (n, ground (arith, attempt-record_failure j k now jitter q))
  ]
]

module _ {S : Type 0} (settler : Settler S) (queue : S → RetryQueue) (b : QueueBacked settler queue)
    (now : ℕ) where
  -- The two ways in which a key's turn ends.
  pub data Turn (s : S) (k : ActionKey) : S → Type 0 where
    reconciles :
        settler.is_stuck s k now ≡ true
        → is_settled (settler.observe s k) ≡ true
        → Turn s k (settler.record_success s k)
    backs_off : Turn s k (settler.record_failure (settler.settle s k).0 k now)

  pub drive_key-Turn : (s : S) (k : ActionKey) → Turn s k (drive_key settler s k now).0
  unfolding drive_key
  drive_key-Turn s k = elim (Bool-cases (settler.is_stuck s k now)) [
    | inr fresh ↦ rw fresh backs_off
    | inl stuck ↦ elim (Bool-cases (is_settled (settler.observe s k))) [
      | inl done ↦ rw (stuck, done) (reconciles stuck done)
      | inr pending ↦ rw (stuck, pending) backs_off
    ]
  ]

  pub Turn-IsUnique :
      {s : S} {k : ActionKey} {s' : S}
      → Turn s k s'
      → IsUnique (queue s).attempts
      → IsUnique (queue s').attempts
  unfolding Queue.record_success Queue.record_failure
  Turn-IsUnique {s} {k = k} (reconciles stuck done) u =
      rw (b.queue-record_success s k) (remove-IsUnique k (queue s).attempts u)
  Turn-IsUnique {s} {k = k} backs_off u =
      rw (b.queue-record_failure (settler.settle s k).0 k now)
        (update-IsUnique k _ _ (b.settle_unique s k u))

  Turn-self :
      {s : S} {k : ActionKey} {s' : S}
      → now < u64_max
      → Turn s k s'
      → IsLater now (next_at (queue s') k)
  Turn-self {s} {k = k} h (reconciles stuck done) =
      rw (b.queue-record_success s k) (rw (next_at_success_self (queue s) k) tt)
  Turn-self {s} {k = k} h backs_off =
      rw (b.queue-record_failure (settler.settle s k).0 k now)
        (next_at_failure_self (queue (settler.settle s k).0) k now (b.jitter k) h)

  pub Turn-ne :
      {s : S} {k : ActionKey} {s' : S} (j : ActionKey)
      → j ≢ k
      → Turn s k s'
      → next_at (queue s') j ≡ next_at (queue s) j
  Turn-ne {s} {k = k} j ne (reconciles stuck done) =
      rw (b.queue-record_success s k) (next_at_success_ne (queue s) k j ne)
  Turn-ne {s} {k = k} j ne backs_off = rw (b.queue-record_failure (settler.settle s k).0 k now) (
      next_at_failure_ne (queue (settler.settle s k).0) k j now (b.jitter k) ne
      ∙ b.settle_times s k j)

  -- A later time stays later over a turn, and the turn of a key makes its time later.
  pub Turn-IsLater :
      {s : S} {k : ActionKey} {s' : S} (j : ActionKey)
      → now < u64_max
      → Turn s k s'
      → (j ≡ k) ⊎ IsLater now (next_at (queue s) j)
      → IsLater now (next_at (queue s') j)
  Turn-IsLater {k = k} j h t l = elim (Bool-cases (j == k)) [
    | inl here ↦ rw (beq_sound j k here) (Turn-self h t)
    | inr there ↦ elim l [
      | inl e ↦ rw e (Turn-self h t)
      | inr later ↦ rw (Turn-ne j (λ e. absurd (ground (arith, key_eq.beq_iff j k))) t) later
    ]
  ]

  -- The deadline of the attempt `j` has passed, and the settler sees the swap settled.
  abbrev pub SeenSettled : S → ActionKey → Type 0
  SeenSettled s j = (settler.is_stuck s j now ≡ true) × (is_settled (settler.observe s j) ≡ true)

  pub Turn-lost :
      {s : S} {k : ActionKey} {s' : S} (j : ActionKey) (n : ℕ)
      → Turn s k s'
      → next_at (queue s) j ≡ some n
      → ((j ≡ k) × SeenSettled s j) ⊎ ((m : ℕ) × (next_at (queue s') j ≡ some m))
  Turn-lost {s} {k = k} j n (reconciles stuck done) e = elim (Bool-cases (j == k)) [
    | inl here ↦ inl (beq_sound j k here, rw (beq_sound j k here) (stuck, done))
    | inr there ↦ inr (
      n,
      Turn-ne j (λ e. absurd (ground (arith, key_eq.beq_iff j k))) (reconciles stuck done) ∙ e,
    )
  ]
  Turn-lost {s} {k = k} j n backs_off e = inr (
      rw (b.queue-record_failure (settler.settle s k).0 k now) (
        next_at_failure_some (queue (settler.settle s k).0) j k now (b.jitter k) n
          (b.settle_times s k j ∙ e)))
