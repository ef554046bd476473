-- ===== src/Settlement/Pass.antt =====
-- About a whole pass of `drive` (settlement/engine.rs).
use mathlib.Core.Option
use stroemnet.Common.{
  ℕ, ◌≤◌, ◌<◌, ◌≡◌, refl, sym, ◌∙◌, ap, ◌⊎◌, inl, inr, none, some, List, [], ◌∷◌, ◌++◌, arith,
  Bool-cases, Option-cases, u64_max, leb, leb→le, le→leb,
}
use stroemnet.Common.Dict.{IsUnique}
use stroemnet.Settlement.Attempt.{AttemptState}
use stroemnet.Settlement.Queue.{ActionKey, key_eq, RetryQueue, attempt}
use stroemnet.Settlement.Queue
use stroemnet.Settlement.Schedule.{Has, due_now_iff}
use stroemnet.Settlement.Settler.{Settler, queue_depth}
use stroemnet.Settlement.Engine.{drive_key, drive_keys, drive}
use stroemnet.Settlement.Driving.{
  QueueBacked, next_at, IsLater, drive_key-Turn, Turn-IsUnique, Turn-IsLater, Turn-ne, SeenSettled,
  Turn-lost,
}

no_key : (ks : List ActionKey) → ((j : ActionKey) → ¬ Has j ks) → ks ≡ []
no_key [] h = refl
no_key (k ∷ ks) h = absurd (h k (inl refl))

module _ {S : Type 0} (settler : Settler S) (queue : S → RetryQueue) (b : QueueBacked settler queue)
    (now : ℕ) where
  keys-IsUnique :
      (ks : List ActionKey) (s : S)
      → IsUnique (queue s).attempts
      → IsUnique (queue (drive_keys settler s ks now).0).attempts
  unfolding drive_keys
  keys-IsUnique [] s u = u
  keys-IsUnique (k ∷ ks) s u =
      keys-IsUnique ks (drive_key settler s k now).0
        (Turn-IsUnique settler queue b now (drive_key-Turn settler queue b now s k) u)

  keys-IsLater :
      (ks : List ActionKey) (s : S) (j : ActionKey)
      → now < u64_max
      → Has j ks ⊎ IsLater now (next_at (queue s) j)
      → IsLater now (next_at (queue (drive_keys settler s ks now).0) j)
  unfolding drive_keys
  keys-IsLater [] s j h (inl m) = absurd m
  keys-IsLater [] s j h (inr l) = l
  keys-IsLater (k ∷ ks) s j h (inl (inl e)) =
      keys-IsLater ks (drive_key settler s k now).0 j h (
        inr (Turn-IsLater settler queue b now j h (drive_key-Turn settler queue b now s k) (inl e)))
  keys-IsLater (k ∷ ks) s j h (inl (inr m)) =
      keys-IsLater ks (drive_key settler s k now).0 j h (inl m)
  keys-IsLater (k ∷ ks) s j h (inr l) =
      keys-IsLater ks (drive_key settler s k now).0 j h (
        inr (Turn-IsLater settler queue b now j h (drive_key-Turn settler queue b now s k) (inr l)))

  keys-ne :
      (ks : List ActionKey) (s : S) (j : ActionKey)
      → ¬ Has j ks
      → next_at (queue (drive_keys settler s ks now).0) j ≡ next_at (queue s) j
  unfolding drive_keys
  keys-ne [] s j h = refl
  keys-ne (k ∷ ks) s j h =
      keys-ne ks (drive_key settler s k now).0 j (λ m. h (inr m))
      ∙ Turn-ne settler queue b now j (λ e. h (inl e)) (drive_key-Turn settler queue b now s k)

  -- In its turn, after the turns of the keys before it, the settler sees the swap of `j` settled.
  abbrev pub SettledInTurn : List ActionKey → S → ActionKey → Type 0
  SettledInTurn ks s j =
      (earlier : List ActionKey) × (later : List ActionKey) × (ks ≡ earlier ++ j ∷ later)
      × SeenSettled settler queue b now (drive_keys settler s earlier now).0 j

  keys-lost :
      (ks : List ActionKey) (s : S) (j : ActionKey) (n : ℕ)
      → next_at (queue s) j ≡ some n
      → SettledInTurn ks s j
        ⊎ ((m : ℕ) × (next_at (queue (drive_keys settler s ks now).0) j ≡ some m))
  unfolding drive_keys
  keys-lost [] s j n e = inr (n, e)
  keys-lost (k ∷ ks) s j n e =
      elim (Turn-lost settler queue b now j n (drive_key-Turn settler queue b now s k) e) [
        | inl (same, seen) ↦ inl ([], ks, ap (λ x. x ∷ ks) (sym same), seen)
        | inr (m, f) ↦ elim (keys-lost ks (drive_key settler s k now).0 j m f) [
          | inl (earlier, later, split, seen) ↦
              inl (k ∷ earlier, later, ap (λ xs. k ∷ xs) split, seen)
          | inr kept ↦ inr kept
        ]
      ]

  -- A key that is due has its turn, and a key that is not due waits.
  keys_due-IsLater :
      (s : S) (j : ActionKey)
      → now < u64_max
      → IsUnique (queue s).attempts
      → IsLater now (next_at (queue (drive_keys settler s (settler.due_now s now) now).0) j)
  keys_due-IsLater s j h u = elim (Option-cases (attempt (queue s) j)) [
    | inl e ↦ keys-IsLater (settler.due_now s now) s j h (inr (rw e tt))
    | inr (a, e) ↦ elim (Bool-cases (leb a.next_attempt_at now)) [
      | inl over ↦ keys-IsLater (settler.due_now s now) s j h (
          inl (
            rw (b.due_now-queue s now)
              ((due_now_iff (queue s) now j u).1 (a, e, leb→le a.next_attempt_at now over))))
      | inr early ↦
          keys-IsLater (settler.due_now s now) s j h
            (inr (rw e (ground (arith, le→leb a.next_attempt_at now))))
    ]
  ]

  later-nil :
      (q : RetryQueue)
      → IsUnique q.attempts
      → ((j : ActionKey) → IsLater now (next_at q j))
      → Queue.due_now q now ≡ []
  later-nil q u later =
      no_key (Queue.due_now q now) (λ j h. not_due j ((due_now_iff q now j u).0 h))
    where
      not_due :
          (j : ActionKey)
          → ¬ ((a : AttemptState) × (attempt q j ≡ some a) × (a.next_attempt_at ≤ now))
      not_due j (a, e, l) = absurd (omega (arith, rw e at (later j)))

  drive_keys-due_now :
      (s : S)
      → now < u64_max
      → IsUnique (queue s).attempts
      → Queue.due_now (queue (drive_keys settler s (settler.due_now s now) now).0) now ≡ []
  drive_keys-due_now s h u =
      later-nil (queue (drive_keys settler s (settler.due_now s now) now).0)
        (keys-IsUnique (settler.due_now s now) s u) (λ j. keys_due-IsLater s j h u)

  -- After a pass at a time below the largest u64, over a queue that holds each key once, no key
  -- is due at that time: each key that was due is settled or put off. The settler stands on the
  -- queue.
  pub drive-due_now :
      (s : S)
      → now < u64_max
      → IsUnique (queue s).attempts
      → settler.due_now (drive settler s now).0 now ≡ []
  unfolding drive
  drive-due_now s h u =
      b.due_now-queue (drive_keys settler s (settler.due_now s now) now).0 now
      ∙ drive_keys-due_now s h u

  -- A pass leaves the time of a key alone that was not due. The queue holds each key once, and
  -- the settler stands on it.
  drive-keeps :
      (s : S) (k : ActionKey) (a : AttemptState)
      → IsUnique (queue s).attempts
      → attempt (queue s) k ≡ some a
      → now < a.next_attempt_at
      → next_at (queue (drive settler s now).0) k ≡ some a.next_attempt_at
  unfolding drive
  drive-keeps s k a u e l =
      keys-ne (settler.due_now s now) s k
        (λ h. waits ((due_now_iff (queue s) now k u).0 (rw (b.due_now-queue s now) at h)))
      ∙ ap (Option.map (λ (a : AttemptState). a.next_attempt_at)) e
    where
      waits : ¬ ((c : AttemptState) × (attempt (queue s) k ≡ some c) × (c.next_attempt_at ≤ now))
      waits (c, f, m) = absurd (ground arith)

  -- A pass drops a key of the queue only if, at the key's turn in the pass, its deadline had
  -- passed and the settler saw the swap settled. The settler stands on the queue.
  pub drive-lost :
      (s : S) (k : ActionKey) (a : AttemptState)
      → attempt (queue s) k ≡ some a
      → attempt (queue (drive settler s now).0) k ≡ none
      → SettledInTurn (settler.due_now s now) s k
  unfolding drive
  drive-lost s k a e f =
      elim (keys-lost (settler.due_now s now) s k a.next_attempt_at
        (ap (Option.map (λ (a : AttemptState). a.next_attempt_at)) e)) [
          | inl seen ↦ seen
          | inr (m, g) ↦ absurd (ground arith)
        ]

  -- The depth that a pass reports is always 0: it counts the keys that are due, after each of
  -- them had its turn. For a time below the largest u64 and a queue that holds each key once.
  drive-queue_depth :
      (s : S)
      → now < u64_max
      → IsUnique (queue s).attempts
      → (drive settler s now).1
        ≡ (drive_keys settler s (settler.due_now s now) now).1 ++ queue_depth 0 ∷ []
  unfolding drive
  drive-queue_depth s h u = rw (drive-due_now s h u) refl
