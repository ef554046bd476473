-- ===== src/Settlement/Schedule.antt =====
-- About the retry queue of settlement/queue.rs as a map from action keys to attempts.
use mathlib.Core.Option
use stroemnet.Common.{
  ℕ, ◌≤◌, ◌≡◌, ◌↔◌, ◌⊎◌, inl, inr, none, some, List, [], ◌∷◌, arith, bytes_eq, ◌==◌, beq_sound,
  if◌then◌else◌, Bool-cases, leb, leb→le,
}
use stroemnet.Common.Dict.{Dict, get, IsUnique, get-insert, get-remove, get-update}
use stroemnet.Settlement.Attempt.{AttemptState, new, on_failure}
use stroemnet.Settlement.Queue.{
  ActionKey, key_eq, key_beq_iff, RetryQueue, seed, ensure, due_keys, due_now, record_success,
  record_failure, attempt,
}

-- A key of a list.
abbrev pub Has : ActionKey → List ActionKey → Type 0
Has k [] = ⊥
Has k (x ∷ xs) = (k ≡ x) ⊎ Has k xs

abbrev pub IsDue : ℕ → ActionKey → Dict ActionKey AttemptState → Type 0
IsDue now k m = (a : AttemptState) × (get k m ≡ some a) × (a.next_attempt_at ≤ now)

IsDue-tail :
    (now : ℕ) (k j : ActionKey) (a : AttemptState) (m : Dict ActionKey AttemptState)
    → get j m ≡ none
    → IsDue now k m
    → IsDue now k ((j, a) ∷ m)
unfolding get
IsDue-tail now k j a m fresh (b, e, l) = elim (Bool-cases (k == j)) [
  | inl here ↦ absurd (ground (arith, beq_sound k j here))
  | inr there ↦ (b, ground arith, l)
]

IsDue-head :
    (now : ℕ) (k j : ActionKey) (a : AttemptState) (m : Dict ActionKey AttemptState)
    → k ≡ j
    → a.next_attempt_at ≤ now
    → IsDue now k ((j, a) ∷ m)
unfolding get
IsDue-head now k j a m e l = (a, ground (arith, key_beq_iff k j), l)

Has-due_keys :
    (now : ℕ) (k : ActionKey) (m : Dict ActionKey AttemptState)
    → IsUnique m
    → Has k (due_keys now m)
    → IsDue now k m
unfolding due_keys get
Has-due_keys now k [] u h = absurd h
Has-due_keys now k ((j, a) ∷ m) u h = elim (Bool-cases (leb a.next_attempt_at now)) [
  | inl over ↦ elim (rw over at h) [
    | inl e ↦ IsDue-head now k j a m e (leb→le a.next_attempt_at now over)
    | inr r ↦ IsDue-tail now k j a m u.0 (Has-due_keys now k m u.1 r)
  ]
  | inr early ↦ IsDue-tail now k j a m u.0 (Has-due_keys now k m u.1 (rw early at h))
]

due_keys-Has :
    (now : ℕ) (k : ActionKey) (m : Dict ActionKey AttemptState)
    → IsDue now k m
    → Has k (due_keys now m)
unfolding due_keys get
due_keys-Has now k [] (a, e, l) = absurd (ground arith)
due_keys-Has now k ((j, b) ∷ m) (a, e, l) = elim (Bool-cases (k == j)) [
  | inl here ↦ ground (arith, beq_sound k j here)
  | inr there ↦ ground (arith, due_keys-Has now k m (a, ground arith, l))
]

pub attempt-ensure :
    (j k : ActionKey) (now : ℕ) (q : RetryQueue)
    → attempt (ensure k now q) j
      ≡ (if j == k then some (Option.get_or (attempt q k) (new now)) else attempt q j)
unfolding attempt ensure
attempt-ensure j k now q = ground (arith, get-insert j k (new now) q.attempts, key_beq_iff j k)

pub attempt-seed :
    (j k : ActionKey) (a : AttemptState) (q : RetryQueue)
    → attempt (seed k a q) j ≡ (if j == k then some a else attempt q j)
unfolding attempt seed
attempt-seed j k a q = get-insert j k a q.attempts

pub attempt-record_success :
    (j k : ActionKey) (q : RetryQueue)
    → attempt (record_success k q) j ≡ (if j == k then none else attempt q j)
unfolding attempt record_success
attempt-record_success j k q = get-remove j k q.attempts

pub attempt-record_failure :
    (j k : ActionKey) (now jitter : ℕ) (q : RetryQueue)
    → attempt (record_failure k now jitter q) j
      ≡ (if j == k then Option.map (on_failure now jitter) (attempt q j) else attempt q j)
unfolding attempt record_failure
attempt-record_failure j k now jitter q = get-update j k (on_failure now jitter) q.attempts

-- `due_now` lists exactly the keys whose next attempt is not in the future. In a queue that holds
-- each key once.
pub due_now_iff :
    (q : RetryQueue) (now : ℕ) (k : ActionKey)
    → IsUnique q.attempts
    → Has k (due_now q now)
      ↔ ((a : AttemptState) × (attempt q k ≡ some a) × (a.next_attempt_at ≤ now))
unfolding due_now attempt
due_now_iff q now k u = (Has-due_keys now k q.attempts u, due_keys-Has now k q.attempts)
