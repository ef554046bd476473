-- ===== src/Settlement/Seeding.antt =====
-- About seed_queue of settlement/queue.rs.
use stroemnet.Common.{
  ℕ, ◌≡◌, refl, ◌∙◌, ap, Bool, false, ◌&&◌, Option, none, some, List, [], ◌∷◌, arith, Bytes,
  bytes_eq, ◌==◌, if◌then◌else◌, any, list_beq_iff,
}
use stroemnet.Common.Dict.{Dict, get, IsUnique}
use stroemnet.Protocol.V1.{RevealV1, RefundV1}
use stroemnet.Records.Swap.{RestoredSwaps}
use stroemnet.Settlement.Attempt.{AttemptState, new}
use stroemnet.Settlement.Queue.{
  Action, claim, refund, ActionKey, claim_key, refund_key, action_beq, key_eq, key_beq, key_beq_iff,
  RetryQueue, default_queue, seed, ensure, attempt, seed_all, ensure_claims, ensure_refunds,
  seed_queue,
}
use stroemnet.Settlement.Schedule.{attempt-ensure, attempt-seed}

abbrev key_of : Action → Bytes → ActionKey
key_of act id = record { swap_id = id; action = act }

abbrev or_else {ℓ} : {A : Type ℓ} → Option A → Option A → Option A
or_else none b = b
or_else (some a) b = some a

abbrev or_new : ℕ → Bool → Option AttemptState → Option AttemptState
or_new now wanted o = or_else o (if wanted then some (new now) else none)

or_new-false : (now : ℕ) (o : Option AttemptState) → or_new now false o ≡ o
or_new-false now none = refl
or_new-false now (some a) = refl

key_same :
    (id j : Bytes) (act b : Action)
    → key_beq (key_of b j) (key_of act id) ≡ (if action_beq b act then j == id else false)
unfolding key_beq
key_same id j act b = ground arith

attempt-seed_all :
    (act : Action) (m : Dict Bytes AttemptState) (q : RetryQueue) (b : Action) (j : Bytes)
    → IsUnique m
    → attempt (seed_all (key_of act) m q) (key_of b j) ≡ (
        if action_beq b act
        then or_else (get j m) (attempt q (key_of b j))
        else attempt q (key_of b j))
unfolding seed_all get
attempt-seed_all act [] q b j u = ground arith
attempt-seed_all act ((id, a) ∷ m) q b j u = ground (
  arith,
  attempt-seed_all act m (seed (key_of act id) a q) b j u.1,
  attempt-seed (key_of b j) (key_of act id) a q,
  key_same id j act b,
  list_beq_iff j id,
)

attempt-ensure_claims :
    (now : ℕ) (cs : List RevealV1) (q : RetryQueue) (b : Action) (j : Bytes)
    → attempt (ensure_claims now cs q) (key_of b j)
      ≡ or_new now (action_beq b claim && any (λ c. j == c.swap_id) cs) (attempt q (key_of b j))
unfolding ensure_claims
attempt-ensure_claims now [] q b j = ground arith
attempt-ensure_claims now (c ∷ cs) q b j = ground (
  arith,
  attempt-ensure_claims now cs (ensure (claim_key c.swap_id) now q) b j,
  attempt-ensure (key_of b j) (claim_key c.swap_id) now q,
  key_same c.swap_id j claim b,
  key_beq_iff (key_of b j) (claim_key c.swap_id),
)

attempt-ensure_refunds :
    (now : ℕ) (rs : List (RefundV1 × ℕ)) (q : RetryQueue) (b : Action) (j : Bytes)
    → attempt (ensure_refunds now rs q) (key_of b j)
      ≡ or_new now (action_beq b refund && any (λ r. j == r.0.swap_id) rs) (attempt q (key_of b j))
unfolding ensure_refunds
attempt-ensure_refunds now [] q b j = ground arith
attempt-ensure_refunds now ((r, unlock) ∷ rs) q b j = ground (
  arith,
  attempt-ensure_refunds now rs (ensure (refund_key r.swap_id) now q) b j,
  attempt-ensure (key_of b j) (refund_key r.swap_id) now q,
  key_same r.swap_id j refund b,
  key_beq_iff (key_of b j) (refund_key r.swap_id),
)

-- What a restart should schedule: the backoff that was stored, and otherwise a first attempt at
-- once for each claim or refund that was pending.
pub scheduled : RestoredSwaps → ℕ → Action → Bytes → Option AttemptState
scheduled r now claim id =
    or_new now (any (λ c. id == c.swap_id) r.pending_claims) (get id r.claim_attempts)
scheduled r now refund id =
    or_new now (any (λ p. id == p.0.swap_id) r.pending_refunds) (get id r.refund_attempts)

attempt-default : (k : ActionKey) → attempt default_queue k ≡ none
unfolding attempt default_queue get
attempt-default k = refl

-- The queue once both maps of attempts are in it.
attempt-seeded :
    (r : RestoredSwaps) (act : Action) (id : Bytes)
    → IsUnique r.claim_attempts
    → IsUnique r.refund_attempts
    → attempt
        (seed_all refund_key r.refund_attempts (seed_all claim_key r.claim_attempts default_queue))
        (key_of act id)
      ≡ elim act [ claim ↦ get id r.claim_attempts | refund ↦ get id r.refund_attempts ]
unfolding action_beq
attempt-seeded r claim id u v = ground (
  arith,
  attempt-seed_all refund r.refund_attempts (seed_all claim_key r.claim_attempts default_queue)
      claim id v,
  attempt-seed_all claim r.claim_attempts default_queue claim id u,
  attempt-default (claim_key id),
)
attempt-seeded r refund id u v = ground (
  arith,
  attempt-seed_all refund r.refund_attempts (seed_all claim_key r.claim_attempts default_queue)
      refund id v,
  attempt-seed_all claim r.claim_attempts default_queue refund id u,
  attempt-default (refund_key id),
)

-- The queue of a restart holds for each action of each swap what should be scheduled, and nothing
-- else: stored backoff is kept, pending intents without one are due now. The maps of attempts
-- hold each swap once.
attempt-seed_queue :
    (r : RestoredSwaps) (now : ℕ) (act : Action) (id : Bytes)
    → IsUnique r.claim_attempts
    → IsUnique r.refund_attempts
    → attempt (seed_queue r now) (record { swap_id = id; action = act }) ≡ scheduled r now act id
unfolding seed_queue scheduled action_beq
attempt-seed_queue r now claim id u v =
    let q =
      seed_all refund_key r.refund_attempts (seed_all claim_key r.claim_attempts default_queue) in
    attempt-ensure_refunds now r.pending_refunds (ensure_claims now r.pending_claims q) claim id
    ∙ ap (or_new now false) (
        attempt-ensure_claims now r.pending_claims q claim id
        ∙ ap (or_new now (any (λ c. id == c.swap_id) r.pending_claims))
            (attempt-seeded r claim id u v))
    ∙ or_new-false now _
attempt-seed_queue r now refund id u v =
    let q =
      seed_all refund_key r.refund_attempts (seed_all claim_key r.claim_attempts default_queue) in
    attempt-ensure_refunds now r.pending_refunds (ensure_claims now r.pending_claims q) refund id
    ∙ ap (or_new now (any (λ p. id == p.0.swap_id) r.pending_refunds)) (
        attempt-ensure_claims now r.pending_claims q refund id
        ∙ or_new-false now _
        ∙ attempt-seeded r refund id u v)
