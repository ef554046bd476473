-- ===== src/Settlement/Queue.antt =====
-- settlement/action.rs and queue.rs: the attempts by action key. The mutex is held for one call
-- each, so a call is one step.
use stroemnet.Common.{
  ℕ, ◌≡◌, ◌↔◌, Bool, true, false, ◌&&◌, Option, none, some, List, [], ◌∷◌, arith, Bytes, Eq,
  bytes_eq, list_beq, list_beq_iff, if◌then◌else◌,
}
use stroemnet.Common.Dict.{Dict, get, insert, remove, update}
use stroemnet.Protocol.V1.{RevealV1, RefundV1}
use stroemnet.Records.Swap.{RestoredSwaps}
use stroemnet.Settlement.Attempt.{AttemptState, new, due, expired, on_failure}

pub data Action : Type 0 where
  claim refund : Action

pub record ActionKey : Type 0 where
  pub swap_id : Bytes
  pub action : Action

abbrev pub claim_key : Bytes → ActionKey
claim_key id = record { swap_id = id; action = claim }

abbrev pub refund_key : Bytes → ActionKey
refund_key id = record { swap_id = id; action = refund }

unfoldable pub action_beq : Action → Action → Bool
action_beq claim claim = true
action_beq refund refund = true
action_beq _ _ = false

-- The derived PartialEq of ActionKey.
unfoldable pub key_beq : ActionKey → ActionKey → Bool
unfolding action_beq
key_beq a b = list_beq a.swap_id b.swap_id && action_beq a.action b.action

pub key_beq_iff : (a b : ActionKey) → (key_beq a b ≡ true) ↔ (a ≡ b)
unfolding key_beq
key_beq_iff a b = ground (arith, list_beq_iff a.swap_id b.swap_id)

instance abbrev pub key_eq : Eq ActionKey
key_eq = record { beq = key_beq; beq_iff = key_beq_iff }

pub record RetryQueue : Type 0 where
  pub attempts : Dict ActionKey AttemptState

unfoldable pub default_queue : RetryQueue
default_queue = record { attempts = [] }

unfoldable pub seed : ActionKey → AttemptState → RetryQueue → RetryQueue
seed key state q = record { attempts = insert key state q.attempts }

-- `entry(key).or_insert_with(..)`
unfoldable pub ensure : ActionKey → ℕ → RetryQueue → RetryQueue
ensure key now q = elim (get key q.attempts) [
  | some a ↦ q
  | none ↦ record { attempts = insert key (new now) q.attempts }
]

unfoldable pub due_keys : ℕ → Dict ActionKey AttemptState → List ActionKey
unfolding due
due_keys now [] = []
due_keys now ((k, a) ∷ m) = if due a now then k ∷ due_keys now m else due_keys now m

unfoldable pub due_now : RetryQueue → ℕ → List ActionKey
unfolding due_keys
due_now q now = due_keys now q.attempts

unfoldable pub record_success : ActionKey → RetryQueue → RetryQueue
record_success key q = record { attempts = remove key q.attempts }

unfoldable pub record_failure : ActionKey → ℕ → ℕ → RetryQueue → RetryQueue
record_failure key now jitter q = record {
  attempts = update key (on_failure now jitter) q.attempts;
}

unfoldable pub set_nonce : ActionKey → ℕ → RetryQueue → RetryQueue
set_nonce key n q = record { attempts = update key (λ a. record a { nonce = some n }) q.attempts }

unfoldable pub set_last_gas : ActionKey → ℕ → RetryQueue → RetryQueue
set_last_gas key gas q = record {
  attempts = update key (λ a. record a { last_gas = some gas }) q.attempts;
}

unfoldable pub is_stuck : RetryQueue → ActionKey → ℕ → Bool
unfolding expired
is_stuck q key now = elim (get key q.attempts) [ some a ↦ expired a now | none ↦ false ]

unfoldable pub attempt : RetryQueue → ActionKey → Option AttemptState
attempt q key = get key q.attempts

unfoldable pub seed_all : (Bytes → ActionKey) → Dict Bytes AttemptState → RetryQueue → RetryQueue
seed_all key [] q = q
seed_all key ((id, a) ∷ m) q = seed_all key m (seed (key id) a q)

unfoldable pub ensure_claims : ℕ → List RevealV1 → RetryQueue → RetryQueue
ensure_claims now [] q = q
ensure_claims now (c ∷ cs) q = ensure_claims now cs (ensure (claim_key c.swap_id) now q)

unfoldable pub ensure_refunds : ℕ → List (RefundV1 × ℕ) → RetryQueue → RetryQueue
ensure_refunds now [] q = q
ensure_refunds now ((r, unlock) ∷ rs) q =
    ensure_refunds now rs (ensure (refund_key r.swap_id) now q)

unfoldable pub seed_queue : RestoredSwaps → ℕ → RetryQueue
unfolding seed_all ensure_claims ensure_refunds default_queue
seed_queue restored now = ensure_refunds now restored.pending_refunds (
    ensure_claims now restored.pending_claims (
      seed_all refund_key restored.refund_attempts
        (seed_all claim_key restored.claim_attempts default_queue)))
