-- ===== src/Kaspa/Settled.antt =====
-- chains/kaspa/settle.rs and settler.rs: what an attempt calls, and Kaspa as a settler that
-- stands on its queue.
use stroemnet.Common.{
  ℕ, ◌<◌, ◌≡◌, ◌&&◌, ◌∙◌, ap, refl, Bool, true, false, none, some, List, [], ◌∷◌, ◌++◌, arith,
  Bytes, bytes_eq, list_beq_iff, any, find, Option, Result, ok, map_err, if◌then◌else◌, is_some,
  sat_mul64, Bool-cases, Option-cases, inl, inr,
}
use stroemnet.Protocol.V1.{CommitmentV1, RevealV1, reveal}
use stroemnet.Records.Codec.{Borsh}
use stroemnet.Settlement.Queue.{Action, ActionKey, key_eq, claim_key, attempt, ensure}
use stroemnet.Settlement.Queue
use stroemnet.Settlement.Driving.{QueueBacked}
use stroemnet.Chains.Evm.{jitter}
use stroemnet.Chains.Pending.{is_claim_of, push_pending_claim}
use stroemnet.Kaspa.Ops.{KaspaError, script_builder}
use stroemnet.Kaspa.Extract.{ScriptPublicKey, Crates}
use stroemnet.Kaspa.Announce.{script_of}
use stroemnet.Kaspa.Script.{
  Opcode, Instruction, op_check_lock_time_verify, add_op, add_data, add_i64,
}
use stroemnet.Kaspa.Buffer.{
  Kaspa, key, commitment_of_swap, persist_swap, record_success, record_failure,
}
use stroemnet.Kaspa.Events.{emit_event}
use stroemnet.Kaspa.Settle.{Client, submit_reveal, settle_claim, kaspa_settler}

checks_lock : Opcode → Bool
checks_lock op_check_lock_time_verify = true
checks_lock other = false

-- The number that stands on top when a script first checks the lock time, with `top` pushed last.
unfoldable pub lock_after : Option ℕ → List Instruction → Option ℕ
unfolding checks_lock
lock_after top [] = none
lock_after top (add_op o ∷ code) = if checks_lock o then top else lock_after none code
lock_after top (add_data bytes ∷ code) = lock_after none code
lock_after top (add_i64 n ∷ code) = lock_after (some n) code

-- The script of a commitment's HTLC checks the lock time `lock`.
abbrev pub Locks : Crates → CommitmentV1 → ScriptPublicKey → ScriptPublicKey → ℕ → Type 0
Locks crates c sender_spk receiver_spk lock =
    (code : List Instruction) × (script_of crates c sender_spk receiver_spk
      ≡ map_err script_builder (crates.drain code))
    × (lock_after none code ≡ some lock)

module _ (client : Client) where
  -- What must hold for broadcast::submit_refund to be called for a swap.
  pub record MayRefund (id : Bytes) (st : Kaspa) (pk : Bytes) (c : CommitmentV1) : Type 0 where
    pub known : commitment_of_swap id st ≡ some c
    pub held : key st ≡ ok pk
    pub time : ℕ
    pub answered : client.past_median_time ≡ some time
    pub passed : sat_mul64 c.unlock_ts 1000 < time

find-none : (p : RevealV1 → Bool) (xs : List RevealV1) → find p xs ≡ none → any p xs ≡ false
find-none p [] h = refl
find-none p (x ∷ xs) h = elim (Bool-cases (p x)) [
  | inl yes_it ↦ absurd (ground arith)
  | inr other ↦ ground (arith, find-none p xs)
]

find_last :
    (p : RevealV1 → Bool) (xs : List RevealV1) (x : RevealV1)
    → find p xs ≡ none
    → p x ≡ true
    → find p (xs ++ (x ∷ [])) ≡ some x
find_last p [] x h e = rw e refl
find_last p (y ∷ xs) x h e = elim (Bool-cases (p y)) [
  | inl yes_it ↦ absurd (ground arith)
  | inr other ↦ rw other (find_last p xs x (rw other at h) e)
]

persist_swap-claims :
    (borsh : Borsh) (i id : Bytes) (st : Kaspa)
    → ((persist_swap borsh i st).pending_claims ≡ st.pending_claims)
      × (commitment_of_swap id (persist_swap borsh i st) ≡ commitment_of_swap id st)
      × (key (persist_swap borsh i st) ≡ key st)
unfolding persist_swap commitment_of_swap key
persist_swap-claims borsh i id st = elim (Option-cases st.swap_store) [
  | inl e ↦ rw (persist_swap, e) (refl, refl, refl)
  | inr (rows, e) ↦ rw (persist_swap, e) (refl, refl, refl)
]

claim_sent :
    (client : Client) (id : Bytes) (st : Kaspa) (c : CommitmentV1) (pk : Bytes) (r : RevealV1)
    → commitment_of_swap id st ≡ some c
    → key st ≡ ok pk
    → find (is_claim_of id) st.pending_claims ≡ some r
    → (settle_claim client id st).1 ≡ submit_reveal pk c r ∷ []
unfolding settle_claim
claim_sent client id st c pk r known held found = rw (settle_claim, known, held, found) refl

pushed_found :
    (claims : List RevealV1) (r : RevealV1)
    → find (is_claim_of r.swap_id) claims ≡ none
    → find (is_claim_of r.swap_id) (push_pending_claim claims r) ≡ some r
unfolding push_pending_claim
pushed_found claims r free =
    rw (find-none (is_claim_of r.swap_id) claims free)
      (find_last (is_claim_of r.swap_id) claims r free ((list_beq_iff r.swap_id r.swap_id).1 refl))

-- A reveal that a node is asked to send out, for a swap whose commitment it has cached and of which no
-- claim is pending, is what its next attempt to claim that swap hands to broadcast::submit_reveal, with
-- the commitment and the key, and it calls nothing else. The node takes part in claims and has a key.
pub emit_event-settle_claim :
    (client : Client) (borsh : Borsh) (now : ℕ)
    (submit_commitment : Bytes → CommitmentV1 → Result KaspaError (Bytes × Bytes)) (r : RevealV1)
    (st : Kaspa) (c : CommitmentV1) (pk : Bytes)
    → st.participate_ccr ≡ true
    → commitment_of_swap r.swap_id st ≡ some c
    → key st ≡ ok pk
    → find (is_claim_of r.swap_id) st.pending_claims ≡ none
    → (settle_claim client r.swap_id (emit_event borsh now submit_commitment (reveal r) st).0).1
      ≡ submit_reveal pk c r ∷ []
unfolding emit_event commitment_of_swap key
emit_event-settle_claim client borsh now submit r st c pk ccr known held free =
    let asked : (st.participate_ccr && is_some (commitment_of_swap r.swap_id st)) ≡ true =
      ground arith in
    let next : Kaspa = record st {
      pending_claims = push_pending_claim st.pending_claims r;
      queue = ensure (claim_key r.swap_id) now st.queue;
    } in
    let (claims, cache, keys) = persist_swap-claims borsh r.swap_id r.swap_id next in
    rw asked (
      claim_sent client r.swap_id (persist_swap borsh r.swap_id next) c pk r (cache ∙ known)
        (keys ∙ held)
        (ap (find (is_claim_of r.swap_id)) claims ∙ pushed_found st.pending_claims r free))

persist_swap-queue :
    (borsh : Borsh) (id : Bytes) (st : Kaspa) → (persist_swap borsh id st).queue ≡ st.queue
unfolding persist_swap
persist_swap-queue borsh id st = elim (Option-cases st.swap_store) [
  | inl e ↦ rw (persist_swap, e) refl
  | inr (rows, e) ↦ rw (persist_swap, e) refl
]

success_queue :
    (borsh : Borsh) (st : Kaspa) (id : Bytes) (a : Action)
    → (record_success borsh st (record { swap_id = id; action = a })).queue
      ≡ Queue.record_success (record { swap_id = id; action = a }) st.queue
unfolding record_success
success_queue borsh st id Action.claim = persist_swap-queue borsh id _
success_queue borsh st id Action.refund = persist_swap-queue borsh id _

-- Kaspa stands on its queue, so that what holds of a pass of the engine holds of Kaspa.
pub kaspa_settler-QueueBacked :
    (client : Client) (crates : Crates) (borsh : Borsh) (timely : Kaspa → ActionKey → Bool)
    → QueueBacked (kaspa_settler client crates borsh timely) (λ (st : Kaspa). st.queue)
unfolding kaspa_settler record_failure
kaspa_settler-QueueBacked client crates borsh timely = record {
  jitter = jitter;
  due_now-queue = λ st now. refl;
  is_stuck-queue = λ st k now. refl;
  queue-record_success = λ st k. success_queue borsh st k.swap_id k.action;
  queue-record_failure = λ st k now. persist_swap-queue borsh k.swap_id _;
  settle_times = λ st k j. refl;
  settle_unique = λ st k u. u;
}
