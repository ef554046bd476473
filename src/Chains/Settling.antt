-- ===== src/Chains/Settling.antt =====
-- chains/evm/settle.rs and settler.rs: what an attempt does to the retry queue, and an EVM chain as the
-- engine sees it.
use stroemnet.Common.{
  ℕ, min, u64_max, ◌==◌, ◌≡◌, ap, sym, refl, inl, inr, Bool, Option, none, some, List, [], ◌∷◌,
  arith, Bytes, bytes_eq, find, ltb, Bool-cases, Option-cases,
}
use stroemnet.Protocol.V1.{RevealV1}
use stroemnet.Records.Codec.{Borsh}
use stroemnet.Settlement.Queue.{Action, ActionKey, key_eq, RetryQueue, attempt, set_last_gas}
use stroemnet.Settlement.Queue
use stroemnet.Settlement.Settler.{Settler, SettleOutcome}
use stroemnet.Settlement.Driving.{QueueBacked}
use stroemnet.Chains.Evm.{Evm, record_success, record_failure, jitter}
use stroemnet.Chains.Pending.{is_refund_of, is_claim_of}
use stroemnet.Chains.Settle.{
  Provider, Call, HtlcCall, claim_skip_reason, submit_refund, submit_claim, priced, replacement,
  signed, submitted, settle_refund, settle_claim, settle, observe_onchain,
}
use stroemnet.Chains.Replaced.{Retains, persist_swap-queue, replacement-Retains}

-- How far an attempt gets before the engine's timeout.
pub data Progress : Type 0 where
  in_time before_replacement after_replacement : Progress

abbrev pub timed : Progress → Evm → Evm × SettleOutcome × List Call → Evm × Option SettleOutcome
timed in_time st (next, outcome, calls) = (next, some outcome)
timed before_replacement st (next, outcome, calls) = (st, none)
timed after_replacement st (next, outcome, calls) = (next, none)

-- A submission that asks for the nonce and the gas price that it is given.
abbrev pub AsksFor : (ℕ → ℕ → Bool × List Call) → Type 0
AsksFor submit =
    (nonce gas : ℕ) (c : Call)
    → (submit nonce gas).1 ≡ c ∷ []
    → (c.nonce ≡ nonce) × (c.gas_price ≡ gas)

pub submitted-state :
    (submit : ℕ → ℕ → Bool × List Call) (replaced : Evm × Option (ℕ × ℕ))
    → (submitted submit replaced).0 ≡ replaced.0
unfolding submitted
submitted-state submit (next, none) = refl
submitted-state submit (next, some priced) = refl

abbrev first : Call → List Call → Call
first c [] = c
first c (d ∷ ds) = d

asks : (c d : Call) → c ∷ [] ≡ d ∷ [] → (d.nonce ≡ c.nonce) × (d.gas_price ≡ c.gas_price)
asks c d h =
    let same = sym (ap (first c) h) in
    (ap (λ (a : Call). a.nonce) same, ap (λ (a : Call). a.gas_price) same)

submit_refund-AsksFor : (node : Provider) (id : Bytes) → AsksFor (submit_refund node id)
unfolding submit_refund
submit_refund-AsksFor node id nonce gas c h =
    asks (record { call = HtlcCall.refund id; nonce = nonce; gas_price = gas }) c h

module _ (node : Provider) (address : Bytes → Option Bytes) (borsh : Borsh)
    (sha256 : Bytes → Bytes) where
  submit_claim-AsksFor : (r : RevealV1) → AsksFor (submit_claim node sha256 r)
  unfolding submit_claim
  submit_claim-AsksFor r nonce gas c h = elim (Option-cases (node.swaps r.swap_id)) [
    | inl e ↦ absurd (ground (arith, h))
    | inr (swap, e) ↦
        elim (Option-cases (
          claim_skip_reason swap.initialized swap.finalized (sha256 r.secret == swap.secret_hash)
            node.current_block_timestamp (min swap.timelock u64_max))) [
              | inr (reason, f) ↦ absurd (ground (arith, h))
              | inl f ↦
                  asks
                    (record {
                      call = HtlcCall.claim r.swap_id r.secret;
                      nonce = nonce;
                      gas_price = gas;
                    })
                    c (rw (submit_claim, e, f) at h)
            ]
  ]

  -- An attempt stops ahead of the replacement, or submits what the replacement gives.
  pub data Attempts (key : ActionKey) (st : Evm) : Evm × SettleOutcome × List Call → Type 0 where
    stops : (outcome : SettleOutcome) → Attempts key st (st, outcome, [])
    submits :
        (submit : ℕ → ℕ → Bool × List Call)
        → AsksFor submit
        → Attempts key st (submitted submit (replacement node address borsh key st))

  refund-Attempts :
      (key : ActionKey) (st : Evm)
      → Attempts key st (settle_refund node address borsh sha256 key st)
  unfolding settle_refund
  refund-Attempts key st = elim (Bool-cases (signed st)) [
    | inr e ↦ rw (settle_refund, e) (stops _)
    | inl e ↦ elim (Option-cases (find (is_refund_of key.swap_id) st.pending_refunds)) [
      | inl f ↦ rw (settle_refund, e, f) (stops _)
      | inr ((r, unlock), f) ↦ elim (Option-cases node.current_block_timestamp) [
        | inl g ↦ rw (settle_refund, e, f, g) (stops _)
        | inr (block_ts, g) ↦ elim (Bool-cases (ltb block_ts unlock)) [
          | inl early ↦ rw (settle_refund, e, f, g, early) (stops _)
          | inr late ↦
              rw (settle_refund, e, f, g, late)
                (submits (submit_refund node key.swap_id) (submit_refund-AsksFor node key.swap_id))
        ]
      ]
    ]
  ]

  claim-Attempts :
      (key : ActionKey) (st : Evm) → Attempts key st (settle_claim node address borsh sha256 key st)
  unfolding settle_claim
  claim-Attempts key st = elim (Bool-cases (signed st)) [
    | inr e ↦ rw (settle_claim, e) (stops _)
    | inl e ↦ elim (Option-cases (find (is_claim_of key.swap_id) st.pending_claims)) [
      | inl f ↦ rw (settle_claim, e, f) (stops _)
      | inr (r, f) ↦
          rw (settle_claim, e, f) (submits (submit_claim node sha256 r) (submit_claim-AsksFor r))
    ]
  ]

  pub settle-Attempts :
      (st : Evm) (id : Bytes) (action : Action)
      → let key : ActionKey = record { swap_id = id; action = action } in
        Attempts key st (settle node address borsh sha256 st key)
  unfolding settle
  settle-Attempts st id Action.claim =
      claim-Attempts (record { swap_id = id; action = Action.claim }) st
  settle-Attempts st id Action.refund =
      refund-Attempts (record { swap_id = id; action = Action.refund }) st

  Attempts-Retains :
      (key : ActionKey) (st : Evm) (result : Evm × SettleOutcome × List Call)
      → Attempts key st result
      → Retains st.queue result.0.queue
  Attempts-Retains key st result (stops outcome) = record { times = λ j. refl; unique = λ u. u }
  Attempts-Retains key st result (submits submit same) =
      rw (submitted-state submit (replacement node address borsh key st))
        (replacement-Retains node address borsh key st)

timed-Retains :
    (progress : Progress) (st : Evm) (result : Evm × SettleOutcome × List Call)
    → Retains st.queue result.0.queue
    → Retains st.queue (timed progress st result).0.queue
timed-Retains in_time st (next, outcome, calls) r = r
timed-Retains before_replacement st (next, outcome, calls) r = record {
  times = λ j. refl;
  unique = λ u. u;
}
timed-Retains after_replacement st (next, outcome, calls) r = r

-- Each attempt has its own answers of the node.
module _ (node : Evm → ActionKey → Provider) (progress : Evm → ActionKey → Progress)
    (address : Bytes → Option Bytes) (borsh : Borsh) (sha256 : Bytes → Bytes) where
  unfoldable pub evm_settler : Settler Evm
  unfolding settle observe_onchain record_success record_failure
  evm_settler = record {
    due_now = λ st now. Queue.due_now st.queue now;
    settle =
        λ st key. timed (progress st key) st (settle (node st key) address borsh sha256 st key);
    observe = λ st key. observe_onchain (node st key) st key;
    record_success = record_success borsh;
    record_failure = record_failure borsh;
    is_stuck = λ st key now. Queue.is_stuck st.queue key now;
  }

success_queue :
    (borsh : Borsh) (st : Evm) (id : Bytes) (a : Action)
    → (record_success borsh st (record { swap_id = id; action = a })).queue
      ≡ Queue.record_success (record { swap_id = id; action = a }) st.queue
unfolding record_success
success_queue borsh st id Action.claim = persist_swap-queue borsh id _
success_queue borsh st id Action.refund = persist_swap-queue borsh id _

module _ (node : Evm → ActionKey → Provider) (progress : Evm → ActionKey → Progress)
    (address : Bytes → Option Bytes) (borsh : Borsh) (sha256 : Bytes → Bytes) where
  settle-Retains :
      (st : Evm) (key : ActionKey)
      → Retains st.queue ((evm_settler node progress address borsh sha256).settle st key).0.queue
  unfolding evm_settler
  settle-Retains st key = timed-Retains (progress st key) st _ (
      Attempts-Retains (node st key) address borsh sha256 key st _
        (settle-Attempts (node st key) address borsh sha256 st key.swap_id key.action))

  -- An EVM chain is a settler that stands on its retry queue, wherever the engine's timeout ends an
  -- attempt and whatever the node answers.
  pub evm_settler-QueueBacked :
      QueueBacked (evm_settler node progress address borsh sha256) (λ (st : Evm). st.queue)
  unfolding evm_settler record_failure
  evm_settler-QueueBacked = record {
    jitter = jitter;
    due_now-queue = λ st now. refl;
    is_stuck-queue = λ st k now. refl;
    queue-record_success = λ st k. success_queue borsh st k.swap_id k.action;
    queue-record_failure = λ st k now. persist_swap-queue borsh k.swap_id _;
    settle_times = λ st k j. (settle-Retains st k).times j;
    settle_unique = λ st k u. (settle-Retains st k).unique u;
  }
