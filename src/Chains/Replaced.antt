-- ===== src/Chains/Replaced.antt =====
-- chains/evm/replace.rs: the nonce and the gas price of an attempt, and what becomes of its entry in the
-- retry queue.
use mathlib.Core.Option
use stroemnet.Common.{
  ℕ, max, ◌≡◌, ◌∙◌, ◌⊎◌, refl, inl, inr, Option, none, some, arith, Bytes, bytes_eq, ◌==◌,
  if◌then◌else◌, Option-cases,
}
use stroemnet.Common.Dict.{IsUnique, get-update}
use stroemnet.Common.Dict.Unique.{update-IsUnique}
use stroemnet.Records.Codec.{Borsh}
use stroemnet.Settlement.Attempt.{AttemptState}
use stroemnet.Settlement.Queue.{ActionKey, key_eq, RetryQueue, attempt, set_nonce, set_last_gas}
use stroemnet.Settlement.Driving.{next_at}
use stroemnet.Chains.Polling.{replacement_gas, kept_nonce}
use stroemnet.Chains.Evm.{Evm, persist_swap}
use stroemnet.Chains.Settle.{Provider, own_address, priced, replacement}

pub persist_swap-queue :
    (borsh : Borsh) (id : Bytes) (st : Evm) → (persist_swap borsh id st).queue ≡ st.queue
unfolding persist_swap
persist_swap-queue borsh id st = elim (Option-cases st.swap_store) [
  | inl e ↦ rw (persist_swap, e) refl
  | inr (rows, e) ↦ rw (persist_swap, e) refl
]

pub attempt-set_nonce :
    (j k : ActionKey) (n : ℕ) (q : RetryQueue)
    → attempt (set_nonce k n q) j ≡ (
        if j == k
        then Option.map (λ (a : AttemptState). record a { nonce = some n }) (attempt q j)
        else attempt q j)
unfolding attempt set_nonce
attempt-set_nonce j k n q = get-update j k (λ a. record a { nonce = some n }) q.attempts

pub attempt-set_last_gas :
    (j k : ActionKey) (gas : ℕ) (q : RetryQueue)
    → attempt (set_last_gas k gas q) j ≡ (
        if j == k
        then Option.map (λ (a : AttemptState). record a { last_gas = some gas }) (attempt q j)
        else attempt q j)
unfolding attempt set_last_gas
attempt-set_last_gas j k gas q = get-update j k (λ a. record a { last_gas = some gas }) q.attempts

-- The queue after a call that leaves the times and the keys of the attempts alone.
pub record Retains (q next : RetryQueue) : Type 0 where
  pub times : (j : ActionKey) → next_at next j ≡ next_at q j
  pub unique : IsUnique q.attempts → IsUnique next.attempts

pub set_nonce-Retains : (k : ActionKey) (n : ℕ) (q : RetryQueue) → Retains q (set_nonce k n q)
unfolding set_nonce
set_nonce-Retains k n q = record {
  times = λ j. ground (arith, attempt-set_nonce j k n q);
  unique = update-IsUnique k _ q.attempts;
}

pub set_last_gas-Retains :
    (k : ActionKey) (gas : ℕ) (q : RetryQueue) → Retains q (set_last_gas k gas q)
unfolding set_last_gas
set_last_gas-Retains k gas q = record {
  times = λ j. ground (arith, attempt-set_last_gas j k gas q);
  unique = update-IsUnique k _ q.attempts;
}

module _ (node : Provider) (address : Bytes → Option Bytes) (borsh : Borsh) where
  -- How a nonce is chosen, with the queue that keeps it.
  pub data Chosen (key : ActionKey) (a : AttemptState) (confirmed : ℕ) (q : RetryQueue)
      : ℕ → RetryQueue → Type 0 where
    kept : (n : ℕ) → a.nonce ≡ some n → Chosen key a confirmed q n q
    fresh :
        (n : ℕ)
        → kept_nonce a.nonce confirmed ≡ none
        → Chosen key a confirmed q n (set_nonce key n q)

  pub record Replaced (key : ActionKey) (st : Evm) (replaced : Evm × Option (ℕ × ℕ)) : Type 0 where
    pub a : AttemptState
    pub known : attempt st.queue key ≡ some a
    pub base : ℕ
    pub confirmed : ℕ
    pub addr : Bytes
    pub counted : node.confirmed_count addr ≡ some confirmed
    pub n : ℕ
    pub q : RetryQueue
    pub chosen : Chosen key a confirmed st.queue n q
    pub result :
        replaced
        ≡ priced borsh key n
            (replacement_gas base a.attempt_count a.last_gas)
            (record st { queue = q })

  kept_nonce-kept :
      (nonce : Option ℕ) (confirmed n : ℕ) → kept_nonce nonce confirmed ≡ some n → nonce ≡ some n
  unfolding kept_nonce
  kept_nonce-kept none confirmed n h = h
  kept_nonce-kept (some m) confirmed n h = ground (arith, h)

  pub replacement-Replaced :
      (key : ActionKey) (st : Evm)
      → (replacement node address borsh key st ≡ (st, none))
        ⊎ Replaced key st (replacement node address borsh key st)
  unfolding replacement
  replacement-Replaced key st = elim (Option-cases (attempt st.queue key)) [
    | inl e ↦ inl (rw (replacement, e) refl)
    | inr (a, known) ↦ elim (Option-cases node.gas_price) [
      | inl e ↦ inl (rw (replacement, known, e) refl)
      | inr (base, quoted) ↦ elim (Option-cases (own_address address st)) [
        | inl e ↦ inl (rw (replacement, known, quoted, e) refl)
        | inr (addr, ours) ↦ elim (Option-cases (node.confirmed_count addr)) [
          | inl e ↦ inl (rw (replacement, known, quoted, ours, e) refl)
          | inr (confirmed, counted) ↦ elim (Option-cases (kept_nonce a.nonce confirmed)) [
            | inr (n, again) ↦ inr (record {
              a = a;
              known = known;
              base = base;
              confirmed = confirmed;
              addr = addr;
              counted = counted;
              n = n;
              q = st.queue;
              chosen = kept n (kept_nonce-kept a.nonce confirmed n again);
              result = rw (replacement, known, quoted, ours, counted, again) refl;
            })
            | inl new ↦ elim (Option-cases (node.pending_count addr)) [
              | inl e ↦ inl (rw (replacement, known, quoted, ours, counted, new, e) refl)
              | inr (pending, told) ↦ inr (record {
                a = a;
                known = known;
                base = base;
                confirmed = confirmed;
                addr = addr;
                counted = counted;
                n = max pending confirmed;
                q = set_nonce key (max pending confirmed) st.queue;
                chosen = fresh (max pending confirmed) new;
                result = rw (replacement, known, quoted, ours, counted, new, told) refl;
              })
            ]
          ]
        ]
      ]
    ]
  ]

  priced-Retains :
      (key : ActionKey) (n gas : ℕ) (st : Evm)
      → Retains st.queue (priced borsh key n gas st).0.queue
  unfolding priced
  priced-Retains key n gas st =
      rw
        (persist_swap-queue borsh key.swap_id (record st { queue = set_last_gas key gas st.queue }))
        (set_last_gas-Retains key gas st.queue)

  Chosen-Retains :
      {key : ActionKey} {a : AttemptState} {confirmed n : ℕ} {q next : RetryQueue}
      → Chosen key a confirmed q n next
      → Retains q next
  Chosen-Retains (kept n same) = record { times = λ j. refl; unique = λ u. u }
  Chosen-Retains {key} {q = q} (fresh n new) = set_nonce-Retains key n q

  pub replacement-Retains :
      (key : ActionKey) (st : Evm)
      → Retains st.queue (replacement node address borsh key st).0.queue
  replacement-Retains key st = elim (replacement-Replaced key st) [
    | inl same ↦ rw same (record { times = λ j. refl; unique = λ u. u })
    | inr r ↦
        let gas = replacement_gas r.base r.a.attempt_count r.a.last_gas in
        let before = Chosen-Retains r.chosen in
        let after = priced-Retains key r.n gas (record st { queue = r.q }) in
        rw r.result (record {
          times = λ j. after.times j ∙ before.times j;
          unique = λ u. after.unique (before.unique u);
        })
  ]
