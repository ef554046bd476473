-- ===== src/Chains/Resent.antt =====
-- chains/evm/settle.rs and replace.rs: a transaction that is sent again.
use stroemnet.Common.{
  ℕ, min, ◌*◌, ◌/◌, ◌≤◌, ◌≡◌, ◌∙◌, ap, sym, refl, inl, inr, Bool, Option, none, some, List, [], ◌∷◌,
  arith, Bytes, bytes_eq, beq_refl, some_inj,
}
use stroemnet.Records.Codec.{Borsh}
use stroemnet.Settlement.Attempt.{AttemptState, on_failure}
use stroemnet.Settlement.Queue.{
  Action, ActionKey, key_eq, RetryQueue, attempt, set_nonce, set_last_gas,
}
use stroemnet.Settlement.Queue
use stroemnet.Settlement.Schedule.{attempt-record_failure}
use stroemnet.Settlement.Settler.{SettleOutcome}
use stroemnet.Chains.Polling.{replacement_gas, kept_nonce, max_gas_price_wei}
use stroemnet.Chains.Evm.{Evm, record_failure, jitter}
use stroemnet.Chains.Gas.{replacement_gas-bounds}
use stroemnet.Chains.Settle.{Provider, Call, priced, replacement, submitted, settle}
use stroemnet.Chains.Replaced.{
  Chosen, kept, fresh, attempt-set_nonce, attempt-set_last_gas, persist_swap-queue,
  replacement-Replaced,
}
use stroemnet.Chains.Settling.{AsksFor, Attempts, stops, submits, settle-Attempts, submitted-state}

-- What the retry queue remembers of the transaction that was sent.
pub record Remembers (key : ActionKey) (nonce gas : ℕ) (q : RetryQueue) : Type 0 where
  pub a : AttemptState
  pub known : attempt q key ≡ some a
  pub nonce_kept : a.nonce ≡ some nonce
  pub gas_kept : a.last_gas ≡ some gas

submitted_call :
    (submit : ℕ → ℕ → Bool × List Call) (asks : AsksFor submit) (replaced : Evm × Option (ℕ × ℕ))
    (c : Call)
    → (submitted submit replaced).2 ≡ c ∷ []
    → replaced.1 ≡ some (c.nonce, c.gas_price)
unfolding submitted
submitted_call submit asks (next, none) c h = absurd (ground (arith, h))
submitted_call submit asks (next, some (nonce, gas)) c h =
    let (n, g) = asks nonce gas c h in rw (n, g) refl

module _ (node : Provider) (address : Bytes → Option Bytes) (borsh : Borsh)
    (sha256 : Bytes → Bytes) where
  Chosen-nonce :
      {key : ActionKey} {a : AttemptState} {confirmed n : ℕ} {q next : RetryQueue}
      → Chosen node address borsh key a confirmed q n next
      → attempt q key ≡ some a
      → (b : AttemptState) × (attempt next key ≡ some b) × (b.nonce ≡ some n)
  Chosen-nonce {a = a} (kept n same) known = (a, known, same)
  Chosen-nonce {key} {a} {q = q} (fresh n new) known = (
    record a { nonce = some n },
    ground (arith, attempt-set_nonce key key n q, beq_refl key),
    refl,
  )

  priced-Remembers :
      (key : ActionKey) (n gas : ℕ) (st : Evm) (b : AttemptState)
      → attempt st.queue key ≡ some b
      → b.nonce ≡ some n
      → Remembers key n gas (priced borsh key n gas st).0.queue
  unfolding priced
  priced-Remembers key n gas st b known same =
      rw
        (persist_swap-queue borsh key.swap_id (record st { queue = set_last_gas key gas st.queue }))
        (record {
          a = record b { last_gas = some gas };
          known = ground (arith, attempt-set_last_gas key key gas st.queue, beq_refl key);
          nonce_kept = same;
          gas_kept = refl;
        })

  same_nonce :
      {key : ActionKey} {a : AttemptState} {q : RetryQueue} (confirmed nonce n : ℕ)
      {next : RetryQueue}
      → Chosen node address borsh key a confirmed q n next
      → a.nonce ≡ some nonce
      → confirmed ≤ nonce
      → n ≡ nonce
  unfolding kept_nonce
  same_nonce confirmed nonce n (kept _ same) before h = some_inj (sym same ∙ before)
  same_nonce confirmed nonce n (fresh _ new) before h = absurd (ground (arith, new, before, h))

  -- The call that goes out is the one that the replacement asks for.
  sent_call :
      (key : ActionKey) (st : Evm) (result : Evm × SettleOutcome × List Call) (c : Call)
      → Attempts node address borsh sha256 key st result
      → result.2 ≡ c ∷ []
      → ((replacement node address borsh key st).1 ≡ some (c.nonce, c.gas_price))
        × (result.0 ≡ (replacement node address borsh key st).0)
  sent_call key st result c (stops outcome) h = absurd (ground (arith, h))
  sent_call key st result c (submits submit asks) h = (
    submitted_call submit asks (replacement node address borsh key st) c h,
    submitted-state submit (replacement node address borsh key st),
  )

  replacement-Remembers :
      (key : ActionKey) (st : Evm) (n gas : ℕ)
      → (replacement node address borsh key st).1 ≡ some (n, gas)
      → Remembers key n gas (replacement node address borsh key st).0.queue
  unfolding priced
  replacement-Remembers key st n gas h = elim (replacement-Replaced node address borsh key st) [
    | inl same ↦ absurd (ground (arith, h, same))
    | inr r ↦
        let price = replacement_gas r.base r.a.attempt_count r.a.last_gas in
        let (b, known, same) = Chosen-nonce r.chosen r.known in
        let rem = priced-Remembers key r.n price (record st { queue = r.q }) b known same in
        let asked = some_inj (sym (ap (λ (x : Evm × Option (ℕ × ℕ)). x.1) r.result) ∙ h) in
        rw r.result (record {
          a = rem.a;
          known = rem.known;
          nonce_kept = rem.nonce_kept ∙ ap (λ (x : ℕ × ℕ). some x.0) asked;
          gas_kept = rem.gas_kept ∙ ap (λ (x : ℕ × ℕ). some x.1) asked;
        })
  ]

  resent :
      (key : ActionKey) (st : Evm) (nonce gas n price : ℕ)
      → Remembers key nonce gas st.queue
      → ((addr : Bytes) (m : ℕ) → node.confirmed_count addr ≡ some m → m ≤ nonce)
      → (replacement node address borsh key st).1 ≡ some (n, price)
      → (n ≡ nonce) × (min (gas * 115 / 100) max_gas_price_wei ≤ price)
  unfolding priced
  resent key st nonce gas n price rem unconfirmed h =
      elim (replacement-Replaced node address borsh key st) [
        | inl same ↦ absurd (ground (arith, h, same))
        | inr r ↦
            let same = some_inj (sym r.known ∙ rem.known) in
            let asked = some_inj (sym (ap (λ (x : Evm × Option (ℕ × ℕ)). x.1) r.result) ∙ h) in
            let before = ap (λ (a : AttemptState). a.nonce) same ∙ rem.nonce_kept in
            let paid = ap (λ (a : AttemptState). a.last_gas) same ∙ rem.gas_kept in
            let (_, _, more) = replacement_gas-bounds r.base r.a.attempt_count gas in
            let at_price = ap (λ l. replacement_gas r.base r.a.attempt_count l) paid in
            (
              sym (ap (λ (x : ℕ × ℕ). x.0) asked)
                  ∙ same_nonce r.confirmed nonce r.n r.chosen before
                      (unconfirmed r.addr r.confirmed r.counted),
              omega (arith, more, at_price, ap (λ (x : ℕ × ℕ). x.1) asked),
            )
      ]

failure-Remembers :
    (borsh : Borsh) (key : ActionKey) (nonce gas now : ℕ) (st : Evm)
    → Remembers key nonce gas st.queue
    → Remembers key nonce gas (record_failure borsh st key now).queue
unfolding record_failure on_failure
failure-Remembers borsh key nonce gas now st rem =
    rw
      (persist_swap-queue borsh key.swap_id
        (record st { queue = Queue.record_failure key now (jitter key) st.queue }))
      (record {
        a = on_failure now (jitter key) rem.a;
        known = ground (
          arith,
          attempt-record_failure key key now (jitter key) st.queue,
          beq_refl key,
          rem.known,
        );
        nonce_kept = rem.nonce_kept;
        gas_kept = rem.gas_kept;
      })

module _ (address : Bytes → Option Bytes) (borsh : Borsh) (sha256 : Bytes → Bytes) (id : Bytes)
    (action : Action) (st : Evm) (now : ℕ) where
  abbrev pub again : Provider → Evm
  again before =
      let key : ActionKey = record { swap_id = id; action = action } in
      record_failure borsh (settle before address borsh sha256 st key).0 key now

  -- A transaction that is sent again after a failed attempt takes the place of the one before: it has
  -- the same nonce, and a gas price of at least the last one with 15 percent on top, rounded down, or
  -- the maximum price. The chain has not confirmed that nonce.
  pub settle_again :
      (before after : Provider) (c d : Call)
      → let key : ActionKey = record { swap_id = id; action = action } in
        (settle before address borsh sha256 st key).2 ≡ c ∷ []
        → (settle after address borsh sha256 (again before) key).2 ≡ d ∷ []
        → ((addr : Bytes) (m : ℕ) → after.confirmed_count addr ≡ some m → m ≤ c.nonce)
        → (d.nonce ≡ c.nonce) × (min (c.gas_price * 115 / 100) max_gas_price_wei ≤ d.gas_price)
  settle_again before after c d first second unconfirmed =
      let key : ActionKey = record { swap_id = id; action = action } in
      let (asked, same) =
        sent_call before address borsh sha256 key st _ c
          (settle-Attempts before address borsh sha256 st id action) first in
      let rem =
        replacement-Remembers before address borsh sha256 key st c.nonce c.gas_price asked in
      let kept_on =
        failure-Remembers borsh key c.nonce c.gas_price now
          (settle before address borsh sha256 st key).0 (rw same rem) in
      let (next, _) =
        sent_call after address borsh sha256 key (again before) _ d
          (settle-Attempts after address borsh sha256 (again before) id action) second in
      resent after address borsh sha256 key (again before) c.nonce c.gas_price d.nonce d.gas_price
        kept_on unconfirmed next
