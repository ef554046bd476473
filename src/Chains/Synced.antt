-- ===== src/Chains/Synced.antt =====
-- chains/evm: the steps of the buffer, and its copy on disk.
use stroemnet.Common.{
  ℕ, ◌≡◌, ◌∙◌, refl, inl, inr, false, Option, none, some, List, [], ◌∷◌, Bytes, bytes_eq, ◌==◌,
  find, any, ltb, Bool-cases, Option-cases, Result,
}
use stroemnet.Protocol.Channel.{ChannelId}
use stroemnet.Protocol.V1.{CommitmentV1, RevealV1, ChainEvent, commitment, reveal, refund}
use stroemnet.Records.Codec.{Borsh}
use stroemnet.Settlement.Queue.{
  ActionKey, key_eq, claim_key, refund_key, RetryQueue, attempt, set_nonce, set_last_gas,
}
use stroemnet.Settlement.Settler.{SettleOutcome}
use stroemnet.Chains.Pending.{is_claim_of, push_pending_claim}
use stroemnet.Chains.Evm.{Evm, swap_record}
use stroemnet.Chains.Persisted.{Lossless, IsSynced, persist_swap-IsSynced}
use stroemnet.Chains.Tracking.{
  find-append, key_ne, ensure_ne, id_ne, track_actionable_event-IsSynced,
}
use stroemnet.Chains.Settle.{Provider, Call, priced, replacement}
use stroemnet.Chains.Replaced.{
  Chosen, kept, fresh, attempt-set_nonce, attempt-set_last_gas, replacement-Replaced,
}
use stroemnet.Chains.Settling.{
  Progress, in_time, before_replacement, after_replacement, timed, submitted-state, Attempts, stops,
  submits,
}
use stroemnet.Chains.Polling.{Filter, Htlc}
use stroemnet.Chains.Events.{save_cursor, observe_time, take_logs, poll_finalized, emit_event}

nonce_ne :
    (a k : ActionKey) (n : ℕ) (q : RetryQueue)
    → (a.swap_id == k.swap_id) ≡ false
    → attempt (set_nonce k n q) a ≡ attempt q a
nonce_ne a k n q ne = attempt-set_nonce a k n q ∙ (rw (key_ne a k ne) refl)

gas_ne :
    (a k : ActionKey) (gas : ℕ) (q : RetryQueue)
    → (a.swap_id == k.swap_id) ≡ false
    → attempt (set_last_gas k gas q) a ≡ attempt q a
gas_ne a k gas q ne = attempt-set_last_gas a k gas q ∙ (rw (key_ne a k ne) refl)

push_ne :
    (id j : Bytes) (r : RevealV1) (claims : List RevealV1)
    → (j == id) ≡ false
    → r.swap_id ≡ id
    → find (is_claim_of j) (push_pending_claim claims r) ≡ find (is_claim_of j) claims
unfolding push_pending_claim
push_ne id j r claims ne e = elim (Bool-cases (any (is_claim_of r.swap_id) claims)) [
  | inl known ↦ rw known refl
  | inr new ↦ rw new (find-append (is_claim_of j) claims r (rw e (id_ne id j ne)))
]

module _ (borsh : Borsh) (law : Lossless borsh) where
  module _ (node : Provider) (address : Bytes → Option Bytes) where
    priced-IsSynced :
        {a : _} (key : ActionKey) (st : Evm) (confirmed n gas : ℕ) (q : RetryQueue)
        → Chosen node address borsh key a confirmed st.queue n q
        → IsSynced borsh st
        → IsSynced borsh (priced borsh key n gas (record st { queue = q })).0
    unfolding priced swap_record
    priced-IsSynced key st confirmed n gas q (kept _ same) s =
        persist_swap-IsSynced borsh law key.swap_id st _ s refl (λ j ne.
          rw (gas_ne (claim_key j) key gas st.queue ne, gas_ne (refund_key j) key gas st.queue ne)
            refl)
    priced-IsSynced key st confirmed n gas q (fresh _ new) s =
        persist_swap-IsSynced borsh law key.swap_id st _ s refl (λ j ne.
          rw
            (
              gas_ne (claim_key j) key gas (set_nonce key n st.queue) ne,
              gas_ne (refund_key j) key gas (set_nonce key n st.queue) ne,
              nonce_ne (claim_key j) key n st.queue ne,
              nonce_ne (refund_key j) key n st.queue ne,
            )
            refl)

    replacement-IsSynced :
        (key : ActionKey) (st : Evm)
        → IsSynced borsh st
        → IsSynced borsh (replacement node address borsh key st).0
    replacement-IsSynced key st s = elim (replacement-Replaced node address borsh key st) [
      | inl same ↦ rw same s
      | inr r ↦ rw r.result (priced-IsSynced key st r.confirmed r.n _ r.q r.chosen s)
    ]

    module _ (sha256 : Bytes → Bytes) where
      pub Attempts-IsSynced :
          (key : ActionKey) (st : Evm) (result : Evm × SettleOutcome × List Call)
          → Attempts node address borsh sha256 key st result
          → IsSynced borsh st
          → IsSynced borsh result.0
      Attempts-IsSynced key st result (stops outcome) s = s
      Attempts-IsSynced key st result (submits submit asks) s =
          rw (submitted-state submit (replacement node address borsh key st))
            (replacement-IsSynced key st s)

  pub timed-IsSynced :
      (progress : Progress) (st : Evm) (result : Evm × SettleOutcome × List Call)
      → IsSynced borsh st
      → IsSynced borsh result.0
      → IsSynced borsh (timed progress st result).0
  timed-IsSynced in_time st (next, outcome, calls) s t = t
  timed-IsSynced before_replacement st (next, outcome, calls) s t = s
  timed-IsSynced after_replacement st (next, outcome, calls) s t = t

  module _ (now : ℕ) where
    module _ {Log : Type 0} (decode_log : Log → Option ChainEvent) where
      take_logs-IsSynced :
          (logs : List Log) (st : Evm)
          → IsSynced borsh st
          → IsSynced borsh (take_logs borsh now decode_log logs st).0
      unfolding take_logs
      take_logs-IsSynced [] st s = s
      take_logs-IsSynced (log ∷ logs) st s = elim (Option-cases (decode_log log)) [
        | inl e ↦ rw (take_logs, e) (take_logs-IsSynced logs st s)
        | inr (event, e) ↦
            rw (take_logs, e)
              (take_logs-IsSynced logs _ (track_actionable_event-IsSynced borsh law now event st s))
      ]

      observe_time-IsSynced :
          (ts : Option ℕ) (st : Evm) → IsSynced borsh st → IsSynced borsh (observe_time ts now st)
      unfolding observe_time swap_record
      observe_time-IsSynced none st s = s
      observe_time-IsSynced (some ts) st s = s

      pub poll_finalized-IsSynced :
          (head : Option ℕ) (get_logs : Filter → Option (List Log)) (htlc : Htlc)
          (block_timestamp : Option ℕ) (st : Evm)
          → IsSynced borsh st
          → IsSynced borsh
              (poll_finalized borsh now decode_log head get_logs htlc block_timestamp st).0
      unfolding poll_finalized save_cursor swap_record
      poll_finalized-IsSynced head get_logs htlc ts st s =
          elim (Bool-cases (ltb now st.next_poll_secs)) [
            | inl wait ↦ rw (poll_finalized, wait) s
            | inr turn ↦
                rw (poll_finalized, turn) (observe_time-IsSynced ts _ (take_logs-IsSynced _ _ s))
          ]

    pub emit_event-IsSynced :
        {E : Type 0} (submit : CommitmentV1 → Result E (Unit {0})) (missing_key : ChannelId → E)
        (event : ChainEvent) (st : Evm)
        → IsSynced borsh st
        → IsSynced borsh (emit_event borsh now submit missing_key event st).0
    unfolding emit_event swap_record
    emit_event-IsSynced submit missing_key (commitment c) st s = s
    emit_event-IsSynced submit missing_key (refund r) st s = s
    emit_event-IsSynced submit missing_key (reveal r) st s = elim (Bool-cases st.participate_ccr) [
      | inr idle ↦ rw (emit_event, idle) s
      | inl claims ↦
          rw (emit_event, claims)
            (persist_swap-IsSynced borsh law r.swap_id st _ s refl (λ j ne.
              rw
                (
                  ensure_ne r.swap_id j ne (claim_key j) (claim_key r.swap_id) now st.queue refl
                      refl,
                  ensure_ne r.swap_id j ne (refund_key j) (claim_key r.swap_id) now st.queue refl
                      refl,
                  push_ne r.swap_id j r st.pending_claims ne refl,
                )
                refl))
    ]
