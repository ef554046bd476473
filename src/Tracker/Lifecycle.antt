-- ===== src/Tracker/Lifecycle.antt =====
-- About histories of a swap in swap_tracker.
use mathlib.Core.Option
use stroemnet.Common.{
  ℕ, ◌≡◌, refl, ◌∙◌, ap, inl, inr, ◌⊎◌, ltb, ◌-◌, ◌<◌, ◌≤◌, Option, none, some, [], ◌∷◌, ◌++◌,
  list_beq_iff, arith, Bytes, ◌==◌, length, bytes_eq, Bool-cases, beq_sound, beq_refl,
}
use stroemnet.Common.Dict.{keep_if, get-insert, get-update}
use stroemnet.Protocol.V1.{CommitmentV1}
use stroemnet.Tracker.Record.{
  SwapRecord, SwapTracker, Crypto, get_swap, refunded_text, stage, locked, completed, refunded,
}
use stroemnet.Tracker.Commit.{set_init_commitment, set_counter_commitment}
use stroemnet.Tracker.Resolve.{set_revealed, set_refunded}
use stroemnet.Tracker.Expiry.{keeps}
use stroemnet.Tracker.History.{
  Mirrors, fresh_record, Call, init_call, counter_call, reveal_call, refund_call, cleanup_call,
  after, step, run, set_init_commitment-ok, set_counter_commitment-ok, set_revealed-ok,
  set_refunded-ok, Mirrors-validate_counter,
}
use stroemnet.Tracker.Valid.{IsValid, after_cases, cleanup-get}
use stroemnet.Tracker.Stages.{
  stage_at, HexLength, stage_locked, stage_completed, stage_refunded, hex-ne-refunded,
}
use stroemnet.Tracker.Acceptance.{write-keeps}

-- What a call leaves of a record that has ended: the record as it is, and only a cleanup at which the
-- record has reached the age leaves nothing. A record from after `now` has the age 0.
abbrev pub Endures : Call → SwapRecord → Option SwapRecord → Type 0
Endures (cleanup_call now age) q o =
    ((now - q.created_at < age) × (o ≡ some q)) ⊎ ((age ≤ now - q.created_at) × (o ≡ none))
Endures (init_call now id c) q o = o ≡ some q
Endures (counter_call id c) q o = o ≡ some q
Endures (reveal_call id s) q o = o ≡ some q
Endures (refund_call id) q o = o ≡ some q

keep_if-Endures :
    (now age : ℕ) (q : SwapRecord) (text : Bytes)
    → q.resolution ≡ some text
    → Endures (cleanup_call now age) q (keep_if (keeps now age) (some q))
unfolding keeps
keep_if-Endures now age q text ended = elim (Bool-cases (ltb (now - q.created_at) age)) [
  | inl young ↦ inl (ground arith, rw (keep_if, keeps, ended, young) refl)
  | inr old ↦ inr (ground arith, rw (keep_if, keeps, ended, old) refl)
]

-- No call but a cleanup changes or removes the record of a swap that has ended, and a cleanup leaves the
-- record as it is while the record is younger than the age that it is given, and removes it from that
-- age on. In a valid tracker.
pub step-Endures :
    (k : Crypto) (t : SwapTracker) (c : Call) (j : Bytes) (q : SwapRecord) (text : Bytes)
    → IsValid k t
    → get_swap t j ≡ some q
    → q.resolution ≡ some text
    → Endures c q (get_swap (step k t c) j)
unfolding step
step-Endures k t (init_call now id c) j q text v known ended =
    after_cases (λ t'. get_swap t' j ≡ some q) t _ known
      λ t' h.
        let (missing, w) = set_init_commitment-ok t id now c h in
        elim (Bool-cases (j == id)) [
          | inl e ↦ absurd (ground (arith, beq_sound j id e))
          | inr e ↦ ground (arith, w j)
        ]
step-Endures k t (counter_call id c) j q text v known ended =
    after_cases (λ t'. get_swap t' j ≡ some q) t _ known
      λ t' h.
        let (r, at, unlocked, pending, m, w) = set_counter_commitment-ok t id c h in
        write-keeps t t' id j q known r _ at (λ e. cc) w
step-Endures k t (reveal_call id s) j q text v known ended =
    after_cases (λ t'. get_swap t' j ≡ some q) t _ known
      λ t' h.
        let (r, c, at, held, pending, opens, w) = set_revealed-ok t id k s h in
        write-keeps t t' id j q known r _ at (λ e. cc) w
step-Endures k t (refund_call id) j q text v known ended =
    after_cases (λ t'. get_swap t' j ≡ some q) t _ known
      λ t' h.
        let (r, c, at, held, pending, w) = set_refunded-ok t id h in
        write-keeps t t' id j q known r _ at (λ e. cc) w
step-Endures k t (cleanup_call now age) j q text v known ended =
    rw (cleanup-get now age t j v.unique, known) (keep_if-Endures now age q text ended)

module _ (t : SwapTracker) (id : Bytes) where
  init-gets :
      (now : ℕ) (c : CommitmentV1)
      → get_swap t id ≡ none
      → get_swap (after t (set_init_commitment now t id c)) id ≡ some (fresh_record now c)
  unfolding set_init_commitment get_swap
  init-gets now c missing =
      ground (arith, get-insert id id (fresh_record now c) t.swaps, beq_refl id)

  counter-gets :
      (r : SwapRecord) (c : CommitmentV1)
      → get_swap t id ≡ some r
      → r.counter_commitment ≡ none
      → r.resolution ≡ none
      → Mirrors r.init_commitment c
      → get_swap (after t (set_counter_commitment t id c)) id
        ≡ some (record r { counter_commitment = some c })
  unfolding set_counter_commitment get_swap
  counter-gets r c known unlocked pending m = ground (
    arith,
    Mirrors-validate_counter id r.init_commitment c m,
    get-update id id (λ s. record s { counter_commitment = some c }) t.swaps,
    beq_refl id,
  )

  reveal-gets :
      (k : Crypto) (secret : Bytes) (r : SwapRecord) (c : CommitmentV1)
      → get_swap t id ≡ some r
      → r.counter_commitment ≡ some c
      → r.resolution ≡ none
      → k.sha256 secret ≡ c.secret_hash
      → get_swap (after t (set_revealed k t id secret)) id
        ≡ some (record r { resolution = some (k.hex_encode secret) })
  unfolding set_revealed get_swap
  reveal-gets k secret r c known held pending opens = ground (
    arith,
    list_beq_iff (k.sha256 secret) c.secret_hash,
    get-update id id (λ s. record s { resolution = some (k.hex_encode secret) }) t.swaps,
    beq_refl id,
  )

  refund-gets :
      (r : SwapRecord) (c : CommitmentV1)
      → get_swap t id ≡ some r
      → r.counter_commitment ≡ some c
      → r.resolution ≡ none
      → get_swap (after t (set_refunded t id)) id
        ≡ some (record r { resolution = some refunded_text })
  unfolding set_refunded get_swap
  refund-gets r c known held pending = ground (
    arith,
    get-update id id (λ s. record s { resolution = some refunded_text }) t.swaps,
    beq_refl id,
  )

-- The record of a swap that both sides have locked.
abbrev locked_record : ℕ → CommitmentV1 → CommitmentV1 → SwapRecord
locked_record now init c = record (fresh_record now init) { counter_commitment = some c }

module _ (k : Crypto) (now : ℕ) (t : SwapTracker) (id : Bytes) (init c : CommitmentV1) where
  locks :
      get_swap t id ≡ none
      → Mirrors init c
      → get_swap (run k t (init_call now id init ∷ counter_call id c ∷ [])) id
        ≡ some (locked_record now init c)
  unfolding run step
  locks missing m =
      counter-gets (after t (set_init_commitment now t id init)) id (fresh_record now init) c
        (init-gets t id now init missing) refl refl m

  -- A swap that the tracker does not know, whose two commitments mirror one another and whose
  -- secret hashes to their lock, is Locked after the two commitments, Completed after the reveal
  -- as well, and Refunded if a refund comes in its place. Hex writes two characters for a byte,
  -- and the secret is 32 bytes.
  run_lifecycle :
      (secret : Bytes)
      → HexLength k
      → length secret ≡ 32
      → get_swap t id ≡ none
      → Mirrors init c
      → k.sha256 secret ≡ init.secret_hash
      → let both = init_call now id init ∷ counter_call id c ∷ [] in
        (stage_at (run k t both) id ≡ some locked)
        × (stage_at (run k t (both ++ reveal_call id secret ∷ [])) id ≡ some completed)
        × (stage_at (run k t (both ++ refund_call id ∷ [])) id ≡ some refunded)
  unfolding run step
  run_lifecycle secret hex sized missing m opens =
      let at = locks missing m in
      let r = locked_record now init c in
      (
        ap (Option.map stage) at ∙ ap some (stage_locked r c refl refl),
        ap (Option.map stage) (reveal-gets _ id k secret r c at refl refl (opens ∙ m.same_secret))
            ∙ ap some
                (stage_completed _ (k.hex_encode secret) refl (hex-ne-refunded k secret hex sized)),
        ap (Option.map stage) (refund-gets _ id r c at refl refl) ∙ ap some (stage_refunded _ refl),
      )
