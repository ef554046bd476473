-- ===== src/Tracker/Stages.antt =====
-- About the stages of a swap (swap_tracker/mod.rs) as a state machine.
use mathlib.Core.Option
use stroemnet.Common.{
  ℕ, ◌*◌, ◌≡◌, ◌≢◌, refl, ◌∙◌, ap, inl, inr, Option, none, some, arith, Bytes, ◌==◌, length,
  bytes_eq, ok, Option-cases, Bool-cases, beq_sound, beq_refl,
}
use stroemnet.Common.Dict.{IsUnique, keep_if}
use stroemnet.Protocol.V1.{CommitmentV1}
use stroemnet.Tracker.Record.{
  SwapRecord, SwapTracker, SwapStage, initialized, locked, completed, refunded, Crypto, get_swap,
  refunded_text, stage,
}
use stroemnet.Tracker.Commit.{set_init_commitment, set_counter_commitment}
use stroemnet.Tracker.Resolve.{set_revealed, set_refunded}
use stroemnet.Tracker.Expiry.{cleanup_old_swaps, keeps}
use stroemnet.Tracker.History.{
  Writes, fresh_record, Call, init_call, counter_call, reveal_call, refund_call, cleanup_call, step,
  set_init_commitment-ok, set_counter_commitment-ok, set_revealed-ok, set_refunded-ok,
}
use stroemnet.Tracker.Valid.{IsValid, after_cases, cleanup-get}

-- The stage of a swap, if the tracker knows it.
abbrev pub stage_at : SwapTracker → Bytes → Option SwapStage
stage_at t id = Option.map stage (get_swap t id)

pub data Edge : Option SwapStage → Option SwapStage → Type 0 where
  stay : {s : Option SwapStage} → Edge s s
  begin : Edge none (some initialized)
  lock : Edge (some initialized) (some locked)
  complete : Edge (some locked) (some completed)
  give_back : Edge (some locked) (some refunded)
  forget_completed : Edge (some completed) none
  forget_refunded : Edge (some refunded) none

-- Secrets are 32 bytes, and a byte is two hexadecimal digits.
abbrev pub IsSized : Call → Type 0
IsSized (reveal_call id secret) = length secret ≡ 32
IsSized _ = Unit

abbrev pub HexLength : Crypto → Type 0
HexLength k = (b : Bytes) → length (k.hex_encode b) ≡ 2 * length b

pub hex-ne-refunded :
    (k : Crypto) (s : Bytes) → HexLength k → length s ≡ 32 → k.hex_encode s ≢ refunded_text
hex-ne-refunded k s h l e = absurd (omega (arith, h s, ap length e))

Edge-eq : {a b c d : Option SwapStage} → a ≡ b → c ≡ d → Edge b d → Edge a c
Edge-eq p q e = rw (p, q) e

write-Edge :
    (t t' : SwapTracker) (id : Bytes) (r : SwapRecord)
    → Writes t id r t'
    → Edge (stage_at t id) (some (stage r))
    → (j : Bytes) → Edge (stage_at t j) (stage_at t' j)
write-Edge t t' id r w e j = elim (Bool-cases (j == id)) [
  | inl here ↦ Edge-eq (ap (stage_at t) (beq_sound j id here)) (ground (arith, w j)) e
  | inr other ↦ Edge-eq refl (ground (arith, w j)) stay
]

pub stage_locked :
    (r : SwapRecord) (c : CommitmentV1)
    → r.counter_commitment ≡ some c
    → r.resolution ≡ none
    → stage r ≡ locked
unfolding stage
stage_locked r c p q = ground arith

stage_open :
    (r : SwapRecord) → r.counter_commitment ≡ none → r.resolution ≡ none → stage r ≡ initialized
unfolding stage
stage_open r p q = ground arith

pub stage_completed :
    (r : SwapRecord) (text : Bytes)
    → r.resolution ≡ some text
    → text ≢ refunded_text
    → stage r ≡ completed
unfolding stage
stage_completed r text p q = ground (arith, beq_sound text refunded_text)

pub stage_refunded : (r : SwapRecord) → r.resolution ≡ some refunded_text → stage r ≡ refunded
unfolding stage
stage_refunded r p = ground (arith, beq_refl refunded_text)

EdgeAt : SwapTracker → SwapTracker → Type 0
EdgeAt t t' = (id : Bytes) → Edge (stage_at t id) (stage_at t' id)

EdgeAt-refl : (t : SwapTracker) → EdgeAt t t
unfolding EdgeAt
EdgeAt-refl t id = stay

module _ (t t' : SwapTracker) (id : Bytes) where
  init-Edge : (now : ℕ) (c : CommitmentV1) → set_init_commitment now t id c ≡ ok t' → EdgeAt t t'
  unfolding EdgeAt
  init-Edge now c h =
      let (missing, w) = set_init_commitment-ok t id now c h in
      write-Edge t t' id (fresh_record now c) w (
        Edge-eq (ap (Option.map stage) missing)
          (ap some (stage_open (fresh_record now c) refl refl)) begin)

  counter-Edge : (c : CommitmentV1) → set_counter_commitment t id c ≡ ok t' → EdgeAt t t'
  unfolding EdgeAt
  counter-Edge c h =
      let (r, at, unlocked, pending, m, w) = set_counter_commitment-ok t id c h in
      let r' : SwapRecord = record r { counter_commitment = some c } in
      write-Edge t t' id r' w (
        Edge-eq (ap (Option.map stage) at ∙ ap some (stage_open r unlocked pending))
          (ap some (stage_locked r' c refl pending)) lock)

  revealed-Edge :
      (k : Crypto) (secret : Bytes)
      → k.hex_encode secret ≢ refunded_text
      → set_revealed k t id secret ≡ ok t'
      → EdgeAt t t'
  unfolding EdgeAt
  revealed-Edge k secret ne h =
      let (r, c, at, held, pending, opens, w) = set_revealed-ok t id k secret h in
      let r' : SwapRecord = record r { resolution = some (k.hex_encode secret) } in
      write-Edge t t' id r' w (
        Edge-eq (ap (Option.map stage) at ∙ ap some (stage_locked r c held pending))
          (ap some (stage_completed r' (k.hex_encode secret) refl ne)) complete)

  refunded-Edge : set_refunded t id ≡ ok t' → EdgeAt t t'
  unfolding EdgeAt
  refunded-Edge h =
      let (r, c, at, held, pending, w) = set_refunded-ok t id h in
      let r' : SwapRecord = record r { resolution = some refunded_text } in
      write-Edge t t' id r' w (
        Edge-eq (ap (Option.map stage) at ∙ ap some (stage_locked r c held pending))
          (ap some (stage_refunded r' refl)) give_back)

keep-Edge :
    (now age : ℕ) (o : Option SwapRecord)
    → Edge (Option.map stage o) (Option.map stage (keep_if (keeps now age) o))
unfolding keeps stage
keep-Edge now age none = stay
keep-Edge now age (some r) = elim (Bool-cases (keeps now age r)) [
  | inl kept ↦ Edge-eq refl (ground arith) (stay {s = some (stage r)})
  | inr gone ↦ elim (Option-cases r.resolution) [
    | inl pending ↦ absurd (ground arith)
    | inr (text, e) ↦ elim (Bool-cases (text == refunded_text)) [
      | inl back ↦ Edge-eq (ground arith) (ground arith) forget_refunded
      | inr done ↦ Edge-eq (ground arith) (ground arith) forget_completed
    ]
  ]
]

cleanup-Edge :
    (now age : ℕ) (t : SwapTracker) → IsUnique t.swaps → EdgeAt t (cleanup_old_swaps now t age)
unfolding EdgeAt
cleanup-Edge now age t u id =
    Edge-eq refl (ap (Option.map stage) (cleanup-get now age t id u))
      (keep-Edge now age (get_swap t id))

-- A call moves every swap along one edge of the stage diagram, or leaves its stage alone: a swap
-- begins as Initialized, is locked from there only, ends as Completed or Refunded from Locked
-- only, and is forgotten only when it has ended. The hypotheses: the tracker is valid, a revealed
-- secret is 32 bytes, and hex writes two characters for a byte.
pub step-Edge :
    (k : Crypto) (t : SwapTracker) (c : Call)
    → HexLength k
    → IsSized c
    → IsValid k t
    → (id : Bytes) → Edge (stage_at t id) (stage_at (step k t c) id)
unfolding step EdgeAt
step-Edge k t (init_call now id c) hex sized v =
    after_cases (EdgeAt t) t _ (EdgeAt-refl t) (λ t' h. init-Edge t t' id now c h)
step-Edge k t (counter_call id c) hex sized v =
    after_cases (EdgeAt t) t _ (EdgeAt-refl t) (λ t' h. counter-Edge t t' id c h)
step-Edge k t (reveal_call id s) hex sized v =
    after_cases (EdgeAt t) t _ (EdgeAt-refl t)
      (λ t' h. revealed-Edge t t' id k s (hex-ne-refunded k s hex sized) h)
step-Edge k t (refund_call id) hex sized v =
    after_cases (EdgeAt t) t _ (EdgeAt-refl t) (λ t' h. refunded-Edge t t' id h)
step-Edge k t (cleanup_call now age) hex sized v = cleanup-Edge now age t v.unique
