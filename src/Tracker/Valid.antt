-- ===== src/Tracker/Valid.antt =====
-- About the invariant of the tracker under calls of swap_tracker.
use stroemnet.Common.{
  ℕ, ◌≡◌, refl, sym, ◌∙◌, ◌⊎◌, inl, inr, Bool, Option, none, some, List, [], ◌∷◌, arith, Bytes,
  bytes_eq, Result, ok, err,
}
use stroemnet.Common.Dict.{get, IsUnique, keep_if}
use stroemnet.Common.Dict.Unique.{insert-IsUnique, update-IsUnique, retain-IsUnique, get-retain}
use stroemnet.Protocol.V1.{CommitmentV1}
use stroemnet.Tracker.Record.{
  SwapRecord, SwapTracker, SwapTrackerError, Crypto, get_swap, refunded_text, new,
}
use stroemnet.Tracker.Commit.{set_init_commitment, set_counter_commitment}
use stroemnet.Tracker.Resolve.{set_revealed, set_refunded}
use stroemnet.Tracker.Expiry.{cleanup_old_swaps, keeps}
use stroemnet.Tracker.History.{
  fresh_record, Call, init_call, counter_call, reveal_call, refund_call, cleanup_call, after, step,
  run, set_init_commitment-ok, set_counter_commitment-ok, set_revealed-ok, set_refunded-ok,
}
use stroemnet.Tracker.Invariant.{
  AllSound, revealed, refunded, fresh_record-IsSound, counter-IsSound, resolved-IsSound,
  Writes-AllSound,
}

pub record IsValid (k : Crypto) (t : SwapTracker) : Type 0 where
  pub unique : IsUnique t.swaps
  pub sound : AllSound k t

pub new-IsValid : (k : Crypto) → IsValid k new
unfolding new get_swap get
new-IsValid k = record { unique = tt; sound = λ id r h. absurd (ground arith) }

Result-cases :
    (m : Result SwapTrackerError SwapTracker)
    → ((e : SwapTrackerError) × (m ≡ err e)) ⊎ ((t : SwapTracker) × (m ≡ ok t))
Result-cases (ok t) = inr (t, refl)
Result-cases (err e) = inl (e, refl)

-- An operation that fails keeps every property; one that succeeds needs its own argument.
pub after_cases {ℓ} :
    (P : SwapTracker → Type ℓ) (t : SwapTracker) (m : Result SwapTrackerError SwapTracker)
    → P t
    → ((t' : SwapTracker) → m ≡ ok t' → P t')
    → P (after t m)
after_cases P t (ok t') failed done = done t' refl
after_cases P t (err e) failed done = failed

module _ (k : Crypto) (t : SwapTracker) (id : Bytes) where
  init_sound :
      (now : ℕ) (c : CommitmentV1) (t' : SwapTracker)
      → set_init_commitment now t id c ≡ ok t'
      → AllSound k t
      → AllSound k t'
  init_sound now c t' h s =
      Writes-AllSound k t t' id (fresh_record now c) s (fresh_record-IsSound k now c)
        (set_init_commitment-ok t id now c h).1

  counter_sound :
      (c : CommitmentV1) (t' : SwapTracker)
      → set_counter_commitment t id c ≡ ok t'
      → AllSound k t
      → AllSound k t'
  counter_sound c t' h s =
      let (r, at, unlocked, pending, m, w) = set_counter_commitment-ok t id c h in
      Writes-AllSound k t t' id _ s (counter-IsSound k r c pending m) w

  revealed_sound :
      (secret : Bytes) (t' : SwapTracker)
      → set_revealed k t id secret ≡ ok t'
      → AllSound k t
      → AllSound k t'
  revealed_sound secret t' h s =
      let (r, c, at, locked, pending, opens, w) = set_revealed-ok t id k secret h in
      let old = s id r at in
      Writes-AllSound k t t' id _ s
        (resolved-IsSound k r c (k.hex_encode secret) old locked
          (revealed secret (opens ∙ sym (old.mirrored c locked).same_secret)))
        w

  refunded_sound : (t' : SwapTracker) → set_refunded t id ≡ ok t' → AllSound k t → AllSound k t'
  refunded_sound t' h s =
      let (r, c, at, locked, pending, w) = set_refunded-ok t id h in
      Writes-AllSound k t t' id _ s
        (resolved-IsSound k r c refunded_text (s id r at) locked refunded) w

keep_if-some :
    (p : SwapRecord → Bool) (o : Option SwapRecord) (r : SwapRecord)
    → keep_if p o ≡ some r
    → o ≡ some r
keep_if-some p none r h = h
keep_if-some p (some q) r h = ground arith

pub cleanup-get :
    (now age : ℕ) (t : SwapTracker) (id : Bytes)
    → IsUnique t.swaps
    → get_swap (cleanup_old_swaps now t age) id ≡ keep_if (keeps now age) (get_swap t id)
unfolding cleanup_old_swaps get_swap
cleanup-get now age t id u = get-retain id (keeps now age) t.swaps u

cleanup_sound :
    (k : Crypto) (now age : ℕ) (t : SwapTracker)
    → IsValid k t
    → AllSound k (cleanup_old_swaps now t age)
cleanup_sound k now age t v id r h =
    v.sound id r
      (keep_if-some (keeps now age) (get_swap t id) r (sym (cleanup-get now age t id v.unique) ∙ h))

-- The keys stay distinct under every call.
step-IsUnique :
    (k : Crypto) (t : SwapTracker) (c : Call) → IsUnique t.swaps → IsUnique (step k t c).swaps
unfolding step set_init_commitment set_counter_commitment set_revealed set_refunded
    cleanup_old_swaps
step-IsUnique k t (init_call now id c) u =
    ground (arith, insert-IsUnique id (fresh_record now c) t.swaps u)
step-IsUnique k t (counter_call id c) u =
    ground (arith, update-IsUnique id (λ s. record s { counter_commitment = some c }) t.swaps u)
step-IsUnique k t (reveal_call id s) u =
    ground
      (arith, update-IsUnique id (λ r. record r { resolution = some (k.hex_encode s) }) t.swaps u)
step-IsUnique k t (refund_call id) u =
    ground (arith, update-IsUnique id (λ r. record r { resolution = some refunded_text }) t.swaps u)
step-IsUnique k t (cleanup_call now age) u = retain-IsUnique (keeps now age) t.swaps u

step-AllSound : (k : Crypto) (t : SwapTracker) (c : Call) → IsValid k t → AllSound k (step k t c)
unfolding step
step-AllSound k t (init_call now id c) v =
    after_cases (AllSound k) t _ v.sound (λ t' h. init_sound k t id now c t' h v.sound)
step-AllSound k t (counter_call id c) v =
    after_cases (AllSound k) t _ v.sound (λ t' h. counter_sound k t id c t' h v.sound)
step-AllSound k t (reveal_call id s) v =
    after_cases (AllSound k) t _ v.sound (λ t' h. revealed_sound k t id s t' h v.sound)
step-AllSound k t (refund_call id) v =
    after_cases (AllSound k) t _ v.sound (λ t' h. refunded_sound k t id t' h v.sound)
step-AllSound k t (cleanup_call now age) v = cleanup_sound k now age t v

-- Every call, failed or not, keeps the tracker valid: each key stands once, each counter
-- commitment mirrors the first one, no swap is resolved before it is locked, and a resolution is
-- a refund or the hex form of a secret whose hash is the first commitment's.
pub step-IsValid : (k : Crypto) (t : SwapTracker) (c : Call) → IsValid k t → IsValid k (step k t c)
step-IsValid k t c v = record {
  unique = step-IsUnique k t c v.unique;
  sound = step-AllSound k t c v;
}

-- Any sequence of calls on a new tracker, failed ones included, leaves it valid: each key stands
-- once, each counter commitment mirrors the first one, no swap is resolved before it is locked,
-- and a resolution is a refund or the hex form of a secret that opens the first one's hash lock.
pub run-IsValid : (k : Crypto) (cs : List Call) → IsValid k (run k new cs)
unfolding run
run-IsValid k cs = go new cs (new-IsValid k)
  where
    go : (t : SwapTracker) (cs : List Call) → IsValid k t → IsValid k (run k t cs)
    go t [] v = v
    go t (c ∷ cs) v = go (step k t c) cs (step-IsValid k t c v)
