-- ===== src/Settlement/Backoff.antt =====
-- About the delays of chains/record/attempt.rs.
use stroemnet.Common.{ℕ, zero, suc, ◌+◌, ◌*◌, ◌%◌, ◌^◌, ◌≤◌, ◌<◌, min, ◌≡◌, arith, u64_max}
use stroemnet.Settlement.Attempt.{AttemptState, delay, on_failure}

pow_bounds : (x : ℕ) → x ≤ 13 → (1 ≤ 2 ^ x) × (2 ^ x ≤ 8192)
pow_bounds zero h = omega arith
pow_bounds (suc zero) h = omega arith
pow_bounds (suc (suc zero)) h = omega arith
pow_bounds (suc (suc (suc zero))) h = omega arith
pow_bounds (suc (suc (suc (suc zero)))) h = omega arith
pow_bounds (suc (suc (suc (suc (suc zero))))) h = omega arith
pow_bounds (suc (suc (suc (suc (suc (suc zero)))))) h = omega arith
pow_bounds (suc (suc (suc (suc (suc (suc (suc zero))))))) h = omega arith
pow_bounds (suc (suc (suc (suc (suc (suc (suc (suc zero)))))))) h = omega arith
pow_bounds (suc (suc (suc (suc (suc (suc (suc (suc (suc zero))))))))) h = omega arith
pow_bounds (suc (suc (suc (suc (suc (suc (suc (suc (suc (suc zero)))))))))) h = omega arith
pow_bounds (suc (suc (suc (suc (suc (suc (suc (suc (suc (suc (suc zero))))))))))) h = omega arith
pow_bounds (suc (suc (suc (suc (suc (suc (suc (suc (suc (suc (suc (suc zero)))))))))))) h =
    omega arith
pow_bounds (suc (suc (suc (suc (suc (suc (suc (suc (suc (suc (suc (suc (suc zero))))))))))))) h =
    omega arith
pow_bounds (suc (suc (suc (suc (suc (suc (suc (suc (suc (suc (suc (suc (suc (suc x)))))))))))))) h =
    omega arith

-- The delay is 5 seconds doubled once for each earlier failure, at most 13 times, and a jitter
-- below a minute: no saturation takes place and the cap of 24 hours never acts.
delay_lem : (n jitter : ℕ) → delay n jitter ≡ 5 * 2 ^ min n 13 + jitter % 60
unfolding delay
delay_lem n jitter = omega (arith, pow_bounds (min n 13) (omega arith))

-- After a failure an attempt is due again at least 5 seconds and at most 41019 seconds later,
-- unless the clock is within that distance of the largest u64.
on_failure_bounds :
    (now jitter : ℕ) (a : AttemptState)
    → now + 41019 ≤ u64_max
    → (now + 5 ≤ (on_failure now jitter a).next_attempt_at)
      × ((on_failure now jitter a).next_attempt_at ≤ now + 41019)
unfolding on_failure
on_failure_bounds now jitter a h =
    omega
      (arith, delay_lem a.attempt_count jitter, pow_bounds (min a.attempt_count 13) (omega arith))

pub on_failure_later :
    (now jitter : ℕ) (a : AttemptState)
    → now < u64_max
    → now < (on_failure now jitter a).next_attempt_at
unfolding on_failure
on_failure_later now jitter a h =
    omega
      (arith, delay_lem a.attempt_count jitter, pow_bounds (min a.attempt_count 13) (omega arith))
