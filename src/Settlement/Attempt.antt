-- ===== src/Settlement/Attempt.antt =====
-- chains/record/attempt.rs: when an attempt is due again. `now` is the system time in seconds.
use stroemnet.Common.{
  ℕ, ◌+◌, ◌*◌, ◌%◌, ◌^◌, min, Bool, Option, none, leb, sat_add64, sat_mul64, u32_max,
}

abbrev pub base_delay_secs : ℕ
base_delay_secs = 5

abbrev pub max_delay_secs : ℕ
max_delay_secs = 24 * 3600

abbrev pub jitter_max_secs : ℕ
jitter_max_secs = 60

abbrev pub max_backoff_shift : ℕ
max_backoff_shift = 13

abbrev pub deadline_secs : ℕ
deadline_secs = 7 * 24 * 3600

pub record AttemptState : Type 0 where
  pub first_seen : ℕ
  pub next_attempt_at : ℕ
  pub attempt_count : ℕ
  pub deadline : ℕ
  pub nonce : Option ℕ
  pub last_gas : Option ℕ

unfoldable pub new : ℕ → AttemptState
new now = record {
  first_seen = now;
  next_attempt_at = now;
  attempt_count = 0;
  deadline = sat_add64 now deadline_secs;
  nonce = none;
  last_gas = none;
}

unfoldable pub due : AttemptState → ℕ → Bool
due a now = leb a.next_attempt_at now

unfoldable pub expired : AttemptState → ℕ → Bool
expired a now = leb a.deadline now

-- The delay that `on_failure` computes.
unfoldable pub delay : ℕ → ℕ → ℕ
delay attempt_count jitter =
    sat_add64
      (min (sat_mul64 base_delay_secs (2 ^ min attempt_count max_backoff_shift)) max_delay_secs)
      (jitter % jitter_max_secs)

unfoldable pub on_failure : ℕ → ℕ → AttemptState → AttemptState
on_failure now jitter a = record a {
  attempt_count = min (a.attempt_count + 1) u32_max;
  next_attempt_at = sat_add64 now (delay a.attempt_count jitter);
}
