-- ===== src/Tests/Formats.antt =====
-- A binary format of the swap records that loses nothing, as an instance of Borsh.
use stroemnet.Common.{
  ℕ, zero, suc, ◌≡◌, refl, Option, none, some, [], ◌∷◌, ◌++◌, Bytes, Result, ok, err, length,
}
use stroemnet.Protocol.V1.{RevealV1, RefundV1}
use stroemnet.Records.Swap.{PersistedSwap, UtxoScript}
use stroemnet.Records.Codec.{Borsh}
use stroemnet.Settlement.Attempt.{AttemptState}
use stroemnet.Chains.Persisted.{Lossless}

record Format (A : Type 0) : Type 0 where
  put : A → Bytes → Bytes
  take : Bytes → Option (A × Bytes)
  law : (a : A) (rest : Bytes) → take (put a rest) ≡ some (a, rest)

first_of : {A : Type 0} → Option (A × Bytes) → Result Bytes A
first_of none = err []
first_of (some (a, rest)) = ok a

nat_format : Format ℕ
nat_format = record { put = λ n rest. n ∷ rest; take = take_nat; law = λ n rest. refl }
  where
    take_nat : Bytes → Option (ℕ × Bytes)
    take_nat [] = none
    take_nat (n ∷ rest) = some (n, rest)

module _ {A B : Type 0} where
  then_take : (A → Bytes → Option (B × Bytes)) → Option (A × Bytes) → Option (B × Bytes)
  then_take f none = none
  then_take f (some (a, rest)) = f a rest

module _ {A B : Type 0} (f : Format A) (g : Format B) where
  pair_format : Format (A × B)
  unfolding then_take
  pair_format = record {
    put = λ p rest. f.put p.0 (g.put p.1 rest);
    take = λ bytes.
        then_take (λ a rest. then_take (λ b more. some ((a, b), more)) (g.take rest))
          (f.take bytes);
    law = λ p rest. rw (f.law p.0 (g.put p.1 rest), g.law p.1 rest) refl;
  }

module _ {A B : Type 0} (f : Format A) (to : A → B) (of : B → A)
    (same : (b : B) → to (of b) ≡ b) where
  map_format : Format B
  unfolding then_take
  map_format = record {
    put = λ b rest. f.put (of b) rest;
    take = λ bytes. then_take (λ a rest. some (to a, rest)) (f.take bytes);
    law = λ b rest. rw (f.law (of b) rest, same b) refl;
  }

module _ {A : Type 0} (f : Format A) where
  put_option : Option A → Bytes → Bytes
  put_option none rest = 0 ∷ rest
  put_option (some a) rest = 1 ∷ f.put a rest

  take_option : Bytes → Option (Option A × Bytes)
  unfolding then_take
  take_option [] = none
  take_option (zero ∷ rest) = some (none, rest)
  take_option (suc n ∷ rest) = then_take (λ a more. some (some a, more)) (f.take rest)

  option_format : Format (Option A)
  unfolding put_option take_option then_take
  option_format = record { put = put_option; take = take_option; law = option_law }
    where
      option_law : (o : Option A) (rest : Bytes) → take_option (put_option o rest) ≡ some (o, rest)
      option_law none rest = refl
      option_law (some a) rest = rw (f.law a rest) refl

-- A list of numbers with its length in front.
take_many : ℕ → Bytes → Option (Bytes × Bytes)
unfolding then_take
take_many zero bytes = some ([], bytes)
take_many (suc n) [] = none
take_many (suc n) (b ∷ bytes) = then_take (λ bs rest. some (b ∷ bs, rest)) (take_many n bytes)

take_many-append : (bs rest : Bytes) → take_many (length bs) (bs ++ rest) ≡ some (bs, rest)
unfolding take_many then_take
take_many-append [] rest = refl
take_many-append (b ∷ bs) rest = rw (take_many-append bs rest) refl

bytes_format : Format Bytes
bytes_format = record {
  put = λ bs rest. length bs ∷ bs ++ rest;
  take = take_bytes;
  law = take_many-append;
}
  where
    take_bytes : Bytes → Option (Bytes × Bytes)
    take_bytes [] = none
    take_bytes (n ∷ rest) = take_many n rest

script_format : Format UtxoScript
script_format =
    map_format (pair_format bytes_format (pair_format nat_format bytes_format))
      (λ (b, (u, d)). record { redeem_script = b; unlock_ts = u; deposit_target = d })
      (λ s. (s.redeem_script, (s.unlock_ts, s.deposit_target))) (λ s. refl)

reveal_format : Format RevealV1
reveal_format =
    map_format (pair_format bytes_format bytes_format)
      (λ (i, s). record { swap_id = i; secret = s }) (λ r. (r.swap_id, r.secret)) (λ r. refl)

refund_format : Format (RefundV1 × ℕ)
refund_format =
    map_format (pair_format bytes_format nat_format) (λ (i, n). (record { swap_id = i }, n))
      (λ p. (p.0.swap_id, p.1)) (λ p. refl)

attempt_format : Format AttemptState
attempt_format =
    map_format
      (pair_format (pair_format nat_format nat_format) (
        pair_format (pair_format nat_format nat_format)
          (pair_format (option_format nat_format) (option_format nat_format))))
      (λ ((a, b), ((c, d), (e, f))). record {
        first_seen = a;
        next_attempt_at = b;
        attempt_count = c;
        deadline = d;
        nonce = e;
        last_gas = f;
      })
      (λ s.
        ((s.first_seen, s.next_attempt_at), ((s.attempt_count, s.deadline), (s.nonce, s.last_gas))))
      (λ s. refl)

swap_format : Format PersistedSwap
swap_format =
    map_format
      (pair_format (option_format script_format) (
        pair_format (pair_format (option_format refund_format) (option_format reveal_format))
          (pair_format (option_format attempt_format) (option_format attempt_format))))
      (λ (s, ((r, c), (a, b))). record {
        script = s;
        pending_refund = r;
        pending_claim = c;
        claim_attempt = a;
        refund_attempt = b;
      })
      (λ p. (p.script, ((p.pending_refund, p.pending_claim), (p.claim_attempt, p.refund_attempt))))
      (λ p. refl)

pub toy_borsh : Borsh
toy_borsh = record {
  to_vec = λ p. ok (swap_format.put p []);
  try_from_slice = λ bytes. first_of (swap_format.take bytes);
}

pub toy_borsh-Lossless : Lossless toy_borsh
unfolding toy_borsh first_of
toy_borsh-Lossless p = (swap_format.put p [], refl, rw (swap_format.law p []) refl)
