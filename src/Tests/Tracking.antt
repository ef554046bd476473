-- ===== src/Tests/Tracking.antt =====
-- The swap in the tracker.
use stroemnet.Common.Equality.{list_beq}
use stroemnet.Common.{◌≡◌, ◌↔◌, refl, [], ◌∷◌}
use stroemnet.Common.Dict.{get}
use stroemnet.Protocol.V1
use stroemnet.Tracker.Record.{get_swap, new}
use stroemnet.Tracker.Commit.{set_counter_commitment}
use stroemnet.Tracker.Resolve.{set_revealed}
use stroemnet.Tracker.History.{
  Mirrors, init_call, counter_call, reveal_call, refund_call, run, step,
}
use stroemnet.Tracker.Valid.{IsValid, run-IsValid}
use stroemnet.Tracker.Stages.{stage_at, Edge, step-Edge}
use stroemnet.Tracker.Acceptance.{
  Succeeds, CanLock, IsPending, set_counter_commitment_iff, set_revealed_iff,
}
use stroemnet.Tracker.Lifecycle.{Endures, step-Endures}
use stroemnet.Tests.Data.{
  length-doubled, toy_crypto, swap_1, secret_9, first_commitment, our_counter, begun, both_locked,
  handed_back, tracking, doubled, both_locked-IsValid, handed_back-IsValid,
}

run-IsValid_example : IsValid toy_crypto (
    run toy_crypto new (
      init_call 1000 swap_1 first_commitment
      ∷ counter_call swap_1 our_counter
      ∷ refund_call swap_1
      ∷ []))
run-IsValid_example = run-IsValid toy_crypto (
    init_call 1000 swap_1 first_commitment
    ∷ counter_call swap_1 our_counter
    ∷ refund_call swap_1
    ∷ [])

set_counter_commitment_iff_example :
    Succeeds (set_counter_commitment (tracking begun) swap_1 our_counter)
    ↔ CanLock (tracking begun) swap_1 our_counter
set_counter_commitment_iff_example = set_counter_commitment_iff (tracking begun) swap_1 our_counter

set_revealed_iff_example :
    Succeeds (set_revealed toy_crypto (tracking both_locked) swap_1 secret_9) ↔ (
      (c : V1.CommitmentV1) × IsPending (tracking both_locked) swap_1 c
      × (secret_9 ≡ c.secret_hash))
set_revealed_iff_example = set_revealed_iff (tracking both_locked) swap_1 toy_crypto secret_9

mirrored : Mirrors first_commitment our_counter
mirrored = record {
  same_swap = refl;
  receiver_is_sender = refl;
  sender_is_receiver = refl;
  same_secret = refl;
  source_crossed = refl;
  destination_crossed = refl;
}

step-Endures_example :
    Endures
      (refund_call swap_1)
      handed_back
      (get_swap (step toy_crypto (tracking handed_back) (refund_call swap_1)) swap_1)
unfolding get_swap get list_beq
step-Endures_example =
    step-Endures toy_crypto (tracking handed_back) (refund_call swap_1) swap_1 handed_back
      (doubled secret_9) handed_back-IsValid refl refl

step-Edge_example :
    Edge
      (stage_at (tracking both_locked) swap_1)
      (stage_at (step toy_crypto (tracking both_locked) (reveal_call swap_1 secret_9)) swap_1)
step-Edge_example =
    step-Edge toy_crypto (tracking both_locked) (reveal_call swap_1 secret_9) length-doubled refl
      both_locked-IsValid swap_1
