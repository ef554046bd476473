-- ===== src/Tests/Handling.antt =====
-- The swap in the handler of the maker.
use stroemnet.Common.Equality.{list_beq}
use stroemnet.Common.{◌+◌, ◌≤◌, ◌≡◌, ◌↔◌, refl, arith, some, [], ◌∷◌, ok}
use stroemnet.Common.Dict.{get}
use stroemnet.Protocol.Channel.{
  kaspa_tn10, ethereum_sepolia, channel_eq, channel_beq, try_from, to_u8, decimals, lock_time_secs,
  uses_synthetic_clock,
}
use stroemnet.Protocol.V1.{reveal}
use stroemnet.Protocol.Clock.{now_checked}
use stroemnet.Tracker.Record.{get_swap}
use stroemnet.Tracker.Commit.{set_counter_commitment}
use stroemnet.Tracker.Acceptance.{Succeeds}
use stroemnet.Amounts.Prices
use stroemnet.Amounts.Quote.{amount_out, rescale, price_fixed, spread_bps}
use stroemnet.Handler.Config.{required_init_lock_secs, normalised_address_eq, same_address}
use stroemnet.Handler.Quoting.{amount_usd, create_proposal, SwapRequest, TradeProposal}
use stroemnet.Handler.Mirror.{build_counter_commitment, handle_internal_commitment}
use stroemnet.Handler.Dispatch.{on_chain_event, broadcast}
use stroemnet.Handler.Timelock.{build-timelock}
use stroemnet.Handler.Addressed.{own_counter_iff}
use stroemnet.Handler.Effects.{on_chain_event-reveal}
use stroemnet.Tests.Data.{
  toy_outside, maker, system_clock, swap_1, secret_9, first_commitment, our_counter, begun,
  both_locked, tracking, both_locked-IsValid,
}

built :
    build_counter_commitment toy_outside maker 1000 system_clock swap_1 first_commitment kaspa_tn10
      ethereum_sepolia
    ≡ ok our_counter
unfolding build_counter_commitment amount_usd amount_out rescale price_fixed spread_bps Prices.price
    now_checked required_init_lock_secs decimals lock_time_secs uses_synthetic_clock to_u8 get
    list_beq channel_beq
built = refl

build-timelock_example :
    our_counter.unlock_ts + lock_time_secs ethereum_sepolia + 1000
    ≤ first_commitment.unlock_ts + 1000
unfolding now_checked get uses_synthetic_clock lock_time_secs list_beq
build-timelock_example =
    build-timelock toy_outside maker 1000 system_clock swap_1 first_commitment kaspa_tn10
      ethereum_sepolia our_counter 1000 1000 built refl refl (omega arith)

abbrev pub request : SwapRequest
request = record { origin = 0; destination = 1; amount = 1000000000 ∷ [] }

abbrev pub proposal : TradeProposal
proposal = record {
  origin = ethereum_sepolia;
  destination = kaspa_tn10;
  amount_in = 9900000000000000000 ∷ [];
  amount_out = 1000000000 ∷ [];
  sender_destination_address = 7 ∷ [];
  commit_unlock_offset_secs = 1860;
}

pub proposed : create_proposal toy_outside maker 1000 request ≡ ok proposal
unfolding create_proposal amount_usd amount_out rescale price_fixed spread_bps Prices.price
    required_init_lock_secs decimals lock_time_secs try_from get list_beq channel_beq
proposed = refl

answered :
    handle_internal_commitment toy_outside maker 1000 system_clock
      (tracking begun)
      first_commitment
      ethereum_sepolia
    ≡ ok our_counter
unfolding handle_internal_commitment get_swap get try_from normalised_address_eq same_address
    channel_beq build_counter_commitment amount_usd amount_out rescale price_fixed spread_bps
    Prices.price now_checked required_init_lock_secs decimals lock_time_secs uses_synthetic_clock
    to_u8 list_beq
answered = refl

own_counter_iff_example :
    Succeeds (set_counter_commitment (tracking begun) swap_1 our_counter)
    ↔ (get kaspa_tn10 maker.address_lookup_table ≡ some (7 ∷ []))
unfolding get_swap get try_from list_beq
own_counter_iff_example =
    own_counter_iff toy_outside maker 1000 system_clock (tracking begun) first_commitment
      ethereum_sepolia kaspa_tn10 our_counter begun answered refl refl refl

on_chain_event-reveal_example :
    (on_chain_event toy_outside maker 1000 system_clock ethereum_sepolia
      (reveal (record { swap_id = swap_1; secret = secret_9 }))
      (tracking both_locked)).1
    ≡ ok (broadcast kaspa_tn10 (reveal (record { swap_id = swap_1; secret = secret_9 })) ∷ [])
unfolding get_swap get try_from channel_beq list_beq
on_chain_event-reveal_example =
    on_chain_event-reveal toy_outside maker 1000 system_clock ethereum_sepolia kaspa_tn10
      ethereum_sepolia (record { swap_id = swap_1; secret = secret_9 }) (tracking both_locked)
      both_locked our_counter both_locked-IsValid refl refl refl refl refl refl
