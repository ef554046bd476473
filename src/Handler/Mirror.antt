-- ===== src/Handler/Mirror.antt =====
-- handler/src/handle/commitment/mirror.rs and internal.rs: the counter commitment to a first one.
use stroemnet.Common.{
  ℕ, ◌+◌, ◌-◌, ◌%◌, u64_mod, ◌||◌, false, not, Bytes, Result, ok, ok_or, fail_if, map_err, ◌>>=◌,
  ◌>>◌, ltb, ◌==◌, is_some,
}
use stroemnet.Common.Dict.{get}
use stroemnet.Protocol.Channel.{ChannelId, channel_eq, try_from, decimals, lock_time_secs, to_u8}
use stroemnet.Protocol.V1.{CommitmentV1}
use stroemnet.Protocol.Clock.{ChainClock, now_checked}
use stroemnet.Tracker.Record.{SwapTracker, get_swap}
use stroemnet.Amounts.Prices
use stroemnet.Amounts.Quote.{amount_out}
use stroemnet.Handler.Quoting.{amount_usd}
use stroemnet.Handler.Config.{
  Handler, HandlerError, Outside, required_init_lock_secs, normalised_address_eq, other,
  missing_price_data, alloy_ruint_parse, parse_float, price, invalid_amount, chain_time_unavailable,
  invalid_lock_time_duration, missing_address, swap_not_found, invalid_state, invalid_channel_id,
  not_addressed_to_us,
}

module _ {F : Type 0} (o : Outside F) (h : Handler F) where
  unfoldable pub build_counter_commitment :
      ℕ
      → ChainClock
      → Bytes
      → CommitmentV1
      → ChannelId
      → ChannelId
      → Result (HandlerError F) CommitmentV1
  build_counter_commitment now clock swap_id init source destination = do
    amount_in ← map_err alloy_ruint_parse (o.parse_u256 init.amount.value)
    source_usd_price ←
        ok_or (Prices.price o.float now h.price_storage source) (missing_price_data source)
    amount_in_f ← map_err parse_float (o.parse_f64 (o.print_u256 amount_in))
    let amount_in_usd = amount_usd o h amount_in_f init.amount.decimals source_usd_price
    fail_if
        (o.float.lt amount_in_usd h.config.min_trade_usd
          || o.float.lt h.config.max_trade_usd amount_in_usd)
        (invalid_amount amount_in)
    destination_usd_price ←
        ok_or (Prices.price o.float now h.price_storage destination)
          (missing_price_data destination)
    out ← map_err price (
        amount_out o.uint o.float amount_in source_usd_price (decimals source) destination_usd_price
          (decimals destination) h.config.spread_percent)
    source_now ← ok_or (now_checked now clock source) (chain_time_unavailable source)
    fail_if
        (ltb (init.unlock_ts - source_now)
          (required_init_lock_secs destination h.config.commit_buffer_secs false))
        (invalid_lock_time_duration (init.unlock_ts - source_now))
    dest_now ← ok_or (now_checked now clock destination) (chain_time_unavailable destination)
    mm_destination ← ok_or (get destination h.address_lookup_table) (missing_address destination)
    mm_source ← ok_or (get source h.address_lookup_table) (missing_address source)
    ok (record {
      swap_id = swap_id;
      addresses = record {
        sender = mm_destination;
        receiver = init.addresses.sender_destination;
        sender_destination = mm_source;
      };
      amount = record { value = o.print_u256 out; decimals = decimals destination };
      secret_hash = init.secret_hash;
      unlock_ts = (dest_now + lock_time_secs destination) % u64_mod;
      source = to_u8 destination;
      destination = to_u8 source;
    })

  unfoldable pub handle_internal_commitment :
      ℕ → ChainClock → SwapTracker → CommitmentV1 → ChannelId → Result (HandlerError F) CommitmentV1
  handle_internal_commitment now clock tracker c channel_id = do
    r ← ok_or (get_swap tracker c.swap_id) (swap_not_found c.swap_id)
    fail_if (is_some r.counter_commitment || is_some r.resolution) (invalid_state c.swap_id)
    source ← map_err other (try_from r.init_commitment.source)
    destination ← map_err other (try_from r.init_commitment.destination)
    fail_if (not (destination == channel_id)) (invalid_channel_id destination)
    our_source_address ← ok_or (get source h.address_lookup_table) (missing_address source)
    fail_if
        (not
          (normalised_address_eq o source r.init_commitment.addresses.receiver our_source_address))
        (not_addressed_to_us c.swap_id)
    build_counter_commitment now clock c.swap_id r.init_commitment source destination
