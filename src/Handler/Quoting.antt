-- ===== src/Handler/Quoting.antt =====
-- handler/src/handle/proposal.rs: the answer to a swap request.
use stroemnet.Common.{ℕ, ◌%◌, ◌^◌, true, Bytes, Result, ok, ok_or, fail_if, map_err, ◌>>=◌, ◌>>◌}
use stroemnet.Common.Dict.{get}
use stroemnet.Protocol.Channel.{ChannelId, channel_eq, try_from, decimals}
use stroemnet.Amounts.Prices.{PriceStorage}
use stroemnet.Amounts.Prices
use stroemnet.Amounts.Quote.{amount_out}
use stroemnet.Handler.Config.{
  Handler, HandlerError, Outside, required_init_lock_secs, other, missing_price_data,
  alloy_ruint_parse, parse_float, trade_too_small, trade_too_large, price, unknown_channel,
}

pub record SwapRequest : Type 0 where
  pub origin : ℕ
  pub destination : ℕ
  pub amount : Bytes

pub record TradeProposal : Type 0 where
  pub origin : ChannelId
  pub destination : ChannelId
  pub amount_in : Bytes
  pub amount_out : Bytes
  pub sender_destination_address : Bytes
  pub commit_unlock_offset_secs : ℕ

module _ {F : Type 0} (o : Outside F) (h : Handler F) where
  -- `(amount_in_f / scale) * source_usd_price`, whose scale is `10u128.pow(decimals) as f64`. A
  -- release build lets that power wrap around.
  unfoldable pub amount_usd : F → ℕ → F → F
  amount_usd amount_in_f digits usd_price =
      o.float.mul (o.float.div amount_in_f (o.float.of_u128 (10 ^ digits % 2 ^ 128))) usd_price

  unfoldable pub create_proposal : ℕ → SwapRequest → Result (HandlerError F) TradeProposal
  unfolding amount_usd
  create_proposal now request = do
    origin ← map_err other (try_from request.origin)
    destination ← map_err other (try_from request.destination)
    source_usd_price ←
        ok_or (Prices.price o.float now h.price_storage origin) (missing_price_data origin)
    destination_usd_price ←
        ok_or (Prices.price o.float now h.price_storage destination)
          (missing_price_data destination)
    amount_in ← map_err alloy_ruint_parse (o.parse_u256 request.amount)
    amount_in_f ← map_err parse_float (o.parse_f64 (o.print_u256 amount_in))
    let amount_in_usd = amount_usd amount_in_f (decimals origin) source_usd_price
    fail_if (o.float.lt amount_in_usd h.config.min_trade_usd)
        (trade_too_small request.amount amount_in_usd h.config.min_trade_usd)
    fail_if (o.float.lt h.config.max_trade_usd amount_in_usd)
        (trade_too_large request.amount amount_in_usd h.config.max_trade_usd)
    output ← map_err price (
        amount_out o.uint o.float amount_in source_usd_price (decimals origin) destination_usd_price
          (decimals destination) h.config.spread_percent)
    address ← ok_or (get origin h.address_lookup_table) (unknown_channel origin)
    ok (record {
      destination = origin;
      origin = destination;
      amount_out = request.amount;
      amount_in = o.print_u256 output;
      sender_destination_address = address;
      commit_unlock_offset_secs =
          required_init_lock_secs destination h.config.commit_buffer_secs true;
    })
