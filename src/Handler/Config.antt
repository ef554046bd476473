-- ===== src/Handler/Config.antt =====
-- handler/src/lib.rs, error.rs and address.rs: the handler's data and its errors. The tracker
-- behind the lock is passed from call to call.
use stroemnet.Common.{
  ℕ, ◌+◌, ◌*◌, ◌%◌, u64_mod, Bool, true, false, not, Option, none, some, Bytes, Result, ◌==◌,
  bytes_eq, is_some, if◌then◌else◌,
}
use stroemnet.Common.Dict.{Dict, get}
use stroemnet.Protocol.Channel.{
  ChannelId, channel_eq, lock_time_secs, kaspa_tn10, ethereum_sepolia, igra_galleon,
}
use stroemnet.Tracker.Record.{SwapTrackerError, Crypto}
use stroemnet.Amounts.Numbers.{Uint256, Float64}
use stroemnet.Amounts.Quote.{AmountError}
use stroemnet.Amounts.Prices.{PriceStorage}

unfoldable pub required_init_lock_secs : ChannelId → ℕ → Bool → ℕ
required_init_lock_secs destination commit_buffer_secs with_buffer =
    if not with_buffer
    then lock_time_secs destination * 2
    else (lock_time_secs destination * 2 + commit_buffer_secs) % u64_mod

pub record HandlerConfig (F : Type 0) : Type 0 where
  pub min_trade_usd : F
  pub max_trade_usd : F
  pub spread_percent : F
  pub commit_buffer_secs : ℕ

pub record Handler (F : Type 0) : Type 0 where
  pub price_storage : PriceStorage F
  pub config : HandlerConfig F
  pub address_lookup_table : Dict ChannelId Bytes
  pub block_confirmations : Dict ChannelId ℕ

unfoldable pub knows_channel : {F : Type 0} → Handler F → ChannelId → Bool
knows_channel h id = is_some (get id h.block_confirmations)

-- The errors that the modelled code returns; the others are only converted to by `?` elsewhere.
pub data HandlerError (F : Type 0) : Type 0 where
  alloy_ruint_parse : Bytes → HandlerError F
  missing_price_data : ChannelId → HandlerError F
  trade_too_small : Bytes → F → F → HandlerError F
  trade_too_large : Bytes → F → F → HandlerError F
  missing_address : ChannelId → HandlerError F
  local_signer : Bytes → HandlerError F
  parse_float : Bytes → HandlerError F
  swap_tracker : SwapTrackerError → HandlerError F
  swap_not_found : Bytes → HandlerError F
  invalid_state : Bytes → HandlerError F
  invalid_channel_id : ChannelId → HandlerError F
  not_addressed_to_us : Bytes → HandlerError F
  system_time : Bytes → HandlerError F
  invalid_amount : ℕ → HandlerError F
  invalid_lock_time_duration : ℕ → HandlerError F
  chain_time_unavailable : ChannelId → HandlerError F
  price : AmountError F → HandlerError F
  unknown_channel : ChannelId → HandlerError F
  other : Bytes → HandlerError F

-- The `to_string` of the error is the argument.
unfoldable pub rejection_reason :
    {F : Type 0} → (HandlerError F → Bytes) → HandlerError F → Option Bytes
rejection_reason show (trade_too_small a usd min) = some (show (trade_too_small a usd min))
rejection_reason show (trade_too_large a usd max) = some (show (trade_too_large a usd max))
rejection_reason show _ = none

-- What the handler takes from crates and from the parsers and printers of the standard library:
-- U256::from_str_radix(.., 10), U256::to_string, str::parse::<f64>, str::trim and alloy's
-- Address::from_str.
pub record Outside (F : Type 0) : Type 0 where
  pub uint : Uint256
  pub float : Float64 F
  pub crypto : Crypto
  pub parse_u256 : Bytes → Result Bytes ℕ
  pub print_u256 : ℕ → Bytes
  pub parse_f64 : Bytes → Result Bytes F
  pub trim : Bytes → Bytes
  pub parse_address : Bytes → Option Bytes

unfoldable pub same_address : Option Bytes → Option Bytes → Bool
same_address (some a) (some b) = a == b
same_address none _ = false
same_address (some a) none = false

unfoldable pub normalised_address_eq : {F : Type 0} → Outside F → ChannelId → Bytes → Bytes → Bool
unfolding same_address
normalised_address_eq o channel a b = if o.trim a == o.trim b then true else elim channel [
  | ethereum_sepolia ↦ same_address (o.parse_address (o.trim a)) (o.parse_address (o.trim b))
  | igra_galleon ↦ same_address (o.parse_address (o.trim a)) (o.parse_address (o.trim b))
  | kaspa_tn10 ↦ o.trim a == o.trim b
]
