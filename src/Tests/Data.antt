-- ===== src/Tests/Data.antt =====
-- A swap of 10 KAS on Kaspa for ETH on Sepolia, at 3 USD each, and concrete outside functions:
-- whole numbers as floats, and toy hash, hexadecimal and number formats.
use stroemnet.Common.Equality.{list_beq}
use stroemnet.Common.{
  ℕ, ◌-◌, ◌*◌, ◌/◌, ◌%◌, ◌^◌, ◌≡◌, refl, true, none, some, List, [], ◌∷◌, Bytes, bytes_eq, Result,
  ok, err, ltb, leb, u256_mod, checked_mul256, checked_div256, length, arith,
}
use stroemnet.Protocol.Channel.{kaspa_tn10, ethereum_sepolia}
use stroemnet.Protocol.V1.{CommitmentV1}
use stroemnet.Protocol.Clock.{ChainClock}
use stroemnet.Common.Dict.{get, insert, update}
use stroemnet.Tracker.Record.{SwapRecord, SwapTracker, Crypto, new}
use stroemnet.Tracker.Commit.{set_init_commitment, set_counter_commitment, validate_counter}
use stroemnet.Tracker.Resolve.{set_revealed, locked_unresolved}
use stroemnet.Tracker.History.{Call, init_call, counter_call, reveal_call, run, step}
use stroemnet.Tracker.Valid.{IsValid, run-IsValid, step-IsValid}
use stroemnet.Amounts.Numbers.{Uint256, Float64}
use stroemnet.Amounts.Prices.{PriceStorage}
use stroemnet.Handler.Config.{Handler, Outside}

abbrev pub doubled : Bytes → Bytes
doubled [] = []
doubled (b ∷ bs) = b ∷ b ∷ doubled bs

pub length-doubled : (bs : Bytes) → length (doubled bs) ≡ 2 * length bs
length-doubled [] = omega arith
length-doubled (b ∷ bs) = omega (arith, length-doubled bs)

abbrev pub toy_crypto : Crypto
toy_crypto = record { sha256 = λ s. s; hex_encode = doubled }

abbrev pub toy_uint : Uint256
toy_uint = record {
  checked_mul = checked_mul256;
  checked_div = checked_div256;
  pow = λ a n. a ^ n % u256_mod;
  checked_mul_lem = λ a b. refl;
  checked_div_lem = λ a b. refl;
  pow_lem = λ a n. refl;
}

abbrev pub toy_float : Float64 ℕ
toy_float = record {
  zero = 0;
  half = 0;
  hundred = 100;
  is_finite = λ x. true;
  lt = ltb;
  le = leb;
  sub = λ a b. a - b;
  mul = λ a b. a * b;
  div = λ a b. a / b;
  abs = λ a. a;
  powi10 = λ n. 10 ^ n;
  of_u128 = λ n. n;
  round_u128 = λ x. x;
  as_u32 = λ x. x;
}

abbrev pub number : Bytes → Result Bytes ℕ
number (n ∷ []) = ok n
number _ = err []

abbrev pub toy_outside : Outside ℕ
toy_outside = record {
  uint = toy_uint;
  float = toy_float;
  crypto = toy_crypto;
  parse_u256 = number;
  print_u256 = λ n. n ∷ [];
  parse_f64 = number;
  trim = λ s. s;
  parse_address = λ s. some s;
}

abbrev pub two_prices : PriceStorage ℕ
two_prices = record {
  tracked = kaspa_tn10 ∷ ethereum_sepolia ∷ [];
  prices = (kaspa_tn10, (3, 1000)) ∷ (ethereum_sepolia, (3, 1000)) ∷ [];
  max_age_secs = 300;
}

abbrev pub maker : Handler ℕ
maker = record {
  price_storage = two_prices;
  config = record {
    min_trade_usd = 1;
    max_trade_usd = 1000;
    spread_percent = 1;
    commit_buffer_secs = 60;
  };
  address_lookup_table = (kaspa_tn10, 7 ∷ []) ∷ (ethereum_sepolia, 8 ∷ []) ∷ [];
  block_confirmations = (kaspa_tn10, 10) ∷ (ethereum_sepolia, 2) ∷ [];
}

abbrev pub system_clock : ChainClock
system_clock = record { times = [] }

abbrev pub swap_1 : Bytes
swap_1 = 1 ∷ []

abbrev pub thirty_two : ℕ → Bytes
thirty_two b =
    b ∷ b ∷ b ∷ b ∷ b ∷ b ∷ b ∷ b ∷ b ∷ b ∷ b ∷ b ∷ b ∷ b ∷ b ∷ b ∷ b ∷ b ∷ b ∷ b ∷ b ∷ b ∷ b ∷ b
    ∷ b ∷ b ∷ b ∷ b ∷ b ∷ b ∷ b ∷ b ∷ []

abbrev pub secret_9 : Bytes
secret_9 = thirty_two 9

abbrev pub first_commitment : CommitmentV1
first_commitment = record {
  swap_id = swap_1;
  addresses = record { sender = 5 ∷ []; receiver = 7 ∷ []; sender_destination = 6 ∷ [] };
  amount = record { value = 1000000000 ∷ []; decimals = 8 };
  secret_hash = secret_9;
  unlock_ts = 2800;
  source = 0;
  destination = 1;
}

abbrev pub our_counter : CommitmentV1
our_counter = record {
  swap_id = swap_1;
  addresses = record { sender = 8 ∷ []; receiver = 6 ∷ []; sender_destination = 7 ∷ [] };
  amount = record { value = 9900000000000000000 ∷ []; decimals = 18 };
  secret_hash = secret_9;
  unlock_ts = 1900;
  source = 1;
  destination = 0;
}

abbrev pub begun : SwapRecord
begun = record {
  init_commitment = first_commitment;
  counter_commitment = none;
  resolution = none;
  created_at = 1000;
}

abbrev pub both_locked : SwapRecord
both_locked = record begun { counter_commitment = some our_counter }

abbrev pub handed_back : SwapRecord
handed_back = record both_locked { resolution = some (doubled secret_9) }

abbrev pub tracking : SwapRecord → SwapTracker
tracking r = record { swaps = (swap_1, r) ∷ [] }

abbrev until_lock : List Call
until_lock = init_call 1000 swap_1 first_commitment ∷ counter_call swap_1 our_counter ∷ []

both_locked-run : run toy_crypto new until_lock ≡ tracking both_locked
unfolding run step new set_init_commitment set_counter_commitment validate_counter get insert update
    list_beq
both_locked-run = refl

pub both_locked-IsValid : IsValid toy_crypto (tracking both_locked)
both_locked-IsValid = rw (← both_locked-run) (run-IsValid toy_crypto until_lock)

handed_back-step :
    step toy_crypto (tracking both_locked) (reveal_call swap_1 secret_9) ≡ tracking handed_back
unfolding step set_revealed locked_unresolved get update list_beq
handed_back-step = refl

pub handed_back-IsValid : IsValid toy_crypto (tracking handed_back)
handed_back-IsValid = rw (← handed_back-step) (
    step-IsValid toy_crypto (tracking both_locked) (reveal_call swap_1 secret_9)
      both_locked-IsValid)
