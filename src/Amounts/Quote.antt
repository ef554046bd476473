-- ===== src/Amounts/Quote.antt =====
-- amounts/src/amount_out.rs and error.rs: how much of the destination's coin an amount is worth.
use stroemnet.Common.{
  ℕ, ◌-◌, not, ◌&&◌, ◌||◌, Result, ok, ok_or, fail_if, ◌>>=◌, ◌>>◌, ltb, if◌then◌else◌,
}
use stroemnet.Amounts.Numbers.{Uint256, Float64}

pub data AmountError (F : Type 0) : Type 0 where
  invalid_price_data : F → AmountError F
  arithmetic_overflow : ℕ → AmountError F
  division_by_zero : ℕ → AmountError F
  amount_overflow : ℕ → AmountError F
  amount_underflow : ℕ → AmountError F

abbrev pub price_decimals : ℕ
price_decimals = 8

module _ {F : Type 0} (u : Uint256) (f : Float64 F) where
  unfoldable pub rescale : ℕ → ℕ → ℕ → Result (AmountError F) ℕ
  rescale amount from_decimals to_decimals =
      if ltb from_decimals to_decimals
      then ok_or (u.checked_mul amount (u.pow 10 (to_decimals - from_decimals)))
          (amount_overflow amount)
      else (if ltb to_decimals from_decimals
          then ok_or (u.checked_div amount (u.pow 10 (from_decimals - to_decimals)))
              (amount_underflow amount)
          else ok amount)

  -- The price with PRICE_DECIMALS decimals.
  unfoldable pub price_fixed : F → ℕ
  price_fixed price = f.round_u128 (f.mul price (f.powi10 price_decimals))

  unfoldable pub spread_bps : F → ℕ
  spread_bps spread_percent = f.as_u32 (f.mul spread_percent f.hundred)

  unfoldable pub amount_out : ℕ → F → ℕ → F → ℕ → F → Result (AmountError F) ℕ
  unfolding rescale price_fixed spread_bps
  amount_out amount_in source_usd_price source_decimals destination_usd_price destination_decimals
        spread_percent =
      do
        fail_if (not (f.is_finite source_usd_price) || f.lt source_usd_price f.zero)
            (invalid_price_data source_usd_price)
        fail_if (not (f.is_finite destination_usd_price) || f.le destination_usd_price f.zero)
            (invalid_price_data destination_usd_price)
        fail_if (not (f.le f.zero spread_percent && f.lt spread_percent f.hundred))
            (invalid_price_data spread_percent)
        let source_price_fixed = price_fixed source_usd_price
        let dest_price_fixed = price_fixed destination_usd_price
        product ← ok_or (u.checked_mul amount_in source_price_fixed) (arithmetic_overflow amount_in)
        output ← ok_or (u.checked_div product dest_price_fixed) (division_by_zero dest_price_fixed)
        reduced ←
            ok_or (u.checked_mul output (10000 - spread_bps spread_percent))
              (arithmetic_overflow output)
        after_spread ← ok_or (u.checked_div reduced 10000) (division_by_zero 10000)
        rescale after_spread source_decimals destination_decimals
