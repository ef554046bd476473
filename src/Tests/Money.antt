-- ===== src/Tests/Money.antt =====
-- Amounts and prices.
use stroemnet.Common.{ℕ, ◌-◌, ◌*◌, ◌^◌, ◌≤◌, ◌≡◌, refl, arith, ok}
use stroemnet.Protocol.Channel.{channel_eq}
use stroemnet.Amounts.Quote.{rescale, price_fixed, spread_bps, amount_out}
use stroemnet.Amounts.Fair.{amount_out-fair}
use stroemnet.Amounts.Success.{amount_out-ok}
use stroemnet.Tests.Data.{toy_uint, toy_float}

amount_out-fair_example :
    9900000000000000000 * 10 ^ 8 * (10000 * price_fixed toy_uint toy_float 3)
    ≤ 1000000000
      * price_fixed toy_uint toy_float 3
      * (10000 - spread_bps toy_uint toy_float 1)
      * 10 ^ 18
unfolding amount_out rescale price_fixed spread_bps
amount_out-fair_example =
    amount_out-fair toy_uint toy_float 1000000000 8 18 9900000000000000000 3 3 1 (omega arith)
      (omega arith) refl

amount_out-ok_example : (out : ℕ) × (amount_out toy_uint toy_float 1000000000 3 8 3 18 1 ≡ ok out)
unfolding price_fixed
amount_out-ok_example =
    amount_out-ok toy_uint toy_float 1000000000 8 18 3 3 1 (refl, refl, refl, refl, refl, refl)
      (omega arith) (omega arith) (omega arith) (omega arith)
