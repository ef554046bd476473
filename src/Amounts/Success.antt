-- ===== src/Amounts/Success.antt =====
-- About when `amount_out` of amounts/src/amount_out.rs returns an amount.
use native.Mathlib.Nat.{mul-le-mul_right, mul-le-mul_left, pow-le-pow_right, div-le_self}
use stroemnet.Common.{
  ℕ, ◌+◌, ◌-◌, ◌*◌, ◌/◌, ◌^◌, ◌≤◌, ◌<◌, ◌≡◌, refl, ◌∙◌, inl, inr, ok, ok_or, arith, ltb, Bool-cases,
  u256_mod, lt→ltb,
}
use stroemnet.Amounts.Numbers.{Uint256, Float64}
use stroemnet.Amounts.Quote.{
  AmountError, rescale, price_fixed, spread_bps, amount_out, arithmetic_overflow, division_by_zero,
}
use stroemnet.Amounts.Rescale.{rescale_up, rescale_down, ten_pow_pos}
use stroemnet.Amounts.Fair.{IsPriced}

module _ {F : Type 0} (u : Uint256) (f : Float64 F) where
  mul_some :
      (e : AmountError F) (a b : ℕ) → a * b < u256_mod → ok_or (u.checked_mul a b) e ≡ ok (a * b)
  mul_some e a b h = ground (arith, u.checked_mul_lem a b)

  div_some : (e : AmountError F) (a b : ℕ) → 0 < b → ok_or (u.checked_div a b) e ≡ ok (a / b)
  div_some e a b h = ground (arith, u.checked_div_lem a b)

  rescale_some :
      (a sd dd : ℕ)
      → sd ≤ dd + 77
      → dd ≤ sd + 77
      → a * 10 ^ dd < u256_mod
      → (b : ℕ) × (rescale u f a sd dd ≡ ok b)
  rescale_some a sd dd l m h = elim (Bool-cases (ltb dd sd)) [
    | inl down ↦ (a / 10 ^ (sd - dd), rescale_down u f a sd dd (ground arith) (omega arith))
    | inr up ↦
        let near : 10 ^ (dd - sd) ≤ 10 ^ dd =
          pow-le-pow_right {n = 10} (omega arith) {i = dd - sd} {j = dd} (omega arith) in
        let small : a < u256_mod = omega (arith, mul-le-mul_left a (ten_pow_pos dd)) in
        let fits : a * 10 ^ (dd - sd) < u256_mod = omega (arith, mul-le-mul_left a near) in
        (
          a * 10 ^ (dd - sd),
          rescale_up u f a sd dd small (ground arith) (omega arith) ∙ (rw (lt→ltb _ _ fits) refl),
        )
  ]

  -- The calculation returns an amount if the prices and the spread are valid, the destination's
  -- price is not 0 when rounded to 8 decimals, the numbers of decimals differ by at most 77, and
  -- the worth of the input, times 10000 and scaled to the destination, is below 2^256.
  pub amount_out-ok :
      (amount_in sd dd : ℕ) (source dest spread : F)
      → IsPriced u f source dest spread
      → 0 < price_fixed u f dest
      → sd ≤ dd + 77
      → dd ≤ sd + 77
      → amount_in * price_fixed u f source * 10000 * 10 ^ dd < u256_mod
      → (out : ℕ) × (amount_out u f amount_in source sd dest dd spread ≡ ok out)
  unfolding amount_out
  amount_out-ok amount_in sd dd source dest spread (a, b, c, d, e, g) pos l m h =
      let product = amount_in * price_fixed u f source in
      let output = product / price_fixed u f dest in
      let kept = 10000 - spread_bps u f spread in
      let after = output * kept / 10000 in
      let wide : product * 10000 < u256_mod =
        omega (arith, mul-le-mul_left (product * 10000) (ten_pow_pos dd)) in
      let less : output ≤ product = div-le_self product (price_fixed u f dest) in
      let part : output * kept ≤ output * 10000 = mul-le-mul_left output (omega arith) in
      let last : after * 10 ^ dd ≤ product * 10000 * 10 ^ dd =
        mul-le-mul_right (10 ^ dd) (omega arith) in
      let (out, r) = rescale_some after sd dd l m (omega arith) in
      (
        out,
        rw
            (
              a,
              b,
              c,
              d,
              e,
              g,
              mul_some (arithmetic_overflow amount_in) amount_in (price_fixed u f source)
                  (omega arith),
              div_some (division_by_zero (price_fixed u f dest)) product (price_fixed u f dest) pos,
              mul_some (arithmetic_overflow output) output kept (omega arith),
              div_some (division_by_zero 10000) (output * kept) 10000 (omega arith),
            )
            r,
      )
