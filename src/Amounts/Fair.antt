-- ===== src/Amounts/Fair.antt =====
-- About the worth of a quote of amounts/src/amount_out.rs.
use native.Mathlib.Nat.{mul-le-mul_right, div-mul-le_self}
use stroemnet.Common.{
  ℕ, ◌+◌, ◌-◌, ◌*◌, ◌/◌, ◌^◌, ◌≤◌, ◌<◌, ◌≡◌, true, false, not, ◌&&◌, ◌||◌, ok, ok_or, fail_if,
  >>=-eq-ok, arith, u256_mod,
}
use stroemnet.Amounts.Numbers.{Uint256, Float64}
use stroemnet.Amounts.Quote.{AmountError, rescale, price_fixed, spread_bps, amount_out}
use stroemnet.Amounts.Rescale.{rescale_le}

-- The three roundings down, one after another.
fair_chain :
    (o s a d r m p i : ℕ)
    → o * s ≤ a * d
    → a * 10000 ≤ r * m
    → r * p ≤ i
    → o * s * (10000 * p) ≤ i * m * d
fair_chain o s a d r m p i h1 h2 h3 = grind (
  arith,
  mul-le-mul_right (10000 * p) h1,
  mul-le-mul_right (d * p) h2,
  mul-le-mul_right (m * d) h3,
)

module _ {F : Type 0} (u : Uint256) (f : Float64 F) where
  mul_ok :
      (e : AmountError F) {c : ℕ} (a b : ℕ)
      → ok_or (u.checked_mul a b) e ≡ ok c
      → (c ≡ a * b) × (c < u256_mod)
  mul_ok e a b h = ground (arith, u.checked_mul_lem a b)

  div_ok :
      (e : AmountError F) {c : ℕ} (a b : ℕ)
      → ok_or (u.checked_div a b) e ≡ ok c
      → (c ≡ a / b) × (0 < b)
  div_ok e a b h = ground (arith, u.checked_div_lem a b)

  -- A price as the calculation takes it is finite and not negative.
  abbrev pub IsPriced : F → F → F → Type 0
  IsPriced source dest spread =
      (f.is_finite source ≡ true)
      × (f.lt source f.zero ≡ false)
      × (f.is_finite dest ≡ true)
      × (f.le dest f.zero ≡ false)
      × (f.le f.zero spread ≡ true)
      × (f.lt spread f.hundred ≡ true)

  -- The steps of a calculation that returns an amount.
  amount_out-steps :
      (amount_in sd dd out : ℕ) (source dest spread : F)
      → amount_out u f amount_in source sd dest dd spread ≡ ok out
      → IsPriced source dest spread
        × ((output : ℕ) × (after_spread : ℕ) × (0 < price_fixed u f dest)
            × (output ≡ amount_in * price_fixed u f source / price_fixed u f dest)
            × (after_spread ≡ output * (10000 - spread_bps u f spread) / 10000)
            × (after_spread < u256_mod)
            × (rescale u f after_spread sd dd ≡ ok out))
  unfolding amount_out
  amount_out-steps amount_in sd dd out source dest spread h =
      let (_, a, h1) = >>=-eq-ok (fail_if (not (f.is_finite source) || f.lt source f.zero) _) _ h in
      let (_, b, h2) = >>=-eq-ok (fail_if (not (f.is_finite dest) || f.le dest f.zero) _) _ h1 in
      let (_, c, h3) =
        >>=-eq-ok (fail_if (not (f.le f.zero spread && f.lt spread f.hundred)) _) _ h2 in
      let (product, d, h4) =
        >>=-eq-ok (ok_or (u.checked_mul amount_in (price_fixed u f source)) _) _ h3 in
      let (output, e, h5) =
        >>=-eq-ok (ok_or (u.checked_div product (price_fixed u f dest)) _) _ h4 in
      let (reduced, g, h6) =
        >>=-eq-ok (ok_or (u.checked_mul output (10000 - spread_bps u f spread)) _) _ h5 in
      let (after, i, h7) = >>=-eq-ok (ok_or (u.checked_div reduced 10000) _) _ h6 in
      let (d', d'') = mul_ok _ amount_in (price_fixed u f source) d in
      let (e', e'') = div_ok _ product (price_fixed u f dest) e in
      let (g', g'') = mul_ok _ output (10000 - spread_bps u f spread) g in
      let (i', i'') = div_ok _ reduced 10000 i in
      (ground arith, (output, after, e'', rw d' at e', rw g' at i', ground arith, h7))

  -- The amount that comes out is worth no more than the amount that goes in, less the spread, at
  -- the two fixed-point prices. The numbers of decimals differ by at most 77.
  pub amount_out-fair :
      (amount_in sd dd out : ℕ) (source dest spread : F)
      → sd ≤ dd + 77
      → dd ≤ sd + 77
      → amount_out u f amount_in source sd dest dd spread ≡ ok out
      → out * 10 ^ sd * (10000 * price_fixed u f dest)
        ≤ amount_in * price_fixed u f source * (10000 - spread_bps u f spread) * 10 ^ dd
  amount_out-fair amount_in sd dd out source dest spread l m h =
      let (_, (output, after, pos, e, g, fits, r)) =
        amount_out-steps amount_in sd dd out source dest spread h in
      fair_chain out (10 ^ sd) after (10 ^ dd) output (10000 - spread_bps u f spread)
        (price_fixed u f dest) (amount_in * price_fixed u f source)
        (rescale_le u f after out sd dd fits l m r)
        (rw g (div-mul-le_self (output * (10000 - spread_bps u f spread)) 10000))
        (rw e (div-mul-le_self (amount_in * price_fixed u f source) (price_fixed u f dest)))
