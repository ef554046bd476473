-- ===== src/Amounts/Rescale.antt =====
-- About `rescale` of amounts/src/amount_out.rs.
use native.Mathlib.Nat.{
  pow-le-pow_right, mul-div_cancel, div-mul-le_self, lt-div-mul-add, mul_assoc, mul-le-mul_right,
  le_refl, add-zero, mul-one, pow-suc,
}
use stroemnet.Common.{
  ℕ, zero, suc, ◌+◌, ◌-◌, ◌*◌, ◌/◌, ◌^◌, ◌≤◌, ◌<◌, ◌≡◌, refl, sym, ◌∙◌, ap, inl, inr, ok, err,
  arith, ltb, if◌then◌else◌, Bool-cases, u256_mod,
}
use stroemnet.Amounts.Numbers.{Uint256, Float64}
use stroemnet.Amounts.Quote.{amount_overflow, rescale}

ten_pow : (d : ℕ) → d ≤ 77 → 10 ^ d < u256_mod
ten_pow d h = omega (arith, pow-le-pow_right {n = 10} (omega arith) {i = d} {j = 77} h)

pub ten_pow_pos : (d : ℕ) → 1 ≤ 10 ^ d
ten_pow_pos d = pow-le-pow_right {n = 10} (omega arith) {i = 0} {j = d} (omega arith)

ten_pow_add : (i d : ℕ) → 10 ^ (i + d) ≡ 10 ^ i * 10 ^ d
ten_pow_add i zero = ap (λ n. 10 ^ n) (add-zero i) ∙ sym (mul-one (10 ^ i))
ten_pow_add i (suc d) =
    let next : i + suc d ≡ suc (i + d) = omega arith in
    ap (λ n. 10 ^ n) next
    ∙ pow-suc 10 (i + d)
    ∙ ap (λ x. x * 10) (ten_pow_add i d)
    ∙ mul_assoc (10 ^ i) (10 ^ d) 10
    ∙ ap (λ x. 10 ^ i * x) (sym (pow-suc 10 d))

-- `10 ^ hi` as the product that a rescaling works with.
ten_pow_split : (lo hi : ℕ) → lo ≤ hi → 10 ^ hi ≡ 10 ^ (hi - lo) * 10 ^ lo
ten_pow_split lo hi l =
    let whole : hi ≡ (hi - lo) + lo = omega arith in
    ap (λ n. 10 ^ n) whole ∙ ten_pow_add (hi - lo) lo

module _ {F : Type 0} (u : Uint256) (f : Float64 F) where
  pow10 : (d : ℕ) → d ≤ 77 → u.pow 10 d ≡ 10 ^ d
  pow10 d h = u.pow_lem 10 d ∙ omega (arith, ten_pow d h)

  -- To as many or more decimals, at most 77 more.
  pub rescale_up :
      (a from to : ℕ)
      → a < u256_mod
      → from ≤ to
      → to - from ≤ 77
      → rescale u f a from to ≡ (
          if ltb (a * 10 ^ (to - from)) u256_mod
          then ok (a * 10 ^ (to - from))
          else err (amount_overflow a))
  unfolding rescale
  rescale_up a from to h l d = elim (Bool-cases (ltb from to)) [
    | inl up ↦ ground (arith, pow10 (to - from) d, u.checked_mul_lem a (10 ^ (to - from)))
    | inr same ↦ let one : to - from ≡ 0 = ground arith in rw one (ground arith)
  ]

  pub rescale_down :
      (a from to : ℕ)
      → to ≤ from
      → from - to ≤ 77
      → rescale u f a from to ≡ ok (a / 10 ^ (from - to))
  unfolding rescale
  rescale_down a from to l d = elim (Bool-cases (ltb to from)) [
    | inl down ↦ ground (
      arith,
      pow10 (from - to) d,
      u.checked_div_lem a (10 ^ (from - to)),
      ten_pow_pos (from - to),
    )
    | inr same ↦ let one : from - to ≡ 0 = ground arith in rw one (ground arith)
  ]

  -- An amount that is rescaled to as many or at most 77 more decimals comes back unchanged. The
  -- amount is below 2^256.
  rescale-rescale :
      (a b from to : ℕ)
      → a < u256_mod
      → from ≤ to
      → to - from ≤ 77
      → rescale u f a from to ≡ ok b
      → rescale u f b to from ≡ ok a
  rescale-rescale a b from to h l d e = elim (Bool-cases (ltb (a * 10 ^ (to - from)) u256_mod)) [
    | inl fits ↦
        let same : b ≡ a * 10 ^ (to - from) = ground (arith, rescale_up a from to h l d) in
        rescale_down b to from l d
        ∙ rw (same, mul-div_cancel a {n = 10 ^ (to - from)} (ten_pow_pos (to - from))) refl
    | inr over ↦ absurd (ground (arith, rescale_up a from to h l d))
  ]

  -- A rescaling to as many or at most 77 fewer decimals rounds down, by less than one unit of
  -- the result.
  rescale_down_bounds :
      (a b from to : ℕ)
      → to ≤ from
      → from - to ≤ 77
      → rescale u f a from to ≡ ok b
      → (b * 10 ^ (from - to) ≤ a) × (a < b * 10 ^ (from - to) + 10 ^ (from - to))
  rescale_down_bounds a b from to l d e =
      let same : b ≡ a / 10 ^ (from - to) = ground (arith, rescale_down a from to l d) in
      rw same (div-mul-le_self a (10 ^ (from - to)), lt-div-mul-add (ten_pow_pos (from - to)))

  -- Whatever the direction, the result is worth no more than the amount.
  pub rescale_le :
      (a b from to : ℕ)
      → a < u256_mod
      → from ≤ to + 77
      → to ≤ from + 77
      → rescale u f a from to ≡ ok b
      → b * 10 ^ from ≤ a * 10 ^ to
  rescale_le a b from to h l m e = elim (Bool-cases (ltb to from)) [
    | inl down ↦
        let (below, above) = rescale_down_bounds a b from to (ground arith) (omega arith) e in
        rw (ten_pow_split to from (ground arith), sym (mul_assoc b (10 ^ (from - to)) (10 ^ to)))
          (mul-le-mul_right (10 ^ to) below)
    | inr up ↦ elim (Bool-cases (ltb (a * 10 ^ (to - from)) u256_mod)) [
      | inl fits ↦
          let same : b ≡ a * 10 ^ (to - from) =
            ground (arith, rescale_up a from to h (ground arith) (omega arith)) in
          rw
            (ten_pow_split from to (ground arith), same, mul_assoc a (10 ^ (to - from)) (10 ^ from))
            (le_refl _)
      | inr over ↦ absurd (ground (arith, rescale_up a from to h (ground arith) (omega arith)))
    ]
  ]
