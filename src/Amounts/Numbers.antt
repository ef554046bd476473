-- ===== src/Amounts/Numbers.antt =====
-- The numbers that crates/amounts and crates/handler take from elsewhere: U256 of alloy, and f64.
use stroemnet.Common.{ℕ, ◌%◌, ◌^◌, ◌≡◌, Bool, Option, u256_mod, checked_mul256, checked_div256}

-- U256 stands as the number that it holds. The laws are the documented behaviour of checked_mul,
-- checked_div and pow, of which pow wraps around.
pub record Uint256 : Type 0 where
  pub checked_mul : ℕ → ℕ → Option ℕ
  pub checked_div : ℕ → ℕ → Option ℕ
  pub pow : ℕ → ℕ → ℕ
  pub checked_mul_lem : (a b : ℕ) → checked_mul a b ≡ checked_mul256 a b
  pub checked_div_lem : (a b : ℕ) → checked_div a b ≡ checked_div256 a b
  pub pow_lem : (a n : ℕ) → pow a n ≡ a ^ n % u256_mod

-- f64 with the operations that are used of it. `round_u128` is `.round() as u128`, and
-- `as_u32` is `as u32`.
pub record Float64 (F : Type 0) : Type 0 where
  pub zero : F
  pub half : F
  pub hundred : F
  pub is_finite : F → Bool
  pub lt : F → F → Bool
  pub le : F → F → Bool
  pub sub : F → F → F
  pub mul : F → F → F
  pub div : F → F → F
  pub abs : F → F
  pub powi10 : ℕ → F
  pub of_u128 : ℕ → F
  pub round_u128 : F → ℕ
  pub as_u32 : F → ℕ
