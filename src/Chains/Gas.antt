-- ===== src/Chains/Gas.antt =====
-- chains/evm/replace.rs: how the gas price of a transaction that is sent again grows.
use stroemnet.Common.{ℕ, zero, suc, ◌*◌, ◌/◌, ◌≤◌, ◌≡◌, min, some, arith}
use stroemnet.Chains.Polling.{
  bump, bumped, escalated_gas, replacement_gas, max_gas_price_wei, max_gas_bumps,
}

bump-grows : (gas : ℕ) → min gas max_gas_price_wei ≤ bump gas
unfolding bump
bump-grows gas = omega arith

bumped-grows : (bumps gas : ℕ) → min gas max_gas_price_wei ≤ bumped bumps gas
unfolding bumped
bumped-grows zero gas = omega arith
bumped-grows (suc bumps) gas = omega (arith, bump-grows gas, bumped-grows bumps (bump gas))

bump-bumped : (bumps gas : ℕ) → bumped (suc bumps) gas ≡ bump (bumped bumps gas)
unfolding bumped
bump-bumped zero gas = ground arith
bump-bumped (suc bumps) gas = bump-bumped bumps (bump gas)

-- A replacement never asks for more than the maximum gas price, and for no less than the node's price
-- and than the attempt's last price with 15 percent on top, rounded down, where these are below it.
pub replacement_gas-bounds :
    (base attempt_count prev : ℕ)
    → let gas = replacement_gas base attempt_count (some prev) in
      (gas ≤ max_gas_price_wei)
      × (min base max_gas_price_wei ≤ gas)
      × (min (prev * 115 / 100) max_gas_price_wei ≤ gas)
unfolding replacement_gas escalated_gas bump
replacement_gas-bounds base attempt_count prev =
    let grows = bumped-grows (min attempt_count max_gas_bumps) base in
    (omega arith, omega (arith, grows), omega arith)
