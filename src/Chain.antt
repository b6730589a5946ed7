-- ===== src/Chain.antt =====
-- The fee market and the block reward of src/chain.c. A signed 64-bit number is its two's
-- complement, and signed arithmetic wraps.
pub mod Fees
pub mod Data
pub mod Index
pub mod Live
pub mod Seed
pub mod Commit
pub mod Accept
pub mod Build
pub mod Genesis
pub mod Top
mod Examples
use agentchain.Base.{
  ℕ, ◌*◌, ◌/◌, ◌^◌, Bool, ◌||◌, Option, none, some, ltb, leb, ◌==◌, add64, sub64, mul64,
  if◌then◌else◌,
}

abbrev pub slots_per_year : ℕ
slots_per_year = 15_778_800

unfoldable pub block_reward : ℕ → ℕ
block_reward height =
    let year = height / slots_per_year in
    let annual_emission = if ltb year 10 then 2_000_000 * 1_000_000 else 500_000 * 1_000_000 in
    annual_emission / slots_per_year

-- `(int64_t)v < 1`.
abbrev pub below_minimum : ℕ → Bool
below_minimum v = v == 0 || leb (2 ^ 63) v

-- `base_fee * distance / target / 8`, and at least 1.
unfoldable pub fee_step : ℕ → ℕ → ℕ → ℕ
fee_step base_fee distance target =
    let step = mul64 base_fee distance / target / 8 in if step == 0 then 1 else step

-- `none` is the division by a target of 0.
unfoldable pub next_base_fee : ℕ → ℕ → ℕ → Option ℕ
next_base_fee prev_base_fee gas_used gas_limit =
    let target = gas_limit / 2 in
    let diff = sub64 gas_used target in
    if gas_used == target
    then some prev_base_fee
    else if target == 0
    then none
    else let next =
        if ltb diff (2 ^ 63)
        then add64 prev_base_fee (fee_step prev_base_fee diff target)
        else sub64 prev_base_fee (fee_step prev_base_fee (sub64 0 diff) target) in
      some (if below_minimum next then 1 else next)
