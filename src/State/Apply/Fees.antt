-- ===== src/State/Apply/Fees.antt =====
-- `ac_state_apply_tx` of src/state.c: the fee arithmetic on `uint64_t`.
use native.Mathlib.Nat.{mul-add, mul-le-mul_right, le-div_iff_mul-le}
use agentchain.Base.{
  ℕ, zero, suc, ◌+◌, ◌*◌, ◌/◌, ◌-◌, ◌^◌, ◌≤◌, ◌<◌, ◌≡◌, false, arith, add64, mul64,
}
use agentchain.State.Apply.Checks.{fee_overflows, lacks_funds}

no_overflow : (limit per : ℕ) → fee_overflows limit per ≡ false → limit * per < 2 ^ 64
unfolding fee_overflows
no_overflow limit zero h = omega arith
no_overflow limit (suc p) h =
    let small : limit ≤ (2 ^ 64 - 1) / suc p = ground arith in
    let product =
      (le-div_iff_mul-le {k = suc p} {x = limit} {y = 2 ^ 64 - 1} (omega arith)).0 small in
    omega arith

funds_cover :
    (balance max_fee value : ℕ)
    → max_fee < 2 ^ 64
    → value < 2 ^ 64
    → lacks_funds balance max_fee value ≡ false
    → (max_fee + value ≤ balance)
unfolding lacks_funds
funds_cover balance max_fee value b w h = ground arith

-- If `base_fee + tip` does not wrap, the checks leave room for the fee of any gas up to the limit.
pub fee_fits :
    (gas limit base_fee tip balance value : ℕ)
    → gas ≤ limit
    → base_fee + tip < 2 ^ 64
    → value < 2 ^ 64
    → fee_overflows limit (add64 base_fee tip) ≡ false
    → lacks_funds balance (mul64 limit (add64 base_fee tip)) value ≡ false
    → (gas * base_fee + gas * tip < 2 ^ 64) × (gas * base_fee + gas * tip + value ≤ balance)
fee_fits gas limit base_fee tip balance value g w a o l =
    let exact : add64 base_fee tip ≡ base_fee + tip = omega arith in
    let product : limit * (base_fee + tip) < 2 ^ 64 =
      no_overflow limit (base_fee + tip) (rw exact at o) in
    let full : mul64 limit (base_fee + tip) ≡ limit * (base_fee + tip) = omega arith in
    let cover =
      funds_cover balance (limit * (base_fee + tip)) value product a (rw (exact, full) at l) in
    let less : gas * (base_fee + tip) ≤ limit * (base_fee + tip) =
      mul-le-mul_right (base_fee + tip) g in
    let split = mul-add gas base_fee tip in omega (arith, split, less, cover, product)
