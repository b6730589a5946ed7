-- ===== src/Chain/Fees.antt =====
-- How far `ac_chain_next_base_fee` of src/chain.c moves the base fee.
use native.Mathlib.Nat.{mul-le-mul_left, div-lt_iff_lt-mul, add-mul}
use agentchain.Base.{
  ℕ, ◌+◌, ◌-◌, ◌*◌, ◌/◌, ◌^◌, ◌≤◌, ◌<◌, ◌≡◌, ◌⊎◌, refl, some, arith, inl, inr, Bool-cases, ltb, leb,
  ◌==◌, sub64, mul64,
}
use agentchain.Chain.{fee_step, next_base_fee, block_reward, slots_per_year}

-- A step for a distance of at most the target is at most an eighth of the fee, or 1.
step-le :
    (base_fee distance target : ℕ)
    → 0 < target
    → distance ≤ target
    → base_fee * target < 2 ^ 63
    → (1 ≤ fee_step base_fee distance target)
      × (fee_step base_fee distance target ≤ base_fee / 8 + 1)
unfolding fee_step
step-le base_fee distance target p h b =
    let near : base_fee * distance ≤ base_fee * target = mul-le-mul_left base_fee h in
    let exact : mul64 base_fee distance ≡ base_fee * distance = omega arith in
    let room : base_fee * distance < (base_fee + 1) * target =
      omega (arith, near, p, add-mul base_fee 1 target) in
    let quotient : base_fee * distance / target < base_fee + 1 =
      (div-lt_iff_lt-mul {k = target} {x = base_fee * distance} {y = base_fee + 1} p).1 room in
    rw exact (ground (arith, quotient))

module _ (prev used limit : ℕ) (target : 0 < limit / 2) (within : used ≤ 2 * (limit / 2))
    (least : 1 ≤ prev) (b : prev * (limit / 2) < 2 ^ 63) (c : limit < 2 ^ 63)
    (d : prev < 2 ^ 62) where
  abbrev diff : ℕ
  diff = sub64 used (limit / 2)

  at_target : used ≡ limit / 2 → next_base_fee prev used limit ≡ some prev
  unfolding next_base_fee
  at_target e = ground (arith, e)

  above :
      limit / 2 < used
      → (n : ℕ) × (next_base_fee prev used limit ≡ some n) × (prev < n) × (n ≤ prev + prev / 8 + 1)
  unfolding next_base_fee
  above h =
      let (low, high) = step-le prev diff (limit / 2) target (omega arith) b in
      let step : ℕ = fee_step prev diff (limit / 2) in
      (prev + step, ground (arith, low, high), omega (arith, low), omega (arith, high))

  below :
      used < limit / 2
      → (n : ℕ) × (next_base_fee prev used limit ≡ some n)
        × ((n < prev) ⊎ (n ≡ 1))
        × (1 ≤ n)
        × (prev ≤ n + prev / 8 + 1)
  unfolding next_base_fee
  below h =
      let distance : sub64 0 diff ≡ limit / 2 - used = omega arith in
      let (low, high) = step-le prev (sub64 0 diff) (limit / 2) target (omega arith) b in
      let step : ℕ = fee_step prev (sub64 0 diff) (limit / 2) in
      elim (Bool-cases (leb prev step)) [
        | inl y ↦ (1, ground (arith, low, high), inr refl, omega arith, ground (arith, high, y))
        | inr n ↦ (
          prev - step,
          ground (arith, low, high, n),
          inl (ground (arith, low, n)),
          ground (arith, n),
          omega (arith, high),
        )
      ]

  -- Let the gas used be at most twice the target, half of the gas limit, which is not 0. Let the base
  -- fee be at least 1 and below 2^62, the gas limit below 2^63, and the base fee times the target
  -- too. Then the next base fee exists. At the target it is the same. Above it, it rises, by at most
  -- an eighth and 1. Below it, it falls or is 1, by at most an eighth and 1, and is at least 1.
  pub next_base_fee_lem :
      (n : ℕ) × (next_base_fee prev used limit ≡ some n)
      × (((used ≡ limit / 2) × (n ≡ prev))
          ⊎ (((limit / 2 < used) × (prev < n) × (n ≤ prev + prev / 8 + 1))
              ⊎ ((used < limit / 2)
                  × ((n < prev) ⊎ (n ≡ 1))
                  × (1 ≤ n)
                  × (prev ≤ n + prev / 8 + 1))))
  next_base_fee_lem = elim (Bool-cases (used == limit / 2)) [
    | inl e ↦
        let same : used ≡ limit / 2 = ground (arith, e) in (prev, at_target same, inl (same, refl))
    | inr e ↦ elim (Bool-cases (ltb used (limit / 2))) [
      | inl y ↦
          let under : used < limit / 2 = ground (arith, y) in
          let (n, is, falls, least_n, bounded) = below under in
          (n, is, inr (inr (under, falls, least_n, bounded)))
      | inr y ↦
          let over : limit / 2 < used = ground (arith, e, y) in
          let (n, is, rises, bounded) = above over in (n, is, inr (inl (over, rises, bounded)))
    ]
  ]

-- The reward per block is 126,752 for the first ten years of 15,778,800 blocks, and 31,688 from then
-- on.
pub block_reward_lem :
    (height : ℕ)
    → ((height < 157_788_000) × (block_reward height ≡ 126_752))
      ⊎ ((157_788_000 ≤ height) × (block_reward height ≡ 31_688))
unfolding block_reward
block_reward_lem height = elim (Bool-cases (ltb (height / slots_per_year) 10)) [
  | inl y ↦ inl (ground (arith, y), ground (arith, y))
  | inr n ↦ inr (ground (arith, n), ground (arith, n))
]
