-- ===== src/Chain/Examples.antt =====
-- Tests of the fee market of src/chain.c.
use agentchain.Base.{ℕ, ◌+◌, ◌/◌, ◌<◌, ◌≤◌, ◌≡◌, ◌⊎◌, refl, some, arith}
use agentchain.Chain.{next_base_fee, fee_step}
use agentchain.Chain.Fees.{next_base_fee_lem}

-- A full block raises the fee by an eighth.
full : next_base_fee 80 30_000_000 30_000_000 ≡ some 90
unfolding next_base_fee fee_step
full = refl

-- An empty one lowers it by an eighth.
empty : next_base_fee 80 0 30_000_000 ≡ some 70
unfolding next_base_fee fee_step
empty = refl

next_base_fee_lem_example :
    (n : ℕ) × (next_base_fee 80 30_000_000 30_000_000 ≡ some n)
    × (((30_000_000 ≡ 30_000_000 / 2) × (n ≡ 80))
        ⊎ (((30_000_000 / 2 < 30_000_000) × (80 < n) × (n ≤ 80 + 80 / 8 + 1))
            ⊎ ((30_000_000 < 30_000_000 / 2)
                × ((n < 80) ⊎ (n ≡ 1))
                × (1 ≤ n)
                × (80 ≤ n + 80 / 8 + 1))))
next_base_fee_lem_example =
    next_base_fee_lem 80 30_000_000 30_000_000 (omega arith) (omega arith) (omega arith)
      (omega arith) (omega arith) (omega arith)
