-- ===== src/Isqrt/Examples.antt =====
-- Tests of `ac_isqrt_u64` of src/common.c.
use agentchain.Base.{ℕ, some, ◌+◌, ◌*◌, ◌/◌, ◌^◌, ◌≤◌, ◌<◌, ◌-◌, ◌≡◌, refl, arith, add64}
use agentchain.Isqrt.{newton, step_down, step_up, isqrt_u64}
use agentchain.Isqrt.Root.{isqrt_u64_lem, newton_lem}

largest : isqrt_u64 (2 ^ 64 - 1) ≡ 2 ^ 32 - 1
unfolding isqrt_u64 newton step_down step_up
largest = refl

isqrt_u64_lem_example :
    (isqrt_u64 1000 * isqrt_u64 1000 ≤ 1000)
    × (1000 < (isqrt_u64 1000 + 1) * (isqrt_u64 1000 + 1))
    × (isqrt_u64 1000 < 2 ^ 32)
isqrt_u64_lem_example = isqrt_u64_lem 1000 (omega arith)

newton_lem_example :
    (s : ℕ) × (newton 100 101 100 ≡ some s) × (s ≤ 100) × (s ≤ add64 s (100 / s) / 2)
newton_lem_example = newton_lem 100 101 100 (omega arith)
