-- ===== src/Isqrt.antt =====
-- `ac_isqrt_u64` of src/common.c: Newton's method from above, and the two loops that correct it.
pub mod Root
mod Examples
use agentchain.Base.{
  ℕ, zero, suc, ◌+◌, ◌-◌, ◌/◌, ◌^◌, ◌&&◌, Option, none, some, true, false, ltb, leb, ◌==◌,
  if◌then◌else◌, add64,
}

abbrev pub sqrt_max : ℕ
sqrt_max = 2 ^ 32 - 1

-- `while (1)`, on fuel: `none` is a loop that has not ended. A division by an estimate of 0, which would
-- trap, gives 0 here.
unfoldable pub newton : ℕ → ℕ → ℕ → Option ℕ
newton x zero r = none
newton x (suc fuel) r =
    let nr = add64 r (x / r) / 2 in elim (leb r nr) [ true ↦ some r | false ↦ newton x fuel nr ]

-- `while (r > 0 && r > x / r) --r`.
unfoldable pub step_down : ℕ → ℕ → ℕ
step_down x zero = zero
step_down x (suc r) = elim (ltb (x / suc r) (suc r)) [ true ↦ step_down x r | false ↦ suc r ]

-- `while (r < SQRT_MAX && (r + 1) <= x / (r + 1)) ++r`.
unfoldable pub step_up : ℕ → ℕ → ℕ → ℕ
step_up x zero r = r
step_up x (suc fuel) r = elim (ltb r sqrt_max && leb (r + 1) (x / (r + 1))) [
  | true ↦ step_up x fuel (r + 1)
  | false ↦ r
]

-- What the loop ends with. It ends, so the 0 is never taken.
abbrev pub ended : Option ℕ → ℕ
ended none = 0
ended (some r) = r

unfoldable pub isqrt_u64 : ℕ → ℕ
isqrt_u64 x =
    if x == 0
    then 0
    else if x == 1
    then 1
    else let start = if ltb sqrt_max x then sqrt_max else x in
      let low = step_down x (ended (newton x (start + 1) start)) in step_up x (sqrt_max - low) low
