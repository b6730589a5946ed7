-- ===== src/Isqrt/Root.antt =====
-- The value of `ac_isqrt_u64` of src/common.c, and the ends of its loops.
use native.Mathlib.Nat.{le-div_iff_mul-le, div-lt_iff_lt-mul, mul-le-mul}
use agentchain.Base.{
  ℕ, zero, suc, ◌+◌, ◌-◌, ◌*◌, ◌/◌, ◌^◌, ◌≤◌, ◌<◌, ◌≡◌, refl, some, true, inl, inr, Bool-cases,
  arith, ltb, leb, ◌==◌, if◌then◌else◌, lt→ltb, leb→le, add64,
}
use agentchain.Isqrt.{sqrt_max, newton, step_down, step_up, isqrt_u64}

le_div : (x r : ℕ) → 0 < r → r ≤ x / r → r * r ≤ x
le_div x r p h = (le-div_iff_mul-le {k = r} {x = r} {y = x} p).0 h

div_lt : (x r : ℕ) → 0 < r → x / r < r → x < r * r
div_lt x r p h = (div-lt_iff_lt-mul {k = r} {x = x} {y = r} p).0 h

-- Stepping down ends at a number whose square is at most `x`.
step_down_lem : (x r : ℕ) → (step_down x r * step_down x r ≤ x) × (step_down x r ≤ r)
unfolding step_down
step_down_lem x zero = (omega arith, omega arith)
step_down_lem x (suc r) = elim (Bool-cases (ltb (x / suc r) (suc r))) [
  | inl y ↦ let (a, b) = step_down_lem x r in rw (y, step_down) (a, omega (arith, b))
  | inr n ↦ rw (n, step_down) (le_div x (suc r) (omega arith) (ground (arith, n)), omega arith)
]

-- Stepping up keeps the square at most `x`, and ends where the next square is above, or at the
-- largest root of 64 bits.
step_up_lem :
    (x fuel r : ℕ)
    → r * r ≤ x
    → r + fuel ≡ sqrt_max
    → x < 2 ^ 64
    → let s = step_up x fuel r in (s * s ≤ x) × (x < (s + 1) * (s + 1))
unfolding step_up
step_up_lem x zero r h f b = let top : r ≡ sqrt_max = omega arith in (h, rw top (omega arith))
step_up_lem x (suc fuel) r h f b =
    let below : ltb r sqrt_max ≡ true = lt→ltb r sqrt_max (omega arith) in
    elim (Bool-cases (leb (r + 1) (x / (r + 1)))) [
      | inl y ↦
          rw (below, y, step_up)
            (step_up_lem x fuel (r + 1) (le_div x (r + 1) (omega arith) (leb→le _ _ y))
              (omega arith) b)
      | inr n ↦
          let above : x / (r + 1) < r + 1 = ground arith in
          rw (below, n, step_up) (h, div_lt x (r + 1) (omega arith) above)
    ]

-- Newton's loop ends, by its test, within one round more than the estimate that it starts from. What it ends
-- with is at most that estimate, and another round would not lower it.
pub newton_lem :
    (x fuel r : ℕ)
    → r < fuel
    → (s : ℕ) × (newton x fuel r ≡ some s) × (s ≤ r) × (s ≤ add64 s (x / s) / 2)
unfolding newton
newton_lem x zero r h = absurd (omega (arith, h))
newton_lem x (suc fuel) r h = elim (Bool-cases (leb r (add64 r (x / r) / 2))) [
  | inl y ↦ (r, rw (y, newton) refl, omega arith, leb→le _ _ y)
  | inr n ↦
      let lower : add64 r (x / r) / 2 < r = ground (arith, n) in
      let (s, ends, a, b) = newton_lem x fuel (add64 r (x / r) / 2) (omega (arith, lower, h)) in
      (s, rw (n, newton) ends, omega (arith, a, lower), b)
]

abbrev IsRoot : ℕ → ℕ → Type 0
IsRoot x s = (s * s ≤ x) × (x < (s + 1) * (s + 1)) × (s < 2 ^ 32)

root-lt : (x s : ℕ) → x < 2 ^ 64 → s * s ≤ x → s < 2 ^ 32
root-lt x s b h = elim (Bool-cases (leb (2 ^ 32) s)) [
  | inl y ↦ absurd (omega (arith, mul-le-mul (leb→le _ _ y) (leb→le _ _ y), b, h))
  | inr n ↦ ground (arith, n)
]

-- The correction does not depend on the estimate that it starts from.
corrected :
    (x r : ℕ)
    → r ≤ sqrt_max
    → x < 2 ^ 64
    → IsRoot x (step_up x (sqrt_max - step_down x r) (step_down x r))
corrected x r h b =
    let (under, less) = step_down_lem x r in
    let (low, high) =
      step_up_lem x (sqrt_max - step_down x r) (step_down x r) under (omega (arith, less, h)) b in
    (low, high, root-lt x _ b low)

start-le : (x : ℕ) → (if ltb sqrt_max x then sqrt_max else x) ≤ sqrt_max
start-le x = ground arith

-- Of every 64-bit number `ac_isqrt_u64` returns the integer square root: its square is at most the
-- number, and the next square is greater. It is at most 2^32 - 1.
pub isqrt_u64_lem :
    (x : ℕ)
    → x < 2 ^ 64
    → (isqrt_u64 x * isqrt_u64 x ≤ x)
      × (x < (isqrt_u64 x + 1) * (isqrt_u64 x + 1))
      × (isqrt_u64 x < 2 ^ 32)
unfolding isqrt_u64
isqrt_u64_lem x b = elim (Bool-cases (x == 0)) [
  | inl z ↦ let is : x ≡ 0 = ground arith in rw is (omega arith, omega arith, omega arith)
  | inr z ↦ elim (Bool-cases (x == 1)) [
    | inl o ↦ let is : x ≡ 1 = ground arith in rw is (omega arith, omega arith, omega arith)
    | inr o ↦
        let start : ℕ = if ltb sqrt_max x then sqrt_max else x in
        let (s, ends, lower, _) = newton_lem x (start + 1) start (omega arith) in
        rw (z, o, isqrt_u64, ends) (corrected x s (omega (arith, lower, start-le x)) b)
  ]
]
