-- ===== src/Chain/Commit/Power.antt =====
-- The weight of the validators of src/chain.c, summed over accounts and over signers.
use agentchain.Base.{
  ℕ, ◌+◌, ◌≤◌, ◌<◌, ◌^◌, ◌≡◌, ◌≢◌, ◌⊎◌, refl, ap, ◌∙◌, true, Option, none, some, List, [], ◌∷◌,
  ◌++◌, ltb, if◌then◌else◌, inl, inr, Bool-cases, arith, All, add64,
}
use agentchain.Bytes.Compare.{Bytes, bytes_eq, bytes_eq_iff, bytes_order}
use agentchain.Codec.Block.{CommitSigner}
use agentchain.Isqrt.{isqrt_u64}
use agentchain.Mempool.Order.{Pairwise}
use agentchain.Table.{read}
use agentchain.Table.Totals.{total, worth, total-write, total-delete}
use agentchain.State.{Account, State, addr_of, blank, state_get, account_is_empty, state_set}
use agentchain.State.Laws.{Sorted, view, get-view, answer, set-update, set-Sorted, get-set_ne}
use agentchain.Chain.Data.{Chain}
use agentchain.Chain.Live.{min_stake_ucrd, each_validator, sum_sqrt_stake_cb, total_sqrt_stake}
use agentchain.Chain.Commit.{pre_table, pre_stake_lookup}

-- The weight of an account: the root of its stake, if it is bonded.
unfoldable pub power : Account → ℕ
power a = if ltb a.stake min_stake_ucrd then 0 else isqrt_u64 a.stake

abbrev pub power_at : State → Bytes → ℕ
power_at s k = power (state_get s k).0

-- All of it, without wrapping.
unfoldable pub total_power : State → ℕ
total_power s = total power s.accounts

power-view :
    (s : State) (k : Bytes)
    → Sorted s
    → power_at s k ≡ worth power (read bytes_order addr_of s.accounts k)
unfolding view power
power-view s k h = ap (λ p. power p.0) (get-view s k h) ∙ go (view s k)
  where
    go : (m : Option Account) → power (answer k m).0 ≡ worth power m
    go none = refl
    go (some a) = refl

power_empty : (a : Account) → account_is_empty a ≡ true → power a ≡ 0
unfolding account_is_empty power
power_empty a h = ground arith

power-set :
    (s : State) (acc : Account)
    → Sorted s
    → total_power (state_set s acc) + power_at s acc.addr ≡ total_power s + power acc
unfolding total_power
power-set s acc h = elim (Bool-cases (account_is_empty acc)) [
  | inl e ↦
      rw (power-view s acc.addr h, set-update s acc, e)
        (total-delete bytes_order addr_of power s.accounts h acc.addr
          ∙ ground (arith, power_empty acc e))
  | inr e ↦
      rw (power-view s acc.addr h, set-update s acc, e)
        (total-write bytes_order addr_of power s.accounts h acc)
]

-- Not the same signer.
abbrev pub OtherSigner : CommitSigner → CommitSigner → Type 0
OtherSigner x y = x.signer ≢ y.signer

unfoldable pub powers : State → List CommitSigner → ℕ
powers s [] = 0
powers s (x ∷ xs) = power_at s x.signer + powers s xs

powers-set :
    (s : State) (x : CommitSigner) (xs : List CommitSigner)
    → Sorted s
    → All (OtherSigner x) xs
    → powers (state_set s (blank x.signer)) xs ≡ powers s xs
unfolding powers
powers-set s x [] h v = refl
powers-set s x (y ∷ ys) h v =
    rw (get-set_ne s (blank x.signer) h y.signer v.0, powers-set s x ys h v.1) refl

-- Different signers have at most all the weight together.
pub powers-le :
    (s : State) (xs : List CommitSigner)
    → Sorted s
    → Pairwise OtherSigner xs
    → powers s xs ≤ total_power s
unfolding powers power
powers-le s [] h v = omega arith
powers-le s (x ∷ xs) h v =
    let t = state_set s (blank x.signer) in
    let rest = powers-le t xs (set-Sorted s (blank x.signer) h) v.1 in
    omega (arith, rest, powers-set s x xs h v.0, power-set s (blank x.signer) h)

pub powers-append :
    (s : State) (xs ys : List CommitSigner) → powers s (xs ++ ys) ≡ powers s xs + powers s ys
unfolding powers
powers-append s [] ys = omega arith
powers-append s (x ∷ xs) ys = omega (arith, powers-append s xs ys)

-- The table holds stakes of the state.
pub lookup-table :
    (s : State) (xs : List CommitSigner) (k : Bytes)
    → (pre_stake_lookup (pre_table s xs) k ≡ 0)
      ⊎ (pre_stake_lookup (pre_table s xs) k ≡ (state_get s k).0.stake)
unfolding pre_stake_lookup pre_table
lookup-table s [] k = inl refl
lookup-table s (x ∷ xs) k = elim (Bool-cases (bytes_eq x.signer k)) [
  | inl same ↦
      inr (
        rw (pre_stake_lookup, same) (ap (λ j. (state_get s j).0.stake) ((bytes_eq_iff _ _).0 same)))
  | inr other ↦ rw (pre_stake_lookup, other) (lookup-table s xs k)
]

-- The loop of `ac_chain_total_sqrt_stake`.
each-total :
    (accs : List Account) (sum : ℕ)
    → sum + total power accs < 2 ^ 64
    → each_validator sum_sqrt_stake_cb accs sum ≡ sum + total power accs
unfolding each_validator total sum_sqrt_stake_cb power
each-total [] sum fits = omega arith
each-total (a ∷ accs) sum fits = elim (Bool-cases (ltb a.stake min_stake_ucrd)) [
  | inl idle ↦
      let none_held : power a ≡ 0 = rw (power, idle) refl in
      rw (each_validator, idle)
        (each-total accs sum (omega (arith, none_held)) ∙ omega (arith, none_held))
  | inr active ↦
      let held : power a ≡ isqrt_u64 a.stake = rw (power, active) refl in
      let next : add64 sum (isqrt_u64 a.stake) ≡ sum + power a = omega (arith, held) in
      rw (each_validator, active, sum_sqrt_stake_cb, next)
        (each-total accs (sum + power a) (omega arith) ∙ omega arith)
]

pub total_sqrt_stake_lem :
    (c : Chain) → total_power c.state < 2 ^ 64 → total_sqrt_stake c ≡ total_power c.state
unfolding total_sqrt_stake total_power
total_sqrt_stake_lem c fits = each-total c.state.accounts 0 (omega arith) ∙ omega arith
