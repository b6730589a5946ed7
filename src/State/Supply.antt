-- ===== src/State/Supply.antt =====
-- The money that the accounts of src/state.c hold: balances and stakes, summed over the array.
use agentchain.Base.{
  ℕ, ◌+◌, ◌≡◌, ◌≢◌, ◌≤◌, refl, ap, ◌∙◌, true, Option, none, some, arith, inl, inr, Bool-cases,
}
use agentchain.Bytes.Compare.{Bytes, bytes_order}
use agentchain.Table.{read}
use agentchain.Table.Totals.{total, worth, total-write, total-delete}
use agentchain.State.{Account, State, addr_of, blank, state_get, account_is_empty, state_set}
use agentchain.State.Laws.{Sorted, view, get-view, answer, set-update, set-Sorted, get-set_ne}

abbrev pub wealth : Account → ℕ
wealth a = a.balance + a.stake

-- All balances and stakes together.
unfoldable pub supply : State → ℕ
supply s = total wealth s.accounts

abbrev pub wealth_at : State → Bytes → ℕ
wealth_at s k = wealth (state_get s k).0

wealth-view :
    (s : State) (k : Bytes)
    → Sorted s
    → wealth_at s k ≡ worth wealth (read bytes_order addr_of s.accounts k)
unfolding view
wealth-view s k h = ap (λ p. wealth p.0) (get-view s k h) ∙ go (view s k)
  where
    go : (m : Option Account) → wealth (answer k m).0 ≡ worth wealth m
    go none = refl
    go (some a) = refl

wealth_empty : (a : Account) → account_is_empty a ≡ true → wealth a ≡ 0
unfolding account_is_empty
wealth_empty a h = ground arith

-- Setting an account replaces what its address held.
pub supply-set :
    (s : State) (acc : Account)
    → Sorted s
    → supply (state_set s acc) + wealth_at s acc.addr ≡ supply s + wealth acc
unfolding supply
supply-set s acc h = elim (Bool-cases (account_is_empty acc)) [
  | inl e ↦
      rw (wealth-view s acc.addr h, set-update s acc, e)
        (total-delete bytes_order addr_of wealth s.accounts h acc.addr
          ∙ ground (arith, wealth_empty acc e))
  | inr e ↦
      rw (wealth-view s acc.addr h, set-update s acc, e)
        (total-write bytes_order addr_of wealth s.accounts h acc)
]

-- No account holds more than the supply.
pub wealth-le : (s : State) (k : Bytes) → Sorted s → wealth_at s k ≤ supply s
wealth-le s k h = omega (arith, supply-set s (blank k) h)

-- No two accounts do together.
pub two_wealths :
    (s : State) (j k : Bytes) → Sorted s → k ≢ j → wealth_at s j + wealth_at s k ≤ supply s
two_wealths s j k h n =
    let t = state_set s (blank k) in
    let first = supply-set s (blank k) h in
    let other : state_get t j ≡ state_get s j = get-set_ne s (blank k) h j n in
    let second = supply-set t (blank j) (set-Sorted s (blank k) h) in
    ground (arith, first, second, ap (λ p. wealth p.0) other)
