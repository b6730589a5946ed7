-- ===== src/Chain/Top.antt =====
-- The richest accounts and the largest validators, for clients, in src/chain.c. `qsort cmp` is the C
-- library's, and no allocation fails.
use Prim.Native.Nat.{compare, Ordering}
use agentchain.Base.{
  ℕ, Bool, true, false, ◌&&◌, List, [], ◌∷◌, take, ltb, ◌==◌, length, if◌then◌else◌,
}
use agentchain.Bytes.Compare.{memcmp, next}
use agentchain.State.{Account}
use agentchain.Chain.Data.{Chain}
use agentchain.Chain.Live.{min_stake_ucrd}

-- Larger first, then by address.
unfoldable pub top_cmp_balance : Account → Account → Ordering
top_cmp_balance a b = next (compare b.balance a.balance) (memcmp a.addr b.addr)

unfoldable pub top_cmp_stake : Account → Account → Ordering
top_cmp_stake a b = next (compare b.stake a.stake) (memcmp a.addr b.addr)

pub data TopField : Type 0 where
  top_by_balance top_by_stake : TopField

-- The loop that copies, and leaves out accounts that are not bonded.
unfoldable pub copy_accounts : Bool → List Account → List Account
copy_accounts active_only [] = []
copy_accounts active_only (a ∷ rest) = elim (active_only && ltb a.stake min_stake_ucrd) [
  | true ↦ copy_accounts active_only rest
  | false ↦ a ∷ copy_accounts active_only rest
]

abbrev pub top_cmp : TopField → Account → Account → Ordering
top_cmp top_by_balance = top_cmp_balance
top_cmp top_by_stake = top_cmp_stake

module _ (qsort : (Account → Account → Ordering) → List Account → List Account) where
  unfoldable pub chain_top_accounts : Chain → TopField → ℕ → Bool → List Account
  chain_top_accounts c f room active_only =
      if room == 0
      then []
      else if length c.state.accounts == 0
      then []
      else take room (qsort (top_cmp f) (copy_accounts active_only c.state.accounts))

  unfoldable pub top_accounts_by_balance : Chain → ℕ → List Account
  top_accounts_by_balance c room = chain_top_accounts c top_by_balance room false

  unfoldable pub top_validators : Chain → ℕ → List Account
  top_validators c room = chain_top_accounts c top_by_stake room true
