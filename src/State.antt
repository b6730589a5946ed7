-- ===== src/State.antt =====
-- The global state of src/state.c: accounts and name registrations, two arrays sorted by key.
-- `accounts_n` and `names_n` are the lengths; buffers grow as needed and no allocation fails.
pub mod Laws
pub mod Contents
pub mod Names
pub mod Registry
pub mod Supply
pub mod Apply
pub mod Snapshot
mod Examples
use agentchain.Base.{
  ℕ, ◌+◌, ◌-◌, ◌%◌, ◌^◌, Bool, true, false, not, ◌&&◌, Option, none, some, List, [], length,
  get_elem?, set, ltb, ◌==◌, if◌then◌else◌,
}
use agentchain.Bytes.Compare.{Bytes, bytes_order}
use agentchain.Codec.Body.{name_valid}
use agentchain.Table.{Slot, found, missing, lookup, insert_at, remove_at}
use agentchain.State.Names.{name_order}

pub record Account : Type 0 where
  pub addr : Bytes
  pub balance : ℕ
  pub nonce : ℕ
  pub stake : ℕ
  pub unbond_at : ℕ

-- `name` holds the `len` bytes in use.
pub record StateName : Type 0 where
  pub name : Bytes
  pub addr : Bytes

pub record State : Type 0 where
  pub chain_id : ℕ
  pub accounts : List Account
  pub names : List StateName

abbrev pub addr_of : Account → Bytes
addr_of a = a.addr

abbrev pub name_of : StateName → Bytes
name_of n = n.name

unfoldable pub state_new : ℕ → State
state_new chain_id = record { chain_id = chain_id; accounts = []; names = [] }

unfoldable pub acc_lookup : State → Bytes → Slot
acc_lookup s addr = lookup bytes_order addr_of s.accounts addr

-- `memset(out, 0, ...)`, and the address.
abbrev pub blank : Bytes → Account
blank addr = record { addr = addr; balance = 0; nonce = 0; stake = 0; unbond_at = 0 }

abbrev pub or_blank : Bytes → Option Account → Account
or_blank addr none = blank addr
or_blank addr (some a) = a

-- The account written to `*out`, and whether it was found.
unfoldable pub state_get : State → Bytes → Account × Bool
state_get s addr = elim (acc_lookup s addr) [
  | missing _ ↦ (blank addr, false)
  | found i ↦ (or_blank addr (get_elem? s.accounts i), true)
]

unfoldable pub account_is_empty : Account → Bool
account_is_empty a = a.balance == 0 && a.nonce == 0 && a.stake == 0 && a.unbond_at == 0

unfoldable pub state_set : State → Account → State
state_set s acc = elim (acc_lookup s acc.addr) [
  | found i ↦
      if account_is_empty acc
      then record s { accounts = remove_at i s.accounts }
      else record s { accounts = set s.accounts i acc }
  | missing i ↦
      if account_is_empty acc then s else record s { accounts = insert_at i acc s.accounts }
]

unfoldable pub state_count : State → ℕ
state_count s = length s.accounts

-- `none` is the source's 0 with a zeroed account.
unfoldable pub state_at : State → ℕ → Option Account
state_at s i = get_elem? s.accounts i

-- `a.balance += amount` on a `uint64_t`.
unfoldable pub state_credit : State → Bytes → ℕ → State
state_credit s addr amount =
    let a = (state_get s addr).0 in
    state_set s (record a { balance = (a.balance + amount) % 2 ^ 64 })

unfoldable pub state_debit : State → Bytes → ℕ → State
state_debit s addr amount =
    let a = (state_get s addr).0 in
    state_set s (record a { balance = if ltb a.balance amount then 0 else a.balance - amount })

unfoldable pub name_lookup_index : State → Bytes → Slot
name_lookup_index s name = lookup name_order name_of s.names name

unfoldable pub state_name_lookup : State → Bytes → Option Bytes
state_name_lookup s name = elim (name_lookup_index s name) [
  | missing _ ↦ none
  | found i ↦ elim (get_elem? s.names i) [ none ↦ none | some n ↦ some n.addr ]
]

-- `none` is the source's -1.
unfoldable pub state_name_register : State → Bytes → Bytes → Option State
state_name_register s name addr =
    if not (name_valid name) then none else elim (name_lookup_index s name) [
      | found _ ↦ none
      | missing i ↦
          some (record s { names = insert_at i (record { name = name; addr = addr }) s.names })
    ]
