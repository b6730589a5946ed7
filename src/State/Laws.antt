-- ===== src/State/Laws.antt =====
-- The accounts of src/state.c as a map: `ac_state_get` and `ac_state_set`, and the invariant of the arrays.
use agentchain.Base.{
  ◌≡◌, ◌≢◌, refl, sym, ap, ◌∙◌, Bool, true, false, not, Option, none, some, arith, All,
  if◌then◌else◌, inl, inr, Bool-cases,
}
use agentchain.Bytes.Compare.{Bytes, bytes_order, bytes_eq, bytes_eq_iff}
use agentchain.Codec.Body.{name_valid}
use agentchain.Table.{Slot, found, missing, lookup, read, write, delete}
use agentchain.Table.Rank.{IsSorted, lookup-scan, scan-found}
use agentchain.Table.Update.{find, read-find}
use agentchain.Table.Laws.{
  write-IsSorted, delete-IsSorted, read-write_self, read-write_ne, read-delete_self, read-delete_ne,
  sorted_ext, All-write, All-delete,
}
use agentchain.State.{
  Account, State, addr_of, name_of, acc_lookup, blank, state_get, account_is_empty, state_set,
}
use agentchain.State.Names.{name_order}

abbrev pub Sorted : State → Type 0
Sorted s = IsSorted bytes_order addr_of s.accounts

abbrev pub IsStored : Account → Type 0
IsStored a = account_is_empty a ≡ false

-- Accounts and names strictly ascending, no empty account stored, every name well formed.
pub record IsValid (s : State) : Type 0 where
  pub sorted : Sorted s
  pub stored : All IsStored s.accounts
  pub names_sorted : IsSorted name_order name_of s.names
  pub names_valid : All (λ n. name_valid n.name ≡ true) s.names

-- The account stored under an address.
unfoldable pub view : State → Bytes → Option Account
view s k = read bytes_order addr_of s.accounts k

abbrev pub answer : Bytes → Option Account → Account × Bool
answer k none = (blank k, false)
answer k (some a) = (a, true)

pub get-view : (s : State) (k : Bytes) → Sorted s → state_get s k ≡ answer k (view s k)
unfolding state_get view acc_lookup read
get-view s k h = go (lookup bytes_order addr_of s.accounts k) refl
  where
    go :
        (l : Slot)
        → lookup bytes_order addr_of s.accounts k ≡ l
        → state_get s k ≡ answer k (view s k)
    go (missing i) e = rw (e, state_get, view, read) refl
    go (found i) e =
        let (a, at, _) =
          scan-found bytes_order addr_of k s.accounts i
            (sym (lookup-scan bytes_order addr_of k s.accounts h) ∙ e) in
        rw (e, state_get, view, read, at) refl

-- The address of what is read.
pub get-addr : (s : State) (k : Bytes) → Sorted s → (state_get s k).0.addr ≡ k
unfolding state_get acc_lookup
get-addr s k h = go (lookup bytes_order addr_of s.accounts k) refl
  where
    go : (l : Slot) → lookup bytes_order addr_of s.accounts k ≡ l → (state_get s k).0.addr ≡ k
    go (missing i) e = rw (e, state_get) refl
    go (found i) e =
        let (a, at, same) =
          scan-found bytes_order addr_of k s.accounts i
            (sym (lookup-scan bytes_order addr_of k s.accounts h) ∙ e) in
        rw (e, state_get, at) same

pub set-update :
    (s : State) (acc : Account)
    → state_set s acc ≡ (
        if account_is_empty acc
        then record s { accounts = delete bytes_order addr_of acc.addr s.accounts }
        else record s { accounts = write bytes_order addr_of acc s.accounts })
unfolding state_set acc_lookup delete write
set-update s acc = ground arith

empty_blank : (a : Account) → account_is_empty a ≡ true → a ≡ blank a.addr
unfolding account_is_empty
empty_blank a h = ground arith

abbrev kept : Account → Option Account
kept acc = if account_is_empty acc then none else some acc

module _ (s : State) (acc : Account) (h : Sorted s) where
  pub set-Sorted : Sorted (state_set s acc)
  set-Sorted = elim (Bool-cases (account_is_empty acc)) [
    | inl e ↦ rw (set-update s acc, e) (delete-IsSorted bytes_order addr_of s.accounts h acc.addr)
    | inr e ↦ rw (set-update s acc, e) (write-IsSorted bytes_order addr_of s.accounts h acc)
  ]

  view-set_self : view (state_set s acc) acc.addr ≡ kept acc
  unfolding view
  view-set_self = elim (Bool-cases (account_is_empty acc)) [
    | inl e ↦ rw (set-update s acc, e) (read-delete_self bytes_order addr_of s.accounts h acc.addr)
    | inr e ↦ rw (set-update s acc, e) (read-write_self bytes_order addr_of s.accounts h acc)
  ]

  view-set_ne : (j : Bytes) → acc.addr ≢ j → view (state_set s acc) j ≡ view s j
  unfolding view
  view-set_ne j n = elim (Bool-cases (account_is_empty acc)) [
    | inl e ↦
        rw (set-update s acc, e) (read-delete_ne bytes_order addr_of s.accounts h acc.addr j n)
    | inr e ↦ rw (set-update s acc, e) (read-write_ne bytes_order addr_of s.accounts h acc j n)
  ]

  -- What was set is what is read, an empty account too.
  pub get-set_self : state_get (state_set s acc) acc.addr ≡ (acc, not (account_is_empty acc))
  get-set_self =
      get-view (state_set s acc) acc.addr set-Sorted
      ∙ ap (answer acc.addr) view-set_self
      ∙ ground (arith, empty_blank acc)

  -- Every other account is left alone.
  pub get-set_ne : (j : Bytes) → acc.addr ≢ j → state_get (state_set s acc) j ≡ state_get s j
  get-set_ne j n =
      get-view (state_set s acc) j set-Sorted
      ∙ ap (answer j) (view-set_ne j n)
      ∙ sym (get-view s j h)

-- On a sorted state, `ac_state_get` after `ac_state_set` returns what was set, at its address, with
-- the flag that says whether it is not empty, and at any other address what it returned before.
pub get-set :
    (s : State) (acc : Account) (j : Bytes)
    → Sorted s
    → state_get (state_set s acc) j
      ≡ (if bytes_eq acc.addr j then (acc, not (account_is_empty acc)) else state_get s j)
get-set s acc j h = elim (Bool-cases (bytes_eq acc.addr j)) [
  | inl e ↦ rw (e, ← (bytes_eq_iff acc.addr j).0 e) (get-set_self s acc h)
  | inr e ↦ rw e (get-set_ne s acc h j (λ p. cc ((bytes_eq_iff acc.addr j).1 p)))
]

pub names-set : (s : State) (acc : Account) → (state_set s acc).names ≡ s.names
names-set s acc = rw (set-update s acc) (ground arith)

pub chain_id-set : (s : State) (acc : Account) → (state_set s acc).chain_id ≡ s.chain_id
chain_id-set s acc = rw (set-update s acc) (ground arith)

IsStored-set : (s : State) (acc : Account) → IsValid s → All IsStored (state_set s acc).accounts
IsStored-set s acc v = elim (Bool-cases (account_is_empty acc)) [
  | inl e ↦
      rw (set-update s acc, e)
        (All-delete bytes_order addr_of IsStored s.accounts v.sorted v.stored acc.addr)
  | inr e ↦
      rw (set-update s acc, e)
        (All-write bytes_order addr_of IsStored s.accounts v.sorted v.stored acc e)
]

-- `ac_state_set` on a valid state keeps the accounts strictly ascending and without empty ones, and
-- the names.
pub set-IsValid : (s : State) (acc : Account) → IsValid s → IsValid (state_set s acc)
set-IsValid s acc v = record {
  sorted = set-Sorted s acc v.sorted;
  stored = IsStored-set s acc v;
  names_sorted = rw (names-set s acc) v.names_sorted;
  names_valid = rw (names-set s acc) v.names_valid;
}

answer_inj : (k : Bytes) (a b : Option Account) → answer k a ≡ answer k b → a ≡ b
answer_inj k a b e = ground arith

find_eq :
    (s t : State)
    → Sorted s
    → Sorted t
    → (k : Bytes) → state_get s k ≡ state_get t k
    → find bytes_order addr_of k s.accounts ≡ find bytes_order addr_of k t.accounts
unfolding view
find_eq s t v w k e =
    sym (read-find bytes_order addr_of s.accounts v k)
    ∙ answer_inj k (view s k) (view t k) (sym (get-view s k v) ∙ e ∙ get-view t k w)
    ∙ read-find bytes_order addr_of t.accounts w k

-- Two valid states of one chain that hold the same names, and return the same account for every
-- address, are equal.
pub state_ext :
    (s t : State)
    → IsValid s
    → IsValid t
    → s.chain_id ≡ t.chain_id
    → s.names ≡ t.names
    → ((k : Bytes) → state_get s k ≡ state_get t k)
    → s ≡ t
state_ext s t v w c n h =
    let same : s.accounts ≡ t.accounts =
      sorted_ext bytes_order addr_of s.accounts t.accounts v.sorted w.sorted
        (λ k. find_eq s t v.sorted w.sorted k (h k)) in
    cc (c, n, same)
