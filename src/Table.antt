-- ===== src/Table.antt =====
-- The sorted arrays of src/state.c, generic in the records and their key: `acc_lookup` and
-- `name_lookup_index` are one binary search, and the two `memmove` insertions one insertion.
-- Growing the buffer (`accounts_reserve`, `names_reserve`) is left out: `realloc` does not fail.
pub mod Rank
pub mod Update
pub mod Laws
pub mod Totals
use Prim.Native.Nat.{Ordering}
use agentchain.Base.{
  ℕ, zero, suc, ◌+◌, ◌-◌, ◌/◌, true, false, Option, none, some, List, [], ◌∷◌, length, get_elem?,
  set, ltb,
}
use agentchain.Base.Order.{Order}

-- The source returns `i` for `found i` and `-(i + 1)` for `missing i`.
pub data Slot : Type 0 where
  found : ℕ → Slot
  missing : ℕ → Slot

module _ {A K : Type 0} (o : Order K) (key : A → K) (xs : List A) (k : K) where
  -- The comparison at `mid`; a read past the end, which does not happen, ends the search.
  abbrev pub probe : ℕ → Ordering
  probe mid = elim (get_elem? xs mid) [ none ↦ Ordering.eq | some a ↦ o.cmp (key a) k ]

  -- The loop `while (lo <= hi)`, with `top` for `hi + 1`, since `hi` goes down to -1: the test is
  -- `lo < top`, `mid` is `(lo + top - 1) / 2`, and `hi = mid - 1` is `top = mid`.
  unfoldable pub lookup_loop : ℕ → ℕ → ℕ → Slot
  lookup_loop zero lo top = missing lo
  lookup_loop (suc fuel) lo top =
      let mid = (lo + top - 1) / 2 in
      let right = lookup_loop fuel (mid + 1) top in
      let left = lookup_loop fuel lo mid in
      elim (ltb lo top) [
        | false ↦ missing lo
        | true ↦ elim (probe mid) [
          | Ordering.eq ↦ found mid
          | Ordering.lt ↦ right
          | Ordering.gt ↦ left
        ]
      ]

  -- Each round takes a cell at least from the range, so `length xs` rounds are enough.
  unfoldable pub lookup : Slot
  unfolding lookup_loop
  lookup = lookup_loop (length xs) 0 (length xs)

module _ {A : Type 0} where
  -- The `memmove`s: cell `i` is removed, or a cell is opened at `i`.
  abbrev pub remove_at : ℕ → List A → List A
  remove_at i [] = []
  remove_at zero (x ∷ xs) = xs
  remove_at (suc i) (x ∷ xs) = x ∷ remove_at i xs

  abbrev pub insert_at : ℕ → A → List A → List A
  insert_at zero a xs = a ∷ xs
  insert_at (suc i) a [] = a ∷ []
  insert_at (suc i) a (x ∷ xs) = x ∷ insert_at i a xs

module _ {A K : Type 0} (o : Order K) (key : A → K) where
  -- The record with a key, by the search.
  unfoldable pub read : List A → K → Option A
  read xs k = elim (lookup o key xs k) [ found i ↦ get_elem? xs i | missing _ ↦ none ]

  -- `arr[i] = a` where the key is found, and the insertion where it is not.
  unfoldable pub write : A → List A → List A
  write a xs = elim (lookup o key xs (key a)) [
    | found i ↦ set xs i a
    | missing i ↦ insert_at i a xs
  ]

  unfoldable pub delete : K → List A → List A
  delete k xs = elim (lookup o key xs k) [ found i ↦ remove_at i xs | missing _ ↦ xs ]
