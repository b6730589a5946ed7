-- ===== src/Table/Totals.antt =====
-- A quantity summed over the sorted arrays of src/state.c.
use agentchain.Base.{ℕ, ◌+◌, ◌≡◌, refl, Option, none, some, List, [], ◌∷◌, arith}
use agentchain.Base.Order.{Order}
use agentchain.Table.{read, write, delete}
use agentchain.Table.Rank.{IsSorted}
use agentchain.Table.Update.{find, place, discard, read-find, write-place, delete-discard}

module _ {A : Type 0} (size : A → ℕ) where
  unfoldable pub total : List A → ℕ
  total [] = 0
  total (x ∷ xs) = size x + total xs

  abbrev pub worth : Option A → ℕ
  worth none = 0
  worth (some a) = size a

module _ {A K : Type 0} (o : Order K) (key : A → K) (size : A → ℕ) where
  total-place :
      (a : A) (xs : List A)
      → total size (place o key a xs) + worth size (find o key (key a) xs) ≡ total size xs + size a
  unfolding total place find
  total-place a [] = omega arith
  total-place a (x ∷ xs) = ground (arith, total-place a xs)

  total-discard :
      (k : K) (xs : List A)
      → total size (discard o key k xs) + worth size (find o key k xs) ≡ total size xs
  unfolding total discard find
  total-discard k [] = refl
  total-discard k (x ∷ xs) = ground (arith, total-discard k xs)

  module _ (xs : List A) (s : IsSorted o key xs) where
    -- A write replaces what was read under the key.
    pub total-write :
        (a : A)
        → total size (write o key a xs) + worth size (read o key xs (key a))
          ≡ total size xs + size a
    total-write a = rw (write-place o key xs s a, read-find o key xs s (key a)) (total-place a xs)

    pub total-delete :
        (k : K) → total size (delete o key k xs) + worth size (read o key xs k) ≡ total size xs
    total-delete k = rw (delete-discard o key xs s k, read-find o key xs s k) (total-discard k xs)
