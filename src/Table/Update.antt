-- ===== src/Table/Update.antt =====
-- The updates of the sorted arrays of src/state.c, by recursion on the array.
use Prim.Native.Nat.{Ordering}
use agentchain.Base.{
  ℕ, suc, ◌≡◌, refl, ap, ◌∙◌, Option, none, some, List, [], ◌∷◌, arith, get_elem?, set, inl, inr,
  Ordering-cases,
}
use agentchain.Base.Order.{Order}
use agentchain.Table.{Slot, found, missing, lookup, insert_at, remove_at, read, write, delete}
use agentchain.Table.Rank.{IsSorted, rank, scan, lookup-scan}

module _ {A K : Type 0} (o : Order K) (key : A → K) where
  unfoldable pub find : K → List A → Option A
  find k [] = none
  find k (x ∷ xs) = elim (o.cmp (key x) k) [
    | Ordering.lt ↦ find k xs
    | Ordering.eq ↦ some x
    | Ordering.gt ↦ none
  ]

  unfoldable pub place : A → List A → List A
  place a [] = a ∷ []
  place a (x ∷ xs) = elim (o.cmp (key x) (key a)) [
    | Ordering.lt ↦ x ∷ place a xs
    | Ordering.eq ↦ a ∷ xs
    | Ordering.gt ↦ a ∷ x ∷ xs
  ]

  unfoldable pub discard : K → List A → List A
  discard k [] = []
  discard k (x ∷ xs) = elim (o.cmp (key x) k) [
    | Ordering.lt ↦ x ∷ discard k xs
    | Ordering.eq ↦ xs
    | Ordering.gt ↦ x ∷ xs
  ]

  abbrev at_slot : List A → Slot → Option A
  at_slot xs (found i) = get_elem? xs i
  at_slot xs (missing i) = none

  abbrev write_slot : A → List A → Slot → List A
  write_slot a xs (found i) = set xs i a
  write_slot a xs (missing i) = insert_at i a xs

  abbrev delete_slot : List A → Slot → List A
  delete_slot xs (found i) = remove_at i xs
  delete_slot xs (missing i) = xs

  abbrev shift : Slot → Slot
  shift (found i) = found (suc i)
  shift (missing i) = missing (suc i)

  abbrev judge : ℕ → K → Option A → Slot
  judge n k none = missing n
  judge n k (some a) = elim (o.cmp (key a) k) [ Ordering.eq ↦ found n | _ ↦ missing n ]

  scan-judge :
      (k : K) (xs : List A)
      → scan o key k xs ≡ judge (rank o key k xs) k (get_elem? xs (rank o key k xs))
  unfolding scan
  scan-judge k xs = ground arith

  shift-judge : (n : ℕ) (k : K) (m : Option A) → judge (suc n) k m ≡ shift (judge n k m)
  shift-judge n k none = refl
  shift-judge n k (some a) = ground arith

  rank_lt :
      (k : K) (x : A) (xs : List A)
      → o.cmp (key x) k ≡ Ordering.lt
      → rank o key k (x ∷ xs) ≡ suc (rank o key k xs)
  unfolding rank
  rank_lt k x xs h = rw (h, rank) refl

  scan_lt :
      (k : K) (x : A) (xs : List A)
      → o.cmp (key x) k ≡ Ordering.lt
      → scan o key k (x ∷ xs) ≡ shift (scan o key k xs)
  scan_lt k x xs h =
      rw (scan-judge k (x ∷ xs), scan-judge k xs, rank_lt k x xs h)
        (shift-judge (rank o key k xs) k (get_elem? xs (rank o key k xs)))

  scan_eq :
      (k : K) (x : A) (xs : List A)
      → o.cmp (key x) k ≡ Ordering.eq
      → scan o key k (x ∷ xs) ≡ found 0
  unfolding scan rank
  scan_eq k x xs h = ground arith

  scan_gt :
      (k : K) (x : A) (xs : List A)
      → o.cmp (key x) k ≡ Ordering.gt
      → scan o key k (x ∷ xs) ≡ missing 0
  unfolding scan rank
  scan_gt k x xs h = ground arith

  at_slot-shift : (x : A) (xs : List A) (s : Slot) → at_slot (x ∷ xs) (shift s) ≡ at_slot xs s
  at_slot-shift x xs (found i) = refl
  at_slot-shift x xs (missing i) = refl

  write_slot-shift :
      (a x : A) (xs : List A) (s : Slot) → write_slot a (x ∷ xs) (shift s) ≡ x ∷ write_slot a xs s
  write_slot-shift a x xs (found i) = refl
  write_slot-shift a x xs (missing i) = refl

  delete_slot-shift :
      (x : A) (xs : List A) (s : Slot) → delete_slot (x ∷ xs) (shift s) ≡ x ∷ delete_slot xs s
  delete_slot-shift x xs (found i) = refl
  delete_slot-shift x xs (missing i) = refl

  at_slot-find : (k : K) (xs : List A) → at_slot xs (scan o key k xs) ≡ find k xs
  unfolding find
  at_slot-find k [] = unfold scan rank in refl
  at_slot-find k (x ∷ xs) = elim (Ordering-cases (o.cmp (key x) k)) [
    | inl h ↦
        rw (scan_lt k x xs h, h, find) (at_slot-shift x xs (scan o key k xs) ∙ at_slot-find k xs)
    | inr (inl h) ↦ rw (scan_eq k x xs h, h, find) refl
    | inr (inr h) ↦ rw (scan_gt k x xs h, h, find) refl
  ]

  write_slot-place : (a : A) (xs : List A) → write_slot a xs (scan o key (key a) xs) ≡ place a xs
  unfolding place
  write_slot-place a [] = unfold scan rank in refl
  write_slot-place a (x ∷ xs) = elim (Ordering-cases (o.cmp (key x) (key a))) [
    | inl h ↦
        rw (scan_lt (key a) x xs h, h, place)
          (write_slot-shift a x xs (scan o key (key a) xs)
            ∙ ap (λ t. x ∷ t) (write_slot-place a xs))
    | inr (inl h) ↦ rw (scan_eq (key a) x xs h, h, place) refl
    | inr (inr h) ↦ rw (scan_gt (key a) x xs h, h, place) refl
  ]

  delete_slot-discard : (k : K) (xs : List A) → delete_slot xs (scan o key k xs) ≡ discard k xs
  unfolding discard
  delete_slot-discard k [] = unfold scan rank in refl
  delete_slot-discard k (x ∷ xs) = elim (Ordering-cases (o.cmp (key x) k)) [
    | inl h ↦
        rw (scan_lt k x xs h, h, discard)
          (delete_slot-shift x xs (scan o key k xs) ∙ ap (λ t. x ∷ t) (delete_slot-discard k xs))
    | inr (inl h) ↦ rw (scan_eq k x xs h, h, discard) refl
    | inr (inr h) ↦ rw (scan_gt k x xs h, h, discard) refl
  ]

  read_slot : (xs : List A) (k : K) → read o key xs k ≡ at_slot xs (lookup o key xs k)
  unfolding read
  read_slot xs k = ground arith

  write-slot : (a : A) (xs : List A) → write o key a xs ≡ write_slot a xs (lookup o key xs (key a))
  unfolding write
  write-slot a xs = ground arith

  delete-slot : (k : K) (xs : List A) → delete o key k xs ≡ delete_slot xs (lookup o key xs k)
  unfolding delete
  delete-slot k xs = ground arith

  module _ (xs : List A) (s : IsSorted o key xs) where
    -- On a sorted array the operations are those by recursion.
    pub read-find : (k : K) → read o key xs k ≡ find k xs
    read-find k = read_slot xs k ∙ ap (at_slot xs) (lookup-scan o key k xs s) ∙ at_slot-find k xs

    pub write-place : (a : A) → write o key a xs ≡ place a xs
    write-place a =
        write-slot a xs
        ∙ ap (write_slot a xs) (lookup-scan o key (key a) xs s)
        ∙ write_slot-place a xs

    pub delete-discard : (k : K) → delete o key k xs ≡ discard k xs
    delete-discard k =
        delete-slot k xs ∙ ap (delete_slot xs) (lookup-scan o key k xs s) ∙ delete_slot-discard k xs
