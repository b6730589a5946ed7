-- ===== src/Table/Laws.antt =====
-- Reads after updates of the sorted arrays of src/state.c.
use Prim.Native.Nat.{Ordering}
use agentchain.Base.{
  ◌≡◌, ◌≢◌, refl, none, some, List, [], ◌∷◌, arith, All, inl, inr, Ordering-cases,
}
use agentchain.Base.Order.{Order}
use agentchain.Table.{read, write, delete}
use agentchain.Table.Rank.{Above, IsSorted, Above-mono}
use agentchain.Table.Update.{find, place, discard, read-find, write-place, delete-discard}

module _ {A K : Type 0} (o : Order K) (key : A → K) where
  Above-place :
      (j : K) (a : A) (xs : List A)
      → o.cmp j (key a) ≡ Ordering.lt
      → Above o key j xs
      → Above o key j (place o key a xs)
  unfolding place
  Above-place j a [] h k = h
  Above-place j a (x ∷ xs) h k = ground arith

  place-IsSorted : (a : A) (xs : List A) → IsSorted o key xs → IsSorted o key (place o key a xs)
  unfolding place
  place-IsSorted a [] s = (tt, tt)
  place-IsSorted a (x ∷ xs) s = elim (Ordering-cases (o.cmp (key x) (key a))) [
    | inl h ↦ rw (h, place) (Above-place (key x) a xs h s.0, place-IsSorted a xs s.1)
    | inr (inl h) ↦ rw (h, place) (rw (← o.eq_of_cmp (key x) (key a) h) s.0, s.1)
    | inr (inr h) ↦ rw (h, place) (o.lt_of_gt (key x) (key a) h, s)
  ]

  Above-discard :
      (j k : K) (xs : List A)
      → Above o key j xs
      → IsSorted o key xs
      → Above o key j (discard o key k xs)
  unfolding discard
  Above-discard j k [] h s = h
  Above-discard j k (x ∷ xs) h s = ground (arith, Above-mono o key j (key x) xs)

  discard-IsSorted : (k : K) (xs : List A) → IsSorted o key xs → IsSorted o key (discard o key k xs)
  unfolding discard
  discard-IsSorted k [] s = tt
  discard-IsSorted k (x ∷ xs) s = elim (Ordering-cases (o.cmp (key x) k)) [
    | inl h ↦ rw (h, discard) (Above-discard (key x) k xs s.0 s.1, discard-IsSorted k xs s.1)
    | inr (inl h) ↦ rw (h, discard) s.1
    | inr (inr h) ↦ rw (h, discard) s
  ]

  find-Above : (j : K) (xs : List A) → Above o key j xs → find o key j xs ≡ none
  unfolding find
  find-Above j [] h = refl
  find-Above j (x ∷ xs) h = ground (arith, o.gt_of_lt j (key x))

  find-place_self : (a : A) (xs : List A) → find o key (key a) (place o key a xs) ≡ some a
  unfolding find place
  find-place_self a [] = rw (o.cmp_refl (key a)) refl
  find-place_self a (x ∷ xs) = ground (arith, find-place_self a xs, o.cmp_refl (key a))

  find-place_ne :
      (a : A) (j : K) (xs : List A) → key a ≢ j → find o key j (place o key a xs) ≡ find o key j xs
  unfolding find place
  find-place_ne a j [] h = ground (arith, o.eq_of_cmp (key a) j)
  find-place_ne a j (x ∷ xs) h = ground (
    arith,
    find-place_ne a j xs h,
    o.eq_of_cmp (key a) j,
    o.eq_of_cmp (key x) (key a),
    o.lt_of_gt (key x) (key a),
    o.lt_of_gt (key a) j,
    o.lt_trans j (key a) (key x),
    o.gt_of_lt j (key x),
  )

  find-discard_self :
      (k : K) (xs : List A) → IsSorted o key xs → find o key k (discard o key k xs) ≡ none
  unfolding find discard
  find-discard_self k [] s = refl
  find-discard_self k (x ∷ xs) s =
      ground (arith, find-discard_self k xs s.1, find-Above k xs, o.eq_of_cmp (key x) k)

  find-discard_ne :
      (j k : K) (xs : List A)
      → IsSorted o key xs
      → k ≢ j
      → find o key j (discard o key k xs) ≡ find o key j xs
  unfolding find discard
  find-discard_ne j k [] s h = refl
  find-discard_ne j k (x ∷ xs) s h = ground (
    arith,
    find-discard_ne j k xs s.1 h,
    o.eq_of_cmp (key x) k,
    o.eq_of_cmp k j,
    o.lt_of_gt k j,
    Above-mono o key j k xs,
    find-Above j xs,
  )

  module _ (xs : List A) (s : IsSorted o key xs) where
    pub write-IsSorted : (a : A) → IsSorted o key (write o key a xs)
    write-IsSorted a = rw (write-place o key xs s a) (place-IsSorted a xs s)

    pub delete-IsSorted : (k : K) → IsSorted o key (delete o key k xs)
    delete-IsSorted k = rw (delete-discard o key xs s k) (discard-IsSorted k xs s)

    pub read-write_self : (a : A) → read o key (write o key a xs) (key a) ≡ some a
    read-write_self a =
        rw (read-find o key (write o key a xs) (write-IsSorted a) (key a), write-place o key xs s a)
          (find-place_self a xs)

    pub read-write_ne :
        (a : A) (j : K) → key a ≢ j → read o key (write o key a xs) j ≡ read o key xs j
    read-write_ne a j h =
        rw
          (
            read-find o key (write o key a xs) (write-IsSorted a) j,
            read-find o key xs s j,
            write-place o key xs s a,
          )
          (find-place_ne a j xs h)

    pub read-delete_self : (k : K) → read o key (delete o key k xs) k ≡ none
    read-delete_self k =
        rw (read-find o key (delete o key k xs) (delete-IsSorted k) k, delete-discard o key xs s k)
          (find-discard_self k xs s)

    pub read-delete_ne : (k j : K) → k ≢ j → read o key (delete o key k xs) j ≡ read o key xs j
    read-delete_ne k j h =
        rw
          (
            read-find o key (delete o key k xs) (delete-IsSorted k) j,
            read-find o key xs s j,
            delete-discard o key xs s k,
          )
          (find-discard_ne j k xs s h)

  All-place : (P : A → Type 0) (a : A) (xs : List A) → P a → All P xs → All P (place o key a xs)
  unfolding place
  All-place P a [] h k = (h, tt)
  All-place P a (x ∷ xs) h k = ground (arith, All-place P a xs h k.1)

  All-discard : (P : A → Type 0) (k : K) (xs : List A) → All P xs → All P (discard o key k xs)
  unfolding discard
  All-discard P k [] h = tt
  All-discard P k (x ∷ xs) h = ground (arith, All-discard P k xs h.1)

  module _ (P : A → Type 0) (xs : List A) (s : IsSorted o key xs) (h : All P xs) where
    pub All-write : (a : A) → P a → All P (write o key a xs)
    All-write a k = rw (write-place o key xs s a) (All-place P a xs k h)

    pub All-delete : (k : K) → All P (delete o key k xs)
    All-delete k = rw (delete-discard o key xs s k) (All-discard P k xs h)

  tails_agree :
      (x y : A) (xs ys : List A)
      → key x ≡ key y
      → IsSorted o key (x ∷ xs)
      → IsSorted o key (y ∷ ys)
      → ((k : K) → find o key k (x ∷ xs) ≡ find o key k (y ∷ ys))
      → (k : K) → find o key k xs ≡ find o key k ys
  unfolding find
  tails_agree x y xs ys e s t h k = elim (Ordering-cases (o.cmp (key x) k)) [
    | inl c ↦ ground (arith, h k)
    | inr (inl c) ↦ ground (arith, o.eq_of_cmp (key x) k, find-Above k xs, find-Above k ys)
    | inr (inr c) ↦ ground (
      arith,
      o.lt_of_gt (key x) k,
      Above-mono o key k (key x) xs,
      Above-mono o key k (key y) ys,
      find-Above k xs,
      find-Above k ys,
    )
  ]

  head_found : (x : A) (xs : List A) → find o key (key x) (x ∷ xs) ≡ some x
  unfolding find
  head_found x xs = rw (o.cmp_refl (key x), find) refl

  head_first :
      (x y : A) (ys : List A)
      → o.cmp (key x) (key y) ≡ Ordering.lt
      → find o key (key x) (y ∷ ys) ≡ none
  unfolding find
  head_first x y ys h = rw (o.gt_of_lt (key x) (key y) h, find) refl

  -- A sorted array is determined by what its reads return.
  pub sorted_ext :
      (xs ys : List A)
      → IsSorted o key xs
      → IsSorted o key ys
      → ((k : K) → find o key k xs ≡ find o key k ys)
      → xs ≡ ys
  sorted_ext [] [] s t h = refl
  sorted_ext [] (y ∷ ys) s t h = ground (arith, h (key y), head_found y ys, find-Above (key y) [])
  sorted_ext (x ∷ xs) [] s t h = ground (arith, h (key x), head_found x xs, find-Above (key x) [])
  sorted_ext (x ∷ xs) (y ∷ ys) s t h = elim (Ordering-cases (o.cmp (key x) (key y))) [
    | inl c ↦ ground (arith, h (key x), head_found x xs, head_first x y ys)
    | inr (inl c) ↦
        let k : key x ≡ key y = o.eq_of_cmp (key x) (key y) c in
        let same : x ≡ y = cc (h (key x), head_found x xs, head_found y ys, k) in
        cc (same, sorted_ext xs ys s.1 t.1 (tails_agree x y xs ys k s t h))
    | inr (inr c) ↦
        ground (arith, h (key y), head_found y ys, head_first y x xs, o.lt_of_gt (key x) (key y))
  ]
