-- ===== src/Bytes/Compare.antt =====
-- `memcmp` of common.h's address and hash comparisons, on byte lists. For arrays of one length it
-- is the sign of C's `memcmp`; a proper prefix comes first.
use Prim.Native.Nat.{compare, Ordering}
use agentchain.Base.{ℕ, List, [], ◌∷◌, ◌≡◌, refl, Bool, true, false, arith, ◌↔◌}
use agentchain.Base.Order.{Order}

abbrev pub Bytes : Type 0
Bytes = List ℕ

abbrev pub next : Ordering → Ordering → Ordering
next Ordering.eq o = o
next Ordering.lt o = Ordering.lt
next Ordering.gt o = Ordering.gt

unfoldable pub memcmp : Bytes → Bytes → Ordering
memcmp [] [] = Ordering.eq
memcmp [] (y ∷ ys) = Ordering.lt
memcmp (x ∷ xs) [] = Ordering.gt
memcmp (x ∷ xs) (y ∷ ys) = next (compare x y) (memcmp xs ys)

pub memcmp_refl : (a : Bytes) → memcmp a a ≡ Ordering.eq
unfolding memcmp
memcmp_refl [] = refl
memcmp_refl (x ∷ xs) = ground (arith, memcmp_refl xs)

pub eq_of_memcmp : (a b : Bytes) → memcmp a b ≡ Ordering.eq → a ≡ b
unfolding memcmp
eq_of_memcmp [] [] h = refl
eq_of_memcmp [] (y ∷ ys) h = cc
eq_of_memcmp (x ∷ xs) [] h = cc
eq_of_memcmp (x ∷ xs) (y ∷ ys) h = ground (arith, eq_of_memcmp xs ys)

pub lt_of_memcmp-gt : (a b : Bytes) → memcmp a b ≡ Ordering.gt → memcmp b a ≡ Ordering.lt
unfolding memcmp
lt_of_memcmp-gt [] [] h = cc
lt_of_memcmp-gt [] (y ∷ ys) h = cc
lt_of_memcmp-gt (x ∷ xs) [] h = refl
lt_of_memcmp-gt (x ∷ xs) (y ∷ ys) h = ground (arith, lt_of_memcmp-gt xs ys)

pub gt_of_memcmp-lt : (a b : Bytes) → memcmp a b ≡ Ordering.lt → memcmp b a ≡ Ordering.gt
unfolding memcmp
gt_of_memcmp-lt [] [] h = cc
gt_of_memcmp-lt [] (y ∷ ys) h = refl
gt_of_memcmp-lt (x ∷ xs) [] h = cc
gt_of_memcmp-lt (x ∷ xs) (y ∷ ys) h = ground (arith, gt_of_memcmp-lt xs ys)

pub memcmp_trans :
    (a b c : Bytes) → memcmp a b ≡ Ordering.lt → memcmp b c ≡ Ordering.lt → memcmp a c ≡ Ordering.lt
unfolding memcmp
memcmp_trans [] [] c h k = cc
memcmp_trans [] (y ∷ ys) [] h k = cc
memcmp_trans [] (y ∷ ys) (z ∷ zs) h k = refl
memcmp_trans (x ∷ xs) [] c h k = cc
memcmp_trans (x ∷ xs) (y ∷ ys) [] h k = cc
memcmp_trans (x ∷ xs) (y ∷ ys) (z ∷ zs) h k = ground (arith, memcmp_trans xs ys zs)

unfoldable pub bytes_order : Order Bytes
bytes_order = record {
  cmp = memcmp;
  cmp_refl = memcmp_refl;
  eq_of_cmp = eq_of_memcmp;
  lt_of_gt = lt_of_memcmp-gt;
  gt_of_lt = gt_of_memcmp-lt;
  lt_trans = memcmp_trans;
}

-- `ac_addr_eq` and `ac_hash_eq`.
unfoldable pub bytes_eq : Bytes → Bytes → Bool
bytes_eq a b = elim (memcmp a b) [ Ordering.eq ↦ true | _ ↦ false ]

pub bytes_eq_refl : (a : Bytes) → bytes_eq a a ≡ true
unfolding bytes_eq
bytes_eq_refl a = ground (arith, memcmp_refl a)

pub bytes_eq_iff : (a b : Bytes) → (bytes_eq a b ≡ true) ↔ (a ≡ b)
unfolding bytes_eq
bytes_eq_iff a b = ground (arith, eq_of_memcmp a b, memcmp_refl a)
