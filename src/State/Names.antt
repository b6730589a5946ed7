-- ===== src/State/Names.antt =====
-- `name_cmp` of src/state.c as an order.
use Prim.Native.Nat.{Ordering, compare}
use mathlib.Core.Path.{fun_ext, subst}
use agentchain.Base.{
  ◌<◌, sym, ap, ◌∙◌, inl, inr, Bool-cases, lt→ltb, le→ltb, ltb→lt, ℕ, suc, ◌≡◌, ◌≤◌, refl, [], ◌∷◌,
  arith, length, take, ltb, if◌then◌else◌,
}
use agentchain.Base.Order.{Order}
use agentchain.Bytes.Compare.{
  Bytes, memcmp, next, memcmp_refl, eq_of_memcmp, lt_of_memcmp-gt, gt_of_memcmp-lt, memcmp_trans,
}

-- The sign of the C result.
unfoldable pub name_cmp : Bytes → Bytes → Ordering
name_cmp a b =
    let n = if ltb (length a) (length b) then length a else length b in
    elim (memcmp (take n a) (take n b)) [
      | Ordering.lt ↦ Ordering.lt
      | Ordering.gt ↦ Ordering.gt
      | Ordering.eq ↦
          if ltb (length a) (length b)
          then Ordering.lt
          else if ltb (length b) (length a)
          then Ordering.gt
          else Ordering.eq
    ]

-- The comparison of the common prefix, and then of the lengths, for a given prefix length.
abbrev compared : ℕ → Bytes → Bytes → Ordering
compared n a b = elim (memcmp (take n a) (take n b)) [
  | Ordering.lt ↦ Ordering.lt
  | Ordering.gt ↦ Ordering.gt
  | Ordering.eq ↦
      if ltb (length a) (length b)
      then Ordering.lt
      else if ltb (length b) (length a)
      then Ordering.gt
      else Ordering.eq
]

compared-cons :
    (n x y : ℕ) (xs ys : Bytes)
    → compared (suc n) (x ∷ xs) (y ∷ ys) ≡ next (compare x y) (compared n xs ys)
unfolding memcmp
compared-cons n x y xs ys = ground arith

compared-zero_lt : (a b : Bytes) → length a < length b → compared 0 a b ≡ Ordering.lt
unfolding memcmp
compared-zero_lt a b h = ground arith

name_cmp-lt : (a b : Bytes) → length a < length b → name_cmp a b ≡ compared (length a) a b
unfolding name_cmp
name_cmp-lt a b h = rw (lt→ltb (length a) (length b) h, name_cmp) refl

name_cmp-le : (a b : Bytes) → length b ≤ length a → name_cmp a b ≡ compared (length b) a b
unfolding name_cmp
name_cmp-le a b h = rw (le→ltb (length a) (length b) h, name_cmp) refl

shorter : (a b : Bytes) → length a < length b → compared (length a) a b ≡ memcmp a b
unfolding memcmp
shorter [] [] h = absurd (omega arith)
shorter [] (y ∷ ys) h = ground arith
shorter (x ∷ xs) [] h = absurd (omega arith)
shorter (x ∷ xs) (y ∷ ys) h =
    compared-cons (length xs) x y xs ys ∙ ap (next (compare x y)) (shorter xs ys (omega arith))

longer : (a b : Bytes) → length b ≤ length a → compared (length b) a b ≡ memcmp a b
unfolding memcmp
longer [] [] h = ground arith
longer [] (y ∷ ys) h = absurd (omega arith)
longer (x ∷ xs) [] h = ground arith
longer (x ∷ xs) (y ∷ ys) h =
    compared-cons (length ys) x y xs ys ∙ ap (next (compare x y)) (longer xs ys (omega arith))

-- `name_cmp`, which compares the common length and then the lengths, is the lexicographic order of
-- whole names, a proper prefix first.
pub name_cmp-memcmp : (a b : Bytes) → name_cmp a b ≡ memcmp a b
name_cmp-memcmp a b = elim (Bool-cases (ltb (length a) (length b))) [
  | inl h ↦ let l = ltb→lt _ _ h in name_cmp-lt a b l ∙ shorter a b l
  | inr h ↦ let l : length b ≤ length a = ground arith in name_cmp-le a b l ∙ longer a b l
]

same_cmp : name_cmp ≡ memcmp
same_cmp = fun_ext λ a. fun_ext λ b. name_cmp-memcmp a b

-- What `name_cmp` must satisfy for the sorted array.
abbrev pub Lawful : (Bytes → Bytes → Ordering) → Type 0
Lawful cmp =
    ((a : Bytes) → cmp a a ≡ Ordering.eq)
    × ((a b : Bytes) → cmp a b ≡ Ordering.eq → a ≡ b)
    × ((a b : Bytes) → cmp a b ≡ Ordering.gt → cmp b a ≡ Ordering.lt)
    × ((a b : Bytes) → cmp a b ≡ Ordering.lt → cmp b a ≡ Ordering.gt)
    × ((a b c : Bytes) → cmp a b ≡ Ordering.lt → cmp b c ≡ Ordering.lt → cmp a c ≡ Ordering.lt)

pub name_cmp-Lawful : Lawful name_cmp
name_cmp-Lawful =
    subst Lawful (sym same_cmp)
      (memcmp_refl, eq_of_memcmp, lt_of_memcmp-gt, gt_of_memcmp-lt, memcmp_trans)

unfoldable pub name_order : Order Bytes
name_order = record {
  cmp = name_cmp;
  cmp_refl = name_cmp-Lawful.0;
  eq_of_cmp = name_cmp-Lawful.1;
  lt_of_gt = name_cmp-Lawful.2;
  gt_of_lt = name_cmp-Lawful.3;
  lt_trans = name_cmp-Lawful.4;
}
