-- ===== src/Mempool/Order.antt =====
-- Lists that are kept pairwise in a relation, for the entry array of src/mempool.c: cells are taken
-- out in any places, and one is put in.
use agentchain.Base.{ℕ, zero, suc, ◌+◌, ◌≤◌, ◌≡◌, refl, List, [], ◌∷◌, arith, All, length, take}
use agentchain.Table.{remove_at, insert_at}

-- `Kept xs ys`: `xs` is what is left of `ys`, in order, after cells were taken out.
pub data Kept {A : Type 0} : List A → List A → Type 0 where
  nil : Kept [] []
  keep : {x : A} {xs ys : List A} → Kept xs ys → Kept (x ∷ xs) (x ∷ ys)
  skip : {x : A} {xs ys : List A} → Kept xs ys → Kept xs (x ∷ ys)

-- Each element is in the relation with all that come after it.
abbrev pub Pairwise : {A : Type 0} → (A → A → Type 0) → List A → Type 0
Pairwise R [] = Unit
Pairwise R (x ∷ xs) = All (R x) xs × Pairwise R xs

module _ {A : Type 0} where
  pub all-Kept : (xs : List A) → Kept xs xs
  all-Kept [] = nil
  all-Kept (x ∷ xs) = keep (all-Kept xs)

  pub none-Kept : (xs : List A) → Kept [] xs
  none-Kept [] = nil
  none-Kept (x ∷ xs) = skip (none-Kept xs)

  pub remove_at-Kept : (i : ℕ) (xs : List A) → Kept (remove_at i xs) xs
  remove_at-Kept i [] = nil
  remove_at-Kept zero (x ∷ xs) = skip (all-Kept xs)
  remove_at-Kept (suc i) (x ∷ xs) = keep (remove_at-Kept i xs)

  pub take-Kept : (n : ℕ) (xs : List A) → Kept (take n xs) xs
  take-Kept zero xs = none-Kept xs
  take-Kept (suc n) [] = nil
  take-Kept (suc n) (x ∷ xs) = keep (take-Kept n xs)

  pub length-Kept : {xs ys : List A} → Kept xs ys → length xs ≤ length ys
  length-Kept nil = omega arith
  length-Kept (keep h) = omega (arith, length-Kept h)
  length-Kept (skip h) = omega (arith, length-Kept h)

  pub All-Kept : (P : A → Type 0) {xs ys : List A} → Kept xs ys → All P ys → All P xs
  All-Kept P nil h = tt
  All-Kept P (keep k) h = (h.0, All-Kept P k h.1)
  All-Kept P (skip k) h = All-Kept P k h.1

  pub Pairwise-Kept :
      (R : A → A → Type 0) {xs ys : List A} → Kept xs ys → Pairwise R ys → Pairwise R xs
  Pairwise-Kept R nil h = tt
  Pairwise-Kept R (keep k) h = (All-Kept (R _) k h.0, Pairwise-Kept R k h.1)
  Pairwise-Kept R (skip k) h = Pairwise-Kept R k h.1

  pub All-map : (P Q : A → Type 0) → ((x : A) → P x → Q x) → (xs : List A) → All P xs → All Q xs
  All-map P Q f [] h = tt
  All-map P Q f (x ∷ xs) h = (f x h.0, All-map P Q f xs h.1)

  pub All-insert_at :
      (P : A → Type 0) (i : ℕ) (a : A) (xs : List A) → P a → All P xs → All P (insert_at i a xs)
  All-insert_at P zero a xs p h = (p, h)
  All-insert_at P (suc i) a [] p h = (p, tt)
  All-insert_at P (suc i) a (x ∷ xs) p h = (h.0, All-insert_at P i a xs p h.1)

  -- A symmetric relation survives an insertion anywhere.
  pub Pairwise-insert_at :
      (R : A → A → Type 0)
      → ((x y : A) → R x y → R y x)
      → (i : ℕ) (a : A) (xs : List A) → All (R a) xs
      → Pairwise R xs
      → Pairwise R (insert_at i a xs)
  Pairwise-insert_at R swap zero a xs n h = (n, h)
  Pairwise-insert_at R swap (suc i) a [] n h = (tt, tt)
  Pairwise-insert_at R swap (suc i) a (x ∷ xs) n h =
      (All-insert_at (R x) i a xs (swap a x n.0) h.0, Pairwise-insert_at R swap i a xs n.1 h.1)

  pub length-insert_at : (i : ℕ) (a : A) (xs : List A) → length (insert_at i a xs) ≡ length xs + 1
  length-insert_at zero a xs = omega arith
  length-insert_at (suc i) a [] = refl
  length-insert_at (suc i) a (x ∷ xs) = omega (arith, length-insert_at i a xs)
