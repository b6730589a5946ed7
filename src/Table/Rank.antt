-- ===== src/Table/Rank.antt =====
-- The binary search of src/state.c against a scan of the array.
use Prim.Native.Nat.{Ordering}
use mathlib.Core.Path.{subst}
use agentchain.Base.{
  ℕ, zero, suc, ◌+◌, ◌-◌, ◌/◌, ◌≤◌, ◌<◌, ◌≡◌, ◌⊎◌, inl, inr, refl, ap, ◌∙◌, none, some, List, [],
  ◌∷◌, arith, length, get_elem?, ltb, Bool-cases, Option-cases, Ordering-cases, ltb→lt,
}
use agentchain.Base.Order.{Order}
use agentchain.Table.{Slot, found, missing, probe, lookup_loop, lookup}

module _ {A K : Type 0} (o : Order K) (key : A → K) where
  -- The first key, if any, is larger than `k`.
  abbrev pub Above : K → List A → Type 0
  Above k [] = Unit
  Above k (x ∷ xs) = o.cmp k (key x) ≡ Ordering.lt

  abbrev pub IsSorted : List A → Type 0
  IsSorted [] = Unit
  IsSorted (x ∷ xs) = Above (key x) xs × IsSorted xs

  -- How many keys stand before `k`.
  unfoldable pub rank : K → List A → ℕ
  rank k [] = 0
  rank k (x ∷ xs) = elim (o.cmp (key x) k) [ Ordering.lt ↦ suc (rank k xs) | _ ↦ 0 ]

  -- What a scan answers.
  unfoldable pub scan : K → List A → Slot
  scan k xs = elim (get_elem? xs (rank k xs)) [
    | none ↦ missing (rank k xs)
    | some a ↦ elim (o.cmp (key a) k) [ Ordering.eq ↦ found (rank k xs) | _ ↦ missing (rank k xs) ]
  ]

  rank-le : (k : K) (xs : List A) → rank k xs ≤ length xs
  unfolding rank
  rank-le k [] = omega arith
  rank-le k (x ∷ xs) = ground (arith, rank-le k xs)

  pub Above-mono : (j k : K) (xs : List A) → o.cmp j k ≡ Ordering.lt → Above k xs → Above j xs
  Above-mono j k [] h a = tt
  Above-mono j k (x ∷ xs) h a = o.lt_trans j k (key x) h a

  -- In a sorted array the keys behind a larger one are larger.
  elem-Above :
      (k : K) (xs : List A) (i : ℕ) (a : A)
      → IsSorted xs
      → Above k xs
      → get_elem? xs i ≡ some a
      → o.cmp k (key a) ≡ Ordering.lt
  elem-Above k [] i a s h e = ground arith
  elem-Above k (x ∷ xs) zero a s h e = ground arith
  elem-Above k (x ∷ xs) (suc i) a s h e = elem-Above k xs i a s.1 (Above-mono k (key x) xs h s.0) e

  before_rank :
      (k : K) (xs : List A) (i : ℕ) (a : A)
      → IsSorted xs
      → get_elem? xs i ≡ some a
      → o.cmp (key a) k ≡ Ordering.lt
      → i < rank k xs
  unfolding rank
  before_rank k [] i a s e h = ground arith
  before_rank k (x ∷ xs) zero a s e h = ground arith
  before_rank k (x ∷ xs) (suc i) a s e h =
      let hx : o.cmp (key x) k ≡ Ordering.lt =
        o.lt_trans (key x) (key a) k (elem-Above (key x) xs i a s.1 s.0 e) h in
      rw (hx, rank) (omega (arith, before_rank k xs i a s.1 e h))

  not_before_rank :
      (k : K) (xs : List A) (i : ℕ) (a : A)
      → get_elem? xs i ≡ some a
      → i < rank k xs
      → o.cmp (key a) k ≡ Ordering.lt
  unfolding rank
  not_before_rank k [] i a e h = ground arith
  not_before_rank k (x ∷ xs) zero a e h = ground arith
  not_before_rank k (x ∷ xs) (suc i) a e h = ground (arith, not_before_rank k xs i a)

  at_rank :
      (k : K) (xs : List A) (i : ℕ) (a : A)
      → IsSorted xs
      → get_elem? xs i ≡ some a
      → o.cmp (key a) k ≡ Ordering.eq
      → i ≡ rank k xs
  unfolding rank
  at_rank k [] i a s e h = ground arith
  at_rank k (x ∷ xs) zero a s e h = ground arith
  at_rank k (x ∷ xs) (suc i) a s e h =
      let hx : o.cmp (key x) k ≡ Ordering.lt =
        rw (o.eq_of_cmp (key a) k h) at (elem-Above (key x) xs i a s.1 s.0 e) in
      rw (hx, rank) (ap suc (at_rank k xs i a s.1 e h))

  get_elem?-some : (xs : List A) (i : ℕ) → i < length xs → (a : A) × (get_elem? xs i ≡ some a)
  get_elem?-some [] i h = absurd (omega arith)
  get_elem?-some (x ∷ xs) zero h = (x, refl)
  get_elem?-some (x ∷ xs) (suc i) h = get_elem?-some xs i (omega arith)

  get_elem?-length : (xs : List A) → get_elem? xs (length xs) ≡ none
  get_elem?-length [] = refl
  get_elem?-length (x ∷ xs) = get_elem?-length xs

  scan_missing :
      (k : K) (xs : List A)
      → ((a : A) → get_elem? xs (rank k xs) ≡ some a → o.cmp (key a) k ≡ Ordering.gt)
      → missing (rank k xs) ≡ scan k xs
  unfolding scan
  scan_missing k xs h = elim (Option-cases (get_elem? xs (rank k xs))) [
    | inl e ↦ rw (e, scan) refl
    | inr (a, e) ↦ rw (e, scan, h a e) refl
  ]

  scan_found :
      (k : K) (xs : List A) (a : A)
      → get_elem? xs (rank k xs) ≡ some a
      → o.cmp (key a) k ≡ Ordering.eq
      → found (rank k xs) ≡ scan k xs
  unfolding scan
  scan_found k xs a e h = rw (e, scan, h) refl

  pub scan-found :
      (k : K) (xs : List A) (i : ℕ)
      → scan k xs ≡ found i
      → (a : A) × (get_elem? xs i ≡ some a) × (key a ≡ k)
  unfolding scan
  scan-found k xs i h = elim (Option-cases (get_elem? xs (rank k xs))) [
    | inl e ↦ absurd (ground arith)
    | inr (a, e) ↦ (a, ground arith, ground (arith, o.eq_of_cmp (key a) k))
  ]

  module _ (k : K) (xs : List A) (s : IsSorted xs) where
    -- Everything from `top` on is known to be larger, everything before `lo` to be smaller.
    abbrev Beyond : ℕ → Type 0
    Beyond top = (a : A) → get_elem? xs top ≡ some a → o.cmp (key a) k ≡ Ordering.gt

    closed :
        (lo top : ℕ)
        → top ≤ lo
        → lo ≤ rank k xs
        → rank k xs ≤ top
        → Beyond top
        → missing lo ≡ scan k xs
    closed lo top h l r b =
        let here : lo ≡ rank k xs = omega arith in
        let there : top ≡ rank k xs = omega arith in
        rw here (scan_missing k xs (subst Beyond there b))

    probe_at : (m : ℕ) (a : A) → get_elem? xs m ≡ some a → probe o key xs k m ≡ o.cmp (key a) k
    probe_at m a e = rw (e, probe) refl

    -- What the comparison at `mid` says of the rank.
    probe_cases :
        (m : ℕ)
        → m < length xs
        → ((probe o key xs k m ≡ Ordering.lt) × (m + 1 ≤ rank k xs))
          ⊎ ((probe o key xs k m ≡ Ordering.eq) × (found m ≡ scan k xs))
          ⊎ ((probe o key xs k m ≡ Ordering.gt) × (rank k xs ≤ m) × Beyond m)
    probe_cases m h =
        let (a, e) = get_elem?-some xs m h in
        elim (Ordering-cases (o.cmp (key a) k)) [
          | inl c ↦ inl (probe_at m a e ∙ c, omega (arith, before_rank k xs m a s e c))
          | inr (inl c) ↦
              let same : m ≡ rank k xs = at_rank k xs m a s e c in
              inr (inl (probe_at m a e ∙ c, rw same (scan_found k xs a (rw same at e) c)))
          | inr (inr c) ↦ inr (
              inr (
                probe_at m a e ∙ c,
                ground (arith, not_before_rank k xs m a e),
                (λ a' e'. ground arith),
              ))
        ]

    -- On a sorted array the search of the source gives what a scan gives.
    lookup_loop-scan :
        (fuel lo top : ℕ)
        → top - lo ≤ fuel
        → lo ≤ rank k xs
        → rank k xs ≤ top
        → top ≤ length xs
        → Beyond top
        → lookup_loop o key xs k fuel lo top ≡ scan k xs
    unfolding lookup_loop
    lookup_loop-scan zero lo top f l r n b = closed lo top (omega arith) l r b
    lookup_loop-scan (suc fuel) lo top f l r n b = elim (Bool-cases (ltb lo top)) [
      | inr done ↦ rw (done, lookup_loop) (closed lo top (ground arith) l r b)
      | inl more ↦
          let lt : lo < top = ltb→lt lo top more in
          let m : ℕ = (lo + top - 1) / 2 in
          elim (probe_cases m (omega arith)) [
            | inl (c, right) ↦
                rw (more, lookup_loop, c)
                  (lookup_loop-scan fuel (m + 1) top (omega arith) right r n b)
            | inr (inl (c, hit)) ↦ rw (more, lookup_loop, c) hit
            | inr (inr (c, left, beyond)) ↦
                rw (more, lookup_loop, c)
                  (lookup_loop-scan fuel lo m (omega arith) l left (omega arith) beyond)
          ]
    ]

    -- On an array with strictly ascending keys the binary search returns what a scan from the left
    -- returns: the index of the key, or else the index where it is to be inserted. Its fuel, the
    -- length of the array, is enough.
    pub lookup-scan : lookup o key xs k ≡ scan k xs
    unfolding lookup
    lookup-scan =
        lookup_loop-scan (length xs) 0 (length xs) (omega arith) (omega arith) (rank-le k xs)
          (omega arith) (λ a e. ground (arith, get_elem?-length xs))
