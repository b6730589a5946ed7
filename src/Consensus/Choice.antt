-- ===== src/Consensus/Choice.antt =====
-- The loop of `vote_phase` in src/consensus.c that chooses a proposal.
use agentchain.Base.{
  ℕ, suc, ◌+◌, ◌<◌, ◌≡◌, refl, sym, ap, Bool, true, false, ◌⊎◌, Option, none, some, List, [], ◌∷◌,
  inl, inr, Bool-cases, arith, ltb, get_elem?, length,
}
use mathlib.Core.Path.{subst}
use agentchain.Bytes.Compare.{Bytes, memcmp_refl, memcmp_trans}
use agentchain.Consensus.{Pending}
use agentchain.Consensus.Votes.{priority_cmp, is_lower}
use agentchain.Consensus.Slots.{is_candidate, best_from}

-- The best of the first `n` entries.
abbrev pub BestOf : List Pending → ℕ → ℕ → Option (ℕ × Pending) → Type 0
BestOf all target n none =
    (j : ℕ) (p : Pending) → j < n → get_elem? all j ≡ some p → is_candidate target p ≡ false
BestOf all target n (some (k, q)) =
    get_elem? all k ≡ some q
    × is_candidate target q ≡ true
    × ((j : ℕ) (p : Pending)
        → j < n
        → get_elem? all j ≡ some p
        → is_candidate target p ≡ true
        → is_lower p.priority q.priority ≡ false)

is_lower_refl : (a : Bytes) → is_lower a a ≡ false
unfolding priority_cmp
is_lower_refl a = rw (is_lower, memcmp_refl a) refl

is_lower_trans : (a b c : Bytes) → is_lower b c ≡ true → is_lower a c ≡ false → is_lower a b ≡ false
unfolding priority_cmp
is_lower_trans a b c h k = ground (arith, memcmp_trans a b c)

at_or_before : (j i : ℕ) → j < i + 1 → (j < i) ⊎ (j ≡ i)
at_or_before j i h = elim (Bool-cases (ltb j i)) [
  | inl less ↦ inl (ground (arith, less))
  | inr more ↦ inr (ground (arith, more, h))
]

clash : {t : Bool} → t ≡ false → t ≡ true → ⊥
clash h k = cc

module _ (all : List Pending) (target i : ℕ) (p : Pending) (here : get_elem? all i ≡ some p) where
  same_entry : (j : ℕ) (q : Pending) → j ≡ i → get_elem? all j ≡ some q → p ≡ q
  same_entry j q e there = let there' = subst (λ n. get_elem? all n ≡ some q) e there in cc

  skip-BestOf :
      (best : Option (ℕ × Pending))
      → is_candidate target p ≡ false
      → BestOf all target i best
      → BestOf all target (i + 1) best
  skip-BestOf none out before = λ j q lt there. elim (at_or_before j i lt) [
    | inl less ↦ before j q less there
    | inr e ↦ subst (λ r. is_candidate target r ≡ false) (same_entry j q e there) out
  ]
  skip-BestOf (some (k, b)) out (at, good, before) = (
    at,
    good,
    λ j q lt there cand. elim (at_or_before j i lt) [
      | inl less ↦ before j q less there cand
      | inr e ↦ absurd (
          clash out (subst (λ r. is_candidate target r ≡ true) (sym (same_entry j q e there)) cand))
    ],
  )

  first-BestOf :
      is_candidate target p ≡ true
      → BestOf all target i none
      → BestOf all target (i + 1) (some (i, p))
  first-BestOf good before = (
    here,
    good,
    λ j q lt there cand. elim (at_or_before j i lt) [
      | inl less ↦ absurd (clash (before j q less there) cand)
      | inr e ↦
          subst (λ r. is_lower r.priority p.priority ≡ false) (same_entry j q e there)
            (is_lower_refl p.priority)
    ],
  )

  lower-BestOf :
      (k : ℕ) (b : Pending)
      → is_candidate target p ≡ true
      → is_lower p.priority b.priority ≡ true
      → BestOf all target i (some (k, b))
      → BestOf all target (i + 1) (some (i, p))
  lower-BestOf k b good less (at, fine, before) = (
    here,
    good,
    λ j q lt there cand. elim (at_or_before j i lt) [
      | inl early ↦
          is_lower_trans q.priority p.priority b.priority less (before j q early there cand)
      | inr e ↦
          subst (λ r. is_lower r.priority p.priority ≡ false) (same_entry j q e there)
            (is_lower_refl p.priority)
    ],
  )

  keep-BestOf :
      (k : ℕ) (b : Pending)
      → is_lower p.priority b.priority ≡ false
      → BestOf all target i (some (k, b))
      → BestOf all target (i + 1) (some (k, b))
  keep-BestOf k b more (at, fine, before) = (
    at,
    fine,
    λ j q lt there cand. elim (at_or_before j i lt) [
      | inl early ↦ before j q early there cand
      | inr e ↦ subst (λ r. is_lower r.priority b.priority ≡ false) (same_entry j q e there) more
    ],
  )

abbrev Rest : List Pending → ℕ → List Pending → Type 0
Rest all i ps = (j : ℕ) → get_elem? ps j ≡ get_elem? all (i + j)

Rest-next :
    (all : List Pending) (i : ℕ) (p : Pending) (ps : List Pending)
    → Rest all i (p ∷ ps)
    → Rest all (i + 1) ps
Rest-next all i p ps r j =
    let at : i + suc j ≡ i + 1 + j = omega arith in
    subst (λ n. get_elem? ps j ≡ get_elem? all n) at (r (suc j))

Rest-here :
    (all : List Pending) (i : ℕ) (p : Pending) (ps : List Pending)
    → Rest all i (p ∷ ps)
    → get_elem? all i ≡ some p
Rest-here all i p ps r =
    let at : i + 0 ≡ i = omega arith in sym (subst (λ n. some p ≡ get_elem? all n) at (r 0))

best-BestOf :
    (all : List Pending) (target n : ℕ) (ps : List Pending) (i : ℕ) (best : Option (ℕ × Pending))
    → Rest all i ps
    → n ≡ i + length ps
    → BestOf all target i best
    → BestOf all target n (best_from ps target i best)
unfolding best_from
best-BestOf all target n [] i best r e before =
    let same : i ≡ n = omega (arith, e) in subst (λ m. BestOf all target m best) same before
best-BestOf all target n (p ∷ ps) i none r e before =
    let here = Rest-here all i p ps r in
    let next = Rest-next all i p ps r in
    let e' : n ≡ i + 1 + length ps = omega (arith, e) in
    elim (Bool-cases (is_candidate target p)) [
      | inr out ↦
          rw (best_from, out)
            (best-BestOf all target n ps (i + 1) none next e'
              (skip-BestOf all target i p here none out before))
      | inl good ↦
          rw (best_from, good)
            (best-BestOf all target n ps (i + 1) (some (i, p)) next e'
              (first-BestOf all target i p here good before))
    ]
best-BestOf all target n (p ∷ ps) i (some (k, b)) r e before =
    let here = Rest-here all i p ps r in
    let next = Rest-next all i p ps r in
    let e' : n ≡ i + 1 + length ps = omega (arith, e) in
    elim (Bool-cases (is_candidate target p)) [
      | inr out ↦
          rw (best_from, out)
            (best-BestOf all target n ps (i + 1) (some (k, b)) next e'
              (skip-BestOf all target i p here (some (k, b)) out before))
      | inl good ↦ elim (Bool-cases (is_lower p.priority b.priority)) [
        | inl less ↦
            rw (best_from, good, less)
              (best-BestOf all target n ps (i + 1) (some (i, p)) next e'
                (lower-BestOf all target i p here k b good less before))
        | inr more ↦
            rw (best_from, good, more)
              (best-BestOf all target n ps (i + 1) (some (k, b)) next e'
                (keep-BestOf all target i p here k b more before))
      ]
    ]

-- The choice of the vote phase, over the whole table: if there is one, it is the entry at its index, it is
-- occupied, not committed and of the height, and no other such entry has a lower priority; if there
-- is none, no entry is such.
pub best_from-BestOf :
    (ps : List Pending) (target : ℕ) → BestOf ps target (length ps) (best_from ps target 0 none)
best_from-BestOf ps target =
    best-BestOf ps target (length ps) ps 0 none (λ j. ap (get_elem? ps) (omega arith)) (omega arith)
      (λ j p lt there. absurd (omega (arith, lt)))
