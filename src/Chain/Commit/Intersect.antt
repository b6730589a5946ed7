-- ===== src/Chain/Commit/Intersect.antt =====
-- The signers of two commit certificates that `validate_commit` of src/chain.c accepts.
use agentchain.Base.{
  ℕ, ◌*◌, ◌<◌, ◌^◌, ◌≡◌, refl, Bool, true, ◌||◌, List, [], ◌∷◌, ◌++◌, length, ◌==◌, inl, inr,
  Bool-cases, Option-cases, arith, All, All-append, take, suc, some, ◌⊎◌, get_elem?,
}
use agentchain.Bytes.Compare.{Bytes, bytes_eq, bytes_eq_iff}
use agentchain.Codec.Block.{CommitSigner, Block, committee_max}
use agentchain.Codec.Vote.{vote_message}
use agentchain.Mempool.Order.{Pairwise}
use agentchain.State.{State}
use agentchain.State.Laws.{Sorted}
use agentchain.Chain.Data.{Chain}
use agentchain.Chain.Live.{total_sqrt_stake}
use agentchain.Chain.Seed.{epoch_of, epoch_seed, committee_alpha}
use agentchain.Chain.Commit.{pre_table, signed_sqrt, thresholds, validate_commit}
use agentchain.Chain.Commit.Quorum.{weight, weights, IsVoter, signed-weights}
use agentchain.Chain.Commit.Power.{
  power, power_at, total_power, powers, OtherSigner, powers-le, powers-append, lookup-table,
  total_sqrt_stake_lem,
}

-- A signer that both certificates list, with its places.
abbrev pub Shared : List CommitSigner → List CommitSigner → Type 0
Shared xs ys =
    (i : ℕ) × (j : ℕ) × (x : CommitSigner) × (y : CommitSigner) × get_elem? xs i ≡ some x
    × get_elem? ys j ≡ some y
    × x.signer ≡ y.signer

find_signer :
    (x : CommitSigner) (ys : List CommitSigner)
    → ((j : ℕ) × (y : CommitSigner) × get_elem? ys j ≡ some y × x.signer ≡ y.signer)
      ⊎ All (OtherSigner x) ys
find_signer x [] = inr tt
find_signer x (y ∷ ys) = elim (Bool-cases (bytes_eq x.signer y.signer)) [
  | inl e ↦ inl (0, y, refl, (bytes_eq_iff x.signer y.signer).0 e)
  | inr e ↦ elim (find_signer x ys) [
    | inl (j, z, at, same) ↦ inl (suc j, z, at, same)
    | inr out ↦ inr (λ p. cc ((bytes_eq_iff x.signer y.signer).1 p), out)
  ]
]

-- Two lists of different signers share one, or all of both are different.
find-Shared :
    (xs ys : List CommitSigner)
    → Pairwise OtherSigner xs
    → Pairwise OtherSigner ys
    → Shared xs ys ⊎ Pairwise OtherSigner (xs ++ ys)
find-Shared [] ys h k = inr k
find-Shared (x ∷ xs) ys h k = elim (find_signer x ys) [
  | inl (j, y, at, same) ↦ inl (0, j, x, y, refl, at, same)
  | inr out ↦ elim (find-Shared xs ys h.1 k) [
    | inl (i, j, z, y, here, at, same) ↦ inl (suc i, j, z, y, here, at, same)
    | inr apart ↦ inr (All-append (OtherSigner x) xs ys h.0 out, apart)
  ]
]

module _ (hash : Bytes → Bytes) (verify : Bytes → Bytes → Bytes → Bool)
    (below : ℕ → ℕ → ℕ → Bool) where
  -- The weight that the loop adds for a signer that counts is the weight of its account.
  voter-power :
      (alpha message : Bytes) (all : ℕ) (s : State) (ys : List CommitSigner) (x : CommitSigner)
      → IsVoter hash verify below alpha message all (pre_table s ys) x
      → weight (pre_table s ys) x.signer ≡ power_at s x.signer
  unfolding power
  voter-power alpha message all s ys x v = elim (lookup-table s ys x.signer) [
    | inl zero_stake ↦ absurd (omega (arith, v.bonded, zero_stake))
    | inr same ↦ rw same (ground (arith, v.bonded, same))
  ]

  voters-powers :
      (alpha message : Bytes) (all : ℕ) (s : State) (ys xs : List CommitSigner)
      → All (IsVoter hash verify below alpha message all (pre_table s ys)) xs
      → weights (pre_table s ys) xs ≡ powers s xs
  unfolding weights powers
  voters-powers alpha message all s ys [] v = refl
  voters-powers alpha message all s ys (x ∷ xs) v =
      omega (
        arith,
        voter-power alpha message all s ys x v.0,
        voters-powers alpha message all s ys xs v.1,
      )

  over_half : (e : Chain) (all sum : ℕ) → sum < 2 ^ 63 → thresholds e all sum ≡ true → all < 2 * sum
  unfolding thresholds
  over_half e all sum fits h = ground (arith, h)

  -- The signers of an accepted certificate, if they are different, hold more than half of all weight.
  majority :
      (c e : Chain) (b : Block) (tip : Bytes)
      → Sorted c.state
      → total_power c.state < 2 ^ 63
      → Pairwise OtherSigner b.signers
      → (validate_commit hash verify below e b tip
          (total_sqrt_stake c)
          (pre_table c.state (take committee_max b.signers))).1
        ≡ true
      → total_power c.state < 2 * powers c.state b.signers
  unfolding validate_commit
  majority c e b tip h fits apart ok =
      let all = total_sqrt_stake c in
      let known : all ≡ total_power c.state = total_sqrt_stake_lem c (omega arith) in
      let table = pre_table c.state (take committee_max b.signers) in
      let seeded = epoch_seed hash e (epoch_of b.header.slot) in
      let alpha = committee_alpha seeded.1 b.header.slot in
      let message = vote_message b.header.height tip in
      elim (Bool-cases (length b.signers == 0 || all == 0)) [
        | inl empty ↦ absurd (let bad = rw (validate_commit, empty) at ok in ground (arith, bad))
        | inr full ↦
            elim (Option-cases
              (signed_sqrt hash verify below alpha message all table b.signers 0)) [
                | inl bad ↦
                    absurd (let no = rw (validate_commit, full, bad) at ok in ground (arith, no))
                | inr (sum, got) ↦
                    let yes : thresholds seeded.0 all sum ≡ true =
                      rw (validate_commit, full, got) at ok in
                    let (voters, is) =
                      signed-weights hash verify below alpha message all table b.signers 0 sum
                        (omega arith) got in
                    let same =
                      voters-powers alpha message all c.state (take committee_max b.signers)
                        b.signers voters in
                    let most = powers-le c.state b.signers h apart in
                    let exact : sum ≡ powers c.state b.signers =
                      omega (arith, is, same, most, fits) in
                    let half = over_half seeded.0 all sum (omega (arith, exact, most, fits)) yes in
                    omega (arith, half, exact, known)
              ]
      ]

  -- Two certificates that are accepted over the stakes of the same valid state, for whatever blocks, and
  -- neither of which lists a signer twice, share a signer. The weight of all accounts must be below 2^63.
  pub quorum_intersection :
      (c e1 e2 : Chain) (a b : Block) (tip_a tip_b : Bytes)
      → Sorted c.state
      → total_power c.state < 2 ^ 63
      → Pairwise OtherSigner a.signers
      → Pairwise OtherSigner b.signers
      → (validate_commit hash verify below e1 a tip_a
          (total_sqrt_stake c)
          (pre_table c.state (take committee_max a.signers))).1
        ≡ true
      → (validate_commit hash verify below e2 b tip_b
          (total_sqrt_stake c)
          (pre_table c.state (take committee_max b.signers))).1
        ≡ true
      → Shared a.signers b.signers
  quorum_intersection c e1 e2 a b tip_a tip_b h fits apart_a apart_b ok_a ok_b =
      elim (find-Shared a.signers b.signers apart_a apart_b) [
        | inl shared ↦ shared
        | inr apart ↦ absurd (
            omega (
              arith,
              majority c e1 a tip_a h fits apart_a ok_a,
              majority c e2 b tip_b h fits apart_b ok_b,
              powers-append c.state a.signers b.signers,
              powers-le c.state (a.signers ++ b.signers) h apart,
            ))
      ]
