-- ===== src/Chain/Commit/Quorum.antt =====
-- The sum over the signers of a certificate in `validate_commit` of src/chain.c.
use agentchain.Base.{
  ℕ, zero, suc, replicate, ◌+◌, ◌*◌, ◌%◌, ◌≤◌, ◌<◌, ◌^◌, ◌≡◌, refl, ap, ◌∙◌, Bool, true, Option,
  none, some, List, [], ◌∷◌, ltb, inl, inr, Bool-cases, Option-cases, arith, All, add64,
}
use mathlib.Core.Path.{subst}
use agentchain.Bytes.Compare.{Bytes}
use agentchain.Bytes.Endian.{rd64}
use agentchain.Codec.Block.{CommitSigner}
use agentchain.Crypto.{vrf_verify}
use agentchain.Isqrt.{isqrt_u64}
use agentchain.Chain.Live.{min_stake_ucrd}
use agentchain.Chain.Seed.{committee_eligible}
use agentchain.Chain.Commit.{PreStake, pre_stake_lookup, signer_weight, signed_sqrt}

-- The weight of an address by the stakes before the block.
abbrev pub weight : List PreStake → Bytes → ℕ
weight table k = isqrt_u64 (pre_stake_lookup table k)

-- Summed over the signers, without wrapping.
unfoldable pub weights : List PreStake → List CommitSigner → ℕ
weights table [] = 0
weights table (x ∷ xs) = weight table x.signer + weights table xs

module _ (hash : Bytes → Bytes) (verify : Bytes → Bytes → Bytes → Bool)
    (below : ℕ → ℕ → ℕ → Bool) where
  -- A signer that counts: bonded, drawn by its proof, and its signature is on the vote.
  pub record IsVoter (alpha message : Bytes) (total : ℕ) (table : List PreStake) (x : CommitSigner)
      : Type 0 where
    pub bonded : min_stake_ucrd ≤ pre_stake_lookup table x.signer
    pub drawn :
        (beta : Bytes) × (vrf_verify hash verify x.vrf_proof alpha x.signer ≡ some beta)
        × (committee_eligible below (rd64 beta) (weight table x.signer) total ≡ true)
    pub signed : verify x.sig message x.signer ≡ true

  abbrev VoterOr : Bytes → Bytes → ℕ → List PreStake → CommitSigner → Option ℕ → Type 0
  VoterOr alpha message total table x none = Unit
  VoterOr alpha message total table x (some w) =
      IsVoter alpha message total table x × (w ≡ weight table x.signer)

  signer-VoterOr :
      (alpha message : Bytes) (total : ℕ) (table : List PreStake) (x : CommitSigner)
      → VoterOr alpha message total table x
          (signer_weight hash verify below alpha message total table x)
  unfolding signer_weight
  signer-VoterOr alpha message total table x =
      elim (Bool-cases (ltb (pre_stake_lookup table x.signer) min_stake_ucrd)) [
        | inl low ↦ rw (signer_weight, low) tt
        | inr bonded ↦ elim (Option-cases (vrf_verify hash verify x.vrf_proof alpha x.signer)) [
          | inl bad ↦ rw (signer_weight, bonded, bad) tt
          | inr (beta, good) ↦
              elim (Bool-cases
                (committee_eligible below (rd64 beta) (weight table x.signer) total)) [
                  | inr missed ↦ rw (signer_weight, bonded, good, missed) tt
                  | inl drawn ↦ elim (Bool-cases (verify x.sig message x.signer)) [
                    | inr forged ↦ rw (signer_weight, bonded, good, drawn, forged) tt
                    | inl signed ↦
                        rw (signer_weight, bonded, good, drawn, signed)
                          (
                            record {
                              bonded = ground (arith, bonded);
                              drawn = (beta, good, drawn);
                              signed = signed;
                            },
                            refl,
                          )
                  ]
                ]
        ]
      ]

  -- The sum of the loop, over signers that all count.
  pub signed-weights :
      (alpha message : Bytes) (total : ℕ) (table : List PreStake) (xs : List CommitSigner)
      (sum out : ℕ)
      → sum < 2 ^ 64
      → signed_sqrt hash verify below alpha message total table xs sum ≡ some out
      → All (IsVoter alpha message total table) xs × (out ≡ (sum + weights table xs) % 2 ^ 64)
  unfolding signed_sqrt weights
  signed-weights alpha message total table [] sum out fits e = (tt, ground (arith, fits))
  signed-weights alpha message total table (x ∷ xs) sum out fits e =
      elim (Option-cases (signer_weight hash verify below alpha message total table x)) [
        | inl out_of ↦ absurd (let stuck = rw (signed_sqrt, out_of) at e in ground (arith, stuck))
        | inr (w, got) ↦
            let v : VoterOr alpha message total table x (some w) =
              subst (VoterOr alpha message total table x) got
                (signer-VoterOr alpha message total table x) in
            let (voters, same) =
              signed-weights alpha message total table xs (add64 sum w) out (omega arith)
                (rw (signed_sqrt, got) at e) in
            ((v.0, voters), omega (arith, same, v.1))
      ]

-- One signer, again and again.
abbrev pub repeated : ℕ → CommitSigner → List CommitSigner
repeated n x = replicate n x

module _ (hash : Bytes → Bytes) (verify : Bytes → Bytes → Bytes → Bool)
    (below : ℕ → ℕ → ℕ → Bool) where
  -- A signer that counts once counts as often as the certificate lists it: the loop over one such signer
  -- listed n times gives n times its weight, as long as that does not wrap.
  pub signed-repeated :
      (alpha message : Bytes) (total : ℕ) (table : List PreStake) (x : CommitSigner) (w n sum : ℕ)
      → signer_weight hash verify below alpha message total table x ≡ some w
      → sum + n * w < 2 ^ 64
      → signed_sqrt hash verify below alpha message total table (repeated n x) sum
        ≡ some (sum + n * w)
  unfolding signed_sqrt
  signed-repeated alpha message total table x w zero sum e fits = ap some (omega arith)
  signed-repeated alpha message total table x w (suc n) sum e fits =
      let next : add64 sum w ≡ sum + w = omega arith in
      rw (signed_sqrt, e, next)
        (signed-repeated alpha message total table x w n (sum + w) e (omega arith)
          ∙ ap some (omega arith))
