-- ===== src/Chain/Commit.antt =====
-- The proposer's proof and the commit certificate of a block in src/chain.c. `hash` and `verify` are
-- libsodium's, `below` the floating-point draw of `committee_eligible`.
pub mod Quorum
pub mod Power
pub mod Intersect
mod Examples
use agentchain.Base.{
  ℕ, Bool, true, false, not, ◌||◌, Option, none, some, List, [], ◌∷◌, length, ltb, leb, ◌==◌,
  if◌then◌else◌, add64, mul64,
}
use agentchain.Bytes.Compare.{Bytes, bytes_eq}
use agentchain.Bytes.Endian.{rd64}
use agentchain.Codec.Header.{BlockHeader}
use agentchain.Codec.Block.{CommitSigner, Block}
use agentchain.Codec.Vote.{vote_message}
use agentchain.Crypto.{vrf_verify}
use agentchain.Isqrt.{isqrt_u64}
use agentchain.State.{State, state_get}
use agentchain.Chain.Data.{Chain}
use agentchain.Chain.Live.{min_stake_ucrd, live_sqrt_stake}
use agentchain.Chain.Seed.{epoch_of, epoch_seed, leader_alpha, committee_alpha, committee_eligible}

-- The two parallel arrays of `struct ac_pre_lookup_ctx`.
pub record PreStake : Type 0 where
  pub addr : Bytes
  pub stake : ℕ

-- The table that `accept_block` fills before it applies transactions.
unfoldable pub pre_table : State → List CommitSigner → List PreStake
pre_table s [] = []
pre_table s (x ∷ xs) =
    record { addr = x.signer; stake = (state_get s x.signer).0.stake } ∷ pre_table s xs

unfoldable pub pre_stake_lookup : List PreStake → Bytes → ℕ
pre_stake_lookup [] signer = 0
pre_stake_lookup (p ∷ ps) signer =
    let rest = pre_stake_lookup ps signer in if bytes_eq p.addr signer then p.stake else rest

-- The two thresholds: 2/3 of the live stake, and more than half of all stake.
unfoldable pub thresholds : Chain → ℕ → ℕ → Bool
thresholds c pre_total_sqrt sum =
    let live = live_sqrt_stake c in
    let live_sqrt = if live == 0 then pre_total_sqrt else live in
    if ltb (mul64 sum 3) (mul64 live_sqrt 2) then false else not (leb (mul64 sum 2) pre_total_sqrt)

module _ (hash : Bytes → Bytes) (verify : Bytes → Bytes → Bytes → Bool) where
  -- The chain with its cached seed, and the verdict.
  unfoldable pub validate_proposer_vrf : Chain → BlockHeader → Chain × Bool
  validate_proposer_vrf c h =
      let (acc, exists) = state_get c.state h.proposer in
      if not exists || ltb acc.stake min_stake_ucrd
      then (c, false)
      else let (c', seed) = epoch_seed hash c (epoch_of h.slot) in
        elim (vrf_verify hash verify h.proposer_vrf_proof (leader_alpha seed h.slot) h.proposer) [
          | none ↦ (c', false)
          | some beta ↦ (c', true)
        ]

  module _ (below : ℕ → ℕ → ℕ → Bool) where
    -- The weight of one signer, `none` where the source returns -1.
    unfoldable pub signer_weight : Bytes → Bytes → ℕ → List PreStake → CommitSigner → Option ℕ
    signer_weight alpha message pre_total_sqrt table x =
        let pre_stake = pre_stake_lookup table x.signer in
        if ltb pre_stake min_stake_ucrd
        then none
        else let sqrt_st = isqrt_u64 pre_stake in
          elim (vrf_verify hash verify x.vrf_proof alpha x.signer) [
            | none ↦ none
            | some beta ↦
                if not (committee_eligible below (rd64 beta) sqrt_st pre_total_sqrt)
                then none
                else if not (verify x.sig message x.signer)
                then none
                else some sqrt_st
          ]

    -- The loop over the signers, from the sum so far.
    unfoldable pub signed_sqrt :
        Bytes → Bytes → ℕ → List PreStake → List CommitSigner → ℕ → Option ℕ
    signed_sqrt alpha message pre_total_sqrt table [] sum = some sum
    signed_sqrt alpha message pre_total_sqrt table (x ∷ xs) sum =
        elim (signer_weight alpha message pre_total_sqrt table x) [
          | none ↦ none
          | some w ↦ signed_sqrt alpha message pre_total_sqrt table xs (add64 sum w)
        ]

    unfoldable pub validate_commit : Chain → Block → Bytes → ℕ → List PreStake → Chain × Bool
    validate_commit c b hash_of_block pre_total_sqrt table =
        if length b.signers == 0 || pre_total_sqrt == 0
        then (c, false)
        else let (c', seed) = epoch_seed hash c (epoch_of b.header.slot) in
          elim (signed_sqrt (committee_alpha seed b.header.slot)
            (vote_message b.header.height hash_of_block) pre_total_sqrt table b.signers 0) [
              | none ↦ (c', false)
              | some sum ↦ (c', thresholds c' pre_total_sqrt sum)
            ]
