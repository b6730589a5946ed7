-- ===== src/Consensus/Handled.antt =====
-- The handlers of blocks and votes in src/consensus.c, and the vote lock.
use agentchain.Base.{
  ℕ, refl, Bool, not, ◌||◌, inl, inr, Bool-cases, Option-cases, arith, add64, ltb, ◌==◌, get_elem?,
  take,
}
use agentchain.Bytes.Compare.{Bytes, bytes_eq}
use agentchain.Bytes.Endian.{rd64}
use agentchain.Codec.Block.{Block, block_decode, committee_max}
use agentchain.Codec.Header.{block_hash}
use agentchain.Codec.Vote.{vote_message}
use agentchain.Crypto.{vrf_verify}
use agentchain.Isqrt.{isqrt_u64}
use agentchain.State.{state_get}
use agentchain.Chain.Live.{min_stake_ucrd, total_sqrt_stake}
use agentchain.Chain.Seed.{epoch_of, epoch_seed, leader_alpha, committee_alpha, committee_eligible}
use agentchain.Chain.Accept.Steps.{seed-SameChain}
use agentchain.Consensus.{
  Pending, Consensus, Env, Vote, put_pending, pending_find, pending_alloc, vote_decode,
}
use agentchain.Consensus.Votes.{compute_priority, note_priority, has_signer}
use agentchain.Consensus.Seal.{try_commit}
use agentchain.Consensus.Handlers.{
  request_headers, proposal, stash, new_proposal, merge_block, handle_block, count_vote,
  handle_vote,
}
use agentchain.Consensus.Keeps.{
  Keeps, Keeps_refl, Keeps_trans, KeepsOr, KeepsOr-trans, either-Keeps, cached-Keeps, send-Keeps,
  put-Keeps, note-Keeps, try-KeepsOr,
}

request-Keeps : (env : Env) (cs : Consensus) (target : ℕ) → Keeps cs (request_headers env cs target)
unfolding request_headers
request-Keeps env cs target =
    let noted : Consensus = record cs {
      last_hdrs_req_ms = env.now;
      last_hdrs_req_target = target;
    } in
    either-Keeps cs _ _ cs
      (Keeps_trans cs noted _
        (record { height = refl; block = refl; priority = refl; chain = omega arith })
        (send-Keeps noted 2 _))
      (Keeps_refl cs)

module _ (hash : Bytes → Bytes) (verify : Bytes → Bytes → Bytes → Bool)
    (below : ℕ → ℕ → ℕ → Bool) where
  -- Trying to commit after a change that keeps the lock.
  pub then_try :
      (env : Env) (cs cs' : Consensus) (i : ℕ)
      → Keeps cs cs'
      → KeepsOr cs (try_commit hash verify below env cs' i)
  then_try env cs cs' i k = KeepsOr-trans cs cs' _ k (try-KeepsOr hash verify below env cs' i)

  stash-KeepsOr :
      (env : Env) (cs : Consensus) (b : Block) (bh beta : Bytes)
      → KeepsOr cs (stash hash verify below env cs b bh beta)
  unfolding stash
  stash-KeepsOr env cs b bh beta =
      let stake = (state_get cs.chain.state b.header.proposer).0.stake in
      let priority = compute_priority hash beta (isqrt_u64 stake) in
      let i = pending_alloc cs in
      let p = proposal env.now b.header bh b (take committee_max b.signers) priority in
      let placed = put_pending cs i p in
      then_try env cs (note_priority placed b.header.slot priority) i
        (Keeps_trans cs placed _ (put-Keeps cs i p) (note-Keeps placed b.header.slot priority))

  proposal-KeepsOr :
      (env : Env) (cs : Consensus) (b : Block) (bh : Bytes)
      → KeepsOr cs (new_proposal hash verify below env cs b bh)
  unfolding new_proposal
  proposal-KeepsOr env cs b bh =
      let h = b.header in
      let next = add64 cs.chain.height 1 in
      let (c, seed) = epoch_seed hash cs.chain (epoch_of h.slot) in
      let cached = cached-Keeps cs c (seed-SameChain hash cs.chain (epoch_of h.slot)) in
      elim (Bool-cases (ltb next h.height)) [
        | inl ahead ↦ rw (new_proposal, ahead) (request-Keeps env cs h.height)
        | inr near ↦
            elim (Bool-cases
              (not (h.height == next) || not (bytes_eq h.parent_hash cs.chain.tip_hash))) [
                | inl off ↦ rw (new_proposal, near, off) (Keeps_refl cs)
                | inr fits ↦
                    elim (Option-cases (
                      vrf_verify hash verify h.proposer_vrf_proof (leader_alpha seed h.slot)
                        h.proposer)) [
                          | inl bad ↦ rw (new_proposal, near, fits, bad) cached
                          | inr (beta, good) ↦
                              rw (new_proposal, near, fits, good)
                                (KeepsOr-trans cs (record cs { chain = c }) _ cached
                                  (stash-KeepsOr env (record cs { chain = c }) b bh beta))
                        ]
              ]
      ]

  merge-KeepsOr :
      (env : Env) (cs : Consensus) (i : ℕ) (b : Block)
      → KeepsOr cs (merge_block hash verify below env cs i b)
  unfolding merge_block
  merge-KeepsOr env cs i b = elim (Option-cases (get_elem? cs.pending i)) [
    | inl absent ↦ rw (merge_block, absent) (Keeps_refl cs)
    | inr (p, there) ↦ rw (merge_block, there) (then_try env cs _ i (put-Keeps cs i _))
  ]

  pub block-KeepsOr :
      (env : Env) (cs : Consensus) (buf : Bytes)
      → KeepsOr cs (handle_block hash verify below env cs buf)
  unfolding handle_block
  block-KeepsOr env cs buf = elim (Option-cases (block_decode buf)) [
    | inl bad ↦ rw (handle_block, bad) (Keeps_refl cs)
    | inr ((b, n), good) ↦ elim (Bool-cases (b.header.version == 1)) [
      | inr old ↦ rw (handle_block, good, old) (Keeps_refl cs)
      | inl current ↦ elim (Option-cases (pending_find cs (block_hash hash b.header))) [
        | inr (i, known) ↦ rw (handle_block, good, current, known) (merge-KeepsOr env cs i b)
        | inl new ↦
            rw (handle_block, good, current, new)
              (proposal-KeepsOr env cs b (block_hash hash b.header))
      ]
    ]
  ]

  count-KeepsOr :
      (env : Env) (cs : Consensus) (i : ℕ) (p : Pending) (v : Vote)
      → KeepsOr cs (count_vote hash verify below env cs i p v)
  unfolding count_vote
  count-KeepsOr env cs i p v =
      let (c, seed) = epoch_seed hash cs.chain (epoch_of p.slot) in
      let cs' : Consensus = record cs { chain = c } in
      let cached = cached-Keeps cs c (seed-SameChain hash cs.chain (epoch_of p.slot)) in
      let stake = (state_get c.state v.signer).0.stake in
      elim (Bool-cases (ltb stake min_stake_ucrd)) [
        | inl low ↦ rw (count_vote, low) cached
        | inr bonded ↦
            elim (Option-cases
              (vrf_verify hash verify v.proof (committee_alpha seed p.slot) v.signer)) [
                | inl bad ↦ rw (count_vote, bonded, bad) cached
                | inr (beta, good) ↦
                    elim (Bool-cases (
                      committee_eligible below (rd64 beta) (isqrt_u64 stake)
                        (total_sqrt_stake c))) [
                          | inr missed ↦ rw (count_vote, bonded, good, missed) cached
                          | inl drawn ↦ elim (Bool-cases (has_signer p.signers v.signer)) [
                            | inl dup ↦ rw (count_vote, bonded, good, drawn, dup) cached
                            | inr first ↦
                                rw (count_vote, bonded, good, drawn, first)
                                  (then_try env cs _ i
                                    (Keeps_trans cs cs' _ cached (put-Keeps cs' i _)))
                          ]
                        ]
              ]
      ]

  pub vote-KeepsOr :
      (env : Env) (cs : Consensus) (buf : Bytes)
      → KeepsOr cs (handle_vote hash verify below env cs buf)
  unfolding handle_vote
  vote-KeepsOr env cs buf = elim (Option-cases (vote_decode buf)) [
    | inl bad ↦ rw (handle_vote, bad) (Keeps_refl cs)
    | inr (v, good) ↦
        elim (Bool-cases (verify v.sig (vote_message v.height v.block_hash) v.signer)) [
          | inr forged ↦ rw (handle_vote, good, forged) (Keeps_refl cs)
          | inl signed ↦ elim (Option-cases (pending_find cs v.block_hash)) [
            | inl unknown ↦ rw (handle_vote, good, signed, unknown) (Keeps_refl cs)
            | inr (i, known) ↦ elim (Option-cases (get_elem? cs.pending i)) [
              | inl absent ↦ rw (handle_vote, good, signed, known, absent) (Keeps_refl cs)
              | inr (p, there) ↦
                  rw (handle_vote, good, signed, known, there) (count-KeepsOr env cs i p v)
            ]
          ]
        ]
  ]
