-- ===== src/Consensus/Handlers.antt =====
-- The handlers of blocks and votes in src/consensus.c. `none` is a division by zero in the acceptance of
-- a block.
use agentchain.Base.{
  ℕ, Bool, not, ◌||◌, ◌&&◌, Option, none, some, List, [], ◌∷◌, ◌++◌, get_elem?, ◌%◌, ◌^◌, ltb, leb,
  ◌==◌, if◌then◌else◌, add64, sub64, take,
}
use agentchain.Bytes.Compare.{Bytes, bytes_eq}
use agentchain.Bytes.Endian.{be32, be64, rd64}
use agentchain.Codec.Block.{CommitSigner, Block, committee_max, block_decode}
use agentchain.Codec.Header.{BlockHeader, block_hash}
use agentchain.Codec.Vote.{vote_message}
use agentchain.Crypto.{vrf_verify}
use agentchain.Isqrt.{isqrt_u64}
use agentchain.State.{state_get}
use agentchain.Chain.Live.{min_stake_ucrd, total_sqrt_stake}
use agentchain.Chain.Seed.{epoch_of, epoch_seed, leader_alpha, committee_alpha, committee_eligible}
use agentchain.Consensus.{
  Pending, Consensus, Env, Vote, put_pending, fresh, send, pending_find, pending_alloc, vote_decode,
}
use agentchain.Consensus.Votes.{compute_priority, note_priority, has_signer, add_signer}
use agentchain.Consensus.Seal.{try_commit}

abbrev pub hdrs_req_min_interval_ms : ℕ
hdrs_req_min_interval_ms = 4000

-- The signers of a block, folded into those of its entry.
unfoldable pub merge_signers : List CommitSigner → List CommitSigner → List CommitSigner
merge_signers ss [] = ss
merge_signers ss (x ∷ xs) = merge_signers (add_signer ss x) xs

-- A block too far ahead: ask for the gap, at a limited rate.
unfoldable pub request_headers : Env → Consensus → ℕ → Consensus
request_headers env cs target =
    let our_height = cs.chain.height in
    let stale = leb hdrs_req_min_interval_ms (sub64 env.now cs.last_hdrs_req_ms) in
    let gap_grew = ltb (add64 cs.last_hdrs_req_target 64) target in
    let gap = sub64 target our_height % 2 ^ 32 in
    if cs.bcast && (stale || gap_grew)
    then send (record cs { last_hdrs_req_ms = env.now; last_hdrs_req_target = target }) 2
        (be64 (add64 our_height 1) ++ be32 (if ltb 256 gap then 256 else gap))
    else cs

-- The entry of a proposal.
abbrev pub proposal : ℕ → BlockHeader → Bytes → Block → List CommitSigner → Bytes → Pending
proposal now h bh b signers priority = record (fresh now) {
  height = h.height;
  slot = h.slot;
  block_hash = bh;
  block = record b { signers = [] };
  signers = signers;
  priority = priority;
}

module _ (hash : Bytes → Bytes) (verify : Bytes → Bytes → Bytes → Bool)
    (below : ℕ → ℕ → ℕ → Bool) where
  -- A new proposal on our tip whose proof is good.
  unfoldable pub stash : Env → Consensus → Block → Bytes → Bytes → Option Consensus
  stash env cs b bh beta =
      let stake = (state_get cs.chain.state b.header.proposer).0.stake in
      let priority = compute_priority hash beta (isqrt_u64 stake) in
      let i = pending_alloc cs in
      let p = proposal env.now b.header bh b (take committee_max b.signers) priority in
      try_commit hash verify below env (note_priority (put_pending cs i p) b.header.slot priority) i

  unfoldable pub new_proposal : Env → Consensus → Block → Bytes → Option Consensus
  new_proposal env cs b bh =
      let h = b.header in
      let next = add64 cs.chain.height 1 in
      if ltb next h.height
      then some (request_headers env cs h.height)
      else if not (h.height == next) || not (bytes_eq h.parent_hash cs.chain.tip_hash)
      then some cs
      else let (c, seed) = epoch_seed hash cs.chain (epoch_of h.slot) in
        let cs' : Consensus = record cs { chain = c } in
        elim (vrf_verify hash verify h.proposer_vrf_proof (leader_alpha seed h.slot) h.proposer) [
          | none ↦ some cs'
          | some beta ↦ stash env cs' b bh beta
        ]

  -- The block is known: its signers join those of its entry.
  unfoldable pub merge_block : Env → Consensus → ℕ → Block → Option Consensus
  merge_block env cs i b = elim (get_elem? cs.pending i) [
    | none ↦ some cs
    | some p ↦
        try_commit hash verify below env
          (put_pending cs i (record p { signers = merge_signers p.signers b.signers })) i
  ]

  unfoldable pub handle_block : Env → Consensus → Bytes → Option Consensus
  handle_block env cs buf = elim (block_decode buf) [
    | none ↦ some cs
    | some (b, n) ↦
        let bh = block_hash hash b.header in
        if not (b.header.version == 1) then some cs else elim (pending_find cs bh) [
          | some i ↦ merge_block env cs i b
          | none ↦ new_proposal env cs b bh
        ]
  ]

  -- A signed vote for a pending block: the committee proof, then the signer is appended.
  unfoldable pub count_vote : Env → Consensus → ℕ → Pending → Vote → Option Consensus
  count_vote env cs i p v =
      let (c, seed) = epoch_seed hash cs.chain (epoch_of p.slot) in
      let cs' : Consensus = record cs { chain = c } in
      let stake = (state_get c.state v.signer).0.stake in
      if ltb stake min_stake_ucrd
      then some cs'
      else elim (vrf_verify hash verify v.proof (committee_alpha seed p.slot) v.signer) [
        | none ↦ some cs'
        | some beta ↦
            if not (committee_eligible below (rd64 beta) (isqrt_u64 stake) (total_sqrt_stake c))
            then some cs'
            else if has_signer p.signers v.signer
            then some cs'
            else let mine : CommitSigner = record {
              signer = v.signer;
              sig = v.sig;
              vrf_proof = v.proof;
            } in
              try_commit hash verify below env
                (put_pending cs' i (record p { signers = add_signer p.signers mine })) i
      ]

  unfoldable pub handle_vote : Env → Consensus → Bytes → Option Consensus
  handle_vote env cs buf = elim (vote_decode buf) [
    | none ↦ some cs
    | some v ↦
        if not (verify v.sig (vote_message v.height v.block_hash) v.signer)
        then some cs
        else elim (pending_find cs v.block_hash) [
          | none ↦ some cs
          | some i ↦ elim (get_elem? cs.pending i) [
            | none ↦ some cs
            | some p ↦ count_vote env cs i p v
          ]
        ]
  ]
