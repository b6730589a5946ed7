-- ===== src/Consensus/Slots.antt =====
-- The phases of a slot in src/consensus.c: propose, vote, seal. `none` is a division by zero in building
-- or accepting a block.
use agentchain.Base.{
  ℕ, zero, suc, ◌+◌, Bool, true, false, not, ◌||◌, ◌&&◌, Option, none, some, List, [], ◌∷◌,
  get_elem?, ◌==◌, if◌then◌else◌, add64,
}
use agentchain.Bytes.Compare.{Bytes, bytes_eq}
use agentchain.Codec.Block.{Block}
use agentchain.Codec.Header.{block_hash}
use agentchain.Crypto.{vrf_verify}
use agentchain.Isqrt.{isqrt_u64}
use agentchain.Mempool.{mempool_snapshot, mempool_prune_expired}
use agentchain.State.{state_get}
use agentchain.Chain.Seed.{epoch_of, epoch_seed, leader_alpha}
use agentchain.Chain.Build.{build_block}
use agentchain.Consensus.{Pending, Consensus, Env, put_pending, pending_alloc}
use agentchain.Consensus.Votes.{
  compute_priority, slot_vote_for, vote_at, is_lower, note_priority, am_i_leader, our_vote_now,
}
use agentchain.Consensus.Seal.{send_block, try_commit_inner, try_commit}
use agentchain.Consensus.Handlers.{proposal}

-- A candidate of the vote at the height.
abbrev pub is_candidate : ℕ → Pending → Bool
is_candidate target p = p.occupied && not p.committed && p.height == target

-- The lowest priority among the candidates, from index `i`, with the best so far.
unfoldable pub best_from : List Pending → ℕ → ℕ → Option (ℕ × Pending) → Option (ℕ × Pending)
best_from [] target i best = best
best_from (p ∷ ps) target i best = elim (is_candidate target p) [
  | false ↦ best_from ps target (i + 1) best
  | true ↦ elim best [
    | none ↦ best_from ps target (i + 1) (some (i, p))
    | some (k, q) ↦ elim (is_lower p.priority q.priority) [
      | true ↦ best_from ps target (i + 1) (some (i, p))
      | false ↦ best_from ps target (i + 1) (some (k, q))
    ]
  ]
]

-- The candidate that we back already, from index `i`.
unfoldable pub backed_from : List Pending → ℕ → Bytes → ℕ → Option (ℕ × Pending)
backed_from [] target bh i = none
backed_from (p ∷ ps) target bh i =
    let rest = backed_from ps target bh (i + 1) in
    if is_candidate target p && bytes_eq p.block_hash bh then some (i, p) else rest

abbrev pub or_unset : Option Bytes → Bytes
or_unset none = []
or_unset (some out) = out

module _ (hash : Bytes → Bytes) (verify : Bytes → Bytes → Bytes → Bool) (sign : Bytes → Bytes)
    (below : ℕ → ℕ → ℕ → Bool) where
  -- The block of our own, with the proof that we lead, becomes a proposal and is broadcast. A proof that
  -- does not verify leaves the output unset in the source; here it is empty.
  unfoldable pub propose : Env → Consensus → ℕ → Bytes → Block → Option Consensus
  propose env cs slot lproof built =
      let b : Block = record built {
        header = record (built.header) { proposer_vrf_proof = lproof };
        signers = [];
      } in
      let bh = block_hash hash b.header in
      let (c, seed) = epoch_seed hash cs.chain (epoch_of slot) in
      let beta = or_unset (vrf_verify hash verify lproof (leader_alpha seed slot) cs.my_addr) in
      let stake = (state_get cs.chain.state cs.my_addr).0.stake in
      let priority = compute_priority hash beta (isqrt_u64 stake) in
      let i = pending_alloc cs in
      let p : Pending = record (proposal env.now b.header bh b [] priority) { slot = slot } in
      let cs' = put_pending (record cs { chain = c }) i p in
      try_commit hash verify below env (send_block (note_priority cs' slot priority) b) i

  -- From the leader election on.
  unfoldable pub lead_slot : (ℕ → ℕ → Bool) → Env → Consensus → ℕ → Option Consensus
  lead_slot leads env cs slot =
      let (c, leader, lproof) = am_i_leader hash verify sign leads cs slot in
      let cs1 : Consensus = record cs { chain = c } in
      let cs2 : Consensus = record cs1 { mempool = (mempool_prune_expired cs.mempool slot).0 } in
      if not leader
      then some cs1
      else elim (build_block hash verify sign cs.my_addr c slot (mempool_snapshot cs.mempool 256)) [
        | none ↦ none
        | some (d, none) ↦ some (record cs2 { chain = d })
        | some (d, some b) ↦ propose env (record cs2 { chain = d }) slot lproof b
      ]

  unfoldable pub slot_routine : (ℕ → ℕ → Bool) → Env → Consensus → ℕ → Option Consensus
  slot_routine leads env cs slot = if not cs.validator then some cs else lead_slot leads env cs slot

  -- The vote moves to the pending block at index `i`.
  unfoldable pub move_vote : Env → Consensus → ℕ → ℕ → Pending → Option Consensus
  move_vote env cs target i best =
      try_commit hash verify below env
        (record (our_vote_now hash verify sign below cs i best) {
          vote_height = target;
          vote_block = best.block_hash;
          vote_priority = best.priority;
        })
        i

  -- The vote stays: the block that we back is voted for again, if it is still there.
  unfoldable pub affirm_vote : Env → Consensus → ℕ → Option Consensus
  affirm_vote env cs target = elim (backed_from cs.pending target cs.vote_block 0) [
    | none ↦ some cs
    | some (i, q) ↦ try_commit hash verify below env (our_vote_now hash verify sign below cs i q) i
  ]

  -- From the entry of the slot on.
  unfoldable pub choose_vote : Env → Consensus → ℕ → Option Consensus
  choose_vote env cs slot =
      let (votes, k) = slot_vote_for cs.slot_votes slot in
      let cs' : Consensus = record cs { slot_votes = votes } in
      let target = add64 cs.chain.height 1 in
      if (vote_at votes k slot).voted then some cs' else elim (best_from cs.pending target 0 none) [
        | none ↦ some cs'
        | some (i, best) ↦
            if cs.vote_height == target && not (is_lower best.priority cs.vote_priority)
            then affirm_vote env cs' target
            else move_vote env cs' target i best
      ]

  unfoldable pub vote_phase : Env → Consensus → ℕ → Option Consensus
  vote_phase env cs slot = if not cs.validator then some cs else choose_vote env cs slot

  -- The loop over the table, from index `i` for `n` entries.
  unfoldable pub seal_from : Env → Consensus → ℕ → ℕ → ℕ → Option Consensus
  seal_from env cs slot i zero = some cs
  seal_from env cs slot i (suc n) = elim (get_elem? cs.pending i) [
    | none ↦ some cs
    | some p ↦ elim (not p.occupied || not (p.slot == slot) || p.committed) [
      | true ↦ seal_from env cs slot (i + 1) n
      | false ↦ elim (try_commit_inner hash verify below env cs i true) [
        | none ↦ none
        | some cs' ↦ seal_from env cs' slot (i + 1) n
      ]
    ]
  ]

  unfoldable pub seal_phase : Env → Consensus → ℕ → Option Consensus
  seal_phase env cs slot = seal_from env cs slot 0 8
