-- ===== src/Consensus/Phases.antt =====
-- The proposal and the seal of a slot in src/consensus.c, and the vote lock.
use agentchain.Base.{
  ℕ, zero, suc, ◌+◌, ◌≡◌, refl, ap, Bool, true, not, ◌||◌, Option, none, some, List, [], inl, inr,
  Bool-cases, Option-cases, arith, ltb, ◌==◌, get_elem?,
}
use mathlib.Core.Path.{subst}
use agentchain.Bytes.Compare.{Bytes}
use agentchain.Codec.Block.{Block}
use agentchain.Codec.Header.{block_hash}
use agentchain.Codec.Tx.{Tx}
use agentchain.Crypto.{vrf_verify}
use agentchain.Isqrt.{isqrt_u64}
use agentchain.Mempool.{mempool_snapshot, mempool_prune_expired}
use agentchain.State.{state_get}
use agentchain.Chain.Data.{Chain}
use agentchain.Chain.Live.{min_stake_ucrd}
use agentchain.Chain.Seed.{epoch_of, epoch_seed, leader_alpha}
use agentchain.Chain.Accept.{rollback}
use agentchain.Chain.Accept.Steps.{seed-SameChain}
use agentchain.Chain.Build.{building_base_fee, assemble_block, build_block}
use agentchain.Consensus.{Pending, Consensus, Env, put_pending, pending_alloc}
use agentchain.Consensus.Votes.{compute_priority, note_priority, am_i_leader}
use agentchain.Consensus.Seal.{send_block, try_commit_inner}
use agentchain.Consensus.Handlers.{proposal}
use agentchain.Consensus.Slots.{or_unset, propose, lead_slot, slot_routine, seal_from, seal_phase}
use agentchain.Consensus.Handled.{then_try}
use agentchain.Consensus.Keeps.{
  Keeps_refl, Keeps_trans, KeepsOr, KeepsOr-trans, either-KeepsOr, cached-Keeps, send_block-Keeps,
  put-Keeps, note-Keeps, try_inner-KeepsOr, leader-SameChain,
}

abbrev BuiltAt : Chain → Option (Chain × Option Block) → Type 0
BuiltAt c none = Unit
BuiltAt c (some (d, o)) = d.height ≡ c.height

build-BuiltAt :
    (hash : Bytes → Bytes) (verify : Bytes → Bytes → Bytes → Bool) (sign : Bytes → Bytes)
    (pk : Bytes) (c : Chain) (slot : ℕ) (txs : List Tx)
    → BuiltAt c (build_block hash verify sign pk c slot txs)
unfolding build_block assemble_block rollback
build-BuiltAt hash verify sign pk c slot txs =
    let (acc, exists) = state_get c.state pk in
    let (c', seed) = epoch_seed hash c (epoch_of slot) in
    let level : c'.height ≡ c.height =
      ap (λ (x : Chain). x.height) (seed-SameChain hash c (epoch_of slot)) in
    elim (Bool-cases (not exists || ltb acc.stake min_stake_ucrd)) [
      | inl idle ↦ rw (build_block, idle) refl
      | inr active ↦ elim (Option-cases (building_base_fee c')) [
        | inl trap ↦ rw (build_block, active, trap) tt
        | inr (fee, due) ↦ rw (build_block, active, due) level
      ]
    ]

module _ (hash : Bytes → Bytes) (verify : Bytes → Bytes → Bytes → Bool) (sign : Bytes → Bytes)
    (below : ℕ → ℕ → ℕ → Bool) where
  propose-KeepsOr :
      (env : Env) (cs : Consensus) (slot : ℕ) (lproof : Bytes) (built : Block)
      → KeepsOr cs (propose hash verify sign below env cs slot lproof built)
  unfolding propose
  propose-KeepsOr env cs slot lproof built =
      let b : Block = record built {
        header = record (built.header) { proposer_vrf_proof = lproof };
        signers = [];
      } in
      let (c, seed) = epoch_seed hash cs.chain (epoch_of slot) in
      let beta = or_unset (vrf_verify hash verify lproof (leader_alpha seed slot) cs.my_addr) in
      let stake = (state_get cs.chain.state cs.my_addr).0.stake in
      let priority = compute_priority hash beta (isqrt_u64 stake) in
      let i = pending_alloc cs in
      let p : Pending =
        record (proposal env.now b.header (block_hash hash b.header) b [] priority) {
          slot = slot;
        } in
      let cs1 : Consensus = record cs { chain = c } in
      let cs2 = put_pending cs1 i p in
      let cs3 = note_priority cs2 slot priority in
      then_try hash verify below env cs (send_block cs3 b) i (
        Keeps_trans cs cs1 _ (cached-Keeps cs c (seed-SameChain hash cs.chain (epoch_of slot))) (
          Keeps_trans cs1 cs2 _ (put-Keeps cs1 i p)
            (Keeps_trans cs2 cs3 _ (note-Keeps cs2 slot priority) (send_block-Keeps cs3 b))))

  seal-KeepsOr :
      (env : Env) (cs : Consensus) (slot i n : ℕ)
      → KeepsOr cs (seal_from hash verify sign below env cs slot i n)
  unfolding seal_from
  seal-KeepsOr env cs slot i zero = Keeps_refl cs
  seal-KeepsOr env cs slot i (suc n) = elim (Option-cases (get_elem? cs.pending i)) [
    | inl absent ↦ rw (seal_from, absent) (Keeps_refl cs)
    | inr (p, there) ↦ elim (Bool-cases (not p.occupied || not (p.slot == slot) || p.committed)) [
      | inl skip ↦ rw (seal_from, there, skip) (seal-KeepsOr env cs slot (i + 1) n)
      | inr due ↦
          let tried = try_inner-KeepsOr hash verify below env cs i true in
          elim (Option-cases (try_commit_inner hash verify below env cs i true)) [
            | inl trap ↦ rw (seal_from, there, due, trap) tt
            | inr (cs', sealed) ↦
                rw (seal_from, there, due, sealed)
                  (KeepsOr-trans cs cs' _ (subst (KeepsOr cs) sealed tried)
                    (seal-KeepsOr env cs' slot (i + 1) n))
          ]
    ]
  ]

  pub seal_phase-KeepsOr :
      (env : Env) (cs : Consensus) (slot : ℕ)
      → KeepsOr cs (seal_phase hash verify sign below env cs slot)
  unfolding seal_phase
  seal_phase-KeepsOr env cs slot = seal-KeepsOr env cs slot 0 8

  lead-KeepsOr :
      (leads : ℕ → ℕ → Bool) (env : Env) (cs : Consensus) (slot : ℕ)
      → KeepsOr cs (lead_slot hash verify sign below leads env cs slot)
  unfolding lead_slot
  lead-KeepsOr leads env cs slot =
      let (c, leader, lproof) = am_i_leader hash verify sign leads cs slot in
      let same = leader-SameChain hash verify sign leads cs slot in
      let level : c.height ≡ cs.chain.height = ap (λ (x : Chain). x.height) same in
      let pruned : Consensus = record cs { mempool = (mempool_prune_expired cs.mempool slot).0 } in
      let snap = mempool_snapshot cs.mempool 256 in
      let built = build-BuiltAt hash verify sign cs.my_addr c slot snap in
      elim (Bool-cases leader) [
        | inr other ↦ rw (lead_slot, other) (cached-Keeps cs c same)
        | inl mine ↦ elim (Option-cases (build_block hash verify sign cs.my_addr c slot snap)) [
          | inl trap ↦ rw (lead_slot, mine, trap) tt
          | inr ((d, none), e) ↦
              let at : d.height ≡ c.height = subst (BuiltAt c) e built in
              rw (lead_slot, mine, e)
                (record {
                  height = refl;
                  block = refl;
                  priority = refl;
                  chain = omega (arith, level, at);
                })
          | inr ((d, some b), e) ↦
              let at : d.height ≡ c.height = subst (BuiltAt c) e built in
              let left : Consensus = record pruned { chain = d } in
              rw (lead_slot, mine, e)
                (KeepsOr-trans cs left _
                  (record {
                    height = refl;
                    block = refl;
                    priority = refl;
                    chain = omega (arith, level, at);
                  })
                  (propose-KeepsOr env left slot lproof b))
        ]
      ]

  pub routine-KeepsOr :
      (leads : ℕ → ℕ → Bool) (env : Env) (cs : Consensus) (slot : ℕ)
      → KeepsOr cs (slot_routine hash verify sign below leads env cs slot)
  unfolding slot_routine
  routine-KeepsOr leads env cs slot =
      either-KeepsOr cs (not cs.validator) (some cs)
        (lead_slot hash verify sign below leads env cs slot) (Keeps_refl cs)
        (lead-KeepsOr leads env cs slot)
