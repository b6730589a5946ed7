-- ===== src/Chain/Accept/Cached.antt =====
-- The cache of epoch seeds through `ac_chain_accept_block` of src/chain.c.
use agentchain.Base.{
  ℕ, zero, suc, ◌≡◌, ◌≢◌, refl, sym, ◌∙◌, Bool, not, ◌||◌, Option, none, some, List, length, take,
  inl, inr, Bool-cases, Option-cases, mul64, ◌==◌, ltb, arith,
}
use mathlib.Core.Path.{subst}
use agentchain.Bytes.Compare.{Bytes, bytes_eq}
use agentchain.Codec.Header.{BlockHeader, block_hash, block_tx_root}
use agentchain.Codec.Block.{Block, committee_max}
use agentchain.Codec.Vote.{vote_message}
use agentchain.Crypto.{vrf_verify}
use agentchain.State.{State, state_get}
use agentchain.State.Snapshot.{state_root}
use agentchain.Chain.Data.{Chain, Writes, block_read, get_header_by_height, block_write, meta_save}
use agentchain.Chain.Live.{min_stake_ucrd, total_sqrt_stake}
use agentchain.Chain.Seed.{
  epoch_slots, epoch_of, search_down, seed_from, seed_at_genesis, compute_epoch_seed, epoch_seed,
  leader_alpha, committee_alpha,
}
use agentchain.Chain.Seed.Cache.{IsCached, epoch_seed_lem}
use agentchain.Chain.Commit.{
  PreStake, pre_table, validate_proposer_vrf, validate_commit, signed_sqrt,
}
use agentchain.Chain.Accept.{
  Accept, internal, check_header, expected_base_fee, base_fee_refused, rollback, commit_block,
  execute_block, accept_block,
}
use agentchain.Chain.Accept.Extends.{ran, paid, voted}

abbrev with_state : Chain → State → Chain
with_state c s = record c { state = s }

module _ (hash : Bytes → Bytes) where
  search-state :
      (c : Chain) (s : State) (begin h : ℕ)
      → search_down (with_state c s) begin h ≡ search_down c begin h
  unfolding search_down get_header_by_height block_read
  search-state c s begin zero = refl
  search-state c s begin (suc h) = ground (arith, search-state c s begin h)

  -- The accounts are not an input of the seeds.
  compute-state :
      (c : Chain) (s : State) (e : ℕ)
      → compute_epoch_seed hash (with_state c s) e ≡ compute_epoch_seed hash c e
  unfolding compute_epoch_seed seed_from seed_at_genesis get_header_by_height block_read
  compute-state c s e = rw (search-state c s (mul64 e epoch_slots) c.height) refl

  state-IsCached : (c : Chain) (s : State) → IsCached hash c → IsCached hash (with_state c s)
  state-IsCached c s v = λ t. v t ∙ sym (compute-state c s c.cached_epoch)

  seed-IsCached : (c : Chain) (e : ℕ) → IsCached hash c → IsCached hash (epoch_seed hash c e).0
  seed-IsCached c e v = (epoch_seed_lem hash c e v).1

  proposer-IsCached :
      (verify : Bytes → Bytes → Bytes → Bool) (c : Chain) (h : BlockHeader)
      → IsCached hash c
      → IsCached hash (validate_proposer_vrf hash verify c h).0
  unfolding validate_proposer_vrf
  proposer-IsCached verify c h v =
      let (acc, exists) = state_get c.state h.proposer in
      let seeded = epoch_seed hash c (epoch_of h.slot) in
      let kept = seed-IsCached c (epoch_of h.slot) v in
      elim (Bool-cases (not exists || ltb acc.stake min_stake_ucrd)) [
        | inl idle ↦ rw (validate_proposer_vrf, idle) v
        | inr active ↦
            elim (Option-cases (
              vrf_verify hash verify h.proposer_vrf_proof (leader_alpha seeded.1 h.slot)
                h.proposer)) [
                  | inl bad ↦ rw (validate_proposer_vrf, active, bad) kept
                  | inr (beta, good) ↦ rw (validate_proposer_vrf, active, good) kept
                ]
      ]

  commit-IsCached :
      (verify : Bytes → Bytes → Bytes → Bool) (below : ℕ → ℕ → ℕ → Bool) (c : Chain) (b : Block)
      (tip : Bytes) (all : ℕ) (table : List PreStake)
      → IsCached hash c
      → IsCached hash (validate_commit hash verify below c b tip all table).0
  unfolding validate_commit
  commit-IsCached verify below c b tip all table v =
      let seeded = epoch_seed hash c (epoch_of b.header.slot) in
      let kept = seed-IsCached c (epoch_of b.header.slot) v in
      let alpha = committee_alpha seeded.1 b.header.slot in
      let message = vote_message b.header.height tip in
      elim (Bool-cases (length b.signers == 0 || all == 0)) [
        | inl empty ↦ rw (validate_commit, empty) v
        | inr full ↦
            elim (Option-cases
              (signed_sqrt hash verify below alpha message all table b.signers 0)) [
                | inl bad ↦ rw (validate_commit, full, bad) kept
                | inr (sum, got) ↦ rw (validate_commit, full, got) kept
              ]
      ]

  abbrev CachedOk : Chain × Accept → Type 0
  CachedOk (d, r) = r ≢ internal → IsCached hash d

  -- Success drops the cache.
  commit-CachedOk :
      (c : Chain) (b : Block) (tip : Bytes) (w : Writes) → CachedOk (commit_block hash c b tip w)
  unfolding commit_block meta_save
  commit-CachedOk c b tip w = elim (Bool-cases (block_write c b w.block_ok).1) [
    | inr failed ↦ rw (commit_block, failed) (λ n. absurd (n refl))
    | inl block ↦ elim (Bool-cases w.snapshot_ok) [
      | inr failed ↦ rw (commit_block, block, failed) (λ n. absurd (n refl))
      | inl snapshot ↦ elim (Bool-cases w.meta_ok) [
        | inr failed ↦ rw (commit_block, block, snapshot, meta_save, failed) (λ n. absurd (n refl))
        | inl meta ↦ rw (commit_block, block, snapshot, meta_save, meta) (λ n t. cc)
      ]
    ]
  ]

module _ (hash : Bytes → Bytes) (verify : Bytes → Bytes → Bytes → Bool)
    (below : ℕ → ℕ → ℕ → Bool) where
  execute-CachedOk :
      (c : Chain) (b : Block) (w : Writes)
      → IsCached hash c
      → CachedOk hash (execute_block hash verify below c b w)
  unfolding execute_block rollback
  execute-CachedOk c b w v =
      let h = b.header in
      let tip = block_hash hash h in
      let before : Chain = with_state c (paid hash verify below c b) in
      let total = total_sqrt_stake c in
      let table = pre_table c.state (take committee_max b.signers) in
      let judged = (validate_commit hash verify below before b tip total table).0 in
      let kept : IsCached hash judged =
        commit-IsCached hash verify below before b tip total table
          (state-IsCached hash c (paid hash verify below c b) v) in
      elim (Bool-cases (ran hash verify below c b).tx_ok) [
        | inr bad ↦ rw (execute_block, bad) (λ n. state-IsCached hash c _ v)
        | inl ok ↦ elim (Bool-cases ((ran hash verify below c b).total_gas == h.gas_used)) [
          | inr gas ↦ rw (execute_block, ok, gas) (λ n. state-IsCached hash c _ v)
          | inl gas ↦ elim (Bool-cases (bytes_eq (block_tx_root hash b.txs) h.tx_root)) [
            | inr txs ↦ rw (execute_block, ok, gas, txs) (λ n. state-IsCached hash c _ v)
            | inl txs ↦
                elim (Bool-cases
                  (bytes_eq (state_root hash (paid hash verify below c b)) h.state_root)) [
                    | inr root ↦
                        rw (execute_block, ok, gas, txs, root) (λ n. state-IsCached hash c _ v)
                    | inl root ↦ elim (Bool-cases (voted hash verify below c b before)) [
                      | inr vote ↦
                          rw (execute_block, ok, gas, txs, root, vote)
                            (λ n. state-IsCached hash judged _ kept)
                      | inl vote ↦
                          rw (execute_block, ok, gas, txs, root, vote)
                            (commit-CachedOk hash judged b tip w)
                    ]
                  ]
          ]
        ]
      ]

  abbrev CachedOr : Option (Chain × Accept) → Type 0
  CachedOr none = Unit
  CachedOr (some p) = CachedOk hash p

  accept-CachedOr :
      (c : Chain) (b : Block) (now : ℕ) (w : Writes)
      → IsCached hash c
      → CachedOr (accept_block hash verify below c b now w)
  unfolding accept_block
  accept-CachedOr c b now w v =
      let c1 = (validate_proposer_vrf hash verify c b.header).0 in
      let kept = proposer-IsCached hash verify c b.header v in
      elim (Option-cases (check_header hash c b.header now)) [
        | inr (r, early) ↦ rw (accept_block, early) (λ n. v)
        | inl sound ↦ elim (Bool-cases (validate_proposer_vrf hash verify c b.header).1) [
          | inr idle ↦ rw (accept_block, sound, idle) (λ n. kept)
          | inl active ↦ elim (Option-cases (expected_base_fee c1)) [
            | inl trap ↦ rw (accept_block, sound, active, trap) tt
            | inr (fee, due) ↦ elim (Bool-cases (base_fee_refused b.header.base_fee fee)) [
              | inl off ↦ rw (accept_block, sound, active, due, off) (λ n. kept)
              | inr close ↦
                  rw (accept_block, sound, active, due, close) (execute-CachedOk c1 b w kept)
            ]
          ]
        ]
      ]

  -- Offering a block to a chain whose cache is right, whether the block is accepted or refused, leaves a chain
  -- whose cache is right, so that every epoch seed asked for then is the one computed from the blocks of
  -- the chain, and asking leaves the cache right too. The internal error is excepted.
  pub accept_block-IsCached :
      (c d : Chain) (b : Block) (now : ℕ) (w : Writes) (r : Accept)
      → IsCached hash c
      → accept_block hash verify below c b now w ≡ some (d, r)
      → r ≢ internal
      → (e : ℕ)
      → ((epoch_seed hash d e).1 ≡ compute_epoch_seed hash d e)
        × IsCached hash d
        × IsCached hash (epoch_seed hash d e).0
  accept_block-IsCached c d b now w r v e n k =
      let right : IsCached hash d = subst CachedOr e (accept-CachedOr c b now w v) n in
      ((epoch_seed_lem hash d k right).0, right, (epoch_seed_lem hash d k right).1)
