-- ===== src/Chain/Seed/Cache.antt =====
-- The cache of epoch seeds in src/chain.c, over one call of `ac_chain_epoch_seed`.
use agentchain.Base.{
  ℕ, zero, suc, mul64, ◌≡◌, refl, sym, true, ◌&&◌, arith, ◌==◌, inl, inr, Bool-cases, &&-eq-true,
  ==_iff,
}
use agentchain.Bytes.Compare.{Bytes}
use agentchain.Chain.Data.{Chain, block_read, get_header_by_height}
use agentchain.Chain.Seed.{
  epoch_slots, search_down, seed_from, seed_at_genesis, compute_epoch_seed, epoch_seed,
}

-- A valid cache holds the seed that would be computed.
abbrev pub IsCached : (Bytes → Bytes) → Chain → Type 0
IsCached hash c = c.cached_valid ≡ true → c.cached_seed ≡ compute_epoch_seed hash c c.cached_epoch

abbrev pub cache_seed : Chain → ℕ → Bytes → Chain
cache_seed c epoch seed = record c { cached_epoch = epoch; cached_seed = seed; cached_valid = true }

module _ (hash : Bytes → Bytes) where
  search-cache :
      (c : Chain) (epoch : ℕ) (seed : Bytes) (start h : ℕ)
      → search_down (cache_seed c epoch seed) start h ≡ search_down c start h
  unfolding search_down get_header_by_height block_read
  search-cache c epoch seed start zero = refl
  search-cache c epoch seed start (suc h) = ground (arith, search-cache c epoch seed start h)

  -- The cache is not an input of the seeds.
  pub compute-cache :
      (c : Chain) (epoch : ℕ) (seed : Bytes) (e : ℕ)
      → compute_epoch_seed hash (cache_seed c epoch seed) e ≡ compute_epoch_seed hash c e
  unfolding compute_epoch_seed seed_from seed_at_genesis get_header_by_height block_read
  compute-cache c epoch seed e = rw (search-cache c epoch seed (mul64 e epoch_slots) c.height) refl

  -- With a cache that is right, the epoch seed is the computed one, and the cache stays right.
  pub epoch_seed_lem :
      (c : Chain) (epoch : ℕ)
      → IsCached hash c
      → ((epoch_seed hash c epoch).1 ≡ compute_epoch_seed hash c epoch)
        × IsCached hash (epoch_seed hash c epoch).0
  unfolding epoch_seed
  epoch_seed_lem c epoch v = elim (Bool-cases (c.cached_valid && c.cached_epoch == epoch)) [
    | inl hit ↦
        let (valid, same) = &&-eq-true c.cached_valid (c.cached_epoch == epoch) hit in
        rw (hit, epoch_seed) (ground (arith, v valid, ==_iff c.cached_epoch epoch), v)
    | inr miss ↦
        rw (miss, epoch_seed)
          (refl, λ t. sym (compute-cache c epoch (compute_epoch_seed hash c epoch) epoch))
  ]
