-- ===== src/Chain/Seed.antt =====
-- Epoch seeds and the inputs of the sortition VRFs in src/chain.c.
pub mod Cache
use agentchain.Base.{
  ℕ, zero, suc, ◌/◌, Bool, true, false, ◌&&◌, ◌||◌, none, some, [], ◌∷◌, ◌++◌, ltb, ◌==◌,
  if◌then◌else◌, mul64,
}
use agentchain.Bytes.Compare.{Bytes}
use agentchain.Bytes.Endian.{be64}
use agentchain.Crypto.{hash_multi}
use agentchain.Chain.Data.{Chain, get_header_by_height}

abbrev pub epoch_slots : ℕ
epoch_slots = 7200

unfoldable pub epoch_of : ℕ → ℕ
epoch_of slot = slot / epoch_slots

-- "AGCH:GENESIS:v1"
abbrev pub genesis_domain : Bytes
genesis_domain =
    b'A' ∷ b'G' ∷ b'C' ∷ b'H' ∷ b':' ∷ b'G' ∷ b'E' ∷ b'N' ∷ b'E' ∷ b'S' ∷ b'I' ∷ b'S' ∷ b':' ∷ b'v'
    ∷ b'1' ∷ []

-- "AGCH:SEED"
abbrev pub seed_domain : Bytes
seed_domain = b'A' ∷ b'G' ∷ b'C' ∷ b'H' ∷ b':' ∷ b'S' ∷ b'E' ∷ b'E' ∷ b'D' ∷ []

-- "AGCH:LEADER"
abbrev pub leader_domain : Bytes
leader_domain = b'A' ∷ b'G' ∷ b'C' ∷ b'H' ∷ b':' ∷ b'L' ∷ b'E' ∷ b'A' ∷ b'D' ∷ b'E' ∷ b'R' ∷ []

-- "AGCH:COMMITTEE"
abbrev pub committee_domain : Bytes
committee_domain =
    b'A' ∷ b'G' ∷ b'C' ∷ b'H' ∷ b':' ∷ b'C' ∷ b'O' ∷ b'M' ∷ b'M' ∷ b'I' ∷ b'T' ∷ b'T' ∷ b'E' ∷ b'E'
    ∷ []

-- What the search down from the tip ends with: a header that cannot be read, the height of the last
-- block before the epoch, or nothing above height 0.
pub data Search : Type 0 where
  unreadable : Search
  stopped : ℕ → Search
  exhausted : Search

unfoldable pub search_down : Chain → ℕ → ℕ → Search
search_down c start zero = exhausted
search_down c start (suc h) = elim (get_header_by_height c (suc h)) [
  | none ↦ unreadable
  | some hdr ↦ elim (ltb hdr.slot start) [ true ↦ stopped (suc h) | false ↦ search_down c start h ]
]

module _ (hash : Bytes → Bytes) where
  unfoldable pub compute_genesis_seed : ℕ → ℕ → Bytes
  compute_genesis_seed chain_id ts =
      hash_multi hash (genesis_domain ∷ (be64 chain_id ++ be64 ts) ∷ [])

  abbrev pub fallback : Chain → Bytes
  fallback c = compute_genesis_seed c.chain_id c.genesis_timestamp_ms

  -- From the header at the height found.
  unfoldable pub seed_from : Chain → ℕ → Bytes
  seed_from c h = elim (get_header_by_height c h) [
    | none ↦ fallback c
    | some hdr ↦ hash_multi hash (seed_domain ∷ hdr.proposer_vrf_proof ∷ [])
  ]

  -- When the search ends at height 0, the genesis header must lie before the epoch too.
  unfoldable pub seed_at_genesis : Chain → ℕ → Bytes
  seed_at_genesis c start =
      if c.height == 0 then seed_from c 0 else elim (get_header_by_height c 0) [
        | none ↦ fallback c
        | some hdr ↦ if ltb hdr.slot start then seed_from c 0 else fallback c
      ]

  unfoldable pub compute_epoch_seed : Chain → ℕ → Bytes
  compute_epoch_seed c epoch =
      let start = mul64 epoch epoch_slots in
      if epoch == 0 then fallback c else elim (search_down c start c.height) [
        | unreadable ↦ fallback c
        | stopped h ↦ seed_from c h
        | exhausted ↦ seed_at_genesis c start
      ]

  -- The chain with its cache, and the seed.
  unfoldable pub epoch_seed : Chain → ℕ → Chain × Bytes
  epoch_seed c epoch =
      if c.cached_valid && c.cached_epoch == epoch
      then (c, c.cached_seed)
      else let seed = compute_epoch_seed c epoch in
        (record c { cached_epoch = epoch; cached_seed = seed; cached_valid = true }, seed)

unfoldable pub leader_alpha : Bytes → ℕ → Bytes
leader_alpha seed slot = leader_domain ++ (seed ++ be64 slot)

unfoldable pub committee_alpha : Bytes → ℕ → Bytes
committee_alpha seed slot = committee_domain ++ (seed ++ be64 slot)

-- `below draw sqrt total` is the `long double` comparison of the draw with the share of the stake;
-- how the floating point rounds is left open.
unfoldable pub committee_eligible : (ℕ → ℕ → ℕ → Bool) → ℕ → ℕ → ℕ → Bool
committee_eligible below draw sqrt_stake total_sqrt =
    if total_sqrt == 0 || sqrt_stake == 0 then false else below draw sqrt_stake total_sqrt
