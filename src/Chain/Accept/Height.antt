-- ===== src/Chain/Accept/Height.antt =====
-- The height of the chain through `ac_chain_accept_block` of src/chain.c.
use agentchain.Base.{
  ℕ, ◌≤◌, ◌<◌, ◌≡◌, ap, Bool, Option, none, some, inl, inr, Bool-cases, Option-cases, arith, take,
  ◌==◌,
}
use agentchain.Bytes.Compare.{Bytes, bytes_eq}
use agentchain.Codec.Header.{BlockHeader, block_hash, block_tx_root}
use agentchain.Codec.Block.{Block, committee_max}
use agentchain.State.Snapshot.{state_root}
use agentchain.Chain.Data.{Chain, Writes, block_write, meta_save}
use agentchain.Chain.Live.{total_sqrt_stake}
use agentchain.Chain.Commit.{pre_table, validate_proposer_vrf, validate_commit}
use agentchain.Chain.Accept.{
  Accept, check_header, expected_base_fee, base_fee_refused, rollback, commit_block, execute_block,
  accept_block,
}
use agentchain.Chain.Accept.Steps.{proposer-SameChain, commit-SameChain}
use agentchain.Chain.Accept.Written.{write-disk, finished-Committed}
use agentchain.Chain.Accept.Extends.{ran, paid, voted}

abbrev pub Higher : Chain → Chain × Accept → Type 0
Higher c (d, r) = c.height ≤ d.height

abbrev pub HigherOr : Chain → Option (Chain × Accept) → Type 0
HigherOr c none = Unit
HigherOr c (some p) = Higher c p

check_header-height :
    (hash : Bytes → Bytes) (c : Chain) (h : BlockHeader) (now : ℕ)
    → check_header hash c h now ≡ none
    → c.height < h.height
unfolding check_header
check_header-height hash c h now e = ground arith

commit-Higher :
    (hash : Bytes → Bytes) (c : Chain) (b : Block) (tip : Bytes) (w : Writes)
    → c.height < b.header.height
    → Higher c (commit_block hash c b tip w)
unfolding commit_block meta_save
commit-Higher hash c b tip w more =
    let same : (block_write c b w.block_ok).0.height ≡ c.height =
      ap (λ (x : Chain). x.height) (write-disk c b w.block_ok) in
    elim (Bool-cases (block_write c b w.block_ok).1) [
      | inr failed ↦ rw (commit_block, failed) (omega (arith, same))
      | inl block ↦ elim (Bool-cases w.snapshot_ok) [
        | inr failed ↦ rw (commit_block, block, failed) (omega (arith, same))
        | inl snapshot ↦ elim (Bool-cases w.meta_ok) [
          | inr failed ↦ rw (commit_block, block, snapshot, meta_save, failed) (omega (arith, more))
          | inl meta ↦
              let done = (finished-Committed hash c b tip w).height in
              rw (commit_block, block, snapshot, meta_save, meta) (omega (arith, more, done))
        ]
      ]
    ]

module _ (hash : Bytes → Bytes) (verify : Bytes → Bytes → Bytes → Bool)
    (below : ℕ → ℕ → ℕ → Bool) where
  execute-Higher :
      (c : Chain) (b : Block) (w : Writes)
      → c.height < b.header.height
      → Higher c (execute_block hash verify below c b w)
  unfolding execute_block rollback
  execute-Higher c b w more =
      let h = b.header in
      let tip = block_hash hash h in
      let before : Chain = record c { state = paid hash verify below c b } in
      let total = total_sqrt_stake c in
      let table = pre_table c.state (take committee_max b.signers) in
      let judged = (validate_commit hash verify below before b tip total table).0 in
      let same : judged.height ≡ c.height =
        ap (λ (x : Chain). x.height)
          (commit-SameChain hash verify below before b tip total table) in
      let keep : c.height ≤ c.height = omega arith in
      elim (Bool-cases (ran hash verify below c b).tx_ok) [
        | inr bad ↦ rw (execute_block, bad) keep
        | inl ok ↦ elim (Bool-cases ((ran hash verify below c b).total_gas == h.gas_used)) [
          | inr gas ↦ rw (execute_block, ok, gas) keep
          | inl gas ↦ elim (Bool-cases (bytes_eq (block_tx_root hash b.txs) h.tx_root)) [
            | inr txs ↦ rw (execute_block, ok, gas, txs) keep
            | inl txs ↦
                elim (Bool-cases
                  (bytes_eq (state_root hash (paid hash verify below c b)) h.state_root)) [
                    | inr root ↦ rw (execute_block, ok, gas, txs, root) keep
                    | inl root ↦ elim (Bool-cases (voted hash verify below c b before)) [
                      | inr vote ↦
                          rw (execute_block, ok, gas, txs, root, vote) (omega (arith, same))
                      | inl vote ↦
                          let up = commit-Higher hash judged b tip w (omega (arith, same, more)) in
                          rw (execute_block, ok, gas, txs, root, vote) (omega (arith, same, up))
                    ]
                  ]
          ]
        ]
      ]

  pub accept-HigherOr :
      (c : Chain) (b : Block) (now : ℕ) (w : Writes)
      → HigherOr c (accept_block hash verify below c b now w)
  unfolding accept_block
  accept-HigherOr c b now w =
      let c1 = (validate_proposer_vrf hash verify c b.header).0 in
      let same : c1.height ≡ c.height =
        ap (λ (x : Chain). x.height) (proposer-SameChain hash verify c b.header) in
      elim (Option-cases (check_header hash c b.header now)) [
        | inr (r, early) ↦ rw (accept_block, early) (omega arith)
        | inl sound ↦ elim (Bool-cases (validate_proposer_vrf hash verify c b.header).1) [
          | inr idle ↦ rw (accept_block, sound, idle) (omega (arith, same))
          | inl active ↦ elim (Option-cases (expected_base_fee c1)) [
            | inl trap ↦ rw (accept_block, sound, active, trap) tt
            | inr (fee, due) ↦ elim (Bool-cases (base_fee_refused b.header.base_fee fee)) [
              | inl off ↦ rw (accept_block, sound, active, due, off) (omega (arith, same))
              | inr close ↦
                  let up =
                    execute-Higher c1 b w
                      (omega (arith, same, check_header-height hash c b.header now sound)) in
                  rw (accept_block, sound, active, due, close) (omega (arith, same, up))
            ]
          ]
        ]
      ]
