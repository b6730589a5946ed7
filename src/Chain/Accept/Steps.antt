-- ===== src/Chain/Accept/Steps.antt =====
-- What the parts of `ac_chain_accept_block` of src/chain.c change: the cache of seeds, the state and
-- the indices.
use agentchain.Base.{
  ℕ, ◌+◌, ◌≡◌, refl, ap, ◌∙◌, Bool, not, ◌&&◌, ◌||◌, List, [], ◌∷◌, length, ltb, ◌==◌, inl, inr,
  Bool-cases, Option-cases, leb, take, add64,
}
use agentchain.Bytes.Compare.{Bytes, bytes_eq}
use agentchain.Codec.Header.{BlockHeader}
use agentchain.Codec.Block.{Block}
use agentchain.Codec.Tx.{Tx, tx_verify, tx_transfer}
use agentchain.State.{State, state_get, state_credit, state_debit}
use agentchain.State.Laws.{IsValid, set-IsValid, chain_id-set}
use agentchain.State.Apply.{state_apply_tx}
use agentchain.State.Apply.Safety.{apply-IsValid}
use agentchain.State.Snapshot.{state_serialize}
use agentchain.State.Snapshot.RoundTrip.{IsStorable, deserialize-serialize}
use agentchain.Chain.Data.{Chain}
use agentchain.Chain.Index.{
  addr_index_push, addr_index_record_tx, tx_index_add, record_txs, index_txs,
}
use agentchain.Chain.Live.{min_stake_ucrd}
use agentchain.Chain.Seed.{epoch_of, epoch_seed, leader_alpha, committee_alpha}
use agentchain.Chain.Commit.{PreStake, validate_proposer_vrf, signed_sqrt, validate_commit}
use agentchain.Crypto.{vrf_verify}
use agentchain.Codec.Vote.{vote_message}
use agentchain.Chain.Accept.{is_rejected, block_gas_limit, run_txs, pay_leader, rollback}

-- The first chain with the cache of the second.
abbrev pub recached : Chain → Chain → Chain
recached c d = record c {
  cached_epoch = d.cached_epoch;
  cached_seed = d.cached_seed;
  cached_valid = d.cached_valid;
}

-- Equal but for the cache.
abbrev pub SameChain : Chain → Chain → Type 0
SameChain c d = d ≡ recached c d

module _ (hash : Bytes → Bytes) where
  pub seed-SameChain : (c : Chain) (epoch : ℕ) → SameChain c (epoch_seed hash c epoch).0
  unfolding epoch_seed
  seed-SameChain c epoch = elim (Bool-cases (c.cached_valid && c.cached_epoch == epoch)) [
    | inl hit ↦ rw (hit, epoch_seed) refl
    | inr miss ↦ rw (miss, epoch_seed) refl
  ]

  module _ (verify : Bytes → Bytes → Bytes → Bool) where
    pub proposer-SameChain :
        (c : Chain) (h : BlockHeader) → SameChain c (validate_proposer_vrf hash verify c h).0
    unfolding validate_proposer_vrf
    proposer-SameChain c h =
        let (acc, exists) = state_get c.state h.proposer in
        let seeded = epoch_seed hash c (epoch_of h.slot) in
        elim (Bool-cases (not exists || ltb acc.stake min_stake_ucrd)) [
          | inl idle ↦ rw (validate_proposer_vrf, idle) refl
          | inr active ↦
              elim (Option-cases (
                vrf_verify hash verify h.proposer_vrf_proof (leader_alpha seeded.1 h.slot)
                  h.proposer)) [
                    | inl bad ↦
                        rw (validate_proposer_vrf, active, bad) (seed-SameChain c (epoch_of h.slot))
                    | inr (beta, good) ↦
                        rw (validate_proposer_vrf, active, good)
                          (seed-SameChain c (epoch_of h.slot))
                  ]
        ]

    pub commit-SameChain :
        (below : ℕ → ℕ → ℕ → Bool) (c : Chain) (b : Block) (tip : Bytes) (total : ℕ)
        (table : List PreStake)
        → SameChain c (validate_commit hash verify below c b tip total table).0
    unfolding validate_commit
    commit-SameChain below c b tip total table =
        let seeded = epoch_seed hash c (epoch_of b.header.slot) in
        elim (Bool-cases (length b.signers == 0 || total == 0)) [
          | inl empty ↦ rw (validate_commit, empty) refl
          | inr full ↦
              elim (Option-cases (
                signed_sqrt hash verify below (committee_alpha seeded.1 b.header.slot)
                  (vote_message b.header.height tip) total table b.signers 0)) [
                    | inl bad ↦
                        rw (validate_commit, full, bad) (seed-SameChain c (epoch_of b.header.slot))
                    | inr (sum, good) ↦
                        rw (validate_commit, full, good) (seed-SameChain c (epoch_of b.header.slot))
                  ]
        ]

    -- Executing transactions keeps a state valid, and of its chain.
    pub run-IsValid :
        (s : State) (txs : List Tx) (slot base_fee gas tips : ℕ)
        → IsValid s
        → IsValid (run_txs hash verify s txs slot base_fee gas tips).state
          × ((run_txs hash verify s txs slot base_fee gas tips).state.chain_id ≡ s.chain_id)
    unfolding run_txs
    run-IsValid s [] slot base_fee gas tips v = (v, refl)
    run-IsValid s (tx ∷ txs) slot base_fee gas tips v =
        let a = state_apply_tx verify s tx slot base_fee in
        let (v', same) = apply-IsValid verify s tx slot base_fee v in
        let (w, same') =
          run-IsValid a.state txs slot base_fee (add64 gas a.result.gas_used)
            (add64 tips a.result.fee_tip) v' in
        elim (Bool-cases (tx_verify hash verify tx)) [
          | inr bad ↦ rw (run_txs, bad) (v, refl)
          | inl good ↦ elim (Bool-cases (is_rejected a.outcome)) [
            | inl out ↦ rw (run_txs, good, out) (v', same)
            | inr kept ↦ elim (Bool-cases (ltb block_gas_limit (add64 gas a.result.gas_used))) [
              | inl over ↦ rw (run_txs, good, kept, over) (v', same)
              | inr under ↦ rw (run_txs, good, kept, under) (w, same' ∙ same)
            ]
          ]
        ]

pub credit-IsValid :
    (s : State) (k : Bytes) (n : ℕ)
    → IsValid s
    → IsValid (state_credit s k n) × ((state_credit s k n).chain_id ≡ s.chain_id)
unfolding state_credit
credit-IsValid s k n v = (set-IsValid s _ v, chain_id-set s _)

pub debit-IsValid :
    (s : State) (k : Bytes) (n : ℕ)
    → IsValid s
    → IsValid (state_debit s k n) × ((state_debit s k n).chain_id ≡ s.chain_id)
unfolding state_debit
debit-IsValid s k n v = (set-IsValid s _ v, chain_id-set s _)

pub pay-IsValid :
    (s : State) (leader : Bytes) (reward tips : ℕ)
    → IsValid s
    → IsValid (pay_leader s leader reward tips)
      × ((pay_leader s leader reward tips).chain_id ≡ s.chain_id)
unfolding pay_leader
pay-IsValid s leader reward tips v =
    let (v1, e1) = credit-IsValid s leader (add64 reward tips) v in
    let (v2, e2) = debit-IsValid (state_credit s leader (add64 reward tips)) _ reward v1 in
    (v2, e2 ∙ e1)

-- Restoring the snapshot of the state of `c` undoes all but the cache.
pub rollback-SameChain :
    (c d : Chain) (s : State)
    → IsValid c.state
    → IsStorable c.state
    → s.chain_id ≡ c.state.chain_id
    → SameChain (record c { state = s }) d
    → SameChain c (rollback d (state_serialize c.state))
unfolding rollback
rollback-SameChain c d s v w same e =
    rw (deserialize-serialize c.state d.state v w (ap (λ (x : Chain). x.state.chain_id) e ∙ same))
      (ap (λ (x : Chain). record x { state = c.state }) e)

-- The indices alone change.
abbrev pub reindexed : Chain → Chain → Chain
reindexed c d = record c {
  tx_index = d.tx_index;
  tx_index_sorted = d.tx_index_sorted;
  addr_index = d.addr_index;
  addr_index_sorted = d.addr_index_sorted;
}

record_tx-reindexed :
    (c : Chain) (tx : Tx) (h i : ℕ)
    → addr_index_record_tx c tx h i ≡ reindexed c (addr_index_record_tx c tx h i)
unfolding addr_index_record_tx addr_index_push
record_tx-reindexed c tx h i =
    elim (Bool-cases (tx.kind == tx_transfer && leb 32 (length tx.body))) [
      | inl pays ↦ elim (Bool-cases (bytes_eq (take 32 tx.body) tx.sender)) [
        | inl self ↦ rw (pays, addr_index_record_tx, self) refl
        | inr other ↦ rw (pays, addr_index_record_tx, other) refl
      ]
      | inr none_paid ↦ rw (none_paid, addr_index_record_tx) refl
    ]

pub record_txs-reindexed :
    (c : Chain) (txs : List Tx) (h i : ℕ)
    → record_txs c txs h i ≡ reindexed c (record_txs c txs h i)
unfolding record_txs
record_txs-reindexed c [] h i = refl
record_txs-reindexed c (tx ∷ txs) h i =
    let d = addr_index_record_tx c tx h i in
    record_txs-reindexed d txs h (i + 1)
    ∙ ap (λ x. reindexed x (record_txs d txs h (i + 1))) (record_tx-reindexed c tx h i)

pub index_txs-reindexed :
    (hash : Bytes → Bytes) (c : Chain) (txs : List Tx) (h i : ℕ)
    → index_txs hash c txs h i ≡ reindexed c (index_txs hash c txs h i)
unfolding index_txs tx_index_add
index_txs-reindexed hash c [] h i = refl
index_txs-reindexed hash c (tx ∷ txs) h i =
    index_txs-reindexed hash (tx_index_add c _ h i) txs h (i + 1)
