-- ===== src/Chain/Accept/Refused.antt =====
-- Blocks that `ac_chain_accept_block` of src/chain.c refuses, internal errors aside, and the chain after them.
use agentchain.Base.{
  ℕ, ◌≡◌, ◌≢◌, refl, sym, ap, ◌∙◌, Bool, Option, none, some, ◌==◌, inl, inr, Bool-cases, take,
  Option-cases,
}
use mathlib.Core.Path.{subst}
use agentchain.Bytes.Compare.{Bytes, bytes_eq}
use agentchain.Codec.Header.{block_hash, block_tx_root}
use agentchain.Codec.Block.{Block, committee_max}
use agentchain.State.Laws.{IsValid}
use agentchain.State.Snapshot.{state_root, state_serialize}
use agentchain.State.Snapshot.RoundTrip.{IsStorable}
use agentchain.Chain.{block_reward}
use agentchain.Chain.Data.{Chain, Writes, block_write, meta_save}
use agentchain.Chain.Live.{total_sqrt_stake}
use agentchain.Chain.Commit.{pre_table, validate_proposer_vrf, validate_commit}
use agentchain.Chain.Accept.{
  Accept, accept_ok, internal, run_txs, pay_leader, expected_base_fee, check_header,
  base_fee_refused, rollback, commit_block, execute_block, accept_block,
}
use agentchain.Chain.Accept.Steps.{
  recached, SameChain, proposer-SameChain, commit-SameChain, run-IsValid, pay-IsValid,
  rollback-SameChain,
}

-- Accepted, failed to be written, or nothing but the cache has changed.
abbrev pub Undone : Chain → Chain × Accept → Type 0
Undone c (d, r) = r ≢ accept_ok → r ≢ internal → SameChain c d

module _ (hash : Bytes → Bytes) (verify : Bytes → Bytes → Bytes → Bool)
    (below : ℕ → ℕ → ℕ → Bool) where
  commit-Undone :
      (c d : Chain) (b : Block) (tip : Bytes) (w : Writes) → Undone c (commit_block hash d b tip w)
  unfolding commit_block meta_save
  commit-Undone c d b tip w =
      let (d1, wrote) = block_write d b w.block_ok in
      elim (Bool-cases wrote) [
        | inr failed ↦ rw (commit_block, failed) (λ _ n. absurd (n refl))
        | inl block ↦ elim (Bool-cases w.snapshot_ok) [
          | inr failed ↦ rw (commit_block, block, failed) (λ _ n. absurd (n refl))
          | inl snapshot ↦ elim (Bool-cases w.meta_ok) [
            | inr failed ↦
                rw (commit_block, block, snapshot, meta_save, failed) (λ _ n. absurd (n refl))
            | inl meta ↦
                rw (commit_block, block, snapshot, meta_save, meta) (λ n _. absurd (n refl))
          ]
        ]
      ]

  execute-Undone :
      (c : Chain) (b : Block) (w : Writes)
      → IsValid c.state
      → IsStorable c.state
      → Undone c (execute_block hash verify below c b w)
  unfolding execute_block
  execute-Undone c b w v k =
      let h = b.header in
      let run = run_txs hash verify c.state b.txs h.slot h.base_fee 0 0 in
      let (v1, e1) = run-IsValid hash verify c.state b.txs h.slot h.base_fee 0 0 v in
      let paid : Chain = record c {
        state = pay_leader run.state h.proposer (block_reward h.height) run.total_tips;
      } in
      let (_, e2) = pay-IsValid run.state h.proposer (block_reward h.height) run.total_tips v1 in
      let tip = block_hash hash h in
      let total = total_sqrt_stake c in
      let table = pre_table c.state (take committee_max b.signers) in
      let judged = (validate_commit hash verify below paid b tip total table).0 in
      let same : SameChain paid judged =
        commit-SameChain hash verify below paid b tip total table in
      let undo_run : SameChain c
          (rollback (record c { state = run.state }) (state_serialize c.state)) =
        rollback-SameChain c (record c { state = run.state }) run.state v k e1 refl in
      let undo_pay : SameChain c (rollback paid (state_serialize c.state)) =
        rollback-SameChain c paid paid.state v k (e2 ∙ e1) refl in
      let undo_judged : SameChain c (rollback judged (state_serialize c.state)) =
        rollback-SameChain c judged paid.state v k (e2 ∙ e1) same in
      elim (Bool-cases run.tx_ok) [
        | inr bad ↦ rw (execute_block, bad) (λ _ _. undo_run)
        | inl ran ↦ elim (Bool-cases (run.total_gas == h.gas_used)) [
          | inr gas ↦ rw (execute_block, ran, gas) (λ _ _. undo_run)
          | inl gas ↦ elim (Bool-cases (bytes_eq (block_tx_root hash b.txs) h.tx_root)) [
            | inr root ↦ rw (execute_block, ran, gas, root) (λ _ _. undo_run)
            | inl root ↦ elim (Bool-cases (bytes_eq (state_root hash paid.state) h.state_root)) [
              | inr state ↦ rw (execute_block, ran, gas, root, state) (λ _ _. undo_pay)
              | inl state ↦
                  elim (Bool-cases (validate_commit hash verify below paid b tip total table).1) [
                    | inr vote ↦
                        rw (execute_block, ran, gas, root, state, vote) (λ _ _. undo_judged)
                    | inl vote ↦
                        rw (execute_block, ran, gas, root, state, vote)
                          (commit-Undone c judged b tip w)
                  ]
            ]
          ]
        ]
      ]

  abbrev UndoneOr : Chain → Option (Chain × Accept) → Type 0
  UndoneOr c none = Unit
  UndoneOr c (some p) = Undone c p

  trans-Undone : (c d : Chain) (p : Chain × Accept) → SameChain c d → Undone d p → Undone c p
  trans-Undone c d (e, r) same h n m = h n m ∙ ap (λ (x : Chain). recached x e) same

  accept-UndoneOr :
      (c : Chain) (b : Block) (now : ℕ) (w : Writes)
      → IsValid c.state
      → IsStorable c.state
      → UndoneOr c (accept_block hash verify below c b now w)
  unfolding accept_block
  accept-UndoneOr c b now w v k =
      let c1 = (validate_proposer_vrf hash verify c b.header).0 in
      let same : SameChain c c1 = proposer-SameChain hash verify c b.header in
      let state : c1.state ≡ c.state = ap (λ (x : Chain). x.state) same in
      elim (Option-cases (check_header hash c b.header now)) [
        | inr (r, early) ↦ rw (accept_block, early) (λ _ _. refl)
        | inl sound ↦ elim (Bool-cases (validate_proposer_vrf hash verify c b.header).1) [
          | inr idle ↦ rw (accept_block, sound, idle) (λ _ _. same)
          | inl active ↦ elim (Option-cases (expected_base_fee c1)) [
            | inl trap ↦ rw (accept_block, sound, active, trap) tt
            | inr (fee, due) ↦ elim (Bool-cases (base_fee_refused b.header.base_fee fee)) [
              | inl off ↦ rw (accept_block, sound, active, due, off) (λ _ _. same)
              | inr close ↦
                  rw (accept_block, sound, active, due, close)
                    (trans-Undone c c1 (execute_block hash verify below c1 b w) same (
                      execute-Undone c1 b w (subst IsValid (sym state) v)
                        (subst IsStorable (sym state) k)))
            ]
          ]
        ]
      ]

  -- When a block is answered by neither "ok" nor "internal error", and the state is valid with fields of their widths, the
  -- state, the tip, the files, the liveness map and the indices are as they were: only the cached
  -- epoch seed may have changed.
  pub accept_block_undone :
      (c c' : Chain) (b : Block) (now : ℕ) (w : Writes) (r : Accept)
      → IsValid c.state
      → IsStorable c.state
      → accept_block hash verify below c b now w ≡ some (c', r)
      → r ≢ accept_ok
      → r ≢ internal
      → SameChain c c'
  accept_block_undone c c' b now w r v k e = subst (UndoneOr c) e (accept-UndoneOr c b now w v k)
