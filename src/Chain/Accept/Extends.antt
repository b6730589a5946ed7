-- ===== src/Chain/Accept/Extends.antt =====
-- What `ac_chain_accept_block` of src/chain.c has checked and done when it answers "ok".
use agentchain.Base.{
  ℕ, ◌<◌, ◌≡◌, ◌≢◌, refl, sym, ap, ◌∙◌, Bool, true, Option, none, some, ◌==◌, inl, inr, Bool-cases,
  Option-cases, arith, take, add64, ==_iff,
}
use mathlib.Core.Path.{subst}
use agentchain.Bytes.Compare.{Bytes, bytes_eq, bytes_eq_iff}
use agentchain.Codec.Header.{BlockHeader, block_hash, block_tx_root}
use agentchain.Codec.Block.{Block, committee_max}
use agentchain.State.{State}
use agentchain.State.Snapshot.{state_root}
use agentchain.Chain.{block_reward}
use agentchain.Chain.Data.{Chain, Writes}
use agentchain.Chain.Live.{total_sqrt_stake, record_signers}
use agentchain.Chain.Commit.{pre_table, validate_proposer_vrf, validate_commit}
use agentchain.Chain.Accept.{
  Accept, accept_ok, TxRun, run_txs, pay_leader, expected_base_fee, check_header, base_fee_refused,
  commit_block, execute_block, accept_block,
}
use agentchain.Chain.Accept.Steps.{recached, SameChain, proposer-SameChain, commit-SameChain}
use agentchain.Chain.Accept.Written.{commit-Committed}

-- The checks of the header that place the block on the tip.
pub record Follows (c : Chain) (h : BlockHeader) : Type 0 where
  pub height : h.height ≡ add64 c.height 1
  pub parent : h.parent_hash ≡ c.tip_hash
  pub later : c.last_slot < h.slot

pub check_header-Follows :
    (hash : Bytes → Bytes) (c : Chain) (h : BlockHeader) (now : ℕ)
    → check_header hash c h now ≡ none
    → Follows c h
unfolding check_header
check_header-Follows hash c h now e = record {
  height = ground arith;
  parent = ground (arith, bytes_eq_iff h.parent_hash c.tip_hash);
  later = ground arith;
}

abbrev with_state : Chain → State → Chain
with_state c s = record c { state = s }

check_header_never_ok :
    (hash : Bytes → Bytes) (c : Chain) (h : BlockHeader) (now : ℕ)
    → check_header hash c h now ≢ some accept_ok
unfolding check_header
check_header_never_ok hash c h now e = ground arith

module _ (hash : Bytes → Bytes) (verify : Bytes → Bytes → Bytes → Bool)
    (below : ℕ → ℕ → ℕ → Bool) where
  abbrev pub ran : Chain → Block → TxRun
  ran c b = run_txs hash verify c.state b.txs b.header.slot b.header.base_fee 0 0

  abbrev pub paid : Chain → Block → State
  paid c b =
      pay_leader (ran c b).state b.header.proposer (block_reward b.header.height)
        (ran c b).total_tips

  -- The verdict on the certificate, by the stakes before the block, on a chain with `e`'s cache and the state
  -- after the block.
  abbrev pub voted : Chain → Block → Chain → Bool
  voted c b e =
      (validate_commit hash verify below e b (block_hash hash b.header) (total_sqrt_stake c)
        (pre_table c.state (take committee_max b.signers))).1

  -- The transactions, the roots and the certificate hold for the chain before, and the chain after has
  -- them.
  pub record Extends (c : Chain) (b : Block) (d : Chain) : Type 0 where
    pub txs_ok : (ran c b).tx_ok ≡ true
    pub gas : (ran c b).total_gas ≡ b.header.gas_used
    pub tx_root : block_tx_root hash b.txs ≡ b.header.tx_root
    pub state : d.state ≡ paid c b
    pub state_root : state_root hash d.state ≡ b.header.state_root
    pub height : d.height ≡ b.header.height
    pub tip_hash : d.tip_hash ≡ block_hash hash b.header
    pub slot : d.last_slot ≡ b.header.slot
    pub live : d.live_map ≡ record_signers c.live_map b.signers b.header.height
    pub certified : (e : Chain) × SameChain (record c { state = d.state }) e × (voted c b e ≡ true)

  abbrev ExtendsOk : Chain → Block → Chain × Accept → Type 0
  ExtendsOk c b (d, r) = r ≡ accept_ok → Extends c b d

  committed-Extends :
      (c : Chain) (b : Block) (w : Writes)
      → (ran c b).tx_ok ≡ true
      → ((ran c b).total_gas == b.header.gas_used) ≡ true
      → bytes_eq (block_tx_root hash b.txs) b.header.tx_root ≡ true
      → bytes_eq (state_root hash (paid c b)) b.header.state_root ≡ true
      → voted c b (record c { state = paid c b }) ≡ true
      → let judged =
          (validate_commit hash verify below
            (record c { state = paid c b })
            b
            (block_hash hash b.header)
            (total_sqrt_stake c)
            (pre_table c.state (take committee_max b.signers))).0 in
        ExtendsOk c b (commit_block hash judged b (block_hash hash b.header) w)
  committed-Extends c b w ok gas txs root vote o =
      let tip = block_hash hash b.header in
      let before : Chain = record c { state = paid c b } in
      let total = total_sqrt_stake c in
      let table = pre_table c.state (take committee_max b.signers) in
      let judged = (validate_commit hash verify below before b tip total table).0 in
      let same : SameChain before judged =
        commit-SameChain hash verify below before b tip total table in
      let done = commit-Committed hash judged b tip w o in
      let state = done.state ∙ ap (λ (x : Chain). x.state) same in
      record {
        txs_ok = ok;
        gas = (==_iff _ _).0 gas;
        tx_root = (bytes_eq_iff _ _).0 txs;
        state = state;
        state_root = ap (state_root hash) state ∙ (bytes_eq_iff _ _).0 root;
        height = done.height;
        tip_hash = done.tip_hash;
        slot = done.slot;
        live =
            done.live
            ∙ ap (λ (x : Chain). record_signers x.live_map b.signers b.header.height) same;
        certified = (before, ap (with_state c) (sym state), vote);
      }

  execute-Extends :
      (c : Chain) (b : Block) (w : Writes) → ExtendsOk c b (execute_block hash verify below c b w)
  unfolding execute_block
  execute-Extends c b w =
      let h = b.header in
      let tip = block_hash hash h in
      let judged =
        (validate_commit hash verify below (record c { state = paid c b }) b tip
          (total_sqrt_stake c) (pre_table c.state (take committee_max b.signers))).0 in
      elim (Bool-cases (ran c b).tx_ok) [
        | inr bad ↦ rw (execute_block, bad) (λ o. cc)
        | inl ok ↦ elim (Bool-cases ((ran c b).total_gas == h.gas_used)) [
          | inr gas ↦ rw (execute_block, ok, gas) (λ o. cc)
          | inl gas ↦ elim (Bool-cases (bytes_eq (block_tx_root hash b.txs) h.tx_root)) [
            | inr txs ↦ rw (execute_block, ok, gas, txs) (λ o. cc)
            | inl txs ↦ elim (Bool-cases (bytes_eq (state_root hash (paid c b)) h.state_root)) [
              | inr root ↦ rw (execute_block, ok, gas, txs, root) (λ o. cc)
              | inl root ↦ elim (Bool-cases (voted c b (record c { state = paid c b }))) [
                | inr vote ↦ rw (execute_block, ok, gas, txs, root, vote) (λ o. cc)
                | inl vote ↦
                    rw (execute_block, ok, gas, txs, root, vote)
                      (committed-Extends c b w ok gas txs root vote)
              ]
            ]
          ]
        ]
      ]

  recached-Extends :
      (c x : Chain) (b : Block) (d : Chain) → Extends (recached c x) b d → Extends c b d
  unfolding total_sqrt_stake
  recached-Extends c x b d v = record {
    txs_ok = v.txs_ok;
    gas = v.gas;
    tx_root = v.tx_root;
    state = v.state;
    state_root = v.state_root;
    height = v.height;
    tip_hash = v.tip_hash;
    slot = v.slot;
    live = v.live;
    certified = v.certified;
  }

  abbrev AcceptedOk : Chain → Block → Option (Chain × Accept) → Type 0
  AcceptedOk c b none = Unit
  AcceptedOk c b (some (d, r)) = r ≡ accept_ok → Follows c b.header × Extends c b d

  accept-AcceptedOk :
      (c : Chain) (b : Block) (now : ℕ) (w : Writes)
      → AcceptedOk c b (accept_block hash verify below c b now w)
  unfolding accept_block
  accept-AcceptedOk c b now w =
      let c1 = (validate_proposer_vrf hash verify c b.header).0 in
      let same : SameChain c c1 = proposer-SameChain hash verify c b.header in
      elim (Option-cases (check_header hash c b.header now)) [
        | inr (r, early) ↦
            rw (accept_block, early)
              (λ o. absurd (check_header_never_ok hash c b.header now (early ∙ ap some o)))
        | inl sound ↦ elim (Bool-cases (validate_proposer_vrf hash verify c b.header).1) [
          | inr idle ↦ rw (accept_block, sound, idle) (λ o. cc)
          | inl active ↦ elim (Option-cases (expected_base_fee c1)) [
            | inl trap ↦ rw (accept_block, sound, active, trap) tt
            | inr (fee, due) ↦ elim (Bool-cases (base_fee_refused b.header.base_fee fee)) [
              | inl off ↦ rw (accept_block, sound, active, due, off) (λ o. cc)
              | inr close ↦
                  let (d, r) = execute_block hash verify below c1 b w in
                  rw (accept_block, sound, active, due, close)
                    (λ o. (
                      check_header-Follows hash c b.header now sound,
                      recached-Extends c c1 b d
                          (subst (λ x. Extends x b d) same (execute-Extends c1 b w o)),
                    ))
            ]
          ]
        ]
      ]

  -- A block is accepted only if it is the next one, on the tip, and in a later slot than it; its transactions execute on the
  -- state of the chain within the gas limit and use the gas that it states; both roots are right; and its certificate is valid.
  -- Then the chain has the state of those transactions with the leader paid, the block as its tip, and its
  -- signers recorded as live.
  pub accept_block_ok :
      (c d : Chain) (b : Block) (now : ℕ) (w : Writes)
      → accept_block hash verify below c b now w ≡ some (d, accept_ok)
      → Follows c b.header × Extends c b d
  accept_block_ok c d b now w e = subst (AcceptedOk c b) e (accept-AcceptedOk c b now w) refl
