-- ===== src/Chain/Build/Agree.antt =====
-- A block that `ac_chain_build_block` of src/chain.c builds against what `ac_chain_accept_block` computes when
-- it runs the block's transactions.
use agentchain.Base.{
  ℕ, ◌≡◌, refl, ap, ◌∙◌, Bool, not, ◌||◌, Option, none, some, List, All, ltb, leb, inl, inr,
  Bool-cases, Option-cases, add64, arith,
}
use mathlib.Core.Path.{subst, sym}
use agentchain.Bytes.Compare.{Bytes}
use agentchain.Codec.Header.{block_tx_root}
use agentchain.Codec.Block.{Block}
use agentchain.Codec.Tx.{Tx}
use agentchain.Crypto.{vrf_prove}
use agentchain.State.{State, state_get}
use agentchain.State.Laws.{IsValid}
use agentchain.State.Snapshot.{state_root}
use agentchain.State.Snapshot.RoundTrip.{IsStorable}
use agentchain.Chain.{block_reward}
use agentchain.Chain.Data.{Chain, slot_time_ms, get_header_by_height, block_read}
use agentchain.Chain.Live.{min_stake_ucrd}
use agentchain.Chain.Seed.{epoch_of, epoch_seed, leader_alpha}
use agentchain.Chain.Accept.{block_gas_limit, pay_leader}
use agentchain.Chain.Accept.Steps.{
  recached, SameChain, seed-SameChain, run-IsValid, pay-IsValid, rollback-SameChain,
}
use agentchain.Chain.Accept.Extends.{ran, paid}
use agentchain.Chain.Build.{select_txs, building_base_fee, assemble_block, build_block}
use agentchain.Chain.Build.Replay.{IsSmall, run-select}

module _ (hash : Bytes → Bytes) (verify : Bytes → Bytes → Bytes → Bool)
    (below : ℕ → ℕ → ℕ → Bool) where
  -- What `accept_block` computes from the block on the chain is what the block states.
  pub record Agrees (c : Chain) (slot : ℕ) (b : Block) : Type 0 where
    pub height : b.header.height ≡ add64 c.height 1
    pub parent : b.header.parent_hash ≡ c.tip_hash
    pub slot_is : b.header.slot ≡ slot
    pub timestamp : b.header.timestamp_ms ≡ slot_time_ms c slot
    pub base_fee : building_base_fee c ≡ some b.header.base_fee
    pub gas : (ran hash verify below c b).total_gas ≡ b.header.gas_used
    pub txs_ok : (ran hash verify below c b).tx_ok ≡ leb b.header.gas_used block_gas_limit
    pub state_root : state_root hash (paid hash verify below c b) ≡ b.header.state_root
    pub tx_root : block_tx_root hash b.txs ≡ b.header.tx_root

  recached-Agrees :
      (c x : Chain) (slot : ℕ) (b : Block) → Agrees (recached c x) slot b → Agrees c slot b
  unfolding slot_time_ms building_base_fee get_header_by_height block_read
  recached-Agrees c x slot b v = record {
    height = v.height;
    parent = v.parent;
    slot_is = v.slot_is;
    timestamp = v.timestamp;
    base_fee = v.base_fee;
    gas = v.gas;
    txs_ok = v.txs_ok;
    state_root = v.state_root;
    tx_root = v.tx_root;
  }

  -- The loop of the build, executed by the loop of the acceptance.
  chosen-IsValid :
      (s : State) (txs : List Tx) (slot base_fee : ℕ)
      → IsValid s
      → All IsSmall txs
      → let k = select_txs hash verify s txs slot base_fee 0 0 in
        IsValid k.state × (k.state.chain_id ≡ s.chain_id)
  chosen-IsValid s txs slot base_fee v small =
      let k = select_txs hash verify s txs slot base_fee 0 0 in
      let same = run-select hash verify slot base_fee s txs 0 0 v small (omega arith) in
      let (w, e) = run-IsValid hash verify s k.kept slot base_fee 0 0 v in
      (subst IsValid (ap (λ r. r.state) same) w, ap (λ r. r.state.chain_id) (sym same) ∙ e)

  module _ (c : Chain) (slot : ℕ) (pk proof : Bytes) (base_fee : ℕ) (txs : List Tx)
      (v : IsValid c.state) (k : IsStorable c.state) (small : All IsSmall txs) where
    abbrev made : Chain × Block
    made = assemble_block hash verify c slot pk proof base_fee txs

    made-SameChain : SameChain c made.0
    unfolding assemble_block
    made-SameChain =
        let chosen = select_txs hash verify c.state txs slot base_fee 0 0 in
        let reward = block_reward (add64 c.height 1) in
        let (w, e) = chosen-IsValid c.state txs slot base_fee v small in
        let (_, e') = pay-IsValid chosen.state pk reward chosen.total_tips w in
        let after = pay_leader chosen.state pk reward chosen.total_tips in
        rollback-SameChain c (record c { state = after }) after v k (e' ∙ e) refl

    made-Agrees : building_base_fee c ≡ some base_fee → Agrees c slot made.1
    unfolding assemble_block
    made-Agrees due =
        let same = run-select hash verify slot base_fee c.state txs 0 0 v small (omega arith) in
        record {
          height = refl;
          parent = refl;
          slot_is = refl;
          timestamp = refl;
          base_fee = due;
          gas = ap (λ r. r.total_gas) same;
          txs_ok = ap (λ r. r.tx_ok) same;
          state_root =
              ap
                (λ r.
                  state_root hash
                    (pay_leader r.state pk (block_reward (add64 c.height 1)) r.total_tips))
                same;
          tx_root = refl;
        }

  abbrev BuiltOr : Chain → ℕ → Option (Chain × Option Block) → Type 0
  BuiltOr c slot none = Unit
  BuiltOr c slot (some (d, none)) = SameChain c d
  BuiltOr c slot (some (d, some b)) = SameChain c d × Agrees c slot b

  build-BuiltOr :
      (sign : Bytes → Bytes) (pk : Bytes) (c : Chain) (slot : ℕ) (txs : List Tx)
      → IsValid c.state
      → IsStorable c.state
      → All IsSmall txs
      → BuiltOr c slot (build_block hash verify sign pk c slot txs)
  unfolding build_block
  build-BuiltOr sign pk c slot txs v k small =
      let (acc, exists) = state_get c.state pk in
      let seeded = epoch_seed hash c (epoch_of slot) in
      let proof = (vrf_prove hash sign (leader_alpha seeded.1 slot)).0 in
      elim (Bool-cases (not exists || ltb acc.stake min_stake_ucrd)) [
        | inl idle ↦ rw (build_block, idle) refl
        | inr active ↦ elim (Option-cases (building_base_fee seeded.0)) [
          | inl trap ↦ rw (build_block, active, trap) tt
          | inr (fee, due) ↦
              let same : SameChain c seeded.0 = seed-SameChain hash c (epoch_of slot) in
              let state : seeded.0.state ≡ c.state = ap (λ (x : Chain). x.state) same in
              let v' = subst IsValid (sym state) v in
              let k' = subst IsStorable (sym state) k in
              let kept = made-SameChain seeded.0 slot pk proof fee txs v' k' small in
              let agrees = made-Agrees seeded.0 slot pk proof fee txs v' k' small due in
              let (d, b) = assemble_block hash verify seeded.0 slot pk proof fee txs in
              rw (build_block, active, due)
                (
                  kept ∙ ap (λ (x : Chain). recached x d) same,
                  recached-Agrees c seeded.0 slot b (subst (λ x. Agrees x slot b) same agrees),
                )
        ]
      ]

  -- On a valid state with fields of their widths, and for candidates with gas limits below 2^32 and memos of at most 512
  -- bytes, building changes nothing but the cached epoch seed. The block that it makes is
  -- the next one, on the tip; and what the acceptance computes for it on this chain is what it states: its gas,
  -- the root of its transactions, and the root of the state after them with the leader
  -- paid. The acceptance finds its transactions in order exactly when that gas is within the block's limit.
  pub build_block-Agrees :
      (sign : Bytes → Bytes) (pk : Bytes) (c d : Chain) (slot : ℕ) (txs : List Tx) (b : Block)
      → IsValid c.state
      → IsStorable c.state
      → All IsSmall txs
      → build_block hash verify sign pk c slot txs ≡ some (d, some b)
      → SameChain c d × Agrees c slot b
  build_block-Agrees sign pk c d slot txs b v k small e =
      subst (BuiltOr c slot) e (build-BuiltOr sign pk c slot txs v k small)
