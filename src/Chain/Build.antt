-- ===== src/Chain/Build.antt =====
-- `ac_chain_build_block` of src/chain.c. `sign` signs under the proposer's keypair, `pk` is its
-- public key; no allocation fails.
pub mod Replay
pub mod Agree
use agentchain.Base.{
  ℕ, Bool, true, false, not, ◌||◌, Option, none, some, List, [], ◌∷◌, length, ltb, ◌==◌,
  if◌then◌else◌, add64,
}
use agentchain.Bytes.Compare.{Bytes}
use agentchain.Codec.Header.{block_tx_root}
use agentchain.Codec.Block.{Block}
use agentchain.Codec.Tx.{Tx, tx_verify, tx_total_gas}
use agentchain.Crypto.{vrf_prove}
use agentchain.State.{State, state_get}
use agentchain.State.Apply.{state_apply_tx}
use agentchain.State.Snapshot.{state_root, state_serialize}
use agentchain.Chain.{next_base_fee, block_reward}
use agentchain.Chain.Data.{Chain, slot_time_ms, get_header_by_height}
use agentchain.Chain.Live.{min_stake_ucrd}
use agentchain.Chain.Seed.{epoch_of, epoch_seed, leader_alpha}
use agentchain.Chain.Accept.{is_rejected, block_gas_limit, pay_leader, rollback}

-- The locals of the loop over the candidates, at its end.
pub record Selection : Type 0 where
  pub state : State
  pub kept : List Tx
  pub total_gas : ℕ
  pub total_tips : ℕ

abbrev pub keep : Tx → Selection → Selection
keep tx r = record r { kept = tx ∷ r.kept }

module _ (hash : Bytes → Bytes) (verify : Bytes → Bytes → Bytes → Bool) where
  unfoldable pub select_txs : State → List Tx → ℕ → ℕ → ℕ → ℕ → Selection
  select_txs s [] slot base_fee gas tips = record {
    state = s;
    kept = [];
    total_gas = gas;
    total_tips = tips;
  }
  select_txs s (tx ∷ txs) slot base_fee gas tips =
      elim (not (tx_verify hash verify tx) || ltb block_gas_limit (add64 gas (tx_total_gas tx))) [
        | true ↦ select_txs s txs slot base_fee gas tips
        | false ↦
            let a = state_apply_tx verify s tx slot base_fee in
            elim (is_rejected a.outcome) [
              | true ↦ select_txs a.state txs slot base_fee gas tips
              | false ↦ keep tx (
                  select_txs a.state txs slot base_fee (add64 gas a.result.gas_used)
                    (add64 tips a.result.fee_tip))
            ]
      ]

-- `none` is a division by zero.
unfoldable pub building_base_fee : Chain → Option ℕ
building_base_fee c = if c.height == 0 then some 1 else elim (get_header_by_height c c.height) [
  | none ↦ some 1
  | some prev ↦ next_base_fee prev.base_fee prev.gas_used prev.gas_limit
]

module _ (hash : Bytes → Bytes) (verify : Bytes → Bytes → Bytes → Bool) where
  -- From the snapshot on, with the proof and the base fee.
  unfoldable pub assemble_block : Chain → ℕ → Bytes → Bytes → ℕ → List Tx → Chain × Block
  assemble_block c slot proposer proof base_fee candidates =
      let snap = state_serialize c.state in
      let run = select_txs hash verify c.state candidates slot base_fee 0 0 in
      let reward = block_reward (add64 c.height 1) in
      let paid = record c { state = pay_leader run.state proposer reward run.total_tips } in
      (
        rollback paid snap,
        record {
          header = record {
            version = 1;
            height = add64 c.height 1;
            slot = slot;
            parent_hash = c.tip_hash;
            timestamp_ms = slot_time_ms c slot;
            proposer = proposer;
            proposer_vrf_proof = proof;
            state_root = state_root hash paid.state;
            tx_root = block_tx_root hash run.kept;
            base_fee = base_fee;
            gas_used = run.total_gas;
            gas_limit = block_gas_limit;
            tx_count = length run.kept;
          };
          txs = run.kept;
          signers = [];
        },
      )

  -- The chain left, and the block, `none` where the source returns -1; the outer `none` is a
  -- division by zero.
  unfoldable pub build_block :
      (Bytes → Bytes) → Bytes → Chain → ℕ → List Tx → Option (Chain × Option Block)
  build_block sign pk c slot candidates =
      let (acc, exists) = state_get c.state pk in
      if not exists || ltb acc.stake min_stake_ucrd
      then some (c, none)
      else let (c', seed) = epoch_seed hash c (epoch_of slot) in
        let proof = (vrf_prove hash sign (leader_alpha seed slot)).0 in
        elim (building_base_fee c') [
          | none ↦ none
          | some base_fee ↦
              let (c'', b) = assemble_block c' slot pk proof base_fee candidates in
              some (c'', some b)
        ]
