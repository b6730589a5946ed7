-- ===== src/Chain/Accept.antt =====
-- `ac_chain_accept_block` of src/chain.c. `hash` and `verify` are libsodium's, `below` the
-- floating-point draw of `committee_eligible`, `now` the clock, `w` what the disk lets through.
pub mod Steps
pub mod Refused
pub mod Written
pub mod Extends
pub mod Height
pub mod Cached
pub mod Samples
mod Examples
use agentchain.Base.{
  ℕ, ◌^◌, Bool, true, false, not, ◌||◌, Option, none, some, List, [], ◌∷◌, ltb, leb, ◌==◌, take,
  if◌then◌else◌, add64, sub64,
}
use agentchain.Bytes.Compare.{Bytes, bytes_eq}
use agentchain.Codec.Header.{BlockHeader, block_hash, block_tx_root}
use agentchain.Codec.Block.{Block, committee_max}
use agentchain.Codec.Tx.{Tx, tx_verify}
use agentchain.State.{State, state_credit, state_debit}
use agentchain.State.Apply.{Outcome, rejected, body_failed, applied, state_apply_tx}
use agentchain.State.Snapshot.{state_root, state_serialize, state_deserialize}
use agentchain.Chain.{next_base_fee, block_reward}
use agentchain.Chain.Data.{
  Chain, Writes, slot_time_ms, get_header_by_height, get_block_hash, block_write, meta_save,
}
use agentchain.Chain.Index.{record_txs, index_txs}
use agentchain.Chain.Live.{total_sqrt_stake, record_signers}
use agentchain.Chain.Commit.{pre_table, validate_proposer_vrf, validate_commit}

pub data Accept : Type 0 where
  accept_ok accept_dup bad_header bad_parent bad_time bad_proposer bad_tx bad_state_root
        bad_commit :
      Accept
  bad_gas future internal : Accept

-- "RWDP", and zeros.
abbrev pub sys_reward_pool : Bytes
sys_reward_pool =
    82 ∷ 87 ∷ 68 ∷ 80 ∷ 0 ∷ 0 ∷ 0 ∷ 0 ∷ 0 ∷ 0 ∷ 0 ∷ 0 ∷ 0 ∷ 0 ∷ 0 ∷ 0 ∷ 0 ∷ 0 ∷ 0 ∷ 0 ∷ 0 ∷ 0 ∷ 0
    ∷ 0 ∷ 0 ∷ 0 ∷ 0 ∷ 0 ∷ 0 ∷ 0 ∷ 0 ∷ 0 ∷ []

abbrev pub block_gas_limit : ℕ
block_gas_limit = 30_000_000

-- `(int64_t)a < (int64_t)b` on two's complements.
abbrev pub slt64 : ℕ → ℕ → Bool
slt64 a b = ltb (add64 a (2 ^ 63)) (add64 b (2 ^ 63))

-- The locals of the loop over the transactions, at its end.
pub record TxRun : Type 0 where
  pub state : State
  pub total_gas : ℕ
  pub total_tips : ℕ
  pub tx_ok : Bool

abbrev pub run_stop : State → ℕ → ℕ → TxRun
run_stop s gas tips = record { state = s; total_gas = gas; total_tips = tips; tx_ok = false }

abbrev pub is_rejected : Outcome → Bool
is_rejected rejected = true
is_rejected body_failed = false
is_rejected applied = false

module _ (hash : Bytes → Bytes) (verify : Bytes → Bytes → Bytes → Bool) where
  unfoldable pub run_txs : State → List Tx → ℕ → ℕ → ℕ → ℕ → TxRun
  run_txs s [] slot base_fee gas tips = record {
    state = s;
    total_gas = gas;
    total_tips = tips;
    tx_ok = true;
  }
  run_txs s (tx ∷ txs) slot base_fee gas tips = elim (tx_verify hash verify tx) [
    | false ↦ run_stop s gas tips
    | true ↦
        let a = state_apply_tx verify s tx slot base_fee in
        let gas' = add64 gas a.result.gas_used in
        let tips' = add64 tips a.result.fee_tip in
        elim (is_rejected a.outcome) [
          | true ↦ run_stop a.state gas tips
          | false ↦ elim (ltb block_gas_limit gas') [
            | true ↦ run_stop a.state gas' tips'
            | false ↦ run_txs a.state txs slot base_fee gas' tips'
          ]
        ]
  ]

-- The reward and the tips go to the leader, the reward leaves the pool.
unfoldable pub pay_leader : State → Bytes → ℕ → ℕ → State
pay_leader s leader reward total_tips =
    state_debit (state_credit s leader (add64 reward total_tips)) sys_reward_pool reward

-- The base fee expected at the next height; `none` is a division by zero.
unfoldable pub expected_base_fee : Chain → Option ℕ
expected_base_fee c =
    if leb 1 c.height
    then elim (get_header_by_height c c.height) [
      | none ↦ next_base_fee c.base_fee 0 block_gas_limit
      | some prev ↦ next_base_fee prev.base_fee prev.gas_used prev.gas_limit
    ]
    else some 1

-- The checks before the proposer's proof: `none` where all of them pass.
module _ (hash : Bytes → Bytes) where
  unfoldable pub check_header : Chain → BlockHeader → ℕ → Option Accept
  check_header c h now =
      let slot_start = slot_time_ms c h.slot in
      if not (h.version == 1)
      then some bad_header
      else if h.height == 0
      then some accept_dup
      else if leb h.height c.height
      then elim (get_block_hash hash c h.height) [
        | none ↦ some bad_parent
        | some mine ↦ if bytes_eq mine (block_hash hash h) then some accept_dup else some bad_parent
      ]
      else if not (h.height == add64 c.height 1)
      then some bad_parent
      else if not (bytes_eq h.parent_hash c.tip_hash)
      then some bad_parent
      else if leb h.slot c.last_slot
      then some bad_time
      else if slt64 h.timestamp_ms (sub64 slot_start 3000)
          || slt64 (add64 slot_start 3000) h.timestamp_ms
      then some bad_time
      else if ltb (add64 now 1500) h.timestamp_ms
      then some future
      else if not (h.gas_limit == block_gas_limit)
      then some bad_header
      else none

-- The base fee lies within 1 of the expected one, and is at least 1.
unfoldable pub base_fee_refused : ℕ → ℕ → Bool
base_fee_refused base_fee expected =
    ltb base_fee 1 || ltb (add64 base_fee 1) expected || ltb (add64 expected 1) base_fee

-- `ac_state_deserialize(c->state, snap, snap_len)`.
unfoldable pub rollback : Chain → Bytes → Chain
rollback c snap = record c { state = (state_deserialize c.state snap).0 }

module _ (hash : Bytes → Bytes) where
  -- The writes, in order, and the updates in memory.
  unfoldable pub commit_block : Chain → Block → Bytes → Writes → Chain × Accept
  commit_block c b tip w =
      let (c1, wrote) = block_write c b w.block_ok in
      if not wrote
      then (c1, internal)
      else if not w.snapshot_ok
      then (c1, internal)
      else (let c2 = record c1 {
        height = b.header.height;
        tip_hash = tip;
        last_slot = b.header.slot;
        last_timestamp_ms = b.header.timestamp_ms;
        base_fee = b.header.base_fee;
        disk = record (c1.disk) { snapshot = some (state_serialize c1.state) };
      } in
          let (c3, saved) = meta_save c2 w.meta_ok in
          if not saved
          then (c3, internal)
          else (let c4 = record c3 {
            live_map = record_signers c3.live_map b.signers b.header.height;
          } in
              let c5 = record_txs c4 b.txs b.header.height 0 in
              let c6 = index_txs hash c5 b.txs b.header.height 0 in
              (record c6 { cached_valid = false }, accept_ok)))

module _ (hash : Bytes → Bytes) (verify : Bytes → Bytes → Bytes → Bool)
    (below : ℕ → ℕ → ℕ → Bool) where
  -- From the snapshot on. The two arrays of the table have room for 256 signers, the limit of the decoder; of
  -- more, which would be read past their ends, the first 256 are taken here.
  unfoldable pub execute_block : Chain → Block → Writes → Chain × Accept
  execute_block c b w =
      let h = b.header in
      let pre_total_sqrt = total_sqrt_stake c in
      let table = pre_table c.state (take committee_max b.signers) in
      let snap = state_serialize c.state in
      let run = run_txs hash verify c.state b.txs h.slot h.base_fee 0 0 in
      let ran = record c { state = run.state } in
      let reward = block_reward h.height in
      let paid = record c { state = pay_leader run.state h.proposer reward run.total_tips } in
      let tip = block_hash hash h in
      if not run.tx_ok
      then (rollback ran snap, bad_tx)
      else if not (run.total_gas == h.gas_used)
      then (rollback ran snap, bad_gas)
      else if not (bytes_eq (block_tx_root hash b.txs) h.tx_root)
      then (rollback ran snap, bad_tx)
      else if not (bytes_eq (state_root hash paid.state) h.state_root)
      then (rollback paid snap, bad_state_root)
      else let (judged, ok) = validate_commit hash verify below paid b tip pre_total_sqrt table in
        if not ok then (rollback judged snap, bad_commit) else commit_block hash judged b tip w

  -- The chain left and the answer; `none` is a division by zero.
  unfoldable pub accept_block : Chain → Block → ℕ → Writes → Option (Chain × Accept)
  accept_block c b now w = elim (check_header hash c b.header now) [
    | some a ↦ some (c, a)
    | none ↦
        let (c', good) = validate_proposer_vrf hash verify c b.header in
        if not good then some (c', bad_proposer) else elim (expected_base_fee c') [
          | none ↦ none
          | some expected ↦
              if base_fee_refused b.header.base_fee expected
              then some (c', bad_header)
              else some (execute_block c' b w)
        ]
  ]
