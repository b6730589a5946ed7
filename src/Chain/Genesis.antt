-- ===== src/Chain/Genesis.antt =====
-- Genesis, and opening a chain from its files, in src/chain.c. Directories can be made and no
-- allocation fails; `w` is what the disk lets through, and `qsort` is the C library's.
use agentchain.Base.{
  ℕ, zero, suc, ◌+◌, ◌*◌, true, false, not, ◌&&◌, Option, none, some, List, [], ◌∷◌, ◌++◌, length,
  ltb, leb, ◌==◌, replicate, if◌then◌else◌, add64,
}
use agentchain.Bytes.Compare.{Bytes}
use agentchain.Codec.Header.{block_hash}
use agentchain.Codec.Block.{Block}
use agentchain.Codec.Tx.{Tx, tx_hash}
use agentchain.State.{Account, State, state_new, state_set}
use agentchain.State.Snapshot.{state_root, state_serialize, state_deserialize}
use agentchain.Chain.Data.{
  TxIndexEntry, AddrIndexEntry, LiveEntry, Disk, Writes, Chain, block_write, block_read, meta_save,
  meta_load,
}
use agentchain.Chain.Index.{tx_index_add, addr_index_record_tx, tx_index_sort, addr_index_sort}
use agentchain.Chain.Live.{min_stake_ucrd, max_live, liveness_window, record_signers}
use agentchain.Chain.Accept.{sys_reward_pool, block_gas_limit}

pub record GenesisAccount : Type 0 where
  pub addr : Bytes
  pub balance : ℕ
  pub stake : ℕ

pub record Genesis : Type 0 where
  pub chain_id : ℕ
  pub timestamp_ms : ℕ
  pub accounts : List GenesisAccount

abbrev pub genesis_pool : Account
genesis_pool = record {
  addr = sys_reward_pool;
  balance = 60_000_000 * 1_000_000;
  nonce = 0;
  stake = 0;
  unbond_at = 0;
}

unfoldable pub allocate : State → List GenesisAccount → State
allocate s [] = s
allocate s (g ∷ gs) =
    allocate
      (state_set s
        (record { addr = g.addr; balance = g.balance; nonce = 0; stake = g.stake; unbond_at = 0 }))
      gs

unfoldable pub bootstrap_live : List LiveEntry → List GenesisAccount → List LiveEntry
bootstrap_live m [] = m
bootstrap_live m (g ∷ gs) = elim (leb min_stake_ucrd g.stake && ltb (length m) max_live) [
  | true ↦ bootstrap_live (m ++ (record { addr = g.addr; last_sign_height = 0 } ∷ [])) gs
  | false ↦ bootstrap_live m gs
]

abbrev pub zero_hash : Bytes
zero_hash = replicate 32 0

-- The inner loop of `tx_index_rebuild`, over the transactions of one block from place `i`.
unfoldable pub reindex_txs : (Bytes → Bytes) → Chain → List Tx → ℕ → ℕ → Chain
reindex_txs hash c [] height i = c
reindex_txs hash c (tx ∷ txs) height i =
    let c' = tx_index_add c (tx_hash hash tx) height i in
    reindex_txs hash (addr_index_record_tx c' tx height i) txs height (i + 1)

-- The loop of `tx_index_rebuild`, from height `h` for `n` heights.
unfoldable pub rebuild : (Bytes → Bytes) → ℕ → ℕ → Chain → Chain
rebuild hash h zero c = c
rebuild hash h (suc n) c = rebuild hash (h + 1) n (elim (block_read c h) [
  | none ↦ c
  | some b ↦
      let c1 = reindex_txs hash c b.txs h 0 in
      if ltb c.height (add64 b.header.height liveness_window)
      then record c1 { live_map = record_signers c1.live_map b.signers b.header.height }
      else c1
])

-- `calloc`, over the files of the data directory.
abbrev pub empty_chain : State → Disk → Chain
empty_chain s d = record {
  state = s;
  chain_id = 0;
  height = 0;
  tip_hash = zero_hash;
  last_slot = 0;
  last_timestamp_ms = 0;
  base_fee = 0;
  genesis_timestamp_ms = 0;
  cached_epoch = 0;
  cached_seed = zero_hash;
  cached_valid = false;
  tx_index = [];
  tx_index_sorted = false;
  addr_index = [];
  addr_index_sorted = false;
  live_map = [];
  disk = d;
}

module _ (hash : Bytes → Bytes) where
  abbrev pub genesis_block : State → ℕ → Block
  genesis_block s timestamp_ms = record {
    header = record {
      version = 1;
      height = 0;
      slot = 0;
      parent_hash = zero_hash;
      timestamp_ms = timestamp_ms;
      proposer = zero_hash;
      proposer_vrf_proof = replicate 64 0;
      state_root = state_root hash s;
      tx_root = zero_hash;
      base_fee = 1;
      gas_used = 0;
      gas_limit = block_gas_limit;
      tx_count = 0;
    };
    txs = [];
    signers = [];
  }

  -- `none` is the source's -1.
  unfoldable pub apply_genesis : Chain → Genesis → Writes → Option Chain
  apply_genesis c g w =
      let s = allocate (state_set c.state genesis_pool) g.accounts in
      let b = genesis_block s g.timestamp_ms in
      let (c1, wrote) =
        block_write (record c { state = s; live_map = bootstrap_live c.live_map g.accounts }) b
          w.block_ok in
      if not wrote
      then none
      else let (c2, saved) =
          meta_save
            (record c1 {
              chain_id = g.chain_id;
              height = 0;
              tip_hash = block_hash hash b.header;
              last_slot = 0;
              last_timestamp_ms = g.timestamp_ms;
              base_fee = 1;
              genesis_timestamp_ms = g.timestamp_ms;
            })
            w.meta_ok in
        if not saved
        then none
        else if not w.snapshot_ok
        then none
        else some
            (record c2 { disk = record (c2.disk) { snapshot = some (state_serialize c2.state) } })

  module _ (qsort_tx : List TxIndexEntry → List TxIndexEntry)
      (qsort_addr : List AddrIndexEntry → List AddrIndexEntry) where
    unfoldable pub tx_index_rebuild : Chain → Chain
    tx_index_rebuild c =
        if c.height == 0
        then c
        else addr_index_sort qsort_addr (tx_index_sort qsort_tx (rebuild hash 1 c.height c))

    -- The state that `ac_state_load` leaves in a chain whose meta file has been read.
    unfoldable pub load_state : Chain → Option Chain
    load_state c = elim c.disk.snapshot [
      | none ↦ none
      | some buf ↦
          let (s, ok) = state_deserialize (state_new c.chain_id) buf in
          if ok then some (record c { state = s }) else none
    ]

    -- `none` is the source's NULL.
    unfoldable pub chain_open : Disk → Option Genesis → Writes → Option Chain
    chain_open d genesis w = elim d.meta [
      | some _ ↦ elim (meta_load (empty_chain (state_new 0) d)) [
        | none ↦ none
        | some c ↦ elim (load_state c) [ none ↦ none | some c' ↦ some (tx_index_rebuild c') ]
      ]
      | none ↦ elim genesis [
        | none ↦ none
        | some g ↦ elim (apply_genesis (empty_chain (state_new g.chain_id) d) g w) [
          | none ↦ none
          | some c ↦ some (tx_index_rebuild c)
        ]
      ]
    ]
