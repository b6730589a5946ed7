-- ===== src/Mempool.antt =====
-- The mempool of src/mempool.c: entries by falling tip. The mutex is left out, since every operation
-- holds it for the whole of its access; `cap` and `realloc` too, which does not fail.
pub mod Order
pub mod Pool
pub mod Add
pub mod Found
pub mod Results
mod Examples
use agentchain.Base.{
  ℕ, ◌+◌, ◌-◌, Bool, true, false, not, ◌&&◌, Option, none, some, List, [], ◌∷◌, length, take, drop,
  ltb, leb, ◌==◌, add64, mul64, if◌then◌else◌, map, get_elem?,
}
use agentchain.Bytes.Compare.{Bytes, bytes_eq}
use agentchain.Bytes.Endian.{rd64}
use agentchain.Codec.Tx.{
  Tx, tx_version, tx_transfer, tx_intrinsic_gas, tx_total_gas, tx_hash, tx_verify,
}
use agentchain.State.{State, state_get}
use agentchain.Table.{remove_at, insert_at}

pub record MpEntry : Type 0 where
  pub tx : Tx
  pub hash : Bytes
  pub tip : ℕ
  pub added_slot : ℕ

pub record Mempool : Type 0 where
  pub chain_id : ℕ
  pub entries : List MpEntry

pub data MpResult : Type 0 where
  accepted duplicate invalid_sig wrong_chain bad_kind expired gas_below_min : MpResult
  full_drop_low_tip nonce_gap insufficient_funds : MpResult

abbrev pub mempool_capacity : ℕ
mempool_capacity = 8192

abbrev pub min_base_fee : ℕ
min_base_fee = 1

unfoldable pub mempool_new : ℕ → Mempool
mempool_new chain_id = record { chain_id = chain_id; entries = [] }

-- The index of the first entry that passes the test of a scan.
unfoldable pub first : (MpEntry → Bool) → List MpEntry → Option ℕ
first p [] = none
first p (e ∷ es) =
    let rest = first p es in
    if p e then some 0 else elim rest [ none ↦ none | some i ↦ some (i + 1) ]

unfoldable pub mp_find : Mempool → Bytes → Option ℕ
mp_find mp h = first (λ e. bytes_eq e.hash h) mp.entries

-- The position of the first entry with a lower tip, the end if there is none.
unfoldable pub mp_position : ℕ → List MpEntry → ℕ
mp_position tip es = elim (first (λ e. ltb e.tip tip) es) [ none ↦ length es | some i ↦ i ]

unfoldable pub mp_insert : List MpEntry → MpEntry → List MpEntry
mp_insert es e = insert_at (mp_position e.tip es) e es

-- The checks of `ac_mempool_add` before it takes the lock, in their order; `none` if all pass.
module _ (hash : Bytes → Bytes) (verify : Bytes → Bytes → Bytes → Bool) where
  -- The amount of a transfer, read from the raw body.
  abbrev pub pool_value : Tx → ℕ
  pool_value tx =
      if tx.kind == tx_transfer && leb (32 + 8) (length tx.body)
      then rd64 (take 8 (drop 32 tx.body))
      else 0

  unfoldable pub pool_check : Mempool → State → Tx → ℕ → Option MpResult
  pool_check mp state tx current_slot =
      let sender = (state_get state tx.sender).0 in
      let max_fee = mul64 tx.gas_limit (add64 min_base_fee tx.tip) in
      if not (tx.chain_id == mp.chain_id)
      then some wrong_chain
      else if not (tx.version == tx_version)
      then some bad_kind
      else if elim (tx_intrinsic_gas tx.kind) [ none ↦ true | some _ ↦ false ]
      then some bad_kind
      else if leb tx.valid_until current_slot
      then some expired
      else if ltb tx.gas_limit (tx_total_gas tx)
      then some gas_below_min
      else if not (tx_verify hash verify tx)
      then some invalid_sig
      else if not (tx.nonce == sender.nonce)
      then some nonce_gap
      else if ltb sender.balance (add64 max_fee (pool_value tx))
      then some insufficient_funds
      else none

-- The entry of the same sender with the same nonce.
abbrev pub same_slot : Tx → MpEntry → Bool
same_slot tx e = e.tx.nonce == tx.nonce && bytes_eq e.tx.sender tx.sender

-- The loop that replaces: `none` if the pool has such an entry and its tip is not lower.
unfoldable pub replace : List MpEntry → Tx → Option (List MpEntry)
replace es tx = elim (first (same_slot tx) es) [
  | none ↦ some es
  | some i ↦ elim (get_elem? es i) [
    | none ↦ some es
    | some e ↦ if leb tx.tip e.tx.tip then none else some (remove_at i es)
  ]
]

-- Capacity handling: `none` if the pool is full of entries with tips at least as high.
unfoldable pub evict : List MpEntry → ℕ → Option (List MpEntry)
evict es tip =
    if leb mempool_capacity (length es)
    then elim (get_elem? es (length es - 1)) [
      | none ↦ none
      | some last ↦ if leb tip last.tip then none else some (take (length es - 1) es)
    ]
    else some es

module _ (hash : Bytes → Bytes) where
  abbrev pub new_entry : Tx → ℕ → MpEntry
  new_entry tx slot = record { tx = tx; hash = tx_hash hash tx; tip = tx.tip; added_slot = slot }

  -- The pool while it is held: duplicate, replacement, capacity, insertion. A failure after the
  -- replacement keeps the replacement.
  unfoldable pub pool_enter : Mempool → Tx → ℕ → Mempool × MpResult
  pool_enter mp tx current_slot = elim (mp_find mp (tx_hash hash tx)) [
    | some _ ↦ (mp, duplicate)
    | none ↦ elim (replace mp.entries tx) [
      | none ↦ (mp, duplicate)
      | some es ↦ elim (evict es tx.tip) [
        | none ↦ (record mp { entries = es }, full_drop_low_tip)
        | some room ↦ (record mp { entries = mp_insert room (new_entry tx current_slot) }, accepted)
      ]
    ]
  ]

module _ (hash : Bytes → Bytes) (verify : Bytes → Bytes → Bytes → Bool) where
  unfoldable pub mempool_add : Mempool → State → Tx → ℕ → Mempool × MpResult
  mempool_add mp state tx current_slot = elim (pool_check hash verify mp state tx current_slot) [
    | some refused ↦ (mp, refused)
    | none ↦ pool_enter hash mp tx current_slot
  ]

unfoldable pub mempool_has : Mempool → Bytes → Bool
mempool_has mp h = elim (mp_find mp h) [ none ↦ false | some _ ↦ true ]

unfoldable pub mempool_remove : Mempool → Bytes → Mempool
mempool_remove mp h = elim (mp_find mp h) [
  | none ↦ mp
  | some i ↦ record mp { entries = remove_at i mp.entries }
]

unfoldable pub mempool_size : Mempool → ℕ
mempool_size mp = length mp.entries

-- The compaction loop: the entries kept, and how many were dropped.
unfoldable pub prune : ℕ → List MpEntry → List MpEntry × ℕ
prune slot [] = ([], 0)
prune slot (e ∷ es) =
    let (kept, dropped) = prune slot es in
    if leb e.tx.valid_until slot then (kept, dropped + 1) else (e ∷ kept, dropped)

unfoldable pub mempool_prune_expired : Mempool → ℕ → Mempool × ℕ
mempool_prune_expired mp slot =
    let (kept, dropped) = prune slot mp.entries in (record mp { entries = kept }, dropped)

unfoldable pub mempool_snapshot : Mempool → ℕ → List Tx
mempool_snapshot mp max = take max (map (λ e. e.tx) mp.entries)
