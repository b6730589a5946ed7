-- ===== src/Chain/Index.antt =====
-- The transaction index and the address index of src/chain.c. `qsort` is a parameter of the lookups.
use Prim.Native.Nat.{compare, Ordering}
use agentchain.Base.{
  ℕ, zero, suc, ◌+◌, ◌-◌, ◌/◌, true, false, not, ◌&&◌, ◌||◌, Option, none, some, List, [], ◌∷◌,
  ◌++◌, length, take, drop, get_elem?, ltb, leb, ◌==◌, if◌then◌else◌,
}
use agentchain.Bytes.Compare.{Bytes, memcmp, bytes_eq, next}
use agentchain.Codec.Tx.{Tx, tx_transfer, tx_hash}
use agentchain.Chain.Data.{TxIndexEntry, AddrIndexEntry, Chain}

unfoldable pub tx_index_cmp : TxIndexEntry → TxIndexEntry → Ordering
tx_index_cmp a b = memcmp a.hash b.hash

unfoldable pub tx_index_add : Chain → Bytes → ℕ → ℕ → Chain
tx_index_add c h height idx = record c {
  tx_index = c.tx_index ++ (record { hash = h; height = height; tx_idx = idx } ∷ []);
  tx_index_sorted = false;
}

-- By address, then by height, then by place in the block.
unfoldable pub addr_index_cmp : AddrIndexEntry → AddrIndexEntry → Ordering
addr_index_cmp a b =
    next (memcmp a.addr b.addr) (next (compare a.height b.height) (compare a.tx_idx b.tx_idx))

unfoldable pub addr_index_push : Chain → Bytes → ℕ → ℕ → ℕ → Chain
addr_index_push c addr height idx role = record c {
  addr_index =
      c.addr_index ++ (record { addr = addr; height = height; tx_idx = idx; role = role } ∷ []);
  addr_index_sorted = false;
}

unfoldable pub addr_index_record_tx : Chain → Tx → ℕ → ℕ → Chain
addr_index_record_tx c tx height idx =
    let c' = addr_index_push c tx.sender height idx 0 in
    if tx.kind == tx_transfer && leb 32 (length tx.body)
    then (if not (bytes_eq (take 32 tx.body) tx.sender)
        then addr_index_push c' (take 32 tx.body) height idx 1
        else c')
    else c'

-- The loop of `accept_block` over the transactions of a block, from place `i`.
unfoldable pub record_txs : Chain → List Tx → ℕ → ℕ → Chain
record_txs c [] height i = c
record_txs c (tx ∷ txs) height i =
    record_txs (addr_index_record_tx c tx height i) txs height (i + 1)

unfoldable pub index_txs : (Bytes → Bytes) → Chain → List Tx → ℕ → ℕ → Chain
index_txs hash c [] height i = c
index_txs hash c (tx ∷ txs) height i =
    index_txs hash (tx_index_add c (tx_hash hash tx) height i) txs height (i + 1)

-- `while (lo < hi)`, on as much fuel as the array is long.
unfoldable pub lower_bound : List AddrIndexEntry → Bytes → ℕ → ℕ → ℕ → ℕ
lower_bound xs addr zero lo hi = lo
lower_bound xs addr (suc fuel) lo hi =
    let mid = lo + (hi - lo) / 2 in
    elim (ltb lo hi) [
      | false ↦ lo
      | true ↦ elim (get_elem? xs mid) [
        | none ↦ lo
        | some e ↦ elim (memcmp e.addr addr) [
          | Ordering.lt ↦ lower_bound xs addr fuel (mid + 1) hi
          | _ ↦ lower_bound xs addr fuel lo mid
        ]
      ]
    ]

abbrev pub scratch_cap : ℕ
scratch_cap = 256

-- Walk forward until the address changes, at most `room` entries.
unfoldable pub collect : List AddrIndexEntry → Bytes → ℕ → List AddrIndexEntry
collect [] addr room = []
collect (e ∷ es) addr zero = []
collect (e ∷ es) addr (suc room) = elim (bytes_eq e.addr addr) [
  | true ↦ e ∷ collect es addr room
  | false ↦ []
]

abbrev pub reverse_onto : List AddrIndexEntry → List AddrIndexEntry → List AddrIndexEntry
reverse_onto [] acc = acc
reverse_onto (e ∷ es) acc = reverse_onto es (e ∷ acc)

module _ (qsort : List AddrIndexEntry → List AddrIndexEntry) where
  unfoldable pub addr_index_sort : Chain → Chain
  addr_index_sort c =
      if c.addr_index_sorted
      then c
      else record c { addr_index = qsort c.addr_index; addr_index_sorted = true }

  -- The chain with its index sorted, and the entries, without the address that the source drops.
  unfoldable pub addr_txs : Chain → Bytes → ℕ → Chain × List AddrIndexEntry
  addr_txs c addr room =
      if length c.addr_index == 0 || room == 0
      then (c, [])
      else let c' = addr_index_sort c in
        let xs = c'.addr_index in
        let lo = lower_bound xs addr (length xs) 0 (length xs) in
        (c', take room (reverse_onto (collect (drop lo xs) addr scratch_cap) []))

-- The C library's `qsort` and `bsearch` on the index: the search takes the array and the key.
module _ (qsort : List TxIndexEntry → List TxIndexEntry) where
  unfoldable pub tx_index_sort : Chain → Chain
  tx_index_sort c =
      if c.tx_index_sorted
      then c
      else record c { tx_index = qsort c.tx_index; tx_index_sorted = true }

  -- The chain with its index sorted, and the height and the place in the block.
  unfoldable pub tx_find :
      (List TxIndexEntry → Bytes → Option TxIndexEntry) → Chain → Bytes → Chain × Option (ℕ × ℕ)
  tx_find bsearch c h =
      if length c.tx_index == 0
      then (c, none)
      else let c' = tx_index_sort c in
        elim (bsearch c'.tx_index h) [
          | none ↦ (c', none)
          | some e ↦ (c', some (e.height, e.tx_idx))
        ]
