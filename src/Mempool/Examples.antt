-- ===== src/Mempool/Examples.antt =====
-- Tests of src/mempool.c: a pool of two entries.
use agentchain.Base.{
  ◌+◌, ℕ, ◌+◌, ◌<◌, ◌≡◌, ◌≢◌, ◌⊎◌, refl, Bool, true, false, [], ◌∷◌, arith, length, All,
}
use agentchain.Bytes.Compare.{Bytes, bytes_eq, memcmp}
use agentchain.Codec.Tx.{Tx, tx_transfer, tx_hash}
use agentchain.State.{State}
use agentchain.Mempool.{
  MpEntry, Mempool, accepted, mempool_add, mempool_has, mempool_remove, mempool_prune_expired,
}
use agentchain.Mempool.Order.{Kept}
use agentchain.Mempool.Pool.{IsPool}
use agentchain.Mempool.Add.{add-IsPool}
use agentchain.Mempool.Results.{add_lem, remove_lem, prune_lem, expired_count}

abbrev transaction : ℕ → ℕ → ℕ → Tx
transaction from tip until = record {
  version = 1;
  chain_id = 1;
  kind = tx_transfer;
  sender = from ∷ [];
  nonce = 0;
  gas_limit = 100;
  tip = tip;
  valid_until = until;
  body = [];
  memo = [];
  sig = [];
}

abbrev entry : ℕ → ℕ → ℕ → MpEntry
entry from tip until = record {
  tx = transaction from tip until;
  hash = from ∷ tip ∷ [];
  tip = tip;
  added_slot = 4;
}

abbrev pair_of_entries : Mempool
pair_of_entries = record { chain_id = 1; entries = entry 1 9 50 ∷ entry 2 5 20 ∷ [] }

pair_of_entries-IsPool : IsPool pair_of_entries.entries
unfolding bytes_eq memcmp
pair_of_entries-IsPool = record {
  bounded = omega arith;
  falling = ((omega arith, tt), (tt, tt));
  apart = (((refl, refl), tt), (tt, tt));
  tipped = (refl, (refl, tt));
}

-- One account that can pay.
abbrev rich : State
rich = record {
  chain_id = 1;
  accounts = record { addr = 3 ∷ []; balance = 9000; nonce = 0; stake = 0; unbond_at = 0 } ∷ [];
  names = [];
}

abbrev toy_hash : Bytes → Bytes
toy_hash m = m

abbrev lenient : Bytes → Bytes → Bytes → Bool
lenient sig m pk = true

add-IsPool_example :
    IsPool (mempool_add toy_hash lenient pair_of_entries rich (transaction 3 7 60) 10).0.entries
add-IsPool_example =
    add-IsPool toy_hash lenient pair_of_entries (transaction 3 7 60) 10 rich pair_of_entries-IsPool

add_lem_example :
    let r = mempool_add toy_hash lenient pair_of_entries rich (transaction 3 7 60) 10 in
    ((r.1 ≡ accepted)
      × (mempool_has pair_of_entries (tx_hash toy_hash (transaction 3 7 60)) ≡ false)
      × (mempool_has r.0 (tx_hash toy_hash (transaction 3 7 60)) ≡ true))
    ⊎ ((r.1 ≢ accepted) × (r.0 ≡ pair_of_entries))
add_lem_example =
    add_lem toy_hash lenient pair_of_entries (transaction 3 7 60) 10 rich pair_of_entries-IsPool

remove_lem_example :
    IsPool (mempool_remove pair_of_entries (2 ∷ 5 ∷ [])).entries
    × (mempool_has (mempool_remove pair_of_entries (2 ∷ 5 ∷ [])) (2 ∷ 5 ∷ []) ≡ false)
    × Kept (mempool_remove pair_of_entries (2 ∷ 5 ∷ [])).entries pair_of_entries.entries
    × (mempool_has pair_of_entries (2 ∷ 5 ∷ []) ≡ false
        → mempool_remove pair_of_entries (2 ∷ 5 ∷ []) ≡ pair_of_entries)
    × (mempool_has pair_of_entries (2 ∷ 5 ∷ []) ≡ true
        → length pair_of_entries.entries
          ≡ length (mempool_remove pair_of_entries (2 ∷ 5 ∷ [])).entries + 1)
    × ((k : Bytes)
        → k ≢ 2 ∷ 5 ∷ []
        → mempool_has (mempool_remove pair_of_entries (2 ∷ 5 ∷ [])) k
          ≡ mempool_has pair_of_entries k)
remove_lem_example = remove_lem pair_of_entries (2 ∷ 5 ∷ []) pair_of_entries-IsPool

prune_lem_example :
    let (left, dropped) = mempool_prune_expired pair_of_entries 30 in
    IsPool left.entries
    × All (λ e. 30 < e.tx.valid_until) left.entries
    × Kept left.entries pair_of_entries.entries
    × (dropped ≡ expired_count 30 pair_of_entries.entries)
    × (length left.entries + dropped ≡ length pair_of_entries.entries)
prune_lem_example = prune_lem pair_of_entries 30 pair_of_entries-IsPool
