-- ===== src/Mempool/Add.antt =====
-- `ac_mempool_add`, `ac_mempool_remove` and `ac_mempool_prune_expired` of src/mempool.c on a pool
-- that keeps the invariant.
use agentchain.Base.{
  ℕ, zero, suc, ◌-◌, ◌≤◌, ◌<◌, ◌≡◌, ◌≢◌, refl, Bool, true, false, none, some, List, [], ◌∷◌, arith,
  All, length, take, get_elem?, Bool-cases, Option-cases, inl, inr, leb, length-take,
}
use agentchain.Bytes.Compare.{Bytes, bytes_eq}
use agentchain.Codec.Tx.{Tx, tx_hash}
use agentchain.State.{State}
use agentchain.Table.{insert_at}
use agentchain.Mempool.{
  MpEntry, Mempool, mempool_capacity, first, mp_find, mp_position, mp_insert, same_slot, replace,
  evict, new_entry, pool_enter, pool_check, mempool_add,
}
use agentchain.Mempool.Order.{
  Kept, all-Kept, take-Kept, All-Kept, All-insert_at, Pairwise-insert_at, length-insert_at,
}
use agentchain.Mempool.Pool.{
  IsPool, Apart, IsTipped, Kept-IsPool, insert-Falls, first-none, replace_lem, Apart-sym,
}

evict_lem :
    (es gs : List MpEntry) (tip : ℕ)
    → length es ≤ mempool_capacity
    → evict es tip ≡ some gs
    → Kept gs es × (length gs < mempool_capacity)
unfolding evict
evict_lem es gs tip b h = elim (Bool-cases (leb mempool_capacity (length es))) [
  | inr n ↦
      let same : es ≡ gs = ground (arith, h, n) in rw (← same) (all-Kept es, ground (arith, n))
  | inl y ↦ elim (Option-cases (get_elem? es (length es - 1))) [
    | inl e ↦ ground (arith, h, y, e)
    | inr (last, e) ↦
        let same : take (length es - 1) es ≡ gs = ground (arith, h, y, e) in
        rw (← same)
          (take-Kept (length es - 1) es, ground (arith, y, length-take (length es - 1) es))
  ]
]

All-both :
    {A : Type 0} (P Q : A → Type 0) (xs : List A) → All P xs → All Q xs → All (λ x. P x × Q x) xs
All-both P Q [] h k = tt
All-both P Q (x ∷ xs) h k = ((h.0, k.0), All-both P Q xs h.1 k.1)

insert-IsPool :
    (e : MpEntry) (es : List MpEntry)
    → IsPool es
    → length es < mempool_capacity
    → IsTipped e
    → All (Apart e) es
    → IsPool (mp_insert es e)
unfolding mp_insert
insert-IsPool e es v b t fresh = record {
  bounded = rw (length-insert_at (mp_position e.tip es) e es) (omega (arith, b));
  falling = insert-Falls e es v.falling;
  apart = Pairwise-insert_at Apart Apart-sym (mp_position e.tip es) e es fresh v.apart;
  tipped = All-insert_at IsTipped (mp_position e.tip es) e es t v.tipped;
}

pub first-insert :
    (p : MpEntry → Bool) (e : MpEntry) (i : ℕ) (es : List MpEntry)
    → p e ≡ true
    → first p (insert_at i e es) ≢ none
unfolding first
first-insert p e zero es y h = ground (arith, y, h)
first-insert p e (suc i) [] y h = ground (arith, y, h)
first-insert p e (suc i) (x ∷ es) y h = ground (arith, h, first-insert p e i es y)

pub All-first :
    (p : MpEntry → Bool) (es : List MpEntry) → All (λ e. p e ≡ false) es → first p es ≡ none
unfolding first
All-first p [] h = refl
All-first p (x ∷ es) h = ground (arith, h.0, All-first p es h.1)

module _ (hash : Bytes → Bytes) (verify : Bytes → Bytes → Bytes → Bool) (mp : Mempool) (tx : Tx)
    (slot : ℕ) where
  abbrev digest : Bytes
  digest = tx_hash hash tx

  pub enter-IsPool : IsPool mp.entries → IsPool (pool_enter hash mp tx slot).0.entries
  unfolding pool_enter mp_find
  enter-IsPool v = elim (Option-cases (first (λ e. bytes_eq e.hash digest) mp.entries)) [
    | inr (i, e) ↦ rw (e, pool_enter) v
    | inl free ↦ elim (Option-cases (replace mp.entries tx)) [
      | inl e ↦ rw (free, e, pool_enter) v
      | inr (es, e) ↦
          let (k, slots) = replace_lem mp.entries es tx v.apart e in
          elim (Option-cases (evict es tx.tip)) [
            | inl o ↦ rw (free, e, o, pool_enter) (Kept-IsPool k v)
            | inr (room, o) ↦
                let hashes =
                  All-Kept (λ e. bytes_eq e.hash digest ≡ false) k
                    (first-none (λ e. bytes_eq e.hash digest) mp.entries free) in
                let (l, b) = evict_lem es room tx.tip (Kept-IsPool k v).bounded o in
                rw (free, e, o, pool_enter)
                  (insert-IsPool (new_entry hash tx slot) room (Kept-IsPool l (Kept-IsPool k v)) b
                    refl
                    (All-both _ _ room (All-Kept (λ e. bytes_eq e.hash digest ≡ false) l hashes)
                      (All-Kept (λ e. same_slot tx e ≡ false) l slots)))
          ]
    ]
  ]

  -- Adding a transaction to a pool that keeps the invariant, whatever the result, keeps it: at most
  -- 8192 entries, by falling tip, no hash twice, and no two of one sender with one nonce.
  pub add-IsPool :
      (state : State)
      → IsPool mp.entries
      → IsPool (mempool_add hash verify mp state tx slot).0.entries
  unfolding mempool_add
  add-IsPool state v = elim (Option-cases (pool_check hash verify mp state tx slot)) [
    | inl e ↦ rw (e, mempool_add) (enter-IsPool v)
    | inr (r, e) ↦ rw (e, mempool_add) v
  ]
