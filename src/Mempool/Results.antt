-- ===== src/Mempool/Results.antt =====
-- What the operations of src/mempool.c return, and what the pool holds then.
use agentchain.Base.{
  ◌+◌, if◌then◌else◌, ltb, ℕ, zero, suc, ◌+◌, ◌≤◌, ◌<◌, ◌≡◌, ◌≢◌, refl, sym, ◌∙◌, Bool, true, false,
  none, some, List, [], ◌∷◌, arith, All, length, get_elem?, Bool-cases, Option-cases, inl, inr, ◌⊎◌,
  leb,
}
use agentchain.Bytes.Compare.{Bytes, bytes_eq, bytes_eq_iff, bytes_eq_refl}
use agentchain.Codec.Tx.{Tx, tx_hash}
use agentchain.State.{State}
use agentchain.Table.{remove_at}
use agentchain.Mempool.{
  MpEntry, Mempool, MpResult, accepted, mempool_capacity, first, mp_find, mp_position, mp_insert,
  same_slot, replace, evict, new_entry, pool_enter, pool_check, mempool_add, mempool_has,
  mempool_remove, prune, mempool_prune_expired,
}
use agentchain.Mempool.Order.{Kept, nil, keep, skip, Pairwise, all-Kept, remove_at-Kept, All-map}
use agentchain.Mempool.Pool.{IsPool, Apart, Kept-IsPool, first_at, first_yes, first_no}
use agentchain.Mempool.Found.{length-remove_at-suc, is_found-remove_at, has-is_found, other_hash}
use agentchain.Mempool.Add.{All-first, first-insert}

length-remove_at :
    (i : ℕ) (es : List MpEntry) (e : MpEntry)
    → get_elem? es i ≡ some e
    → length (remove_at i es) < length es
length-remove_at i [] e h = ground (arith, h)
length-remove_at zero (x ∷ es) e h = omega arith
length-remove_at (suc i) (x ∷ es) e h = omega (arith, length-remove_at i es e h)

-- The replacement does nothing, or it makes room.
replace-cases :
    (es fs : List MpEntry) (tx : Tx) → replace es tx ≡ some fs → (es ≡ fs) ⊎ (length fs < length es)
unfolding replace
replace-cases es fs tx h = elim (Option-cases (first (same_slot tx) es)) [
  | inl n ↦ inl (ground (arith, h, n))
  | inr (i, at) ↦
      let (e, here, _) = first_at (same_slot tx) es i at in
      let same : remove_at i es ≡ fs = ground (arith, h, at, here) in
      inr (rw (← same) (length-remove_at i es e here))
]

evict-none : (es : List MpEntry) (tip : ℕ) → evict es tip ≡ none → mempool_capacity ≤ length es
unfolding evict
evict-none es tip h = ground arith

module _ (hash : Bytes → Bytes) (verify : Bytes → Bytes → Bytes → Bool) (mp : Mempool) (tx : Tx)
    (slot : ℕ) where
  abbrev digest : Bytes
  digest = tx_hash hash tx

  abbrev Settled : Mempool × MpResult → Type 0
  Settled r =
      ((r.1 ≡ accepted) × (mempool_has mp digest ≡ false) × (mempool_has r.0 digest ≡ true))
      ⊎ ((r.1 ≢ accepted) × (r.0 ≡ mp))

  has_inserted :
      (room : List MpEntry)
      → mempool_has (record mp { entries = mp_insert room (new_entry hash tx slot) }) digest ≡ true
  unfolding mempool_has mp_find mp_insert
  has_inserted room =
      let p : MpEntry → Bool = λ e. bytes_eq e.hash digest in
      let here =
        first-insert p (new_entry hash tx slot) (mp_position tx.tip room) room
          (bytes_eq_refl digest) in
      ground (arith, here)

  was_absent : mp_find mp digest ≡ none → mempool_has mp digest ≡ false
  unfolding mempool_has
  was_absent e = rw (mempool_has, e) refl

  check-refused :
      (state : State) (r : MpResult)
      → pool_check hash verify mp state tx slot ≡ some r
      → r ≢ accepted
  unfolding pool_check
  check-refused state r e same = ground (arith, e, same)

  enter_lem : IsPool mp.entries → Settled (pool_enter hash mp tx slot)
  unfolding pool_enter
  enter_lem v = elim (Option-cases (mp_find mp digest)) [
    | inr (i, e) ↦ rw (e, pool_enter) (inr (λ same. cc, refl))
    | inl free ↦ elim (Option-cases (replace mp.entries tx)) [
      | inl e ↦ rw (free, e, pool_enter) (inr (λ same. cc, refl))
      | inr (es, e) ↦ elim (Option-cases (evict es tx.tip)) [
        | inl o ↦ elim (replace-cases mp.entries es tx e) [
          | inl same ↦ rw (free, e, o, pool_enter) (inr (λ bad. cc, rw (← same) refl))
          | inr less ↦ absurd (omega (arith, less, evict-none es tx.tip o, v.bounded))
        ]
        | inr (room, o) ↦
            rw (free, e, o, pool_enter) (inl (refl, was_absent free, has_inserted room))
      ]
    ]
  ]

  -- Adding a transaction to a pool that keeps the invariant either accepts it, and then the pool did not have
  -- its hash and has it now, or gives another result and leaves the pool exactly as it was: no entry is lost
  -- to a replacement or an eviction that is then refused.
  pub add_lem :
      (state : State)
      → IsPool mp.entries
      → let r = mempool_add hash verify mp state tx slot in
        ((r.1 ≡ accepted)
          × (mempool_has mp (tx_hash hash tx) ≡ false)
          × (mempool_has r.0 (tx_hash hash tx) ≡ true))
        ⊎ ((r.1 ≢ accepted) × (r.0 ≡ mp))
  unfolding mempool_add
  add_lem state v = elim (Option-cases (pool_check hash verify mp state tx slot)) [
    | inl e ↦ rw (e, mempool_add) (enter_lem v)
    | inr (r, e) ↦ rw (e, mempool_add) (inr (check-refused state r e, refl))
  ]

remove-gone :
    (h : Bytes) (es : List MpEntry) (i : ℕ)
    → Pairwise Apart es
    → first (λ e. bytes_eq e.hash h) es ≡ some i
    → All (λ e. bytes_eq e.hash h ≡ false) (remove_at i es)
remove-gone h [] i a e = tt
remove-gone h (x ∷ es) i a e = elim (Bool-cases (bytes_eq x.hash h)) [
  | inl y ↦
      let at_head : i ≡ 0 = ground (arith, e, first_yes (λ e. bytes_eq e.hash h) x es y) in
      let same : x.hash ≡ h = (bytes_eq_iff x.hash h).0 y in
      rw at_head
        (All-map (Apart x) (λ e. bytes_eq e.hash h ≡ false) (λ e k. rw (← same) k.0) es a.0)
  | inr n ↦
      let (j, at, is) = first_no (λ e. bytes_eq e.hash h) x es i n e in
      rw is (n, remove-gone h es j a.1 at)
]

-- Removing a hash from a pool that keeps the invariant leaves a pool that keeps it and does not have the
-- hash, whose entries are those of before, in their order. A pool without the hash stays as it is; one with
-- the hash loses one entry; and of every other hash the pool has as much as before.
pub remove_lem :
    (mp : Mempool) (h : Bytes)
    → IsPool mp.entries
    → IsPool (mempool_remove mp h).entries
      × (mempool_has (mempool_remove mp h) h ≡ false)
      × Kept (mempool_remove mp h).entries mp.entries
      × (mempool_has mp h ≡ false → mempool_remove mp h ≡ mp)
      × (mempool_has mp h ≡ true → length mp.entries ≡ length (mempool_remove mp h).entries + 1)
      × ((k : Bytes) → k ≢ h → mempool_has (mempool_remove mp h) k ≡ mempool_has mp k)
unfolding mempool_remove mempool_has mp_find
remove_lem mp h v = elim (Option-cases (first (λ e. bytes_eq e.hash h) mp.entries)) [
  | inl n ↦
      let absent : mempool_has mp h ≡ false = rw (mempool_has, n) refl in
      rw (n, mempool_remove)
        (v, absent, all-Kept mp.entries, λ out. refl, λ there. cc, λ k other. refl)
  | inr (i, e) ↦
      let (x, here, is) = first_at (λ e. bytes_eq e.hash h) mp.entries i e in
      let gone =
        All-first (λ e. bytes_eq e.hash h) (remove_at i mp.entries)
          (remove-gone h mp.entries i v.apart e) in
      let left : Mempool = record mp { entries = remove_at i mp.entries } in
      let k = remove_at-Kept i mp.entries in
      let present : mempool_has mp h ≡ true = rw (mempool_has, e) refl in
      rw (e, mempool_remove)
        (
          Kept-IsPool k v,
          rw (mempool_has, gone) refl,
          k,
          λ out. cc,
          λ there. length-remove_at-suc i mp.entries x here,
          λ j other.
              has-is_found left j
              ∙ is_found-remove_at (λ e. bytes_eq e.hash j) i mp.entries x here
                  (other_hash x.hash h j is other)
              ∙ sym (has-is_found mp j),
        )
]

prune-Kept : (slot : ℕ) (es : List MpEntry) → Kept (prune slot es).0 es
unfolding prune
prune-Kept slot [] = nil
prune-Kept slot (e ∷ es) = elim (Bool-cases (leb e.tx.valid_until slot)) [
  | inl y ↦ rw (y, prune) (skip (prune-Kept slot es))
  | inr n ↦ rw (n, prune) (keep (prune-Kept slot es))
]

prune-All : (slot : ℕ) (es : List MpEntry) → All (λ e. slot < e.tx.valid_until) (prune slot es).0
unfolding prune
prune-All slot [] = tt
prune-All slot (e ∷ es) = elim (Bool-cases (leb e.tx.valid_until slot)) [
  | inl y ↦ rw (y, prune) (prune-All slot es)
  | inr n ↦ rw (n, prune) (ground (arith, n), prune-All slot es)
]

-- How many entries are past their last slot.
abbrev pub expired_count : ℕ → List MpEntry → ℕ
expired_count slot [] = 0
expired_count slot (e ∷ es) = (if ltb slot e.tx.valid_until then 0 else 1) + expired_count slot es

prune-count :
    (slot : ℕ) (es : List MpEntry)
    → ((prune slot es).1 ≡ expired_count slot es)
      × (length (prune slot es).0 + (prune slot es).1 ≡ length es)
unfolding prune
prune-count slot [] = (refl, refl)
prune-count slot (e ∷ es) = ground (arith, prune-count slot es)

-- Pruning a pool that keeps the invariant leaves one that keeps it, with entries of before in their
-- order, all of transactions that are still valid in the slot. It drops the expired entries and no
-- others, and returns their number.
pub prune_lem :
    (mp : Mempool) (slot : ℕ)
    → IsPool mp.entries
    → let (left, dropped) = mempool_prune_expired mp slot in
      IsPool left.entries
      × All (λ e. slot < e.tx.valid_until) left.entries
      × Kept left.entries mp.entries
      × (dropped ≡ expired_count slot mp.entries)
      × (length left.entries + dropped ≡ length mp.entries)
unfolding mempool_prune_expired
prune_lem mp slot v = (
  Kept-IsPool (prune-Kept slot mp.entries) v,
  prune-All slot mp.entries,
  prune-Kept slot mp.entries,
  (prune-count slot mp.entries).0,
  (prune-count slot mp.entries).1,
)
