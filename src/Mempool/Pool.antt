-- ===== src/Mempool/Pool.antt =====
-- The invariant of the mempool of src/mempool.c.
use agentchain.Base.{
  ℕ, suc, ◌≤◌, ◌≡◌, refl, Bool, true, false, none, some, List, [], ◌∷◌, arith, All, length,
  get_elem?, Bool-cases, Option-cases, inl, inr, ltb,
}
use agentchain.Bytes.Compare.{Bytes, bytes_eq, bytes_eq_iff}
use agentchain.Codec.Tx.{Tx}
use agentchain.Table.{remove_at}
use agentchain.Mempool.{
  MpEntry, mempool_capacity, first, mp_position, mp_insert, same_slot, replace,
}
use agentchain.Mempool.Order.{
  Kept, Pairwise, all-Kept, remove_at-Kept, length-Kept, All-Kept, Pairwise-Kept, All-insert_at,
  All-map,
}

-- No later entry pays a higher tip.
abbrev pub Falls : MpEntry → MpEntry → Type 0
Falls a b = b.tip ≤ a.tip

-- Not the same hash, and not the same sender and nonce.
abbrev pub Apart : MpEntry → MpEntry → Type 0
Apart a b = (bytes_eq b.hash a.hash ≡ false) × (same_slot a.tx b ≡ false)

abbrev pub IsTipped : MpEntry → Type 0
IsTipped e = e.tip ≡ e.tx.tip

-- At most 8192 entries, by falling tip, with different hashes and different (sender, nonce), each
-- filed under the tip of its transaction.
pub record IsPool (es : List MpEntry) : Type 0 where
  pub bounded : length es ≤ mempool_capacity
  pub falling : Pairwise Falls es
  pub apart : Pairwise Apart es
  pub tipped : All IsTipped es

pub Kept-IsPool : {es fs : List MpEntry} → Kept es fs → IsPool fs → IsPool es
Kept-IsPool k v = record {
  bounded = omega (arith, length-Kept k, v.bounded);
  falling = Pairwise-Kept Falls k v.falling;
  apart = Pairwise-Kept Apart k v.apart;
  tipped = All-Kept IsTipped k v.tipped;
}

bytes_eq_sym : (a b : Bytes) → bytes_eq a b ≡ false → bytes_eq b a ≡ false
bytes_eq_sym a b h = ground (arith, bytes_eq_iff a b, bytes_eq_iff b a)

pub Apart-sym : (a b : MpEntry) → Apart a b → Apart b a
Apart-sym a b h = ground (
  arith,
  bytes_eq_iff a.hash b.hash,
  bytes_eq_iff b.hash a.hash,
  bytes_eq_iff a.tx.sender b.tx.sender,
  bytes_eq_iff b.tx.sender a.tx.sender,
)

pub some_inj : {A : Type 0} {a b : A} → some a ≡ some b → a ≡ b
some_inj h = ground arith

-- A scan that finds nothing has tested every entry.
pub first-none :
    (p : MpEntry → Bool) (es : List MpEntry) → first p es ≡ none → All (λ e. p e ≡ false) es
unfolding first
first-none p [] h = tt
first-none p (e ∷ es) h = elim (Bool-cases (p e)) [
  | inl y ↦ ground (arith, y)
  | inr n ↦ (n, first-none p es (ground (arith, n)))
]

pub first_yes :
    (p : MpEntry → Bool) (e : MpEntry) (es : List MpEntry) → p e ≡ true → first p (e ∷ es) ≡ some 0
unfolding first
first_yes p e es h = rw (h, first) refl

pub first_no :
    (p : MpEntry → Bool) (e : MpEntry) (es : List MpEntry) (i : ℕ)
    → p e ≡ false
    → first p (e ∷ es) ≡ some i
    → (j : ℕ) × (first p es ≡ some j) × (i ≡ suc j)
unfolding first
first_no p e es i h k = elim (Option-cases (first p es)) [
  | inl n ↦ ground (arith, h, n)
  | inr (j, y) ↦ (j, y, ground (arith, h, y))
]

pub first_at :
    (p : MpEntry → Bool) (es : List MpEntry) (i : ℕ)
    → first p es ≡ some i
    → (e : MpEntry) × (get_elem? es i ≡ some e) × (p e ≡ true)
unfolding first
first_at p [] i h = ground (arith, h)
first_at p (x ∷ es) i h = elim (Bool-cases (p x)) [
  | inl y ↦ let start : i ≡ 0 = ground (arith, h, y) in (x, rw start refl, y)
  | inr n ↦
      let (j, at, is) = first_no p x es i n h in
      let (e, here, holds) = first_at p es j at in (e, rw is here, holds)
]

position_lower :
    (tip : ℕ) (x : MpEntry) (es : List MpEntry)
    → ltb x.tip tip ≡ true
    → mp_position tip (x ∷ es) ≡ 0
unfolding mp_position
position_lower tip x es h = rw (first_yes (λ e. ltb e.tip tip) x es h, mp_position) refl

position_higher :
    (tip : ℕ) (x : MpEntry) (es : List MpEntry)
    → ltb x.tip tip ≡ false
    → mp_position tip (x ∷ es) ≡ suc (mp_position tip es)
unfolding mp_position first
position_higher tip x es h = ground (arith, h)

-- The position is after all entries with at least the tip, and before all with less.
pub insert-Falls :
    (e : MpEntry) (es : List MpEntry) → Pairwise Falls es → Pairwise Falls (mp_insert es e)
unfolding mp_insert mp_position first
insert-Falls e [] h = (tt, tt)
insert-Falls e (x ∷ es) h = elim (Bool-cases (ltb x.tip e.tip)) [
  | inl l ↦
      let lower : x.tip ≤ e.tip = ground arith in
      rw (position_lower e.tip x es l, mp_insert)
        ((lower, All-map (Falls x) (Falls e) (λ y k. omega (arith, k, lower)) es h.0), h)
  | inr l ↦
      rw (position_higher e.tip x es l, mp_insert)
        (
          All-insert_at (Falls x) (mp_position e.tip es) e es (ground arith) h.0,
          insert-Falls e es h.1,
        )
]

same_slot_trans :
    (tx : Tx) (x y : MpEntry)
    → same_slot tx x ≡ true
    → same_slot x.tx y ≡ false
    → same_slot tx y ≡ false
same_slot_trans tx x y h k = ground (arith, bytes_eq_iff x.tx.sender tx.sender)

-- Without its one entry of the sender with the nonce, the pool has none.
pub remove-fresh :
    (tx : Tx) (es : List MpEntry) (i : ℕ)
    → Pairwise Apart es
    → first (same_slot tx) es ≡ some i
    → All (λ e. same_slot tx e ≡ false) (remove_at i es)
remove-fresh tx [] i a h = tt
remove-fresh tx (x ∷ es) i a h = elim (Bool-cases (same_slot tx x)) [
  | inl y ↦
      let at_head : i ≡ 0 = ground (arith, h, first_yes (same_slot tx) x es y) in
      rw at_head (
        All-map (Apart x) (λ e. same_slot tx e ≡ false) (λ e k. same_slot_trans tx x e y k.1) es
          a.0)
  | inr n ↦
      let (j, at, is) = first_no (same_slot tx) x es i n h in rw is (n, remove-fresh tx es j a.1 at)
]

pub replace_lem :
    (es fs : List MpEntry) (tx : Tx)
    → Pairwise Apart es
    → replace es tx ≡ some fs
    → Kept fs es × All (λ e. same_slot tx e ≡ false) fs
unfolding replace
replace_lem es fs tx a h = elim (Option-cases (first (same_slot tx) es)) [
  | inl n ↦
      let same : es ≡ fs = ground (arith, h, n) in
      rw (← same) (all-Kept es, first-none (same_slot tx) es n)
  | inr (i, at) ↦
      let (e, here, _) = first_at (same_slot tx) es i at in
      let same : remove_at i es ≡ fs = ground (arith, h, at, here) in
      rw (← same) (remove_at-Kept i es, remove-fresh tx es i a at)
]
