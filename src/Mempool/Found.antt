-- ===== src/Mempool/Found.antt =====
-- Scans of the entries of src/mempool.c after an entry is taken out.
use agentchain.Base.{
  ◌+◌, ℕ, zero, suc, ◌+◌, ◌≡◌, ◌≢◌, refl, sym, ◌∙◌, ap, Bool, true, false, none, some, List, [],
  ◌∷◌, arith, length, get_elem?, Option, ◌||◌, Bool-cases, Option-cases, inl, inr,
}
use agentchain.Bytes.Compare.{Bytes, bytes_eq, bytes_eq_iff}
use agentchain.Table.{remove_at}
use agentchain.Mempool.{MpEntry, Mempool, first, mp_find, mempool_has}

pub length-remove_at-suc :
    (i : ℕ) (es : List MpEntry) (e : MpEntry)
    → get_elem? es i ≡ some e
    → length es ≡ length (remove_at i es) + 1
length-remove_at-suc i [] e h = cc
length-remove_at-suc zero (x ∷ es) e h = omega arith
length-remove_at-suc (suc i) (x ∷ es) e h = omega (arith, length-remove_at-suc i es e h)

abbrev pub is_found : Option ℕ → Bool
is_found none = false
is_found (some i) = true

is_found-cons :
    (p : MpEntry → Bool) (x : MpEntry) (es : List MpEntry)
    → is_found (first p (x ∷ es)) ≡ (p x || is_found (first p es))
unfolding first
is_found-cons p x es = elim (Option-cases (first p es)) [
  | inl n ↦ ground (arith, n)
  | inr (i, e) ↦ ground (arith, e)
]

-- A scan for what the removed entry is not finds as much as before.
pub is_found-remove_at :
    (p : MpEntry → Bool) (i : ℕ) (es : List MpEntry) (e : MpEntry)
    → get_elem? es i ≡ some e
    → p e ≡ false
    → is_found (first p (remove_at i es)) ≡ is_found (first p es)
is_found-remove_at p i [] e h out = refl
is_found-remove_at p zero (x ∷ es) e h out =
    let same : x ≡ e = cc in rw (is_found-cons p x es, ap p same, out) refl
is_found-remove_at p (suc i) (x ∷ es) e h out =
    rw (is_found-cons p x es, is_found-cons p x (remove_at i es), is_found-remove_at p i es e h out)
      refl

pub has-is_found :
    (mp : Mempool) (k : Bytes)
    → mempool_has mp k ≡ is_found (first (λ e. bytes_eq e.hash k) mp.entries)
unfolding mempool_has mp_find
has-is_found mp k = elim (Option-cases (first (λ e. bytes_eq e.hash k) mp.entries)) [
  | inl n ↦ rw (mempool_has, mp_find, n) refl
  | inr (i, e) ↦ rw (mempool_has, mp_find, e) refl
]

pub other_hash : (a h j : Bytes) → bytes_eq a h ≡ true → j ≢ h → bytes_eq a j ≡ false
other_hash a h j is other = elim (Bool-cases (bytes_eq a j)) [
  | inl y ↦ absurd (other (sym ((bytes_eq_iff a j).0 y) ∙ (bytes_eq_iff a h).0 is))
  | inr n ↦ n
]
