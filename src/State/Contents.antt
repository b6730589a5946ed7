-- ===== src/State/Contents.antt =====
-- Several updates of the accounts of src/state.c, in one order and another.
use agentchain.Base.{◌≡◌, ◌≢◌, refl, sym, ap, ◌∙◌, not, if◌then◌else◌, inl, inr, Bool-cases}
use agentchain.Bytes.Compare.{Bytes, bytes_eq, bytes_eq_iff}
use agentchain.State.{Account, State, state_get, account_is_empty, state_set}
use agentchain.State.Laws.{
  IsValid, Sorted, get-set, set-Sorted, set-IsValid, names-set, chain_id-set, state_ext,
}

-- What two updates leave at an address.
get-set-set :
    (s : State) (a b : Account) (j : Bytes)
    → Sorted s
    → state_get (state_set (state_set s a) b) j ≡ (
        if bytes_eq b.addr j
        then (b, not (account_is_empty b))
        else if bytes_eq a.addr j
        then (a, not (account_is_empty a))
        else state_get s j)
get-set-set s a b j h =
    get-set (state_set s a) b j (set-Sorted s a h)
    ∙ ap (λ t. if bytes_eq b.addr j then (b, not (account_is_empty b)) else t) (get-set s a j h)

module _ (s : State) (a b : Account) (v : IsValid s) where
  overwritten : a.addr ≡ b.addr → state_set (state_set s a) b ≡ state_set s b
  overwritten same =
      state_ext (state_set (state_set s a) b) (state_set s b)
        (set-IsValid (state_set s a) b (set-IsValid s a v)) (set-IsValid s b v)
        (chain_id-set (state_set s a) b ∙ chain_id-set s a ∙ sym (chain_id-set s b))
        (names-set (state_set s a) b ∙ names-set s a ∙ sym (names-set s b))
        (λ j. get-set-set s a b j v.sorted ∙ agree j ∙ sym (get-set s b j v.sorted))
    where
      agree :
          (j : Bytes)
          → (if bytes_eq b.addr j
              then (b, not (account_is_empty b))
              else if bytes_eq a.addr j
              then (a, not (account_is_empty a))
              else state_get s j)
            ≡ (if bytes_eq b.addr j then (b, not (account_is_empty b)) else state_get s j)
      agree j = elim (Bool-cases (bytes_eq b.addr j)) [
        | inl e ↦ rw e refl
        | inr e ↦ rw (same, e) refl
      ]

  swapped : a.addr ≢ b.addr → state_set (state_set s a) b ≡ state_set (state_set s b) a
  swapped other =
      state_ext (state_set (state_set s a) b) (state_set (state_set s b) a)
        (set-IsValid (state_set s a) b (set-IsValid s a v))
        (set-IsValid (state_set s b) a (set-IsValid s b v))
        (chain_id-set (state_set s a) b
          ∙ chain_id-set s a
          ∙ sym (chain_id-set (state_set s b) a ∙ chain_id-set s b))
        (names-set (state_set s a) b
          ∙ names-set s a
          ∙ sym (names-set (state_set s b) a ∙ names-set s b))
        (λ j. get-set-set s a b j v.sorted ∙ agree j ∙ sym (get-set-set s b a j v.sorted))
    where
      agree :
          (j : Bytes)
          → (if bytes_eq b.addr j
              then (b, not (account_is_empty b))
              else if bytes_eq a.addr j
              then (a, not (account_is_empty a))
              else state_get s j)
            ≡ (if bytes_eq a.addr j
                then (a, not (account_is_empty a))
                else if bytes_eq b.addr j
                then (b, not (account_is_empty b))
                else state_get s j)
      agree j = elim (Bool-cases (bytes_eq b.addr j)) [
        | inr e ↦ rw e refl
        | inl e ↦ elim (Bool-cases (bytes_eq a.addr j)) [
          | inr f ↦ rw (e, f) refl
          | inl f ↦ absurd (other ((bytes_eq_iff a.addr j).0 f ∙ sym ((bytes_eq_iff b.addr j).0 e)))
        ]
      ]

-- On a valid state, two updates of one address leave the arrays that the second alone leaves, and two
-- updates of different addresses leave the same arrays in either order, entries and all.
pub set-set :
    (s : State) (a b : Account)
    → IsValid s
    → state_set (state_set s a) b
      ≡ (if bytes_eq a.addr b.addr then state_set s b else state_set (state_set s b) a)
set-set s a b v = elim (Bool-cases (bytes_eq a.addr b.addr)) [
  | inl e ↦ rw e (overwritten s a b v ((bytes_eq_iff a.addr b.addr).0 e))
  | inr e ↦ rw e (swapped s a b v (λ p. cc ((bytes_eq_iff a.addr b.addr).1 p)))
]
