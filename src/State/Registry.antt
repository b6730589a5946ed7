-- ===== src/State/Registry.antt =====
-- The names of src/state.c as a map: `ac_state_name_register` and `ac_state_name_lookup`.
use agentchain.Base.{
  ℕ, ◌≡◌, ◌≢◌, ◌↔◌, refl, sym, ap, ◌∙◌, true, false, Option, none, some, arith, if◌then◌else◌, inl,
  inr, Bool-cases,
}
use agentchain.Bytes.Compare.{Bytes, bytes_eq, bytes_eq_iff}
use agentchain.Codec.Body.{name_valid}
use agentchain.Table.{Slot, found, missing, lookup, read, write, insert_at}
use agentchain.Table.Rank.{IsSorted, lookup-scan, scan-found}
use agentchain.Table.Laws.{write-IsSorted, read-write_self, read-write_ne, All-write}
use agentchain.State.{
  StateName, State, name_of, name_lookup_index, state_name_lookup, state_name_register,
}
use agentchain.State.Names.{name_order}
use agentchain.State.Laws.{IsValid}

abbrev NamesSorted : State → Type 0
NamesSorted s = IsSorted name_order name_of s.names

abbrev IsNamed : StateName → Type 0
IsNamed n = name_valid n.name ≡ true

abbrev owned : State → Bytes → Option StateName
owned s n = read name_order name_of s.names n

abbrev owner : Option StateName → Option Bytes
owner none = none
owner (some n) = some n.addr

lookup-owned : (s : State) (n : Bytes) → state_name_lookup s n ≡ owner (owned s n)
unfolding state_name_lookup name_lookup_index read
lookup-owned s n = ground arith

abbrev pub entry : Bytes → Bytes → StateName
entry n a = record { name = n; addr = a }

abbrev pub registered : State → Bytes → Bytes → State
registered s n a = record s { names = write name_order name_of (entry n a) s.names }

-- The registration by what the name has now.
abbrev decided : State → Bytes → Bytes → Option StateName → Option State
decided s n a none = some (registered s n a)
decided s n a (some _) = none

write_missing :
    (s : State) (n a : Bytes) (i : ℕ)
    → lookup name_order name_of s.names n ≡ missing i
    → write name_order name_of (entry n a) s.names ≡ insert_at i (entry n a) s.names
unfolding write
write_missing s n a i e = rw (e, write) refl

register-valid :
    (s : State) (n a : Bytes)
    → NamesSorted s
    → name_valid n ≡ true
    → state_name_register s n a ≡ decided s n a (owned s n)
unfolding state_name_register name_lookup_index read
register-valid s n a h v = go (lookup name_order name_of s.names n) refl
  where
    go :
        (l : Slot)
        → lookup name_order name_of s.names n ≡ l
        → state_name_register s n a ≡ decided s n a (owned s n)
    go (missing i) e =
        rw (e, state_name_register, read, v)
          (ap (λ q. some (record s { names = q })) (sym (write_missing s n a i e)))
    go (found i) e =
        let (x, at, _) =
          scan-found name_order name_of n s.names i
            (sym (lookup-scan name_order name_of n s.names h) ∙ e) in
        rw (e, state_name_register, read, v, at) refl

register-invalid :
    (s : State) (n a : Bytes) → name_valid n ≡ false → state_name_register s n a ≡ none
unfolding state_name_register
register-invalid s n a v = rw (v, state_name_register) refl

module _ (s : State) (n a : Bytes) (v : IsValid s) where
  -- On a valid state the registration of a name succeeds, by adding the pair of the name and the
  -- address to the sorted array, exactly when the name is well formed and nobody holds it. The names that
  -- the address has already do not matter.
  pub register_iff :
      (state_name_register s n a ≡ some (registered s n a))
      ↔ ((name_valid n ≡ true) × (state_name_lookup s n ≡ none))
  register_iff = elim (Bool-cases (name_valid n)) [
    | inl ok ↦ ground (arith, register-valid s n a v.names_sorted ok, lookup-owned s n)
    | inr bad ↦ ground (arith, register-invalid s n a bad)
  ]

  pub register_some :
      (t : State)
      → state_name_register s n a ≡ some t
      → (t ≡ registered s n a) × (name_valid n ≡ true)
  register_some t e = elim (Bool-cases (name_valid n)) [
    | inl ok ↦ (ground (arith, register-valid s n a v.names_sorted ok), ok)
    | inr bad ↦ ground (arith, register-invalid s n a bad)
  ]

  registered-IsValid : name_valid n ≡ true → IsValid (registered s n a)
  registered-IsValid ok = record {
    sorted = v.sorted;
    stored = v.stored;
    names_sorted = write-IsSorted name_order name_of s.names v.names_sorted (entry n a);
    names_valid =
        All-write name_order name_of IsNamed s.names v.names_sorted v.names_valid (entry n a) ok;
  }

  pub register-IsValid : (t : State) → state_name_register s n a ≡ some t → IsValid t
  register-IsValid t e = let (same, ok) = register_some t e in rw same (registered-IsValid ok)

  lookup-registered_self : state_name_lookup (registered s n a) n ≡ some a
  lookup-registered_self =
      lookup-owned (registered s n a) n
      ∙ ap owner (read-write_self name_order name_of s.names v.names_sorted (entry n a))

  lookup-registered_ne :
      (j : Bytes) → n ≢ j → state_name_lookup (registered s n a) j ≡ state_name_lookup s j
  lookup-registered_ne j h =
      lookup-owned (registered s n a) j
      ∙ ap owner (read-write_ne name_order name_of s.names v.names_sorted (entry n a) j h)
      ∙ sym (lookup-owned s j)

-- After a registration on a valid state, which keeps the state valid, the name leads to its owner, every other name to the address that it led to
-- before, and no further registration of the name succeeds.
pub lookup-register :
    (s t : State) (n a : Bytes)
    → IsValid s
    → state_name_register s n a ≡ some t
    → IsValid t
      × ((j : Bytes)
          → state_name_lookup t j ≡ (if bytes_eq n j then some a else state_name_lookup s j))
      × ((b : Bytes) → state_name_register t n b ≡ none)
lookup-register s t n a v e =
    let (same, ok) = register_some s n a v t e in
    let w : IsValid t = register-IsValid s n a v t e in
    (
      w,
      (λ j. rw same (elim (Bool-cases (bytes_eq n j)) [
        | inl h ↦ rw (h, ← (bytes_eq_iff n j).0 h) (lookup-registered_self s n a v)
        | inr h ↦ rw h (lookup-registered_ne s n a v j (λ p. cc ((bytes_eq_iff n j).1 p)))
      ])),
      (λ b.
          let taken : owned t n ≡ some (entry n a) =
            rw same (read-write_self name_order name_of s.names v.names_sorted (entry n a)) in
          register-valid t n b w.names_sorted ok ∙ ap (decided t n b) taken),
    )
