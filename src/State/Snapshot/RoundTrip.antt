-- ===== src/State/Snapshot/RoundTrip.antt =====
-- `ac_state_serialize` and `ac_state_deserialize` of src/state.c against one another.
use agentchain.Base.{
  ℕ, zero, suc, ◌+◌, ◌%◌, ◌^◌, ◌≤◌, ◌<◌, ◌≡◌, refl, ap, ◌∙◌, true, false, Option, none, some, List,
  [], ◌∷◌, ◌++◌, length, take, drop, arith, All, ==_refl, take_left, drop_left, length-append,
  le→ltb,
}
use agentchain.Bytes.Compare.{Bytes, bytes_eq_refl, bytes_order}
use agentchain.Bytes.Endian.{be32, be64, rd32, rd64, rd32-be32, rd64-be64}
use agentchain.Codec.Body.{name_valid}
use agentchain.State.{Account, StateName, State, addr_of, name_of}
use agentchain.State.Names.{name_order}
use agentchain.State.Laws.{IsValid}
use agentchain.Table.Rank.{IsSorted, Above}
use agentchain.State.Snapshot.{
  state_magic, account_bytes, name_bytes, accounts_bytes, names_bytes, state_serialize,
  addr_misplaced, name_misplaced, account_at, read_accounts, read_name, read_names, load_arrays,
  state_deserialize,
}

-- The widths of the fields.
pub record IsAccount (a : Account) : Type 0 where
  pub addr : length a.addr ≡ 32
  pub balance : a.balance < 2 ^ 64
  pub nonce : a.nonce < 2 ^ 64
  pub stake : a.stake < 2 ^ 64
  pub unbond_at : a.unbond_at < 2 ^ 64

abbrev pub IsNamed : StateName → Type 0
IsNamed n = (length n.addr ≡ 32) × (name_valid n.name ≡ true)

module _ {ℓ} {A : Type ℓ} where
  take_past : (n : ℕ) (xs ys : List A) → length xs ≡ n → take n (xs ++ ys) ≡ xs
  take_past n xs ys h = rw (← h) (take_left xs ys)

  drop_past : (n : ℕ) (xs ys : List A) → length xs ≡ n → drop n (xs ++ ys) ≡ ys
  drop_past n xs ys h = rw (← h) (drop_left xs ys)

  drop_more : (n k : ℕ) (xs ys : List A) → length xs ≡ n → drop (n + k) (xs ++ ys) ≡ drop k ys
  drop_more zero k [] ys h = ap (λ m. drop m ys) (omega arith)
  drop_more zero k (x ∷ xs) ys h = absurd (omega arith)
  drop_more (suc n) k [] ys h = absurd (omega arith)
  drop_more (suc n) k (x ∷ xs) ys h =
      let e : suc n + k ≡ suc (n + k) = omega arith in
      ap (λ m. drop m (x ∷ (xs ++ ys))) e ∙ drop_more n k xs ys (omega arith)

rd64_front : (v : ℕ) (r : Bytes) → v < 2 ^ 64 → rd64 (be64 v ++ r) ≡ v
unfolding rd64 be64
rd64_front v r h = rd64-be64 v h

rd32_front : (v : ℕ) (r : Bytes) → v < 2 ^ 32 → rd32 (be32 (v % 2 ^ 32) ++ r) ≡ v
unfolding rd32 be32
rd32_front v r h = let e : v % 2 ^ 32 ≡ v = omega arith in rd32-be32 (v % 2 ^ 32) (omega arith) ∙ e

abbrev tail_of : Account → Bytes → Bytes
tail_of a r = be64 a.balance ++ (be64 a.nonce ++ (be64 a.stake ++ (be64 a.unbond_at ++ r)))

account_at-bytes : (a : Account) (r : Bytes) → IsAccount a → account_at (account_bytes a r) ≡ a
unfolding account_at be64
account_at-bytes a r v =
    rw
      (
        take_past 32 a.addr (tail_of a r) v.addr,
        drop_past 32 a.addr (tail_of a r) v.addr,
        drop_more 32 8 a.addr (tail_of a r) v.addr,
        drop_more 32 16 a.addr (tail_of a r) v.addr,
        drop_more 32 24 a.addr (tail_of a r) v.addr,
        rd64_front a.balance (be64 a.nonce ++ (be64 a.stake ++ (be64 a.unbond_at ++ r))) v.balance,
        rd64_front a.nonce (be64 a.stake ++ (be64 a.unbond_at ++ r)) v.nonce,
        rd64_front a.stake (be64 a.unbond_at ++ r) v.stake,
        rd64_front a.unbond_at r v.unbond_at,
      )
      refl

account_rest : (a : Account) (r : Bytes) → IsAccount a → drop 64 (account_bytes a r) ≡ r
unfolding be64
account_rest a r v = drop_more 32 32 a.addr (tail_of a r) v.addr

account_width : (a : Account) (r : Bytes) → IsAccount a → 64 ≤ length (account_bytes a r)
unfolding be64
account_width a r v = omega (arith, length-append a.addr (tail_of a r), v.addr)

abbrev AccountsFollow : Option Account → List Account → Type 0
AccountsFollow none accs = IsSorted bytes_order addr_of accs
AccountsFollow (some p) accs =
    Above bytes_order addr_of p.addr accs × IsSorted bytes_order addr_of accs

account_placed :
    (previous : Option Account) (a : Account) (accs : List Account)
    → AccountsFollow previous (a ∷ accs)
    → addr_misplaced previous a ≡ false
unfolding bytes_order
account_placed none a accs h = refl
account_placed (some p) a accs h = rw (h.0) refl

accounts_next :
    (previous : Option Account) (a : Account) (accs : List Account)
    → AccountsFollow previous (a ∷ accs)
    → AccountsFollow (some a) accs
accounts_next none a accs h = h
accounts_next (some p) a accs h = h.1

read_accounts-bytes :
    (previous : Option Account) (accs : List Account) (r : Bytes)
    → All IsAccount accs
    → AccountsFollow previous accs
    → read_accounts (length accs) previous (accounts_bytes accs r) ≡ some (accs, r)
unfolding read_accounts
read_accounts-bytes previous [] r v h = refl
read_accounts-bytes previous (a ∷ accs) r v h =
    let more = accounts_bytes accs r in
    rw
      (
        read_accounts,
        le→ltb _ 64 (account_width a more v.0),
        account_at-bytes a more v.0,
        account_placed previous a accs h,
        account_rest a more v.0,
        account_at-bytes a more v.0,
        read_accounts-bytes (some a) accs r v.1 (accounts_next previous a accs h),
      )
      (ap (λ x. some (x ∷ accs, r)) (account_at-bytes a more v.0))

read_name-bytes : (n : StateName) (r : Bytes) → IsNamed n → read_name (name_bytes n r) ≡ some (n, r)
unfolding read_name name_valid
read_name-bytes n r v =
    let sized = length-append n.name (n.addr ++ r) in
    let sized' = length-append n.addr r in
    rw
      (
        take_left n.name (n.addr ++ r),
        drop_left n.name (n.addr ++ r),
        take_past 32 n.addr r v.0,
        drop_past 32 n.addr r v.0,
      )
      (ground (arith, v.1, v.0))

abbrev NamesFollow : Option StateName → List StateName → Type 0
NamesFollow none ns = IsSorted name_order name_of ns
NamesFollow (some p) ns = Above name_order name_of p.name ns × IsSorted name_order name_of ns

name_placed :
    (previous : Option StateName) (n : StateName) (ns : List StateName)
    → NamesFollow previous (n ∷ ns)
    → name_misplaced previous n ≡ false
unfolding name_order
name_placed none n ns h = refl
name_placed (some p) n ns h = rw (h.0) refl

names_next :
    (previous : Option StateName) (n : StateName) (ns : List StateName)
    → NamesFollow previous (n ∷ ns)
    → NamesFollow (some n) ns
names_next none n ns h = h
names_next (some p) n ns h = h.1

read_names-bytes :
    (previous : Option StateName) (ns : List StateName) (r : Bytes)
    → All IsNamed ns
    → NamesFollow previous ns
    → read_names (length ns) previous (names_bytes ns r) ≡ some (ns, r)
unfolding read_names
read_names-bytes previous [] r v h = refl
read_names-bytes previous (n ∷ ns) r v h =
    rw
      (
        read_names,
        read_name-bytes n (names_bytes ns r) v.0,
        name_placed previous n ns h,
        read_names-bytes (some n) ns r v.1 (names_next previous n ns h),
      )
      refl

-- A state whose fields have their widths, and whose arrays have at most 2^32 - 1 entries.
pub record IsStorable (s : State) : Type 0 where
  pub chain_id : s.chain_id < 2 ^ 64
  pub accounts : All IsAccount s.accounts
  pub names : All (λ n. length n.addr ≡ 32) s.names
  pub accounts_n : length s.accounts < 2 ^ 32
  pub names_n : length s.names < 2 ^ 32

all-IsNamed :
    (ns : List StateName)
    → All (λ n. length n.addr ≡ 32) ns
    → All (λ n. name_valid n.name ≡ true) ns
    → All IsNamed ns
all-IsNamed [] h k = tt
all-IsNamed (n ∷ ns) h k = ((h.0, k.0), all-IsNamed ns h.1 k.1)

arrays-load :
    (s t : State)
    → IsValid s
    → IsStorable s
    → load_arrays t
        (length s.accounts)
        (length s.names)
        (accounts_bytes s.accounts (names_bytes s.names []))
      ≡ (record s { chain_id = t.chain_id }, true)
unfolding load_arrays
arrays-load s t v w =
    rw
      (
        load_arrays,
        read_accounts-bytes none s.accounts (names_bytes s.names []) w.accounts v.sorted,
        read_names-bytes none s.names [] (all-IsNamed s.names w.names v.names_valid) v.names_sorted,
      )
      refl

-- A snapshot of a valid state whose fields have their widths is read back as that state, whatever the state of the same
-- chain that it is read into holds.
pub deserialize-serialize :
    (s t : State)
    → IsValid s
    → IsStorable s
    → t.chain_id ≡ s.chain_id
    → state_deserialize t (state_serialize s) ≡ (s, true)
unfolding state_deserialize state_serialize be64 be32
deserialize-serialize s t v w same =
    let body = accounts_bytes s.accounts (names_bytes s.names []) in
    rw
      (
        rd64_front s.chain_id
            (be32 (length s.accounts % 2 ^ 32) ++ (be32 (length s.names % 2 ^ 32) ++ body))
            w.chain_id,
        rd32_front (length s.accounts) (be32 (length s.names % 2 ^ 32) ++ body) w.accounts_n,
        rd32_front (length s.names) body w.names_n,
        arrays-load s t v w,
        same,
        ==_refl s.chain_id,
        bytes_eq_refl state_magic,
      )
      (ground arith)
