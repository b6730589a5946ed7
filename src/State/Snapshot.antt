-- ===== src/State/Snapshot.antt =====
-- The state root and the snapshots of src/state.c. `hash` is libsodium's BLAKE2b, of the pieces that
-- `ac_hash_multi` joins; no allocation fails.
pub mod RoundTrip
use Prim.Native.Nat.{Ordering}
use agentchain.Base.{
  ℕ, zero, suc, ◌+◌, ◌%◌, ◌^◌, Bool, true, false, not, ◌||◌, Option, none, some, List, [], ◌∷◌,
  ◌++◌, length, take, drop, get_or, ltb, ◌==◌, if◌then◌else◌,
}
use agentchain.Bytes.Compare.{Bytes, memcmp, bytes_eq}
use agentchain.Bytes.Endian.{be32, be64, rd32, rd64}
use agentchain.Codec.Body.{name_valid}
use agentchain.Crypto.{hash_multi}
use agentchain.State.{Account, StateName, State}
use agentchain.State.Names.{name_cmp}

-- "AGCH:STATE:v1"
abbrev pub state_domain : Bytes
state_domain =
    b'A' ∷ b'G' ∷ b'C' ∷ b'H' ∷ b':' ∷ b'S' ∷ b'T' ∷ b'A' ∷ b'T' ∷ b'E' ∷ b':' ∷ b'v' ∷ b'1' ∷ []

-- "AGCH:STATESNAP:v1"
abbrev pub state_magic : Bytes
state_magic =
    b'A' ∷ b'G' ∷ b'C' ∷ b'H' ∷ b':' ∷ b'S' ∷ b'T' ∷ b'A' ∷ b'T' ∷ b'E' ∷ b'S' ∷ b'N' ∷ b'A' ∷ b'P'
    ∷ b':' ∷ b'v' ∷ b'1' ∷ []

abbrev pub state_version : ℕ
state_version = 1

-- The 64 bytes of an account, in the root and in a snapshot.
abbrev pub account_bytes : Account → Bytes → Bytes
account_bytes a rest =
    a.addr ++ (be64 a.balance ++ (be64 a.nonce ++ (be64 a.stake ++ (be64 a.unbond_at ++ rest))))

abbrev pub name_bytes : StateName → Bytes → Bytes
name_bytes n rest = length n.name ∷ (n.name ++ (n.addr ++ rest))

abbrev pub accounts_bytes : List Account → Bytes → Bytes
accounts_bytes [] rest = rest
accounts_bytes (a ∷ accs) rest = account_bytes a (accounts_bytes accs rest)

abbrev pub names_bytes : List StateName → Bytes → Bytes
names_bytes [] rest = rest
names_bytes (n ∷ ns) rest = name_bytes n (names_bytes ns rest)

-- The pieces, in order; `NAME_SEP` is the byte 0xFF.
abbrev pub root_bytes : State → Bytes
root_bytes s = accounts_bytes s.accounts (255 ∷ names_bytes s.names [])

unfoldable pub state_root : (Bytes → Bytes) → State → Bytes
state_root hash s = hash_multi hash (state_domain ∷ root_bytes s ∷ [])

unfoldable pub state_serialize : State → Bytes
state_serialize s =
    state_magic
    ++ (state_version
        ∷ (be64 s.chain_id
            ++ (be32 (length s.accounts % 2 ^ 32)
                ++ (be32 (length s.names % 2 ^ 32)
                    ++ accounts_bytes s.accounts (names_bytes s.names [])))))

abbrev pub is_lt : Ordering → Bool
is_lt Ordering.lt = true
is_lt _ = false

-- `i > 0 && ac_addr_cmp(previous, next) >= 0`.
abbrev pub addr_misplaced : Option Account → Account → Bool
addr_misplaced none a = false
addr_misplaced (some p) a = not (is_lt (memcmp p.addr a.addr))

abbrev pub name_misplaced : Option StateName → StateName → Bool
name_misplaced none n = false
name_misplaced (some p) n = not (is_lt (name_cmp p.name n.name))

-- The 64 bytes at the front.
unfoldable pub account_at : Bytes → Account
account_at buf = record {
  addr = take 32 buf;
  balance = rd64 (drop 32 buf);
  nonce = rd64 (drop 40 buf);
  stake = rd64 (drop 48 buf);
  unbond_at = rd64 (drop 56 buf);
}

-- The loop over the accounts, after `previous`: the accounts, and the bytes after them.
unfoldable pub read_accounts : ℕ → Option Account → Bytes → Option (List Account × Bytes)
read_accounts zero previous buf = some ([], buf)
read_accounts (suc n) previous buf = elim (ltb (length buf) 64) [
  | true ↦ none
  | false ↦
      let a = account_at buf in
      elim (addr_misplaced previous a) [
        | true ↦ none
        | false ↦ elim (read_accounts n (some a) (drop 64 buf)) [
          | none ↦ none
          | some (accs, rest) ↦ some (a ∷ accs, rest)
        ]
      ]
]

-- The name at the front, and the bytes after it.
unfoldable pub read_name : Bytes → Option (StateName × Bytes)
read_name [] = none
read_name (nl ∷ buf) =
    if ltb nl 1 || ltb 32 nl
    then none
    else if ltb (length buf) (nl + 32)
    then none
    else let n : StateName = record { name = take nl buf; addr = take 32 (drop nl buf) } in
      if not (name_valid n.name) then none else some (n, drop 32 (drop nl buf))

unfoldable pub read_names : ℕ → Option StateName → Bytes → Option (List StateName × Bytes)
read_names zero previous buf = some ([], buf)
read_names (suc n) previous buf = elim (read_name buf) [
  | none ↦ none
  | some (x, buf') ↦ elim (name_misplaced previous x) [
    | true ↦ none
    | false ↦ elim (read_names n (some x) buf') [
      | none ↦ none
      | some (xs, rest) ↦ some (x ∷ xs, rest)
    ]
  ]
]

abbrev pub emptied : State → State
emptied s = record s { accounts = []; names = [] }

-- The two loops, once the header has been read: a failed loop leaves its array empty.
unfoldable pub load_arrays : State → ℕ → ℕ → Bytes → State × Bool
load_arrays s nacc nname buf = elim (read_accounts nacc none buf) [
  | none ↦ (emptied s, false)
  | some (accs, rest) ↦ elim (read_names nname none rest) [
    | none ↦ (record s { accounts = accs; names = [] }, false)
    | some (ns, end) ↦ (record s { accounts = accs; names = ns }, length end == 0)
  ]
]

-- The state left, and whether the source returns 0.
unfoldable pub state_deserialize : State → Bytes → State × Bool
state_deserialize s buf =
    if ltb (length buf) (17 + 17)
    then (s, false)
    else if not (bytes_eq (take 17 buf) state_magic)
    then (s, false)
    else if not (get_or buf 17 0 == state_version)
    then (s, false)
    else if not (rd64 (drop 18 buf) == s.chain_id)
    then (s, false)
    else load_arrays s (rd32 (drop 26 buf)) (rd32 (drop 30 buf)) (drop 34 buf)
