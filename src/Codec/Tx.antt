-- ===== src/Codec/Tx.antt =====
-- Transactions of src/codec.h and src/codec.c: gas, the wire form, the bytes that are signed, and
-- the hash. `hash`, `sign` and `verify` of libsodium are parameters.
pub mod RoundTrip
pub mod Signing
use agentchain.Base.{
  ℕ, ◌+◌, ◌-◌, ◌^◌, Bool, false, Option, none, some, List, [], ◌∷◌, length, replicate, ltb, ◌==◌,
  if◌then◌else◌,
}
use agentchain.Bytes.Compare.{Bytes}
use agentchain.Bytes.Endian.{be8, be32, be64}
use agentchain.Codec.Cursor.{
  R, rget, rget_u8, rget_u32, rget_u64, rget_var, ◌⊗◌, rmap, whole, wstart, writes, written,
}

-- `body` and `memo` hold the `body_len` and `memo_len` bytes in use, so these are their lengths.
pub record Tx : Type 0 where
  pub version : ℕ
  pub chain_id : ℕ
  pub kind : ℕ
  pub sender : Bytes
  pub nonce : ℕ
  pub gas_limit : ℕ
  pub tip : ℕ
  pub valid_until : ℕ
  pub body : Bytes
  pub memo : Bytes
  pub sig : Bytes

abbrev pub tx_version : ℕ
tx_version = 1

abbrev pub tx_transfer : ℕ
tx_transfer = 1

abbrev pub tx_stake_bond : ℕ
tx_stake_bond = 2

abbrev pub tx_stake_unbond : ℕ
tx_stake_unbond = 3

abbrev pub tx_register_name : ℕ
tx_register_name = 4

abbrev pub tx_slash_evidence : ℕ
tx_slash_evidence = 5

-- `none` is the source's -1.
unfoldable pub tx_intrinsic_gas : ℕ → Option ℕ
tx_intrinsic_gas kind =
    if kind == tx_transfer
    then some (21 + 0)
    else if kind == tx_stake_bond
    then some (21 + 30)
    else if kind == tx_stake_unbond
    then some (21 + 30)
    else if kind == tx_register_name
    then some (21 + 200)
    else if kind == tx_slash_evidence
    then some (21 + 500)
    else none

unfoldable pub tx_total_gas : Tx → ℕ
tx_total_gas tx = elim (tx_intrinsic_gas tx.kind) [
  | none ↦ 2 ^ 64 - 1
  | some g ↦ g + length tx.memo
]

-- The fields that `ac_tx_signable_bytes` and `ac_tx_encode` both write, in order.
abbrev pub tx_fields : Tx → List Bytes → List Bytes
tx_fields tx rest =
    be8 tx.version
    ∷ be64 tx.chain_id
    ∷ be8 tx.kind
    ∷ tx.sender
    ∷ be64 tx.nonce
    ∷ be32 tx.gas_limit
    ∷ be64 tx.tip
    ∷ be64 tx.valid_until
    ∷ be32 (length tx.body)
    ∷ tx.body
    ∷ be32 (length tx.memo)
    ∷ tx.memo
    ∷ rest

-- "AGCH:TX:v1"
abbrev pub tx_domain : Bytes
tx_domain = b'A' ∷ b'G' ∷ b'C' ∷ b'H' ∷ b':' ∷ b'T' ∷ b'X' ∷ b':' ∷ b'v' ∷ b'1' ∷ []

unfoldable pub tx_signable_bytes : ℕ → Tx → Option Bytes
tx_signable_bytes room tx = written (writes (tx_domain ∷ tx_fields tx []) (wstart room))

abbrev pub encoded_fields : Tx → List Bytes
encoded_fields tx = tx_fields tx (tx.sig ∷ [])

unfoldable pub tx_encode : ℕ → Tx → Option Bytes
tx_encode room tx = written (writes (encoded_fields tx) (wstart room))

abbrev pub RawTx : Type 0
RawTx = ℕ × (ℕ × (ℕ × (Bytes × (ℕ × (ℕ × (ℕ × (ℕ × (Bytes × (Bytes × Bytes)))))))))

abbrev pub to_tx : RawTx → Tx
to_tx (v, (c, (k, (s, (n, (g, (t, (u, (b, (m, z)))))))))) = record {
  version = v;
  chain_id = c;
  kind = k;
  sender = s;
  nonce = n;
  gas_limit = g;
  tip = t;
  valid_until = u;
  body = b;
  memo = m;
  sig = z;
}

unfoldable pub tx_read : R Tx
tx_read = rmap to_tx (
    rget_u8
    ⊗ rget_u64
    ⊗ rget_u8
    ⊗ rget 32
    ⊗ rget_u64
    ⊗ rget_u32
    ⊗ rget_u64
    ⊗ rget_u64
    ⊗ rget_var 512
    ⊗ rget_var 512
    ⊗ rget 64)

unfoldable pub tx_decode : Bytes → Option Tx
tx_decode buf = if ltb 2048 (length buf) then none else whole tx_read buf

-- The parts of libsodium that transactions use.
module _ (hash : Bytes → Bytes) where
  unfoldable pub tx_hash : Tx → Bytes
  tx_hash tx = elim (tx_signable_bytes 2048 tx) [ none ↦ replicate 32 0 | some buf ↦ hash buf ]

  -- `sign m` is `ac_sign` of `m` under the keypair.
  unfoldable pub tx_sign : (Bytes → Bytes) → Tx → Option Tx
  tx_sign sign tx = elim (tx_signable_bytes 2048 tx) [
    | none ↦ none
    | some buf ↦ some (record tx { sig = sign (hash buf) })
  ]

  -- `verify sig m pk` is `ac_verify`.
  unfoldable pub tx_verify : (Bytes → Bytes → Bytes → Bool) → Tx → Bool
  tx_verify verify tx = elim (tx_signable_bytes 2048 tx) [
    | none ↦ false
    | some buf ↦ verify tx.sig (hash buf) tx.sender
  ]
