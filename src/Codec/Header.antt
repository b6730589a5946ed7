-- ===== src/Codec/Header.antt =====
-- Block headers of src/codec.h and src/codec.c: the wire form, the block hash, and the root of the
-- transactions. `hash` is libsodium's BLAKE2b, of the chunks that `ac_hash_multi` joins.
pub mod RoundTrip
mod Examples
use agentchain.Base.{ℕ, Option, none, some, List, [], ◌∷◌, ◌++◌, map, replicate, if◌then◌else◌}
use mathlib.Core.List.{flatten}
use agentchain.Bytes.Compare.{Bytes}
use agentchain.Bytes.Endian.{be8, be32, be64}
use agentchain.Codec.Cursor.{
  R, rget, rget_u8, rget_u32, rget_u64, ◌⊗◌, rmap, rstart, wstart, writes, written,
}
use agentchain.Codec.Tx.{Tx, tx_hash}

pub record BlockHeader : Type 0 where
  pub version : ℕ
  pub height : ℕ
  pub slot : ℕ
  pub parent_hash : Bytes
  pub timestamp_ms : ℕ
  pub proposer : Bytes
  pub proposer_vrf_proof : Bytes
  pub state_root : Bytes
  pub tx_root : Bytes
  pub base_fee : ℕ
  pub gas_used : ℕ
  pub gas_limit : ℕ
  pub tx_count : ℕ

abbrev pub header_fields : BlockHeader → List Bytes
header_fields h =
    be8 h.version
    ∷ be64 h.height
    ∷ be64 h.slot
    ∷ h.parent_hash
    ∷ be64 h.timestamp_ms
    ∷ h.proposer
    ∷ h.proposer_vrf_proof
    ∷ h.state_root
    ∷ h.tx_root
    ∷ be64 h.base_fee
    ∷ be64 h.gas_used
    ∷ be64 h.gas_limit
    ∷ be32 h.tx_count
    ∷ []

unfoldable pub block_header_encode : ℕ → BlockHeader → Option Bytes
block_header_encode room h = written (writes (header_fields h) (wstart room))

abbrev pub RawHeader : Type 0
RawHeader =
    ℕ × (ℕ × (ℕ × (Bytes × (ℕ × (Bytes × (Bytes × (Bytes × (Bytes × (ℕ × (ℕ × (ℕ × ℕ)))))))))))

abbrev pub to_header : RawHeader → BlockHeader
to_header (v, (h, (s, (p, (t, (o, (f, (r, (x, (b, (u, (l, n)))))))))))) = record {
  version = v;
  height = h;
  slot = s;
  parent_hash = p;
  timestamp_ms = t;
  proposer = o;
  proposer_vrf_proof = f;
  state_root = r;
  tx_root = x;
  base_fee = b;
  gas_used = u;
  gas_limit = l;
  tx_count = n;
}

unfoldable pub header_read : R BlockHeader
header_read = rmap to_header (
    rget_u8
    ⊗ rget_u64
    ⊗ rget_u64
    ⊗ rget 32
    ⊗ rget_u64
    ⊗ rget 32
    ⊗ rget 64
    ⊗ rget 32
    ⊗ rget 32
    ⊗ rget_u64
    ⊗ rget_u64
    ⊗ rget_u64
    ⊗ rget_u32)

-- The header and the number of bytes read: more may follow it.
unfoldable pub block_header_decode : Bytes → Option (BlockHeader × ℕ)
block_header_decode buf = elim (header_read (rstart buf)) [
  | none ↦ none
  | some (h, c) ↦ if c.failed then none else some (h, c.pos)
]

-- "AGCH:BLOCK:v1"
abbrev pub block_domain : Bytes
block_domain =
    b'A' ∷ b'G' ∷ b'C' ∷ b'H' ∷ b':' ∷ b'B' ∷ b'L' ∷ b'O' ∷ b'C' ∷ b'K' ∷ b':' ∷ b'v' ∷ b'1' ∷ []

module _ (hash : Bytes → Bytes) where
  unfoldable pub block_hash : BlockHeader → Bytes
  block_hash h = elim (block_header_encode 256 h) [
    | none ↦ replicate 32 0
    | some buf ↦ hash (block_domain ++ buf)
  ]

  unfoldable pub block_tx_root : List Tx → Bytes
  block_tx_root [] = replicate 32 0
  block_tx_root (tx ∷ txs) = hash (flatten (map (tx_hash hash) (tx ∷ txs)))
