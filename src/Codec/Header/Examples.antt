-- ===== src/Codec/Header/Examples.antt =====
-- Tests of the block headers of src/codec.c.
use agentchain.Base.{ℕ, ◌≡◌, refl, some, ◌++◌, arith, replicate, length, take}
use agentchain.Bytes.Compare.{Bytes}
use agentchain.Bytes.Endian.{IsBytes, rd8, rd32, rd64}
use agentchain.Codec.Cursor.{rget, rget_u8, rget_u32, rget_u64, ◌⊗◌, rmap}
use agentchain.Codec.Header.{BlockHeader, header_read, block_header_encode, block_header_decode}
use agentchain.Codec.Header.RoundTrip.{IsHeader, header_decode-encode, block_header_decode_unique}

abbrev second : BlockHeader
second = record {
  version = 1;
  height = 2;
  slot = 9;
  parent_hash = replicate 32 1;
  timestamp_ms = 4000;
  proposer = replicate 32 2;
  proposer_vrf_proof = replicate 64 3;
  state_root = replicate 32 4;
  tx_root = replicate 32 0;
  base_fee = 1;
  gas_used = 0;
  gas_limit = 30_000_000;
  tx_count = 0;
}

second-IsHeader : IsHeader second
second-IsHeader = record {
  version = omega arith;
  height = omega arith;
  slot = omega arith;
  parent_hash = omega arith;
  timestamp_ms = omega arith;
  proposer = omega arith;
  proposer_vrf_proof = omega arith;
  state_root = omega arith;
  tx_root = omega arith;
  base_fee = omega arith;
  gas_used = omega arith;
  gas_limit = omega arith;
  tx_count = omega arith;
}

header_decode-encode_example :
    (buf : Bytes) × (block_header_encode 256 second ≡ some buf)
    × (length buf ≡ 245)
    × ((rest : Bytes) → block_header_decode (buf ++ rest) ≡ some (second, 245))
header_decode-encode_example = header_decode-encode second second-IsHeader

-- A buffer of ones, longer than a header.
abbrev ones : Bytes
ones = replicate 250 1

abbrev ones_header : BlockHeader
ones_header = record {
  version = 1;
  height = 0x0101010101010101;
  slot = 0x0101010101010101;
  parent_hash = replicate 32 1;
  timestamp_ms = 0x0101010101010101;
  proposer = replicate 32 1;
  proposer_vrf_proof = replicate 64 1;
  state_root = replicate 32 1;
  tx_root = replicate 32 1;
  base_fee = 0x0101010101010101;
  gas_used = 0x0101010101010101;
  gas_limit = 0x0101010101010101;
  tx_count = 0x01010101;
}

ones-decode : block_header_decode ones ≡ some (ones_header, 245)
unfolding block_header_decode header_read rmap ◌⊗◌ rget rget_u8 rget_u32 rget_u64 rd8 rd32 rd64
ones-decode = refl

ones-IsBytes : IsBytes ones
ones-IsBytes = omega arith

block_header_decode_unique_example :
    IsHeader ones_header
    × (◌≡◌ {A = ℕ} 245 245)
    × (block_header_encode 256 ones_header ≡ some (take 245 ones))
block_header_decode_unique_example =
    block_header_decode_unique ones ones_header 245 ones-IsBytes ones-decode
