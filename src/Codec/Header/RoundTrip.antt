-- ===== src/Codec/Header/RoundTrip.antt =====
-- The encoder and the decoder of block headers in src/codec.c against one another.
use mathlib.Core.List.{flatten}
use agentchain.Base.{
  ℕ, ◌≤◌, ◌<◌, ◌^◌, ◌≡◌, refl, sym, ap, ◌∙◌, false, Option, none, some, [], ◌++◌, arith, length,
  take, le→leb, take_left, append_assoc, append-nil,
}
use agentchain.Bytes.Compare.{Bytes}
use agentchain.Bytes.Endian.{IsBytes}
use agentchain.Codec.Cursor.{RCur, rstart, rget_u8, rget_u32, rget_u64, written-writes}
use agentchain.Codec.Format.{Format, bytes_format}
use agentchain.Codec.Format.Combine.{u8_format, u32_format, u64_format, pair_format, via_format}
use agentchain.Codec.Body.RoundTrip.{Sized}
use agentchain.Codec.Header.{
  BlockHeader, RawHeader, to_header, header_fields, header_read, block_header_encode,
  block_header_decode,
}

-- The widths of the fields.
pub record IsHeader (h : BlockHeader) : Type 0 where
  pub version : h.version < 256
  pub height : h.height < 2 ^ 64
  pub slot : h.slot < 2 ^ 64
  pub parent_hash : Sized 32 h.parent_hash
  pub timestamp_ms : h.timestamp_ms < 2 ^ 64
  pub proposer : Sized 32 h.proposer
  pub proposer_vrf_proof : Sized 64 h.proposer_vrf_proof
  pub state_root : Sized 32 h.state_root
  pub tx_root : Sized 32 h.tx_root
  pub base_fee : h.base_fee < 2 ^ 64
  pub gas_used : h.gas_used < 2 ^ 64
  pub gas_limit : h.gas_limit < 2 ^ 64
  pub tx_count : h.tx_count < 2 ^ 32

of_header : BlockHeader → RawHeader
of_header h = (
  h.version,
  (
    h.height,
    (
      h.slot,
      (
        h.parent_hash,
        (
          h.timestamp_ms,
          (
            h.proposer,
            (
              h.proposer_vrf_proof,
              (h.state_root, (h.tx_root, (h.base_fee, (h.gas_used, (h.gas_limit, h.tx_count))))),
            ),
          ),
        ),
      ),
    ),
  ),
)

raw_format : Format RawHeader
unfolding pair_format bytes_format u8_format u32_format u64_format rget_u8 rget_u32 rget_u64
raw_format = pair_format u8_format (
    pair_format u64_format (
      pair_format u64_format (
        pair_format (bytes_format 32) (
          pair_format u64_format (
            pair_format (bytes_format 32) (
              pair_format (bytes_format 64) (
                pair_format (bytes_format 32) (
                  pair_format (bytes_format 32) (
                    pair_format u64_format
                      (pair_format u64_format (pair_format u64_format u32_format)))))))))))

header_format : Format BlockHeader
unfolding raw_format via_format of_header
header_format = via_format raw_format to_header of_header (λ b. refl) (λ x. refl)

header_flat : (h : BlockHeader) → flatten (header_fields h) ≡ header_format.put h []
unfolding header_format flatten
header_flat h = refl

put-append : (h : BlockHeader) (r : Bytes) → header_format.put h r ≡ header_format.put h [] ++ r
unfolding header_format
put-append h r = simp (append_assoc, append-nil)

header_valid : (h : BlockHeader) → IsHeader h → header_format.Valid h
unfolding header_format
header_valid h v = (
  v.version,
  (
    v.height,
    (
      v.slot,
      (
        v.parent_hash,
        (
          v.timestamp_ms,
          (
            v.proposer,
            (
              v.proposer_vrf_proof,
              (v.state_root, (v.tx_root, (v.base_fee, (v.gas_used, (v.gas_limit, v.tx_count))))),
            ),
          ),
        ),
      ),
    ),
  ),
)

valid-IsHeader : (h : BlockHeader) → header_format.Valid h → IsHeader h
unfolding header_format
valid-IsHeader h v = record {
  version = v.0;
  height = v.1.0;
  slot = v.1.1.0;
  parent_hash = v.1.1.1.0;
  timestamp_ms = v.1.1.1.1.0;
  proposer = v.1.1.1.1.1.0;
  proposer_vrf_proof = v.1.1.1.1.1.1.0;
  state_root = v.1.1.1.1.1.1.1.0;
  tx_root = v.1.1.1.1.1.1.1.1.0;
  base_fee = v.1.1.1.1.1.1.1.1.1.0;
  gas_used = v.1.1.1.1.1.1.1.1.1.1.0;
  gas_limit = v.1.1.1.1.1.1.1.1.1.1.1.0;
  tx_count = v.1.1.1.1.1.1.1.1.1.1.1.1;
}

header_size : (h : BlockHeader) → IsHeader h → header_format.size h ≡ 245
unfolding header_format
header_size h v = omega arith

encode_put :
    (h : BlockHeader) → IsHeader h → block_header_encode 256 h ≡ some (header_format.put h [])
unfolding block_header_encode
encode_put h v =
    let fits : length (header_format.put h []) ≤ 256 =
      omega (arith, header_format.length-put h [], header_size h v) in
    rw (written-writes (header_fields h) 256, header_flat h, le→leb _ _ fits) refl

decode_put :
    (h : BlockHeader) (r : Bytes)
    → IsHeader h
    → block_header_decode (header_format.put h r) ≡ some (h, 245)
unfolding block_header_decode header_read header_format
decode_put h r v =
    rw (header_format.get-put h r 0 (header_valid h v), block_header_decode, header_size h v) refl

-- A header with fields of the widths of the wire format is encoded into 245 bytes, which fit the
-- buffer of the block hash, and is decoded from them, whatever bytes follow.
pub header_decode-encode :
    (h : BlockHeader)
    → IsHeader h
    → (buf : Bytes) × (block_header_encode 256 h ≡ some buf)
      × (length buf ≡ 245)
      × ((rest : Bytes) → block_header_decode (buf ++ rest) ≡ some (h, 245))
header_decode-encode h v = (
  header_format.put h [],
  encode_put h v,
  omega (arith, header_format.length-put h [], header_size h v),
  (λ rest. rw (← put-append h rest) (decode_put h rest v)),
)

decoded :
    (buf : Bytes) (h : BlockHeader) (n : ℕ)
    → block_header_decode buf ≡ some (h, n)
    → (c : RCur) × (header_format.get (rstart buf) ≡ some (h, c)) × (c.failed ≡ false) × (c.pos ≡ n)
unfolding block_header_decode header_read header_format
decoded buf h n e = go (header_format.get (rstart buf)) refl
  where
    go :
        (o : Option (BlockHeader × RCur))
        → header_format.get (rstart buf) ≡ o
        → (c : RCur) × (header_format.get (rstart buf) ≡ some (h, c))
          × (c.failed ≡ false)
          × (c.pos ≡ n)
    go none x = ground arith
    go (some (b, c)) x = (c, ground arith, ground arith, ground arith)

-- What decodes from a list of bytes as a header is one with fields of the widths of the wire format, read from the first
-- 245 bytes, and those are its encoding: no header has two.
pub block_header_decode_unique :
    (buf : Bytes) (h : BlockHeader) (n : ℕ)
    → IsBytes buf
    → block_header_decode buf ≡ some (h, n)
    → IsHeader h × (n ≡ 245) × (block_header_encode 256 h ≡ some (take 245 buf))
block_header_decode_unique buf h n b e =
    let (c, got, ok, at) = decoded buf h n e in
    let (t, valid) = header_format.put-get h (rstart buf) c got ok b in
    let v = valid-IsHeader h valid in
    let whole_size = header_size h v in
    let width : length (header_format.put h []) ≡ 245 =
      omega (arith, header_format.length-put h [], whole_size) in
    let front : take 245 buf ≡ header_format.put h [] =
      ap (take 245) (t.consumed ∙ put-append h c.rest)
      ∙ ap (λ k. take k (header_format.put h [] ++ c.rest)) (sym width)
      ∙ take_left (header_format.put h []) c.rest in
    (v, omega (arith, t.moved, at, whole_size), rw front (encode_put h v))
