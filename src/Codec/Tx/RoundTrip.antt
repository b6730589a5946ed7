-- ===== src/Codec/Tx/RoundTrip.antt =====
-- `ac_tx_decode` and `ac_tx_encode` of src/codec.c against one another.
use mathlib.Core.List.{flatten}
use agentchain.Base.{
  ℕ, ◌≤◌, ◌<◌, ◌^◌, ◌≡◌, ◌↔◌, refl, some, List, [], arith, length, ltb, Bool-cases, inl, inr,
  le→leb, le→ltb, ltb→lt,
}
use agentchain.Bytes.Compare.{Bytes}
use agentchain.Bytes.Endian.{IsBytes}
use agentchain.Codec.Cursor.{
  rget_u8, rget_u32, rget_u64, whole, writes, written, wstart, written-writes,
}
use agentchain.Codec.Format.{Format, bytes_format}
use agentchain.Codec.Format.Combine.{u8_format, u32_format, u64_format, pair_format, via_format}
use agentchain.Codec.Format.Whole.{var_format, codec_iff, whole-put}
use agentchain.Codec.Body.RoundTrip.{Sized}
use agentchain.Codec.Tx.{Tx, RawTx, to_tx, encoded_fields, tx_encode, tx_read, tx_decode}

-- The widths of the fields.
pub record IsTx (tx : Tx) : Type 0 where
  pub version : tx.version < 256
  pub chain_id : tx.chain_id < 2 ^ 64
  pub kind : tx.kind < 256
  pub sender : Sized 32 tx.sender
  pub nonce : tx.nonce < 2 ^ 64
  pub gas_limit : tx.gas_limit < 2 ^ 32
  pub tip : tx.tip < 2 ^ 64
  pub valid_until : tx.valid_until < 2 ^ 64
  pub body : (length tx.body ≤ 512) × IsBytes tx.body
  pub memo : (length tx.memo ≤ 512) × IsBytes tx.memo
  pub sig : Sized 64 tx.sig

of_tx : Tx → RawTx
of_tx tx = (
  tx.version,
  (
    tx.chain_id,
    (
      tx.kind,
      (
        tx.sender,
        (tx.nonce, (tx.gas_limit, (tx.tip, (tx.valid_until, (tx.body, (tx.memo, tx.sig)))))),
      ),
    ),
  ),
)

raw_format : Format RawTx
unfolding pair_format bytes_format u8_format u32_format u64_format var_format rget_u8 rget_u32
    rget_u64
raw_format = pair_format u8_format (
    pair_format u64_format (
      pair_format u8_format (
        pair_format (bytes_format 32) (
          pair_format u64_format (
            pair_format u32_format (
              pair_format u64_format (
                pair_format u64_format (
                  pair_format (var_format 512 (omega arith))
                    (pair_format (var_format 512 (omega arith)) (bytes_format 64))))))))))

pub tx_format : Format Tx
unfolding raw_format via_format of_tx
tx_format = via_format raw_format to_tx of_tx (λ b. refl) (λ x. refl)

tx_flat : (tx : Tx) → flatten (encoded_fields tx) ≡ tx_format.put tx []
unfolding tx_format flatten
tx_flat tx = refl

tx_whole_iff :
    (buf : Bytes) (tx : Tx)
    → IsBytes buf
    → length buf ≤ 2048
    → (whole tx_read buf ≡ some tx) ↔ ((tx_encode 2048 tx ≡ some buf) × tx_format.Valid tx)
unfolding tx_encode tx_read tx_format
tx_whole_iff = codec_iff tx_format encoded_fields tx_flat 2048

valid_IsTx : (tx : Tx) → tx_format.Valid tx → IsTx tx
unfolding tx_format
valid_IsTx tx v = record {
  version = v.0;
  chain_id = v.1.0;
  kind = v.1.1.0;
  sender = v.1.1.1.0;
  nonce = v.1.1.1.1.0;
  gas_limit = v.1.1.1.1.1.0;
  tip = v.1.1.1.1.1.1.0;
  valid_until = v.1.1.1.1.1.1.1.0;
  body = v.1.1.1.1.1.1.1.1.0;
  memo = v.1.1.1.1.1.1.1.1.1.0;
  sig = v.1.1.1.1.1.1.1.1.1.1;
}

pub IsTx_valid : (tx : Tx) → IsTx tx → tx_format.Valid tx
unfolding tx_format
IsTx_valid tx v = (
  v.version,
  (
    v.chain_id,
    (
      v.kind,
      (v.sender, (v.nonce, (v.gas_limit, (v.tip, (v.valid_until, (v.body, (v.memo, v.sig))))))),
    ),
  ),
)

-- What was written fits.
pub written_fits :
    (bs : List Bytes) (room : ℕ) (buf : Bytes)
    → written (writes bs (wstart room)) ≡ some buf
    → (flatten bs ≡ buf) × (length buf ≤ room)
written_fits bs room buf e = ground (arith, written-writes bs room)

-- A buffer of bytes decodes to `tx` exactly when `tx` has fields of the widths of the wire format and is
-- encoded to that buffer. So no transaction has two encodings.
pub tx_decode_iff :
    (buf : Bytes) (tx : Tx)
    → IsBytes buf
    → (tx_decode buf ≡ some tx) ↔ ((tx_encode 2048 tx ≡ some buf) × IsTx tx)
unfolding tx_decode tx_encode
tx_decode_iff buf tx h = elim (Bool-cases (ltb 2048 (length buf))) [
  | inl long ↦ (
    (λ e. ground arith),
    (λ q. absurd (omega (arith, ltb→lt _ _ long, written_fits (encoded_fields tx) 2048 buf q.0))),
  )
  | inr short ↦
      let fits : length buf ≤ 2048 = ground arith in
      let both = tx_whole_iff buf tx h fits in
      rw short (
        (λ e. let q = both.0 e in (q.0, valid_IsTx tx q.1)),
        (λ q. both.1 (q.0, IsTx_valid tx q.1)),
      )
]

size-le : (tx : Tx) → IsTx tx → tx_format.size tx ≤ 1166
unfolding tx_format
size-le tx v = omega arith

length-le : (tx : Tx) → IsTx tx → length (tx_format.put tx []) ≤ 1166
length-le tx v = omega (arith, tx_format.length-put tx [], size-le tx v)

decode_put : (tx : Tx) → tx_format.Valid tx → whole tx_read (tx_format.put tx []) ≡ some tx
unfolding tx_read tx_format
decode_put = whole-put tx_format

-- Every transaction with fields of the widths of the wire format is encoded into at most 2,048 bytes,
-- and decoded from what it is encoded to.
pub tx_decode-encode :
    (tx : Tx) → IsTx tx → (buf : Bytes) × (tx_encode 2048 tx ≡ some buf) × (tx_decode buf ≡ some tx)
unfolding tx_encode tx_decode
tx_decode-encode tx v =
    let fits : length (tx_format.put tx []) ≤ 2048 = omega (arith, length-le tx v) in
    (
      tx_format.put tx [],
      rw (written-writes (encoded_fields tx) 2048, tx_flat tx, le→leb _ _ fits) refl,
      rw (le→ltb _ _ fits) (decode_put tx (IsTx_valid tx v)),
    )
