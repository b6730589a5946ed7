-- ===== src/Codec/Block.antt =====
-- Whole blocks of src/codec.h and src/codec.c: header, transactions and commit certificate.
use agentchain.Base.{
  ℕ, zero, suc, ◌+◌, ◌*◌, ◌-◌, Option, none, some, List, [], ◌∷◌, ◌++◌, length, take, drop, ltb,
  if◌then◌else◌,
}
use agentchain.Bytes.Compare.{Bytes}
use agentchain.Bytes.Endian.{be32, rd32}
use agentchain.Codec.Cursor.{◌>>=◌, R, rget, ◌⊗◌, rmap, rstart, pure, wstart, writes, written}
use agentchain.Codec.Tx.{Tx, tx_encode, tx_decode}
use agentchain.Codec.Header.{BlockHeader, block_header_encode, block_header_decode}

pub record CommitSigner : Type 0 where
  pub signer : Bytes
  pub sig : Bytes
  pub vrf_proof : Bytes

-- `tx_count` and `nsigners` are the lengths.
pub record Block : Type 0 where
  pub header : BlockHeader
  pub txs : List Tx
  pub signers : List CommitSigner

abbrev pub committee_max : ℕ
committee_max = 256

abbrev pub block_max_txs : ℕ
block_max_txs = 4096

abbrev pub signer_fields : List CommitSigner → List Bytes
signer_fields [] = []
signer_fields (s ∷ ss) = s.signer ∷ s.sig ∷ s.vrf_proof ∷ signer_fields ss

-- The loop over the transactions, into what is left of the buffer.
unfoldable pub encode_txs : ℕ → List Tx → Option Bytes
encode_txs room [] = some []
encode_txs room (tx ∷ txs) = elim (tx_encode room tx) [
  | none ↦ none
  | some buf ↦ elim (encode_txs (room - length buf) txs) [
    | none ↦ none
    | some rest ↦ some (buf ++ rest)
  ]
]

abbrev pub block_upper : Block → ℕ
block_upper b = 256 + length b.txs * 2048 + 4 + length b.signers * (32 + 64 + 64)

unfoldable pub block_encode : Block → Option Bytes
block_encode b = elim (block_header_encode (block_upper b) b.header) [
  | none ↦ none
  | some head ↦ elim (encode_txs (block_upper b - length head) b.txs) [
    | none ↦ none
    | some body ↦ written (
        writes (be32 (length b.signers) ∷ signer_fields b.signers)
          (record (wstart (block_upper b)) { out = head ++ body }))
  ]
]

-- The byte length of the transaction at the front, from its layout.
unfoldable pub peek_tx : Bytes → Option ℕ
peek_tx p =
    if ltb (length p) (70 + 4)
    then none
    else let body_len = rd32 (drop 70 p) in
      if ltb 512 body_len
      then none
      else let pos = 70 + 4 + body_len in
        if ltb (length p) (pos + 4)
        then none
        else let memo_len = rd32 (drop pos p) in
          if ltb 512 memo_len
          then none
          else let end = pos + 4 + memo_len + 64 in if ltb (length p) end then none else some end

-- The transactions, and the bytes after them.
unfoldable pub decode_txs : ℕ → Bytes → Option (List Tx × Bytes)
decode_txs zero p = some ([], p)
decode_txs (suc n) p = elim (peek_tx p) [
  | none ↦ none
  | some pos ↦ elim (tx_decode (take pos p)) [
    | none ↦ none
    | some tx ↦ elim (decode_txs n (drop pos p)) [
      | none ↦ none
      | some (txs, rest) ↦ some (tx ∷ txs, rest)
    ]
  ]
]

abbrev pub to_signer : Bytes × (Bytes × Bytes) → CommitSigner
to_signer (k, (s, p)) = record { signer = k; sig = s; vrf_proof = p }

unfoldable pub signer_read : R CommitSigner
signer_read = rmap to_signer (rget 32 ⊗ rget 64 ⊗ rget 64)

unfoldable pub signers_read : ℕ → R (List CommitSigner)
signers_read zero = pure []
signers_read (suc n) = do s ← signer_read; ss ← signers_read n; pure (s ∷ ss)

-- The certificate, and the number of bytes it takes.
unfoldable pub decode_signers : Bytes → Option (List CommitSigner × ℕ)
decode_signers p =
    if ltb (length p) 4
    then none
    else let nsigners = rd32 (take 4 p) in
      if ltb committee_max nsigners
      then none
      else elim (signers_read nsigners (rstart (drop 4 p))) [
        | none ↦ none
        | some (ss, c) ↦ if c.failed then none else some (ss, 4 + c.pos)
      ]

-- The block and the number of bytes read: more may follow it.
unfoldable pub block_decode : Bytes → Option (Block × ℕ)
block_decode buf = if ltb (length buf) (256 - 100) then none else elim (block_header_decode buf) [
  | none ↦ none
  | some (h, hn) ↦
      if ltb block_max_txs h.tx_count then none else elim (decode_txs h.tx_count (drop hn buf)) [
        | none ↦ none
        | some (txs, rest) ↦ elim (decode_signers rest) [
          | none ↦ none
          | some (ss, n) ↦
              some (record { header = h; txs = txs; signers = ss }, length buf - length rest + n)
        ]
      ]
]
