-- ===== src/Codec/Examples.antt =====
-- Tests of src/codec.c: a transfer, evidence, a name, and their encodings.
use agentchain.Base.{◌^◌, ◌<◌, ◌≡◌, ◌↔◌, refl, Bool, true, some, [], ◌∷◌, ◌++◌, arith, replicate}
use mathlib.Core.List.{flatten}
use agentchain.Bytes.Compare.{Bytes, bytes_eq, bytes_eq_refl}
use agentchain.Bytes.Endian.{IsBytes, be64, be8, be32}
use agentchain.Codec.Body.{
  BodyTransfer, BodyStake, BodyName, BodySlash, body_transfer_encode, body_transfer_decode,
  body_stake_encode, body_stake_decode, body_name_encode, body_name_decode, body_slash_encode,
  body_slash_decode, name_valid,
}
use agentchain.Codec.Body.RoundTrip.{
  IsTransfer, IsSlash, body_transfer_iff, body_slash_iff, body_stake_iff, body_name_iff,
}
use agentchain.Codec.Tx.{
  Tx, tx_transfer, tx_encode, tx_decode, tx_signable_bytes, tx_sign, tx_verify, tx_hash,
  encoded_fields,
}
use agentchain.Codec.Tx.RoundTrip.{IsTx, tx_decode_iff, tx_decode-encode}
use agentchain.Codec.Tx.Signing.{unsigned, signable_inj, tx_verify-sign}

abbrev carol : Bytes
carol = replicate 32 3

-- 300 to an address.
abbrev transfer_bytes : Bytes
transfer_bytes = carol ++ (0 ∷ 0 ∷ 0 ∷ 0 ∷ 0 ∷ 0 ∷ 1 ∷ 44 ∷ [])

abbrev transfer_body : BodyTransfer
transfer_body = record { recipient = carol; amount = 300 }

body_transfer_iff_example :
    (body_transfer_decode transfer_bytes ≡ some transfer_body)
    ↔ ((body_transfer_encode 512 transfer_body ≡ some transfer_bytes) × IsTransfer transfer_body)
body_transfer_iff_example =
    body_transfer_iff transfer_bytes transfer_body (omega arith) (omega arith)

abbrev evidence : BodySlash
evidence = record {
  validator = carol;
  height = 5;
  block_hash_a = replicate 32 4;
  sig_a = replicate 64 5;
  block_hash_b = replicate 32 6;
  sig_b = replicate 64 7;
}

abbrev evidence_bytes : Bytes
evidence_bytes =
    carol
    ++ ((0 ∷ 0 ∷ 0 ∷ 0 ∷ 0 ∷ 0 ∷ 0 ∷ 5 ∷ [])
        ++ (replicate 32 4 ++ (replicate 64 5 ++ (replicate 32 6 ++ replicate 64 7))))

body_slash_iff_example :
    (body_slash_decode evidence_bytes ≡ some evidence)
    ↔ ((body_slash_encode 512 evidence ≡ some evidence_bytes) × IsSlash evidence)
body_slash_iff_example = body_slash_iff evidence_bytes evidence (omega arith) (omega arith)

abbrev stake_body : BodyStake
stake_body = record { amount = 258 }

abbrev stake_bytes : Bytes
stake_bytes = 0 ∷ 0 ∷ 0 ∷ 0 ∷ 0 ∷ 0 ∷ 1 ∷ 2 ∷ []

body_stake_iff_example :
    (body_stake_decode stake_bytes ≡ some stake_body)
    ↔ ((body_stake_encode 512 stake_body ≡ some stake_bytes) × (258 < 2 ^ 64))
body_stake_iff_example = body_stake_iff stake_bytes stake_body (omega arith)

abbrev name_body : BodyName
name_body = record { name = b'a' ∷ b'-' ∷ b'1' ∷ [] }

body_name_iff_example : (body_name_decode (3 ∷ b'a' ∷ b'-' ∷ b'1' ∷ []) ≡ some name_body) ↔ (
    (body_name_encode 512 name_body ≡ some (3 ∷ b'a' ∷ b'-' ∷ b'1' ∷ []))
    × (name_valid name_body.name ≡ true))
body_name_iff_example = body_name_iff (3 ∷ b'a' ∷ b'-' ∷ b'1' ∷ []) name_body

abbrev transfer : Tx
transfer = record {
  version = 1;
  chain_id = 1;
  kind = tx_transfer;
  sender = replicate 32 1;
  nonce = 7;
  gas_limit = 100;
  tip = 2;
  valid_until = 90;
  body = transfer_bytes;
  memo = 104 ∷ 105 ∷ [];
  sig = replicate 64 9;
}

transfer-IsTx : IsTx transfer
transfer-IsTx = record {
  version = omega arith;
  chain_id = omega arith;
  kind = omega arith;
  sender = omega arith;
  nonce = omega arith;
  gas_limit = omega arith;
  tip = omega arith;
  valid_until = omega arith;
  body = omega arith;
  memo = omega arith;
  sig = omega arith;
}

tx_decode-encode_example :
    (buf : Bytes) × (tx_encode 2048 transfer ≡ some buf) × (tx_decode buf ≡ some transfer)
tx_decode-encode_example = tx_decode-encode transfer transfer-IsTx

-- The bytes of the transfer.
abbrev wire : Bytes
wire = flatten (encoded_fields transfer)

wire-IsBytes : IsBytes wire
unfolding flatten be8 be32 be64
wire-IsBytes = omega arith

tx_decode_iff_example :
    (tx_decode wire ≡ some transfer) ↔ ((tx_encode 2048 transfer ≡ some wire) × IsTx transfer)
tx_decode_iff_example = tx_decode_iff wire transfer wire-IsBytes

-- The same transfer under another signature.
abbrev resigned : Tx
resigned = record transfer { sig = replicate 64 8 }

resigned-IsTx : IsTx resigned
resigned-IsTx = record {
  version = omega arith;
  chain_id = omega arith;
  kind = omega arith;
  sender = omega arith;
  nonce = omega arith;
  gas_limit = omega arith;
  tip = omega arith;
  valid_until = omega arith;
  body = omega arith;
  memo = omega arith;
  sig = omega arith;
}

same_signable : tx_signable_bytes 2048 transfer ≡ tx_signable_bytes 2048 resigned
unfolding tx_signable_bytes
same_signable = refl

signable_inj_example : unsigned transfer ≡ unsigned resigned
signable_inj_example = signable_inj transfer resigned transfer-IsTx resigned-IsTx same_signable

-- A toy signature: the message with the key after it.
abbrev toy_sign : Bytes → Bytes
toy_sign m = m ++ replicate 32 1

abbrev toy_verify : Bytes → Bytes → Bytes → Bool
toy_verify sig m pk = bytes_eq sig (m ++ pk)

tx_verify-sign_example :
    (t : Tx) × (tx_sign (λ m. m) toy_sign transfer ≡ some t)
    × (tx_verify (λ m. m) toy_verify t ≡ true)
    × (unsigned t ≡ unsigned transfer)
    × (tx_hash (λ m. m) t ≡ tx_hash (λ m. m) transfer)
tx_verify-sign_example =
    tx_verify-sign (λ m. m) toy_sign toy_verify transfer transfer-IsTx
      (λ m. bytes_eq_refl (m ++ replicate 32 1))
