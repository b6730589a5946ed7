-- ===== src/Codec/Body/RoundTrip.antt =====
-- The encoders and decoders of the bodies in src/codec.c against one another.
use mathlib.Core.List.{flatten}
use agentchain.Base.{ℕ, ◌≤◌, ◌<◌, ◌^◌, ◌≡◌, ◌↔◌, refl, true, some, [], ◌∷◌, arith, length, take_all}
use agentchain.Bytes.Compare.{Bytes}
use agentchain.Bytes.Endian.{IsBytes, rd64-be64, be64-rd64, rd64-lt, length-be64}
use agentchain.Codec.Cursor.{rget_u64}
use agentchain.Codec.Format.{Format, bytes_format}
use agentchain.Codec.Format.Combine.{u64_format, pair_format, via_format}
use agentchain.Codec.Format.Whole.{codec_iff}
use agentchain.Codec.Body.{
  BodyTransfer, BodyStake, BodyName, BodySlash, body_transfer_encode, body_transfer_decode,
  transfer_fields, transfer_read, body_stake_encode, body_stake_decode, name_valid,
  body_name_encode, body_name_decode, to_slash, slash_fields, slash_read, body_slash_encode,
  body_slash_decode,
}

abbrev pub Sized : ℕ → Bytes → Type 0
Sized n b = (length b ≡ n) × IsBytes b

abbrev pub IsTransfer : BodyTransfer → Type 0
IsTransfer b = Sized 32 b.recipient × (b.amount < 2 ^ 64)

transfer_format : Format BodyTransfer
unfolding via_format pair_format bytes_format u64_format rget_u64
transfer_format =
    via_format (pair_format (bytes_format 32) u64_format)
      (λ x. record { recipient = x.0; amount = x.1 }) (λ b. (b.recipient, b.amount)) (λ b. refl)
      (λ x. refl)

transfer_flat : (b : BodyTransfer) → flatten (transfer_fields b) ≡ transfer_format.put b []
unfolding transfer_format flatten
transfer_flat b = refl

-- A transfer body, at most 512 bytes, decodes to `b` exactly when it is what `b` is encoded to
-- and the recipient has 32 bytes and the amount 64 bits.
pub body_transfer_iff :
    (buf : Bytes) (b : BodyTransfer)
    → IsBytes buf
    → length buf ≤ 512
    → (body_transfer_decode buf ≡ some b) ↔ ((body_transfer_encode 512 b ≡ some buf) × IsTransfer b)
unfolding body_transfer_decode body_transfer_encode transfer_read transfer_format
body_transfer_iff = codec_iff transfer_format transfer_fields transfer_flat 512

abbrev pub IsSlash : BodySlash → Type 0
IsSlash b =
    Sized 32 b.validator
    × ((b.height < 2 ^ 64)
        × (Sized 32 b.block_hash_a
            × (Sized 64 b.sig_a × (Sized 32 b.block_hash_b × Sized 64 b.sig_b))))

slash_format : Format BodySlash
unfolding via_format pair_format bytes_format u64_format rget_u64
slash_format =
    via_format
      (pair_format (bytes_format 32) (
        pair_format u64_format (
          pair_format (bytes_format 32)
            (pair_format (bytes_format 64) (pair_format (bytes_format 32) (bytes_format 64))))))
      to_slash
      (λ b. (b.validator, (b.height, (b.block_hash_a, (b.sig_a, (b.block_hash_b, b.sig_b))))))
      (λ b. refl) (λ x. refl)

slash_flat : (b : BodySlash) → flatten (slash_fields b) ≡ slash_format.put b []
unfolding slash_format flatten
slash_flat b = refl

-- Evidence of at most 512 bytes decodes to `b` exactly when it is what `b` is encoded to and every
-- field of `b` has the width of the wire format.
pub body_slash_iff :
    (buf : Bytes) (b : BodySlash)
    → IsBytes buf
    → length buf ≤ 512
    → (body_slash_decode buf ≡ some b) ↔ ((body_slash_encode 512 b ≡ some buf) × IsSlash b)
unfolding body_slash_decode body_slash_encode slash_read slash_format
body_slash_iff = codec_iff slash_format slash_fields slash_flat 512

-- A stake body, a list of bytes, decodes to `b` exactly when it is the encoding of `b`, an amount of 64 bits.
pub body_stake_iff :
    (buf : Bytes) (b : BodyStake)
    → IsBytes buf
    → (body_stake_decode buf ≡ some b)
      ↔ ((body_stake_encode 512 b ≡ some buf) × (b.amount < 2 ^ 64))
unfolding body_stake_decode body_stake_encode
body_stake_iff buf b h = (
  (λ e. ground (arith, be64-rd64 buf, rd64-lt buf)),
  (λ q. ground (arith, rd64-be64 b.amount, length-be64 b.amount)),
)

-- A name body decodes to `b` exactly when it is the encoding of `b` and `b` holds a valid name.
pub body_name_iff :
    (buf : Bytes) (b : BodyName)
    → (body_name_decode buf ≡ some b)
      ↔ ((body_name_encode 512 b ≡ some buf) × (name_valid b.name ≡ true))
unfolding body_name_decode body_name_encode
body_name_iff [] b = ((λ e. cc), (λ q. ground arith))
body_name_iff (nl ∷ rest) b = (
  (λ e. ground (arith, take_all nl rest)),
  (λ q. ground (arith, take_all (length b.name) b.name)),
)
