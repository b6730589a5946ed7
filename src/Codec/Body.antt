-- ===== src/Codec/Body.antt =====
-- The transaction bodies of src/codec.c, and the names that REGISTER_NAME accepts. The decoders
-- return the body itself; the byte count that the source returns with it is `len`.
pub mod RoundTrip
use agentchain.Base.{
  ℕ, ◌+◌, Bool, true, false, ◌&&◌, ◌||◌, not, Option, none, some, List, [], ◌∷◌, length, take, ltb,
  leb, ◌==◌, if◌then◌else◌,
}
use agentchain.Bytes.Compare.{Bytes}
use agentchain.Bytes.Endian.{be64, rd64}
use agentchain.Codec.Cursor.{R, rget, rget_u64, ◌⊗◌, rmap, whole, wstart, writes, written}

pub record BodyTransfer : Type 0 where
  pub recipient : Bytes
  pub amount : ℕ

pub record BodyStake : Type 0 where
  pub amount : ℕ

-- `name` holds the `name_len` bytes in use.
pub record BodyName : Type 0 where
  pub name : Bytes

pub record BodySlash : Type 0 where
  pub validator : Bytes
  pub height : ℕ
  pub block_hash_a : Bytes
  pub sig_a : Bytes
  pub block_hash_b : Bytes
  pub sig_b : Bytes

abbrev pub transfer_fields : BodyTransfer → List Bytes
transfer_fields b = b.recipient ∷ be64 b.amount ∷ []

unfoldable pub body_transfer_encode : ℕ → BodyTransfer → Option Bytes
body_transfer_encode room b = written (writes (transfer_fields b) (wstart room))

unfoldable pub transfer_read : R BodyTransfer
transfer_read = rmap (λ x. record { recipient = x.0; amount = x.1 }) (rget 32 ⊗ rget_u64)

unfoldable pub body_transfer_decode : Bytes → Option BodyTransfer
body_transfer_decode buf = whole transfer_read buf

unfoldable pub body_stake_encode : ℕ → BodyStake → Option Bytes
body_stake_encode room b = if ltb room 8 then none else some (be64 b.amount)

unfoldable pub body_stake_decode : Bytes → Option BodyStake
body_stake_decode buf = if not (length buf == 8) then none else some (record { amount = rd64 buf })

unfoldable pub name_char : ℕ → Bool
name_char c = (leb b'a' c && leb c b'z') || (leb b'0' c && leb c b'9') || c == b'-'

-- The loop over the characters.
unfoldable pub all_name_chars : Bytes → Bool
all_name_chars [] = true
all_name_chars (c ∷ rest) = if not (name_char c) then false else all_name_chars rest

unfoldable pub name_valid : Bytes → Bool
name_valid name = if ltb (length name) 1 || ltb 32 (length name) then false else all_name_chars name

unfoldable pub body_name_encode : ℕ → BodyName → Option Bytes
body_name_encode room b =
    if length b.name == 0 || ltb 32 (length b.name)
    then none
    else if ltb room (length b.name + 1)
    then none
    else some (length b.name ∷ b.name)

unfoldable pub body_name_decode : Bytes → Option BodyName
body_name_decode [] = none
body_name_decode (nl ∷ rest) =
    if nl == 0 || ltb 32 nl
    then none
    else if not (nl + 1 == length (nl ∷ rest))
    then none
    else if not (name_valid (take nl rest))
    then none
    else some (record { name = take nl rest })

abbrev pub slash_fields : BodySlash → List Bytes
slash_fields b =
    b.validator ∷ be64 b.height ∷ b.block_hash_a ∷ b.sig_a ∷ b.block_hash_b ∷ b.sig_b ∷ []

abbrev pub to_slash : Bytes × (ℕ × (Bytes × (Bytes × (Bytes × Bytes)))) → BodySlash
to_slash (v, (h, (a, (sa, (b, sb))))) = record {
  validator = v;
  height = h;
  block_hash_a = a;
  sig_a = sa;
  block_hash_b = b;
  sig_b = sb;
}

unfoldable pub slash_read : R BodySlash
slash_read = rmap to_slash (rget 32 ⊗ rget_u64 ⊗ rget 32 ⊗ rget 64 ⊗ rget 32 ⊗ rget 64)

unfoldable pub body_slash_encode : ℕ → BodySlash → Option Bytes
body_slash_encode room b = written (writes (slash_fields b) (wstart room))

unfoldable pub body_slash_decode : Bytes → Option BodySlash
body_slash_decode buf = whole slash_read buf
