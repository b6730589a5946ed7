-- ===== src/Hex/RoundTrip.antt =====
-- `ac_hex_decode` and `ac_hex_encode` of src/common.c against one another.
use agentchain.Base.{
  ℕ, ◌+◌, ◌-◌, ◌*◌, ◌/◌, ◌%◌, ◌<◌, ◌≡◌, refl, ap, false, some, [], ◌∷◌, arith, length, inl, inr,
  Option-cases, Bool-cases, ◌==◌, ◌||◌,
}
use agentchain.Bytes.Compare.{Bytes}
use agentchain.Bytes.Endian.{IsBytes}
use agentchain.Hex.{hex_digit, hex_encode, hex_nibble, hex_pairs, skip_prefix, hex_decode}

nibble_digit :
    (v : ℕ)
    → v < 16
    → (hex_nibble (hex_digit v) ≡ some v) × ((hex_digit v == b'x' || hex_digit v == b'X') ≡ false)
unfolding hex_nibble
nibble_digit v h = ground arith

pairs-encode : (b : Bytes) → IsBytes b → hex_pairs (hex_encode b) ≡ some b
unfolding hex_pairs hex_encode
pairs-encode [] h = refl
pairs-encode (x ∷ xs) h =
    let (hi, _) = nibble_digit (x / 16) (omega (arith, h.0)) in
    let (lo, _) = nibble_digit (x % 16) (omega arith) in
    let byte : x / 16 * 16 + x % 16 ≡ x = omega arith in
    rw (hi, lo, pairs-encode xs h.1, hex_pairs) (ap (λ v. some (v ∷ xs)) byte)

length-encode : (b : Bytes) → length (hex_encode b) ≡ 2 * length b
unfolding hex_encode
length-encode [] = refl
length-encode (x ∷ xs) = omega (arith, length-encode xs)

skip-encode : (b : Bytes) → skip_prefix (hex_encode b) ≡ hex_encode b
unfolding skip_prefix hex_encode
skip-encode [] = refl
skip-encode (x ∷ xs) = let (_, digit) = nibble_digit (x % 16) (omega arith) in ground (arith, digit)

-- Bytes that are written in hexadecimal are read back into a buffer of as many bytes.
pub hex_decode-encode : (b : Bytes) → IsBytes b → hex_decode (length b) (hex_encode b) ≡ some b
unfolding hex_decode
hex_decode-encode b h =
    let size = length-encode b in
    rw (skip-encode b, hex_decode) (ground (arith, size, pairs-encode b h))

nibble-lt : (c v : ℕ) → hex_nibble c ≡ some v → v < 16
unfolding hex_nibble
nibble-lt c v h = ground arith

pairs-IsBytes :
    (text b : Bytes) (n : ℕ)
    → length text ≡ 2 * n
    → hex_pairs text ≡ some b
    → (length b ≡ n) × IsBytes b
unfolding hex_pairs
pairs-IsBytes [] b n e h = let same : b ≡ [] = ground (arith, h) in rw same (omega arith, tt)
pairs-IsBytes (c ∷ []) b n e h = absurd (omega arith)
pairs-IsBytes (c ∷ d ∷ rest) b n e h = elim (Option-cases (hex_nibble c)) [
  | inl x ↦ absurd (ground (arith, h, x))
  | inr (hi, x) ↦ elim (Option-cases (hex_nibble d)) [
    | inl y ↦ absurd (ground (arith, h, x, y))
    | inr (lo, y) ↦ elim (Option-cases (hex_pairs rest)) [
      | inl z ↦ absurd (ground (arith, h, x, y, z))
      | inr (bs, z) ↦
          let (count, small) = pairs-IsBytes rest bs (n - 1) (omega arith) z in
          let same : b ≡ (hi * 16 + lo) ∷ bs = ground (arith, h, x, y, z) in
          let byte : hi * 16 + lo < 256 = omega (arith, nibble-lt c hi x, nibble-lt d lo y) in
          rw same (omega (arith, count), (byte, small))
    ]
  ]
]

-- Whatever `ac_hex_decode` accepts for a buffer of `out_len` bytes decodes to exactly that many
-- bytes, each below 256.
pub hex_decode-IsBytes :
    (out_len : ℕ) (text b : Bytes)
    → hex_decode out_len text ≡ some b
    → (length b ≡ out_len) × IsBytes b
unfolding hex_decode
hex_decode-IsBytes out_len text b h = elim (Bool-cases (length (skip_prefix text) == 2 * out_len)) [
  | inl y ↦ pairs-IsBytes (skip_prefix text) b out_len (ground (arith, y)) (ground (arith, h, y))
  | inr n ↦ absurd (ground (arith, h, n))
]
