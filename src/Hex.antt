-- ===== src/Hex.antt =====
-- `ac_hex_encode` and `ac_hex_decode` of src/common.c. A C string is the list of its characters
-- before the terminating 0.
pub mod RoundTrip
mod Examples
use agentchain.Base.{
  ℕ, ◌+◌, ◌-◌, ◌*◌, ◌/◌, ◌%◌, ◌&&◌, ◌||◌, not, Option, none, some, [], ◌∷◌, length, get_or, leb,
  ◌==◌, if◌then◌else◌,
}
use agentchain.Bytes.Compare.{Bytes}

abbrev pub hex_digits : Bytes
hex_digits =
    b'0' ∷ b'1' ∷ b'2' ∷ b'3' ∷ b'4' ∷ b'5' ∷ b'6' ∷ b'7' ∷ b'8' ∷ b'9' ∷ b'a' ∷ b'b' ∷ b'c' ∷ b'd'
    ∷ b'e' ∷ b'f' ∷ []

abbrev pub hex_digit : ℕ → ℕ
hex_digit v = get_or hex_digits v 0

unfoldable pub hex_encode : Bytes → Bytes
hex_encode [] = []
hex_encode (x ∷ xs) = hex_digit (x / 16) ∷ hex_digit (x % 16) ∷ hex_encode xs

unfoldable pub hex_nibble : ℕ → Option ℕ
hex_nibble c =
    if leb b'0' c && leb c b'9'
    then some (c - b'0')
    else if leb b'a' c && leb c b'f'
    then some (c - b'a' + 10)
    else if leb b'A' c && leb c b'F'
    then some (c - b'A' + 10)
    else none

-- The loop over pairs of characters; of an odd number the last is not read.
unfoldable pub hex_pairs : Bytes → Option Bytes
hex_pairs [] = some []
hex_pairs (c ∷ []) = some []
hex_pairs (c ∷ d ∷ rest) =
    let more = hex_pairs rest in
    elim (hex_nibble c) [
      | none ↦ none
      | some hi ↦ elim (hex_nibble d) [
        | none ↦ none
        | some lo ↦ elim more [ none ↦ none | some bs ↦ some ((hi * 16 + lo) ∷ bs) ]
      ]
    ]

-- The optional "0x".
unfoldable pub skip_prefix : Bytes → Bytes
skip_prefix [] = []
skip_prefix (c ∷ []) = c ∷ []
skip_prefix (c ∷ d ∷ rest) = if c == b'0' && (d == b'x' || d == b'X') then rest else c ∷ d ∷ rest

unfoldable pub hex_decode : ℕ → Bytes → Option Bytes
hex_decode out_len text =
    let digits = skip_prefix text in
    if not (length digits == 2 * out_len) then none else hex_pairs digits
