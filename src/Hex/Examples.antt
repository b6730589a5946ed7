-- ===== src/Hex/Examples.antt =====
-- Tests of the hexadecimal encoding of src/common.c.
use agentchain.Base.{ℕ, ◌≡◌, refl, some, [], ◌∷◌, arith, length}
use agentchain.Bytes.Compare.{Bytes}
use agentchain.Bytes.Endian.{IsBytes}
use agentchain.Hex.{hex_encode, hex_nibble, hex_pairs, skip_prefix, hex_decode}
use agentchain.Hex.RoundTrip.{hex_decode-encode, hex_decode-IsBytes}

abbrev three : Bytes
three = 0 ∷ 175 ∷ 16 ∷ []

hex_decode-encode_example : hex_decode 3 (hex_encode three) ≡ some three
hex_decode-encode_example = hex_decode-encode three (omega arith)

-- "0xAf"
abbrev upper : Bytes
upper = b'0' ∷ b'x' ∷ b'A' ∷ b'f' ∷ []

upper-decode : hex_decode 1 upper ≡ some (175 ∷ [])
unfolding hex_decode skip_prefix hex_pairs hex_nibble
upper-decode = refl

hex_decode-IsBytes_example : (length {A = ℕ} (175 ∷ []) ≡ 1) × IsBytes (175 ∷ [])
hex_decode-IsBytes_example = hex_decode-IsBytes 1 upper (175 ∷ []) upper-decode
