-- ===== src/Bytes/Endian.antt =====
-- Big-endian words of common.h. A cast to `uint8_t` is `% 256`; the `|` of disjoint bytes is `+`.
use agentchain.Base.{
  ℕ, ◌+◌, ◌*◌, ◌/◌, ◌%◌, ◌^◌, ◌<◌, [], ◌∷◌, ◌≡◌, refl, arith, length, get_or, All,
}
use agentchain.Bytes.Compare.{Bytes}

abbrev pub IsByte : ℕ → Type 0
IsByte b = b < 256

abbrev pub IsBytes : Bytes → Type 0
IsBytes = All IsByte

unfoldable pub be8 : ℕ → Bytes
be8 v = v ∷ []

unfoldable pub be32 : ℕ → Bytes
be32 v = v / 2 ^ 24 % 256 ∷ v / 2 ^ 16 % 256 ∷ v / 2 ^ 8 % 256 ∷ v % 256 ∷ []

unfoldable pub be64 : ℕ → Bytes
be64 v =
    v / 2 ^ 56 % 256
    ∷ v / 2 ^ 48 % 256
    ∷ v / 2 ^ 40 % 256
    ∷ v / 2 ^ 32 % 256
    ∷ v / 2 ^ 24 % 256
    ∷ v / 2 ^ 16 % 256
    ∷ v / 2 ^ 8 % 256
    ∷ v % 256
    ∷ []

unfoldable pub rd8 : Bytes → ℕ
rd8 p = get_or p 0 0

unfoldable pub rd32 : Bytes → ℕ
rd32 p = get_or p 0 0 * 2 ^ 24 + get_or p 1 0 * 2 ^ 16 + get_or p 2 0 * 2 ^ 8 + get_or p 3 0

unfoldable pub rd64 : Bytes → ℕ
rd64 p =
    get_or p 0 0 * 2 ^ 56
    + get_or p 1 0 * 2 ^ 48
    + get_or p 2 0 * 2 ^ 40
    + get_or p 3 0 * 2 ^ 32
    + get_or p 4 0 * 2 ^ 24
    + get_or p 5 0 * 2 ^ 16
    + get_or p 6 0 * 2 ^ 8
    + get_or p 7 0

pub length-be8 : (v : ℕ) → length (be8 v) ≡ 1
unfolding be8
length-be8 v = refl

pub length-be32 : (v : ℕ) → length (be32 v) ≡ 4
unfolding be32
length-be32 v = refl

pub length-be64 : (v : ℕ) → length (be64 v) ≡ 8
unfolding be64
length-be64 v = refl

pub be8-IsBytes : (v : ℕ) → v < 256 → IsBytes (be8 v)
unfolding be8
be8-IsBytes v h = (h, tt)

pub be32-IsBytes : (v : ℕ) → IsBytes (be32 v)
unfolding be32
be32-IsBytes v = omega arith

pub be64-IsBytes : (v : ℕ) → IsBytes (be64 v)
unfolding be64
be64-IsBytes v = omega arith

pub rd8-be8 : (v : ℕ) → rd8 (be8 v) ≡ v
unfolding rd8 be8
rd8-be8 v = refl

pub rd32-be32 : (v : ℕ) → v < 2 ^ 32 → rd32 (be32 v) ≡ v
unfolding rd32 be32
rd32-be32 v h = omega arith

-- A word read back from its eight bytes.
pub rd64-be64 : (v : ℕ) → v < 2 ^ 64 → rd64 (be64 v) ≡ v
unfolding rd64 be64
rd64-be64 v h = omega arith

pub rd8-lt : (p : Bytes) → IsBytes p → rd8 p < 256
unfolding rd8
rd8-lt [] h = omega arith
rd8-lt (x ∷ xs) h = h.0

pub be8-rd8 : (p : Bytes) → length p ≡ 1 → be8 (rd8 p) ≡ p
unfolding be8 rd8
be8-rd8 (a ∷ []) h = refl
be8-rd8 [] h = absurd (omega arith)
be8-rd8 (a ∷ b ∷ r) h = absurd (omega arith)

module _ (a b c d : ℕ) (h : IsBytes (a ∷ b ∷ c ∷ d ∷ [])) where
  word32_of : be32 (rd32 (a ∷ b ∷ c ∷ d ∷ [])) ≡ a ∷ b ∷ c ∷ d ∷ []
  unfolding be32 rd32
  word32_of = ground arith

  word32-lt : rd32 (a ∷ b ∷ c ∷ d ∷ []) < 2 ^ 32
  unfolding rd32
  word32-lt = omega arith

module _ (a b c d e f g i : ℕ) (h : IsBytes (a ∷ b ∷ c ∷ d ∷ e ∷ f ∷ g ∷ i ∷ [])) where
  word64_of : be64 (rd64 (a ∷ b ∷ c ∷ d ∷ e ∷ f ∷ g ∷ i ∷ [])) ≡ a ∷ b ∷ c ∷ d ∷ e ∷ f ∷ g ∷ i ∷ []
  unfolding be64 rd64
  word64_of = ground arith

  word64-lt : rd64 (a ∷ b ∷ c ∷ d ∷ e ∷ f ∷ g ∷ i ∷ []) < 2 ^ 64
  unfolding rd64
  word64-lt = omega arith

-- Every four bytes are the encoding of the word that they read as.
pub be32-rd32 : (p : Bytes) → length p ≡ 4 → IsBytes p → be32 (rd32 p) ≡ p
be32-rd32 (a ∷ b ∷ c ∷ d ∷ []) h k = word32_of a b c d k
be32-rd32 _ h k = absurd (omega arith)

pub rd32-lt : (p : Bytes) → length p ≡ 4 → IsBytes p → rd32 p < 2 ^ 32
rd32-lt (a ∷ b ∷ c ∷ d ∷ []) h k = word32-lt a b c d k
rd32-lt _ h k = absurd (omega arith)

pub be64-rd64 : (p : Bytes) → length p ≡ 8 → IsBytes p → be64 (rd64 p) ≡ p
be64-rd64 (a ∷ b ∷ c ∷ d ∷ e ∷ f ∷ g ∷ i ∷ []) h k = word64_of a b c d e f g i k
be64-rd64 _ h k = absurd (omega arith)

pub rd64-lt : (p : Bytes) → length p ≡ 8 → IsBytes p → rd64 p < 2 ^ 64
rd64-lt (a ∷ b ∷ c ∷ d ∷ e ∷ f ∷ g ∷ i ∷ []) h k = word64-lt a b c d e f g i k
rd64-lt _ h k = absurd (omega arith)
