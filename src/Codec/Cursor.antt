-- ===== src/Codec/Cursor.antt =====
-- The bounded cursors of src/codec.c: `wcur_t` writes, `rcur_t` reads.
use mathlib.Core.List.{flatten}
use agentchain.Base.{
  ℕ, ◌+◌, ◌≤◌, ◌≡◌, refl, Bool, true, false, ◌||◌, not, Option, none, some, List, [], ◌∷◌, ◌++◌,
  arith, length, take, drop, replicate, le→leb, Bool-cases, inl, inr, ◌∙◌, length-append,
  append-nil, append_assoc, ltb, leb, ◌==◌, if◌then◌else◌,
}
use agentchain.Bytes.Compare.{Bytes}
use agentchain.Bytes.Endian.{rd8, rd32, rd64}

-- `out` holds the bytes written so far, so `used` is its length.
pub record WCur : Type 0 where
  pub out : Bytes
  pub cap : ℕ
  pub failed : Bool

unfoldable pub wput : Bytes → WCur → WCur
wput src c =
    if c.failed || ltb c.cap (length c.out + length src)
    then record c { failed = true }
    else record c { out = c.out ++ src }

abbrev pub wstart : ℕ → WCur
wstart n = record { out = []; cap = n; failed = false }

-- A run of `wput` calls, one for each field.
unfoldable pub writes : List Bytes → WCur → WCur
writes [] c = c
writes (b ∷ bs) c = writes bs (wput b c)

-- `return c.err ? -1 : (int)c.used`, with the bytes that were written.
unfoldable pub written : WCur → Option Bytes
written c = if c.failed then none else some c.out

-- `rest` is what lies between `pos` and `cap`, so `cap` is `pos + length rest`.
pub record RCur : Type 0 where
  pub rest : Bytes
  pub pos : ℕ
  pub failed : Bool

abbrev pub rstart : Bytes → RCur
rstart buf = record { rest = buf; pos = 0; failed = false }

-- A decoder: `none` is an early `return -1`.
abbrev pub R {ℓ} : Type ℓ → Type ℓ
R A = RCur → Option (A × RCur)

abbrev pub pure {ℓ} : {A : Type ℓ} → A → R A
pure a c = some (a, c)

infixl 5 ◌>>=◌
abbrev pub ◌>>=◌ {ℓ κ} : {A : Type ℓ} {B : Type κ} → R A → (A → R B) → R B
◌>>=◌ m f c = elim (m c) [ none ↦ none | some (a, c') ↦ f a c' ]

-- The destination holds zeros until it is written.
unfoldable pub rget : ℕ → R Bytes
rget n c =
    if c.failed || ltb (length c.rest) n
    then some (replicate n 0, record c { failed = true })
    else some (take n c.rest, record c { rest = drop n c.rest; pos = c.pos + n })

unfoldable pub rget_u8 : R ℕ
rget_u8 = do b ← rget 1; pure (rd8 b)

unfoldable pub rget_u32 : R ℕ
rget_u32 = do b ← rget 4; pure (rd32 b)

unfoldable pub rget_u64 : R ℕ
rget_u64 = do b ← rget 8; pure (rd64 b)

abbrev pub fail {ℓ} : {A : Type ℓ} → R A
fail c = none

-- Two reads in sequence, and a read into a field of a record.
infixr 6 ◌⊗◌
unfoldable pub ◌⊗◌ {ℓ κ} : {A : Type ℓ} {B : Type κ} → R A → R B → R (A × B)
m ⊗ n = do a ← m; b ← n; pure (a, b)

unfoldable pub rmap {ℓ κ} : {A : Type ℓ} {B : Type κ} → (A → B) → R A → R B
rmap f m = do a ← m; pure (f a)

-- A field of `n` bytes behind its u32 length, which may not pass `most`.
unfoldable pub rget_var : ℕ → R Bytes
rget_var most = do n ← rget_u32; if ltb most n then fail else rget n

-- The end of a decoder that must consume its whole input.
unfoldable pub whole {ℓ} : {A : Type ℓ} → R A → Bytes → Option A
whole m buf = elim (m (rstart buf)) [
  | none ↦ none
  | some (a, c) ↦ if c.failed || not (c.pos == length buf) then none else some a
]

-- A failed cursor stays failed.
writes_failed : (bs : List Bytes) (c : WCur) → c.failed ≡ true → (writes bs c).failed ≡ true
unfolding writes wput
writes_failed [] c h = h
writes_failed (b ∷ bs) c h = writes_failed bs (wput b c) (ground arith)

abbrev wide : Bytes → ℕ → WCur
wide out room = record { out = out; cap = room; failed = false }

-- What does not fit fails the run.
written-wide :
    (bs : List Bytes) (out : Bytes) (room : ℕ)
    → length out ≤ room
    → written (writes bs (wide out room))
      ≡ (if leb (length out + length (flatten bs)) room then some (out ++ flatten bs) else none)
unfolding writes wput written flatten
written-wide [] out room h = rw (append-nil out, le→leb (length out + 0) room (omega arith))
written-wide (b ∷ bs) out room h = elim (Bool-cases (ltb room (length out + length b))) [
  | inl over ↦
      rw (over, writes, wput)
        (ground (
          arith,
          writes_failed bs (record (wide out room) { failed = true }) refl,
          length-append b (flatten bs),
        ))
  | inr fits ↦
      rw (fits, writes, wput)
        (ground (
          arith,
          written-wide bs (out ++ b) room,
          length-append out b,
          length-append b (flatten bs),
          append_assoc out b (flatten bs),
        ))
]

-- A run of writes yields the concatenation, exactly when it fits in the buffer.
pub written-writes :
    (bs : List Bytes) (room : ℕ)
    → written (writes bs (wstart room))
      ≡ (if leb (length (flatten bs)) room then some (flatten bs) else none)
written-writes bs room = written-wide bs [] room (omega arith) ∙ ground arith
