-- ===== src/Codec/Format/Whole.antt =====
-- For src/codec.c: fields behind a length, and decoders that must consume their whole buffer.
use mathlib.Core.List.{flatten}
use agentchain.Base.{
  List, ◌↔◌, le→leb, ℕ, ◌+◌, ◌≤◌, ◌<◌, ◌^◌, ◌≡◌, refl, sym, ap, ◌∙◌, false, Option, none, some, [],
  ◌∷◌, ◌++◌, arith, length, length-append, ltb, le→ltb, if◌then◌else◌,
}
use agentchain.Bytes.Compare.{Bytes}
use agentchain.Bytes.Endian.{IsBytes, be32, length-be32}
use agentchain.Codec.Cursor.{
  wstart, writes, written, written-writes, RCur, R, ◌>>=◌, rget, rget_u32, rget_var, whole, rstart,
  fail,
}
use agentchain.Codec.Format.{Format, Took, at, >>=-eq-some, rget-at, rget-Took, rget_parts}
use agentchain.Codec.Format.Combine.{u32_format}

module _ (most : ℕ) (small : most < 2 ^ 32) where
  abbrev guarded : ℕ → R Bytes
  guarded n = if ltb most n then fail else rget n

  pub var_at :
      (b r : Bytes) (p : ℕ)
      → (length b ≤ most) × IsBytes b
      → rget_var most (at (be32 (length b) ++ (b ++ r)) p) ≡ some (b, at r (p + (4 + length b)))
  unfolding rget_var u32_format rget_u32
  var_at b r p v =
      rw
        (
          u32_format.get-put (length b) (b ++ r) p (omega (arith, v.0)),
          ◌>>=◌,
          le→ltb most (length b) v.0,
        )
        (let e : p + 4 + length b ≡ p + (4 + length b) = omega arith in
          rget-at b r (p + 4) ∙ ap (λ q. some (b, at r q)) e)

  guarded-some :
      (n : ℕ) (c : RCur) (b : Bytes) (c' : RCur)
      → guarded n c ≡ some (b, c')
      → rget n c ≡ some (b, c') × (n ≤ most)
  guarded-some n c b c' e = ground arith

  pub var_sticky :
      (b : Bytes) (c c' : RCur)
      → rget_var most c ≡ some (b, c')
      → c'.failed ≡ false
      → c.failed ≡ false
  unfolding rget_var u32_format rget_u32
  var_sticky b c c' e f =
      let (n, d, got, rest) = >>=-eq-some rget_u32 guarded c e in
      u32_format.sticky n c d got (rget_parts n b d c' (guarded-some n d b c' rest).0 f).0

  pub var-Took :
      (b : Bytes) (c c' : RCur)
      → rget_var most c ≡ some (b, c')
      → c'.failed ≡ false
      → IsBytes c.rest
      → Took (be32 (length b) ++ (b ++ c'.rest)) (4 + length b) c c'
        × ((length b ≤ most) × IsBytes b)
  unfolding rget_var u32_format rget_u32
  var-Took b c c' e f h =
      let (n, d, got, rest) = >>=-eq-some rget_u32 guarded c e in
      let (took, fits) = guarded-some n d b c' rest in
      let f' : d.failed ≡ false = (rget_parts n b d c' took f).0 in
      let (t, _) = u32_format.put-get n c d got f' h in
      let (u, vb) = rget-Took n b d c' took f t.remains in
      (
        record {
          consumed = rw (vb.0) (t.consumed ∙ ap (λ q. be32 n ++ q) u.consumed);
          moved = omega (arith, t.moved, u.moved);
          remains = u.remains;
        },
        (omega (arith, vb.0), vb.1),
      )

  unfoldable pub var_format : Format Bytes
  var_format = record {
    put = λ b r. be32 (length b) ++ (b ++ r);
    size = λ b. 4 + length b;
    get = rget_var most;
    Valid = λ b. (length b ≤ most) × IsBytes b;
    length-put = λ b r. omega (
      arith,
      length-append (be32 (length b)) (b ++ r),
      length-append b r,
      length-be32 (length b),
    );
    get-put = var_at;
    sticky = var_sticky;
    put-get = var-Took;
  }

nil_of_length : (b : Bytes) → length b ≡ 0 → b ≡ []
nil_of_length [] h = refl
nil_of_length (x ∷ b) h = absurd (omega arith)

-- What a whole-buffer decoder accepts, taken apart.
whole-some :
    {A : Type 0} (m : R A) (buf : Bytes) (a : A)
    → whole m buf ≡ some a
    → (c : RCur) × (m (rstart buf) ≡ some (a, c)) × (c.failed ≡ false) × (c.pos ≡ length buf)
unfolding whole
whole-some {A} m buf a h = go (m (rstart buf)) refl
  where
    go :
        (o : Option (A × RCur))
        → m (rstart buf) ≡ o
        → (c : RCur) × (m (rstart buf) ≡ some (a, c)) × (c.failed ≡ false) × (c.pos ≡ length buf)
    go none e = ground arith
    go (some (b, c)) e = (c, ground arith, ground arith, ground arith)

module _ {A : Type 0} (F : Format A) where
  -- Decoding the encoding of a valid value gives the value back.
  pub whole-put : (a : A) → F.Valid a → whole F.get (F.put a []) ≡ some a
  unfolding whole
  whole-put a v = rw (F.get-put a [] 0 v, whole) (ground (arith, F.length-put a []))

  -- A buffer that decodes is the encoding of what it decodes to: no value has two encodings.
  pub put-whole :
      (buf : Bytes) (a : A)
      → IsBytes buf
      → whole F.get buf ≡ some a
      → (F.put a [] ≡ buf) × F.Valid a
  put-whole buf a h e =
      let (c, got, ok, end) = whole-some F.get buf a e in
      let (t, v) = F.put-get a (rstart buf) c got ok h in
      let empty : c.rest ≡ [] =
        nil_of_length c.rest
          (omega (arith, t.moved, end, F.length-put a c.rest, ap length t.consumed)) in
      (sym (t.consumed ∙ ap (F.put a) empty), v)

-- For an encoder that writes the same fields into a buffer of `room` bytes, decoding and encoding
-- are inverse to one another.
module _ {A : Type 0} (F : Format A) (fields : A → List Bytes)
    (flat : (a : A) → flatten (fields a) ≡ F.put a []) (room : ℕ) where
  pub codec_iff :
      (buf : Bytes) (a : A)
      → IsBytes buf
      → length buf ≤ room
      → (whole F.get buf ≡ some a)
        ↔ ((written (writes (fields a) (wstart room)) ≡ some buf) × F.Valid a)
  codec_iff buf a h fits = (
    (λ e.
        let (same, v) = put-whole F buf a h e in
        (rw (written-writes (fields a) room, flat a, same, le→leb (length buf) room fits) refl, v)),
    (λ q.
        let same : F.put a [] ≡ buf = ground (arith, written-writes (fields a) room, flat a) in
        rw (← same) (whole-put F a q.1)),
  )
