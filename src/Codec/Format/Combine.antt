-- ===== src/Codec/Format/Combine.antt =====
-- For src/codec.c: the words, fields and sequences of its formats, and whole-buffer decoding.
use mathlib.Core.Path.{subst₂, subst₃}
use agentchain.Base.{ℕ, ◌+◌, ◌^◌, ◌≡◌, refl, sym, ap, ◌∙◌, false, some, arith, length}
use agentchain.Bytes.Compare.{Bytes}
use agentchain.Bytes.Endian.{
  IsBytes, be8, be32, be64, rd8, rd32, rd64, rd8-be8, rd32-be32, rd64-be64, be8-rd8, be32-rd32,
  be64-rd64, rd8-lt, rd32-lt, rd64-lt, length-be8, length-be32, length-be64,
}
use agentchain.Codec.Cursor.{RCur, pure, ◌>>=◌, rget_u8, rget_u32, rget_u64, ◌⊗◌, rmap}
use agentchain.Codec.Format.{Format, Took, at, word_format, word_get, >>=-eq-some}

unfoldable pub u8_format : Format ℕ
unfolding word_format word_get
u8_format =
    word_format 1 256 be8 rd8 length-be8 (λ v _. rd8-be8 v) (λ b h _. be8-rd8 b h)
      (λ b _ h. rd8-lt b h)

unfoldable pub u32_format : Format ℕ
unfolding word_format word_get
u32_format = word_format 4 (2 ^ 32) be32 rd32 length-be32 rd32-be32 be32-rd32 rd32-lt

unfoldable pub u64_format : Format ℕ
unfolding word_format word_get
u64_format = word_format 8 (2 ^ 64) be64 rd64 length-be64 rd64-be64 be64-rd64 rd64-lt

-- They read as the cursor's functions do.
pub u8-get : u8_format.get ≡ rget_u8
unfolding u8_format rget_u8
u8-get = refl

pub u32-get : u32_format.get ≡ rget_u32
unfolding u32_format rget_u32
u32-get = refl

pub u64-get : u64_format.get ≡ rget_u64
unfolding u64_format rget_u64
u64-get = refl

-- One format after another.
module _ {A B : Type 0} (F : Format A) (G : Format B) where
  abbrev pub put_pair : A × B → Bytes → Bytes
  put_pair (a, b) r = F.put a (G.put b r)

  abbrev pub size_pair : A × B → ℕ
  size_pair (a, b) = F.size a + G.size b

  abbrev pub ValidPair : A × B → Type 0
  ValidPair (a, b) = F.Valid a × G.Valid b

  pub pair-length : (x : A × B) (r : Bytes) → length (put_pair x r) ≡ size_pair x + length r
  pair-length (a, b) r = omega (arith, F.length-put a (G.put b r), G.length-put b r)

  pub pair_at :
      (x : A × B) (r : Bytes) (p : ℕ)
      → ValidPair x
      → (F.get ⊗ G.get) (at (put_pair x r) p) ≡ some (x, at r (p + size_pair x))
  unfolding ◌⊗◌
  pair_at (a, b) r p v =
      rw (F.get-put a (G.put b r) p v.0, ◌>>=◌, G.get-put b r (p + F.size a) v.1)
        (let e : p + F.size a + G.size b ≡ p + (F.size a + G.size b) = omega arith in
          ap (λ q. some ((a, b), at r q)) e)

  pair_steps :
      (a : A) (b : B) (c d d' : RCur)
      → F.get c ≡ some (a, d)
      → G.get d ≡ some (b, d')
      → d'.failed ≡ false
      → IsBytes c.rest
      → Took (put_pair (a, b) d'.rest) (size_pair (a, b)) c d' × ValidPair (a, b)
  pair_steps a b c d d' e e' f h =
      let f' : d.failed ≡ false = G.sticky b d d' e' f in
      let (t, va) = F.put-get a c d e f' h in
      let (u, vb) = G.put-get b d d' e' f t.remains in
      (
        record {
          consumed = t.consumed ∙ ap (F.put a) u.consumed;
          moved = omega (arith, t.moved, u.moved);
          remains = u.remains;
        },
        (va, vb),
      )

  pub pair_sticky :
      (x : A × B) (c c' : RCur)
      → (F.get ⊗ G.get) c ≡ some (x, c')
      → c'.failed ≡ false
      → c.failed ≡ false
  unfolding ◌⊗◌
  pair_sticky (a, b) c c' e f =
      let (a', d, got, e1) = >>=-eq-some F.get (λ a. G.get >>= λ b. pure (a, b)) c e in
      let (b', d', got', e2) = >>=-eq-some G.get (λ b. pure (a', b)) d e1 in
      let same : d' ≡ c' = ground arith in F.sticky a' c d got (G.sticky b' d d' got' (rw same f))

  pub pair-Took :
      (x : A × B) (c c' : RCur)
      → (F.get ⊗ G.get) c ≡ some (x, c')
      → c'.failed ≡ false
      → IsBytes c.rest
      → Took (put_pair x c'.rest) (size_pair x) c c' × ValidPair x
  unfolding ◌⊗◌
  pair-Took (a, b) c c' e f h =
      let (a', d, got, e1) = >>=-eq-some F.get (λ a. G.get >>= λ b. pure (a, b)) c e in
      let (b', d', got', e2) = >>=-eq-some G.get (λ b. pure (a', b)) d e1 in
      let same : d' ≡ c' = ground arith in
      subst₃ (λ u w s. Took (put_pair (u, w) s.rest) (size_pair (u, w)) c s × ValidPair (u, w))
        (ground arith) (ground arith) same (pair_steps a' b' c d d' got got' (rw same f) h)

  unfoldable pub pair_format : Format (A × B)
  pair_format = record {
    put = put_pair;
    size = size_pair;
    get = F.get ⊗ G.get;
    Valid = ValidPair;
    length-put = pair-length;
    get-put = pair_at;
    sticky = pair_sticky;
    put-get = pair-Took;
  }

-- The same bytes read into another type, such as a struct.
module _ {A B : Type 0} (F : Format A) (to : A → B) (of : B → A) (to-of : (b : B) → to (of b) ≡ b)
    (of-to : (a : A) → of (to a) ≡ a) where
  pub via_at :
      (b : B) (r : Bytes) (p : ℕ)
      → F.Valid (of b)
      → rmap to F.get (at (F.put (of b) r) p) ≡ some (b, at r (p + F.size (of b)))
  unfolding rmap
  via_at b r p v = rw (F.get-put (of b) r p v, ◌>>=◌, to-of b)

  pub via_sticky :
      (b : B) (c c' : RCur) → rmap to F.get c ≡ some (b, c') → c'.failed ≡ false → c.failed ≡ false
  unfolding rmap
  via_sticky b c c' e f =
      let (a, d, got, out) = >>=-eq-some F.get (λ a. pure (to a)) c e in
      let same : d ≡ c' = ground arith in F.sticky a c d got (rw same f)

  pub via-Took :
      (b : B) (c c' : RCur)
      → rmap to F.get c ≡ some (b, c')
      → c'.failed ≡ false
      → IsBytes c.rest
      → Took (F.put (of b) c'.rest) (F.size (of b)) c c' × F.Valid (of b)
  unfolding rmap
  via-Took b c c' e f h =
      let (a, d, got, out) = >>=-eq-some F.get (λ a. pure (to a)) c e in
      let same : d ≡ c' = ground arith in
      let back : a ≡ of b = sym (of-to a) ∙ ap of (ground arith) in
      subst₂ (λ x s. Took (F.put x s.rest) (F.size x) c s × F.Valid x) back same
        (F.put-get a c d got (rw same f) h)

  unfoldable pub via_format : Format B
  via_format = record {
    put = λ b. F.put (of b);
    size = λ b. F.size (of b);
    get = rmap to F.get;
    Valid = λ b. F.Valid (of b);
    length-put = λ b. F.length-put (of b);
    get-put = via_at;
    sticky = via_sticky;
    put-get = via-Took;
  }
