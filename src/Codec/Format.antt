-- ===== src/Codec/Format.antt =====
-- For src/codec.c: a wire format as a writer and a reader that are inverse to one another, and its combinators.
-- The proofs about each decoder of codec.c are instances.
pub mod Combine
pub mod Whole
use agentchain.Base.{
  ℕ, ◌+◌, ◌≤◌, ◌<◌, ◌≡◌, refl, sym, false, Option, none, some, ◌++◌, arith, length, take, drop,
  length-append, length-take, take-append-drop, take_left, drop_left, All-take, All-drop,
}
use mathlib.Core.Path.{subst₂}
use agentchain.Bytes.Compare.{Bytes}
use agentchain.Bytes.Endian.{IsByte, IsBytes}
use agentchain.Codec.Cursor.{RCur, R, pure, ◌>>=◌, rget}

abbrev pub at : Bytes → ℕ → RCur
at bytes p = record { rest = bytes; pos = p; failed = false }

-- What a read that left a sound cursor has consumed.
pub record Took (before : Bytes) (size : ℕ) (c c' : RCur) : Type 0 where
  pub consumed : c.rest ≡ before
  pub moved : c'.pos ≡ c.pos + size
  pub remains : IsBytes c'.rest

pub record Format (A : Type 0) : Type 1 where
  pub put : A → Bytes → Bytes
  pub size : A → ℕ
  pub get : R A
  pub Valid : A → Type 0
  pub length-put : (a : A) (r : Bytes) → length (put a r) ≡ size a + length r
  pub get-put :
      (a : A) (r : Bytes) (p : ℕ) → Valid a → get (at (put a r) p) ≡ some (a, at r (p + size a))
  pub sticky : (a : A) (c c' : RCur) → get c ≡ some (a, c') → c'.failed ≡ false → c.failed ≡ false
  pub put-get :
      (a : A) (c c' : RCur)
      → get c ≡ some (a, c')
      → c'.failed ≡ false
      → IsBytes c.rest
      → Took (put a c'.rest) (size a) c c' × Valid a

-- A fixed number of raw bytes.
pub rget-at :
    (b r : Bytes) (p : ℕ) → rget (length b) (at (b ++ r) p) ≡ some (b, at r (p + length b))
unfolding rget
rget-at b r p = ground (arith, length-append b r, take_left b r, drop_left b r)

pub rget_parts :
    (n : ℕ) (b : Bytes) (c c' : RCur)
    → rget n c ≡ some (b, c')
    → c'.failed ≡ false
    → (c.failed ≡ false)
      × (n ≤ length c.rest)
      × (b ≡ take n c.rest)
      × (c'.rest ≡ drop n c.rest)
      × (c'.pos ≡ c.pos + n)
unfolding rget
rget_parts n b c c' e f = ground arith

pub rget-Took :
    (n : ℕ) (b : Bytes) (c c' : RCur)
    → rget n c ≡ some (b, c')
    → c'.failed ≡ false
    → IsBytes c.rest
    → Took (b ++ c'.rest) (length b) c c' × ((length b ≡ n) × IsBytes b)
rget-Took n b c c' e f h =
    let (_, fits, front, back, moved) = rget_parts n b c c' e f in
    let count : length b ≡ n = rw front (omega (arith, length-take n c.rest)) in
    (
      record {
        consumed = rw (front, back) (sym (take-append-drop n c.rest));
        moved = rw count moved;
        remains = rw back (All-drop IsByte n c.rest h);
      },
      (count, rw front (All-take IsByte n c.rest h)),
    )

-- `uint8_t name[n]` and its like.
unfoldable pub bytes_format : ℕ → Format Bytes
bytes_format n = record {
  put = λ b r. b ++ r;
  size = length;
  get = rget n;
  Valid = λ b. (length b ≡ n) × IsBytes b;
  length-put = length-append;
  get-put = λ b r p v. rw (← v.0) (rget-at b r p);
  sticky = λ b c c' e f. (rget_parts n b c c' e f).0;
  put-get = λ b c c' e f h. rget-Took n b c c' e f h;
}

-- The result of a bind, taken apart.
pub >>=-eq-some {ℓ κ} :
    {A : Type ℓ} {B : Type κ} (m : R A) (f : A → R B) (c : RCur) {q : B × RCur}
    → (m >>= f) c ≡ some q
    → (a : A) × (d : RCur) × (m c ≡ some (a, d)) × (f a d ≡ some q)
>>=-eq-some {A} {B} m f c {q} h = go (m c) refl
  where
    go :
        (o : Option (A × RCur))
        → m c ≡ o
        → (a : A) × (d : RCur) × (m c ≡ some (a, d)) × (f a d ≡ some q)
    go none e = ground arith
    go (some (a, d)) e = (a, d, e, rw (e, ◌>>=◌) at h)

-- Words: an encoding of `n` bytes for the numbers below `bound`.
module _ (n bound : ℕ) (enc : ℕ → Bytes) (dec : Bytes → ℕ) (width : (v : ℕ) → length (enc v) ≡ n)
    (dec-enc : (v : ℕ) → v < bound → dec (enc v) ≡ v)
    (enc-dec : (b : Bytes) → length b ≡ n → IsBytes b → enc (dec b) ≡ b)
    (dec-lt : (b : Bytes) → length b ≡ n → IsBytes b → dec b < bound) where
  unfoldable pub word_get : R ℕ
  word_get = do b ← rget n; pure (dec b)

  pub word_at :
      (v : ℕ) (r : Bytes) (p : ℕ)
      → v < bound
      → word_get (at (enc v ++ r) p) ≡ some (v, at r (p + n))
  unfolding word_get
  word_at v r p h = rw (← width v, rget-at (enc v) r p, ◌>>=◌, dec-enc v h)

  pub word_step :
      (b : Bytes) (c d : RCur)
      → rget n c ≡ some (b, d)
      → d.failed ≡ false
      → IsBytes c.rest
      → Took (enc (dec b) ++ d.rest) n c d × (dec b < bound)
  word_step b c d e f h =
      let (t, v) = rget-Took n b c d e f h in (rw (enc-dec b v.0 v.1, ← v.0) t, dec-lt b v.0 v.1)

  pub word_sticky :
      (v : ℕ) (c c' : RCur) → word_get c ≡ some (v, c') → c'.failed ≡ false → c.failed ≡ false
  unfolding word_get
  word_sticky v c c' e f =
      let (b, d, got, out) = >>=-eq-some (rget n) (λ b. pure (dec b)) c e in
      let same : d ≡ c' = ground arith in (rget_parts n b c d got (rw same f)).0

  pub word-Took :
      (v : ℕ) (c c' : RCur)
      → word_get c ≡ some (v, c')
      → c'.failed ≡ false
      → IsBytes c.rest
      → Took (enc v ++ c'.rest) n c c' × (v < bound)
  unfolding word_get
  word-Took v c c' e f h =
      let (b, d, got, out) = >>=-eq-some (rget n) (λ b. pure (dec b)) c e in
      let same : d ≡ c' = ground arith in
      subst₂ (λ w s. Took (enc w ++ s.rest) n c s × (w < bound)) (ground arith) same
        (word_step b c d got (rw same f) h)

  unfoldable pub word_format : Format ℕ
  word_format = record {
    put = λ v r. enc v ++ r;
    size = λ _. n;
    get = word_get;
    Valid = λ v. v < bound;
    length-put = λ v r. omega (arith, length-append (enc v) r, width v);
    get-put = word_at;
    sticky = word_sticky;
    put-get = word-Took;
  }
