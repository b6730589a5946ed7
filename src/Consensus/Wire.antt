-- ===== src/Consensus/Wire.antt =====
-- `vote_encode` and `vote_decode` of src/consensus.c against one another.
use agentchain.Base.{
  ℕ, zero, suc, ◌+◌, ◌^◌, ◌<◌, ◌≡◌, refl, ap, ◌∙◌, some, [], ◌∷◌, ◌++◌, length, take, drop,
  take_left, take_all, length-append, arith,
}
use mathlib.Core.Path.{subst}
use agentchain.Bytes.Compare.{Bytes}
use agentchain.Bytes.Endian.{be64, rd64, length-be64}
use agentchain.Consensus.{Vote, vote_wire_len, vote_encode, vote_decode}

-- The fields fit: a `uint64_t` and arrays of the sizes of the source.
pub record IsVote (v : Vote) : Type 0 where
  pub height : v.height < 2 ^ 64
  pub block_hash : length v.block_hash ≡ 32
  pub signer : length v.signer ≡ 32
  pub sig : length v.sig ≡ 64
  pub proof : length v.proof ≡ 64

take_field : (n : ℕ) (xs ys : Bytes) → length xs ≡ n → take n (xs ++ ys) ≡ xs
take_field n xs ys e = subst (λ m. take m (xs ++ ys) ≡ xs) e (take_left xs ys)

drop_field : (n m : ℕ) (xs ys : Bytes) → length xs ≡ n → drop (n + m) (xs ++ ys) ≡ drop m ys
drop_field zero m [] ys e = ap (λ k. drop k ys) (omega arith)
drop_field zero m (x ∷ xs) ys e = absurd (omega (arith, e))
drop_field (suc n) m [] ys e = absurd (omega (arith, e))
drop_field (suc n) m (x ∷ xs) ys e =
    let step : suc (n + m) ≡ suc n + m = omega arith in
    subst (λ k. drop k (x ∷ (xs ++ ys)) ≡ drop m ys) step (drop_field n m xs ys (omega (arith, e)))

rd64_field : (v : ℕ) (ys : Bytes) → v < 2 ^ 64 → rd64 (be64 v ++ ys) ≡ v
unfolding rd64 be64
rd64_field v ys h = omega arith

length-vote_encode : (v : Vote) → IsVote v → length (vote_encode v) ≡ vote_wire_len
unfolding vote_encode
length-vote_encode v ok =
    let b = v.block_hash in
    let s = v.signer in
    let g = v.sig in
    let p = v.proof in
    omega (
      arith,
      length-append (be64 v.height) (b ++ (s ++ (g ++ p))),
      length-append b (s ++ (g ++ p)),
      length-append s (g ++ p),
      length-append g p,
      length-be64 v.height,
      ok.block_hash,
      ok.signer,
      ok.sig,
      ok.proof,
    )

-- A vote whose height fits in 64 bits and whose fields have the sizes of the source is read back from what is
-- sent for it.
pub vote_decode-encode : (v : Vote) → IsVote v → vote_decode (vote_encode v) ≡ some v
unfolding vote_decode vote_encode
vote_decode-encode v ok =
    let h = be64 v.height in
    let b = v.block_hash in
    let s = v.signer in
    let g = v.sig in
    let p = v.proof in
    let past8 : (m : ℕ)
        → drop (8 + m) (h ++ (b ++ (s ++ (g ++ p)))) ≡ drop m (b ++ (s ++ (g ++ p))) =
      λ m. drop_field 8 m h (b ++ (s ++ (g ++ p))) (length-be64 v.height) in
    let past40 : (m : ℕ) → drop (32 + m) (b ++ (s ++ (g ++ p))) ≡ drop m (s ++ (g ++ p)) =
      λ m. drop_field 32 m b (s ++ (g ++ p)) ok.block_hash in
    let past72 : (m : ℕ) → drop (32 + m) (s ++ (g ++ p)) ≡ drop m (g ++ p) =
      λ m. drop_field 32 m s (g ++ p) ok.signer in
    let past136 : drop 64 (g ++ p) ≡ p = drop_field 64 0 g p ok.sig in
    let height = rd64_field v.height (b ++ (s ++ (g ++ p))) ok.height in
    let hash : take 32 (drop 8 (vote_encode v)) ≡ b =
      ap (take 32) (past8 0) ∙ take_field 32 b _ ok.block_hash in
    let signer : take 32 (drop 40 (vote_encode v)) ≡ s =
      ap (take 32) (past8 32 ∙ past40 0) ∙ take_field 32 s _ ok.signer in
    let sig : take 64 (drop 72 (vote_encode v)) ≡ g =
      ap (take 64) (past8 64 ∙ past40 32 ∙ past72 0) ∙ take_field 64 g _ ok.sig in
    let proof : take 64 (drop 136 (vote_encode v)) ≡ p =
      ap (take 64) (past8 128 ∙ past40 96 ∙ past72 64 ∙ past136)
      ∙ take_all 64 p (omega (arith, ok.proof)) in
    rw (vote_decode, length-vote_encode v ok, height, hash, signer, sig, proof) refl
