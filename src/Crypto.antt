-- ===== src/Crypto.antt =====
-- Hashing in pieces and the VRF of src/crypto.c. `hash`, `sign` and `verify` are libsodium's, and
-- its streaming hash is the hash of the pieces joined. Buffers grow, and no allocation fails.
use mathlib.Core.List.{flatten}
use agentchain.Base.{Bool, Option, none, some, List, [], ◌∷◌, ◌++◌, ◌≡◌, refl, true, if◌then◌else◌}
use agentchain.Bytes.Compare.{Bytes}

-- "AGCH:VRF:v1"
abbrev pub vrf_domain : Bytes
vrf_domain = b'A' ∷ b'G' ∷ b'C' ∷ b'H' ∷ b':' ∷ b'V' ∷ b'R' ∷ b'F' ∷ b':' ∷ b'v' ∷ b'1' ∷ []

-- "AGCH:VRF-OUT:v1"
abbrev pub vrf_out_domain : Bytes
vrf_out_domain =
    b'A' ∷ b'G' ∷ b'C' ∷ b'H' ∷ b':' ∷ b'V' ∷ b'R' ∷ b'F' ∷ b'-' ∷ b'O' ∷ b'U' ∷ b'T' ∷ b':' ∷ b'v'
    ∷ b'1' ∷ []

module _ (hash : Bytes → Bytes) where
  unfoldable pub hash_multi : List Bytes → Bytes
  hash_multi chunks = hash (flatten chunks)

  unfoldable pub vrf_compute_beta : Bytes → Bytes
  vrf_compute_beta proof = hash_multi (vrf_out_domain ∷ proof ∷ [])

  -- The proof and the output, under a keypair that signs by `sign`.
  unfoldable pub vrf_prove : (Bytes → Bytes) → Bytes → Bytes × Bytes
  vrf_prove sign alpha = let proof = sign (vrf_domain ++ alpha) in (proof, vrf_compute_beta proof)

  -- The output, when the proof is good.
  unfoldable pub vrf_verify : (Bytes → Bytes → Bytes → Bool) → Bytes → Bytes → Bytes → Option Bytes
  vrf_verify verify proof alpha pk =
      if verify proof (vrf_domain ++ alpha) pk then some (vrf_compute_beta proof) else none

  -- When every signature under a keypair verifies under its public key, a proof that `ac_vrf_prove` makes
  -- is accepted, and the verifier computes the output that the prover computed.
  pub vrf_verify-prove :
      (sign : Bytes → Bytes) (verify : Bytes → Bytes → Bytes → Bool) (pk : Bytes)
      → ((m : Bytes) → verify (sign m) m pk ≡ true)
      → (alpha : Bytes)
      → vrf_verify verify (vrf_prove sign alpha).0 alpha pk ≡ some (vrf_prove sign alpha).1
  unfolding vrf_verify vrf_prove
  vrf_verify-prove sign verify pk good alpha = rw (good (vrf_domain ++ alpha)) refl
