-- ===== src/Codec/Vote.antt =====
-- `ac_vote_message` of src/codec.c: the bytes that a commit vote signs.
use agentchain.Base.{ℕ, [], ◌∷◌, ◌++◌}
use agentchain.Bytes.Compare.{Bytes}
use agentchain.Bytes.Endian.{be64}

-- "AGCH:VOTE:v1"
abbrev pub vote_domain : Bytes
vote_domain = b'A' ∷ b'G' ∷ b'C' ∷ b'H' ∷ b':' ∷ b'V' ∷ b'O' ∷ b'T' ∷ b'E' ∷ b':' ∷ b'v' ∷ b'1' ∷ []

unfoldable pub vote_message : ℕ → Bytes → Bytes
vote_message height block_hash = vote_domain ++ (be64 height ++ block_hash)
