-- ===== src/Consensus/Votes.antt =====
-- Eligibility, priorities and our own vote in src/consensus.c. `sign` signs under the node's keypair;
-- `below` and `leads` are the floating-point draws. A proof of our own that does not verify, which
-- leaves the output unset in the source, counts as not drawn.
use Prim.Native.Nat.{Ordering}
use agentchain.Base.{
  ℕ, ◌+◌, ◌-◌, ◌/◌, ◌%◌, ◌^◌, Bool, true, false, not, ◌||◌, ◌&&◌, Option, none, some, List, [], ◌∷◌,
  ◌++◌, length, set, drop, get_elem?, ltb, ◌==◌, replicate, if◌then◌else◌, add64, mul64,
}
use agentchain.Bytes.Compare.{Bytes, memcmp, bytes_eq}
use agentchain.Bytes.Endian.{be64, rd64}
use agentchain.Codec.Block.{CommitSigner, committee_max}
use agentchain.Codec.Vote.{vote_message}
use agentchain.Crypto.{hash_multi, vrf_prove, vrf_verify}
use agentchain.Isqrt.{isqrt_u64}
use agentchain.State.{state_get}
use agentchain.Chain.Data.{Chain}
use agentchain.Chain.Live.{min_stake_ucrd, active_count, total_sqrt_stake}
use agentchain.Chain.Seed.{epoch_of, epoch_seed, leader_alpha, committee_alpha, committee_eligible}
use agentchain.Consensus.{Pending, SlotVote, Consensus, send, vote_encode}

-- "AGCH:PRIO"
abbrev pub prio_domain : Bytes
prio_domain = b'A' ∷ b'G' ∷ b'C' ∷ b'H' ∷ b':' ∷ b'P' ∷ b'R' ∷ b'I' ∷ b'O' ∷ []

unfoldable pub compute_priority : (Bytes → Bytes) → Bytes → ℕ → Bytes
compute_priority hash beta sqrt_stake =
    if sqrt_stake == 0
    then replicate 16 255
    else let h = hash_multi hash (prio_domain ∷ beta ∷ []) in
      let hi = rd64 h in
      let lo = rd64 (drop 8 h) in
      let r_hi = hi % sqrt_stake in
      let q_lo = add64 (lo / sqrt_stake) (mul64 ((2 ^ 64 - 1) / sqrt_stake) r_hi) in
      be64 (hi / sqrt_stake) ++ be64 q_lo

-- The index of the entry for the slot, or else of the oldest, from index `i`.
unfoldable pub slot_from : List SlotVote → ℕ → ℕ → Option (ℕ × ℕ) → Bool × ℕ
slot_from [] slot i oldest = elim oldest [ none ↦ (false, 0) | some (t, k) ↦ (false, k) ]
slot_from (v ∷ vs) slot i oldest = elim (v.slot == slot) [
  | true ↦ (true, i)
  | false ↦ elim oldest [
    | none ↦ slot_from vs slot (i + 1) (some (v.slot, i))
    | some (t, k) ↦ elim (ltb v.slot t) [
      | true ↦ slot_from vs slot (i + 1) (some (v.slot, i))
      | false ↦ slot_from vs slot (i + 1) (some (t, k))
    ]
  ]
]

abbrev pub blank_vote : ℕ → SlotVote
blank_vote slot = record {
  slot = slot;
  best_priority = replicate 16 255;
  voted_block = replicate 32 0;
  voted = false;
}

-- The table with an entry for the slot, and its index.
unfoldable pub slot_vote_for : List SlotVote → ℕ → List SlotVote × ℕ
slot_vote_for votes slot =
    let (there, i) = slot_from votes slot 0 none in
    if there then (votes, i) else (set votes i (blank_vote slot), i)

unfoldable pub priority_cmp : Bytes → Bytes → Ordering
priority_cmp a b = memcmp a b

abbrev pub is_lower : Bytes → Bytes → Bool
is_lower a b = elim (priority_cmp a b) [ Ordering.lt ↦ true | _ ↦ false ]

-- The entry at an index, for the slot.
abbrev pub vote_at : List SlotVote → ℕ → ℕ → SlotVote
vote_at votes i slot = elim (get_elem? votes i) [ none ↦ blank_vote slot | some v ↦ v ]

-- Recording the priority of a proposal of a slot.
unfoldable pub note_priority : Consensus → ℕ → Bytes → Consensus
note_priority cs slot priority =
    let (votes, i) = slot_vote_for cs.slot_votes slot in
    let v = vote_at votes i slot in
    record cs {
      slot_votes =
          if is_lower priority v.best_priority
          then set votes i (record v { best_priority = priority })
          else votes;
    }

-- Whether an address is among the signers.
unfoldable pub has_signer : List CommitSigner → Bytes → Bool
has_signer [] a = false
has_signer (s ∷ ss) a = let rest = has_signer ss a in if bytes_eq s.signer a then true else rest

-- Appended unless the signer is there or the array is full.
unfoldable pub add_signer : List CommitSigner → CommitSigner → List CommitSigner
add_signer ss s =
    if not (has_signer ss s.signer) && ltb (length ss) committee_max then ss ++ (s ∷ []) else ss

-- The local part of a vote: the signers of the entry, and the entry of the slot.
unfoldable pub enter_vote : Consensus → ℕ → Pending → CommitSigner → Consensus
enter_vote cs i p mine =
    let (votes, k) = slot_vote_for cs.slot_votes p.slot in
    record cs {
      pending = set cs.pending i (record p { signers = add_signer p.signers mine });
      slot_votes = set votes k (record (vote_at votes k p.slot) {
        voted = true;
        voted_block = p.block_hash;
        best_priority = p.priority;
      });
    }

module _ (hash : Bytes → Bytes) (verify : Bytes → Bytes → Bytes → Bool) (sign : Bytes → Bytes) where
  -- The chain with its cache, the answer, and the proof.
  unfoldable pub am_i_leader : (ℕ → ℕ → Bool) → Consensus → ℕ → Chain × Bool × Bytes
  am_i_leader leads cs slot =
      let (me, has) = state_get cs.chain.state cs.my_addr in
      if not has || ltb me.stake min_stake_ucrd
      then (cs.chain, false, [])
      else let (c, seed) = epoch_seed hash cs.chain (epoch_of slot) in
        let alpha = leader_alpha seed slot in
        let proof = (vrf_prove hash sign alpha).0 in
        let nactive = active_count c in
        if nactive == 0
        then (c, false, proof)
        else elim (vrf_verify hash verify proof alpha cs.my_addr) [
          | none ↦ (c, false, proof)
          | some beta ↦ (c, leads (rd64 beta) nactive, proof)
        ]

  unfoldable pub am_i_committee : (ℕ → ℕ → ℕ → Bool) → Consensus → ℕ → Chain × Bool × Bytes
  am_i_committee below cs slot =
      let (me, has) = state_get cs.chain.state cs.my_addr in
      if not has || ltb me.stake min_stake_ucrd
      then (cs.chain, false, [])
      else let (c, seed) = epoch_seed hash cs.chain (epoch_of slot) in
        let total_sqrt = total_sqrt_stake c in
        let alpha = committee_alpha seed slot in
        let proof = (vrf_prove hash sign alpha).0 in
        elim (vrf_verify hash verify proof alpha cs.my_addr) [
          | none ↦ (c, false, proof)
          | some beta ↦
              (c, committee_eligible below (rd64 beta) (isqrt_u64 me.stake) total_sqrt, proof)
        ]

  -- The vote of a committee member for the pending block at index `i`.
  unfoldable pub cast_vote : Consensus → ℕ → Pending → Bytes → Consensus
  cast_vote cs i p cproof =
      let sig = sign (vote_message p.height p.block_hash) in
      let mine : CommitSigner = record { signer = cs.my_addr; sig = sig; vrf_proof = cproof } in
      send (enter_vote cs i p mine) 8 (
        vote_encode (record {
          height = p.height;
          block_hash = p.block_hash;
          signer = cs.my_addr;
          sig = sig;
          proof = cproof;
        }))

  unfoldable pub our_vote_now : (ℕ → ℕ → ℕ → Bool) → Consensus → ℕ → Pending → Consensus
  our_vote_now below cs i p =
      let (c, member, cproof) = am_i_committee below cs p.slot in
      let cs' : Consensus = record cs { chain = c } in
      if not member then cs' else cast_vote cs' i p cproof
