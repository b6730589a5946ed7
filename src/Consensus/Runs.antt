-- ===== src/Consensus/Runs.antt =====
-- Runs of the engine of src/consensus.c: its handlers and phases in any order, with the pool and the chain
-- that it shares changed in between, by mempool_add and by ac_chain_accept_block.
use Prim.Native.Nat.{Ordering}
use agentchain.Base.{
  ℕ, ◌+◌, ◌^◌, ◌≤◌, ◌<◌, ◌≡◌, refl, sym, ◌∙◌, Bool, true, false, ◌⊎◌, Option, some, inl, inr,
  Bool-cases, ltb, arith, add64,
}
use mathlib.Core.Path.{subst}
use agentchain.Bytes.Compare.{Bytes, memcmp_trans}
use agentchain.Mempool.{Mempool}
use agentchain.Codec.Block.{Block}
use agentchain.Chain.Data.{Chain, Writes}
use agentchain.Chain.Accept.{Accept, accept_block}
use agentchain.Chain.Accept.Height.{HigherOr, accept-HigherOr}
use agentchain.Consensus.{Consensus, Env}
use agentchain.Consensus.Votes.{priority_cmp}
use agentchain.Consensus.Handlers.{handle_block, handle_vote}
use agentchain.Consensus.Slots.{slot_routine, vote_phase, seal_phase}
use agentchain.Consensus.Handled.{block-KeepsOr, vote-KeepsOr}
use agentchain.Consensus.Phases.{seal_phase-KeepsOr, routine-KeepsOr}
use agentchain.Consensus.Keeps.{Keeps, KeepsOr}
use agentchain.Consensus.Lock.{Moves, Locked, LockedOr, vote_phase-LockedOr}

pub data Step (hash : Bytes → Bytes) (verify : Bytes → Bytes → Bytes → Bool) (sign : Bytes → Bytes)
    (below : ℕ → ℕ → ℕ → Bool) (leads : ℕ → ℕ → Bool) (a : Consensus) : Consensus → Type 0 where
  on_block :
      (env : Env) (buf : Bytes) {b : Consensus}
      → handle_block hash verify below env a buf ≡ some b
      → Step hash verify sign below leads a b
  on_vote :
      (env : Env) (buf : Bytes) {b : Consensus}
      → handle_vote hash verify below env a buf ≡ some b
      → Step hash verify sign below leads a b
  lead :
      (env : Env) (slot : ℕ) {b : Consensus}
      → slot_routine hash verify sign below leads env a slot ≡ some b
      → Step hash verify sign below leads a b
  vote :
      (env : Env) (slot : ℕ) {b : Consensus}
      → vote_phase hash verify sign below env a slot ≡ some b
      → Step hash verify sign below leads a b
  close :
      (env : Env) (slot : ℕ) {b : Consensus}
      → seal_phase hash verify sign below env a slot ≡ some b
      → Step hash verify sign below leads a b
  synced :
      (block : Block) (now : ℕ) (w : Writes) {c : Chain} {r : Accept}
      → accept_block hash verify below a.chain block now w ≡ some (c, r)
      → Step hash verify sign below leads a (record a { chain = c })
  pooled : (mp : Mempool) → Step hash verify sign below leads a (record a { mempool = mp })

pub data Run (hash : Bytes → Bytes) (verify : Bytes → Bytes → Bytes → Bool) (sign : Bytes → Bytes)
    (below : ℕ → ℕ → ℕ → Bool) (leads : ℕ → ℕ → Bool) (a : Consensus) : Consensus → Type 0 where
  start : Run hash verify sign below leads a a
  later :
      {b c : Consensus}
      → Run hash verify sign below leads a b
      → Step hash verify sign below leads b c
      → Run hash verify sign below leads a c

-- The vote of `b` against that of `a`: for a later height, the same, or for the same height and a lower
-- priority.
abbrev pub Advances : Consensus → Consensus → Type 0
Advances a b =
    (a.vote_height < b.vote_height)
    ⊎ (b.vote_height ≡ a.vote_height
        × ((b.vote_block ≡ a.vote_block × b.vote_priority ≡ a.vote_priority)
            ⊎ priority_cmp b.vote_priority a.vote_priority ≡ Ordering.lt))

cmp_of_lower : (o : Ordering) → (elim o [ Ordering.lt ↦ true | _ ↦ false ]) ≡ true → o ≡ Ordering.lt
cmp_of_lower Ordering.lt h = refl
cmp_of_lower Ordering.eq h = cc
cmp_of_lower Ordering.gt h = cc

of_keeps :
    (a : Consensus) (o : Option Consensus) (b : Consensus) → o ≡ some b → KeepsOr a o → Locked a b
of_keeps a o b e k = inl (subst (KeepsOr a) e k)

module _ (hash : Bytes → Bytes) (verify : Bytes → Bytes → Bytes → Bool) (sign : Bytes → Bytes)
    (below : ℕ → ℕ → ℕ → Bool) (leads : ℕ → ℕ → Bool) where
  Step-Locked : (a b : Consensus) → Step hash verify sign below leads a b → Locked a b
  Step-Locked a b (on_block env buf e) =
      of_keeps a _ b e (block-KeepsOr hash verify below env a buf)
  Step-Locked a b (on_vote env buf e) = of_keeps a _ b e (vote-KeepsOr hash verify below env a buf)
  Step-Locked a b (lead env slot e) =
      of_keeps a _ b e (routine-KeepsOr hash verify sign below leads env a slot)
  Step-Locked a b (vote env slot e) =
      subst (LockedOr a) e (vote_phase-LockedOr hash verify sign below env a slot)
  Step-Locked a b (close env slot e) =
      of_keeps a _ b e (seal_phase-KeepsOr hash verify sign below env a slot)
  Step-Locked a _ (synced block now w e) = inl (record {
    height = refl;
    block = refl;
    priority = refl;
    chain = subst (HigherOr a.chain) e (accept-HigherOr hash verify below a.chain block now w);
  })
  Step-Locked a _ (pooled mp) =
      inl (record { height = refl; block = refl; priority = refl; chain = omega arith })

Keeps-Advances : (a b c : Consensus) → Keeps b c → Advances a b → Advances a c
Keeps-Advances a b c k (inl up) = inl (omega (arith, up, k.height))
Keeps-Advances a b c k (inr (same, inl (block, priority))) =
    inr (k.height ∙ same, inl (k.block ∙ block, k.priority ∙ priority))
Keeps-Advances a b c k (inr (same, inr lower)) = inr (
  k.height ∙ same,
  inr (subst (λ p. priority_cmp p a.vote_priority ≡ Ordering.lt) (sym k.priority) lower),
)

le_cases : (m n : ℕ) → m ≤ n → (m < n) ⊎ (m ≡ n)
le_cases m n h = elim (Bool-cases (ltb m n)) [
  | inl less ↦ inl (ground (arith, less))
  | inr more ↦ inr (ground (arith, more, h))
]

Moves-Advances :
    (a b c : Consensus)
    → b.chain.height + 1 < 2 ^ 64
    → b.vote_height ≤ b.chain.height + 1
    → Moves b c
    → Advances a b
    → Advances a c
unfolding priority_cmp
Moves-Advances a b c small ok m before =
    let target : add64 b.chain.height 1 ≡ b.chain.height + 1 = ground arith in
    elim (le_cases b.vote_height (b.chain.height + 1) ok) [
      | inl up ↦ elim before [
        | inl rose ↦ inl (omega (arith, rose, up, target, m.height))
        | inr (same, rest) ↦ inl (omega (arith, same, up, target, m.height))
      ]
      | inr level ↦
          let lower =
            cmp_of_lower (priority_cmp c.vote_priority b.vote_priority)
              (m.lower (level ∙ sym target)) in
          elim before [
            | inl rose ↦ inl (omega (arith, rose, level, target, m.height))
            | inr (same, inl (block, priority)) ↦ inr (
              m.height ∙ target ∙ sym level ∙ same,
              inr (subst (λ p. priority_cmp c.vote_priority p ≡ Ordering.lt) priority lower),
            )
            | inr (same, inr below_a) ↦ inr (
              m.height ∙ target ∙ sym level ∙ same,
              inr (memcmp_trans c.vote_priority b.vote_priority a.vote_priority lower below_a),
            )
          ]
    ]

module _ (hash : Bytes → Bytes) (verify : Bytes → Bytes → Bytes → Bool) (sign : Bytes → Bytes)
    (below : ℕ → ℕ → ℕ → Bool) (leads : ℕ → ℕ → Bool) where
  -- In every run of the engine (blocks and votes received, the leader, vote and seal phases of any slots,
  -- blocks that synchronisation accepts, changes of the pool) that starts with a vote for at most the next
  -- height and ends below the height 2^64 - 1: the vote at the end is for at most the next height; it is for a
  -- later height than the vote at the start, or the same vote, or one at the same height whose
  -- priority is strictly lower; and the chain has not become shorter.
  pub run-Advances :
      (a b : Consensus)
      → Run hash verify sign below leads a b
      → a.vote_height ≤ a.chain.height + 1
      → b.chain.height + 1 < 2 ^ 64
      → b.vote_height ≤ b.chain.height + 1 × a.chain.height ≤ b.chain.height × Advances a b
  run-Advances a _ start ok small = (ok, omega arith, inr (refl, inl (refl, refl)))
  run-Advances a c (later {b} r st) ok small =
      elim (Step-Locked hash verify sign below leads b c st) [
        | inl k ↦
            let (bound, grown, before) = run-Advances a b r ok (omega (arith, k.chain, small)) in
            (
              omega (arith, bound, k.height, k.chain),
              omega (arith, grown, k.chain),
              Keeps-Advances a b c k before,
            )
        | inr m ↦
            let (bound, grown, before) = run-Advances a b r ok (omega (arith, m.chain, small)) in
            let fits : b.chain.height + 1 < 2 ^ 64 = omega (arith, m.chain, small) in
            let target : add64 b.chain.height 1 ≡ b.chain.height + 1 = ground arith in
            (
              omega (arith, m.height, target, m.chain),
              omega (arith, grown, m.chain),
              Moves-Advances a b c fits bound m before,
            )
      ]
