-- ===== src/Consensus/Lock.antt =====
-- The vote lock of src/consensus.c: what the vote phase does to it.
use agentchain.Base.{
  ℕ, ◌≤◌, ◌≡◌, refl, sym, ◌∙◌, Bool, true, false, not, ◌&&◌, ◌⊎◌, Option, none, some, List, inl,
  inr, Bool-cases, Option-cases, arith, add64, ◌==◌, if◌then◌else◌,
}
use mathlib.Core.Path.{subst}
use agentchain.Bytes.Compare.{Bytes}
use agentchain.Consensus.{Pending, SlotVote, Consensus, Env}
use agentchain.Consensus.Votes.{slot_vote_for, vote_at, is_lower, our_vote_now}
use agentchain.Consensus.Slots.{
  best_from, backed_from, move_vote, affirm_vote, choose_vote, vote_phase,
}
use agentchain.Consensus.Handled.{then_try}
use agentchain.Consensus.Keeps.{Keeps, Keeps_refl, KeepsOr, KeepsOr-trans, try-KeepsOr, vote-Keeps}

pub record Moves (cs cs' : Consensus) : Type 0 where
  pub height : cs'.vote_height ≡ add64 cs.chain.height 1
  pub lower :
      cs.vote_height ≡ add64 cs.chain.height 1 → is_lower cs'.vote_priority cs.vote_priority ≡ true
  pub chain : cs.chain.height ≤ cs'.chain.height

abbrev pub Locked : Consensus → Consensus → Type 0
Locked cs cs' = Keeps cs cs' ⊎ Moves cs cs'

abbrev pub LockedOr : Consensus → Option Consensus → Type 0
LockedOr cs none = Unit
LockedOr cs (some cs') = Locked cs cs'

kept : (cs : Consensus) (o : Option Consensus) → KeepsOr cs o → LockedOr cs o
kept cs none k = tt
kept cs (some cs') k = inl k

moved : (cs x : Consensus) (o : Option Consensus) → Moves cs x → KeepsOr x o → LockedOr cs o
moved cs x none m k = tt
moved cs x (some cs') m k = inr (record {
  height = k.height ∙ m.height;
  lower = λ e. subst (λ p. is_lower p cs.vote_priority ≡ true) (sym k.priority) (m.lower e);
  chain = omega (arith, m.chain, k.chain);
})

either-LockedOr :
    (cs : Consensus) (t : Bool) (a b : Option Consensus)
    → LockedOr cs a
    → LockedOr cs b
    → LockedOr cs (if t then a else b)
either-LockedOr cs true a b k l = k
either-LockedOr cs false a b k l = l

beaten : (a b : ℕ) (l : Bool) → (a == b && not l) ≡ false → a ≡ b → l ≡ true
beaten a b true h e = refl
beaten a b false h e = ground (arith, h, e)

module _ (hash : Bytes → Bytes) (verify : Bytes → Bytes → Bytes → Bool) (sign : Bytes → Bytes)
    (below : ℕ → ℕ → ℕ → Bool) where
  affirm-KeepsOr :
      (env : Env) (cs : Consensus) (target : ℕ)
      → KeepsOr cs (affirm_vote hash verify sign below env cs target)
  unfolding affirm_vote
  affirm-KeepsOr env cs target =
      elim (Option-cases (backed_from cs.pending target cs.vote_block 0)) [
        | inl gone ↦ rw (affirm_vote, gone) (Keeps_refl cs)
        | inr ((i, q), there) ↦
            rw (affirm_vote, there)
              (then_try hash verify below env cs _ i (vote-Keeps hash verify sign below cs i q))
      ]

  -- A change of vote for the next height, when the vote may move.
  move-LockedOr :
      (env : Env) (cs : Consensus) (votes : List SlotVote) (i : ℕ) (best : Pending)
      → (cs.vote_height ≡ add64 cs.chain.height 1 → is_lower best.priority cs.vote_priority ≡ true)
      → LockedOr cs (
          move_vote hash verify sign below env
            (record cs { slot_votes = votes })
            (add64 cs.chain.height 1)
            i
            best)
  unfolding move_vote
  move-LockedOr env cs votes i best may =
      let cs' : Consensus = record cs { slot_votes = votes } in
      let x : Consensus = record (our_vote_now hash verify sign below cs' i best) {
        vote_height = add64 cs.chain.height 1;
        vote_block = best.block_hash;
        vote_priority = best.priority;
      } in
      moved cs x _
        (record {
          height = refl;
          lower = may;
          chain = (vote-Keeps hash verify sign below cs' i best).chain;
        })
        (try-KeepsOr hash verify below env x i)

  choose-LockedOr :
      (env : Env) (cs : Consensus) (slot : ℕ)
      → LockedOr cs (choose_vote hash verify sign below env cs slot)
  unfolding choose_vote
  choose-LockedOr env cs slot =
      let (votes, k) = slot_vote_for cs.slot_votes slot in
      let cs' : Consensus = record cs { slot_votes = votes } in
      let target = add64 cs.chain.height 1 in
      let same : Keeps cs cs' = record {
        height = refl;
        block = refl;
        priority = refl;
        chain = omega arith;
      } in
      elim (Bool-cases ((vote_at votes k slot).voted)) [
        | inl voted ↦ rw (choose_vote, voted) (inl same)
        | inr open_slot ↦ elim (Option-cases (best_from cs.pending target 0 none)) [
          | inl nothing ↦ rw (choose_vote, open_slot, nothing) (inl same)
          | inr ((i, best), there) ↦
              elim (Bool-cases
                (cs.vote_height == target && not (is_lower best.priority cs.vote_priority))) [
                  | inl stays ↦
                      rw (choose_vote, open_slot, there, stays)
                        (kept cs _ (KeepsOr-trans cs cs' _ same (affirm-KeepsOr env cs' target)))
                  | inr moves ↦
                      rw (choose_vote, open_slot, there, moves)
                        (move-LockedOr env cs votes i best (beaten cs.vote_height target _ moves))
                ]
        ]
      ]

  pub vote_phase-LockedOr :
      (env : Env) (cs : Consensus) (slot : ℕ)
      → LockedOr cs (vote_phase hash verify sign below env cs slot)
  unfolding vote_phase
  vote_phase-LockedOr env cs slot =
      either-LockedOr cs (not cs.validator) (some cs)
        (choose_vote hash verify sign below env cs slot) (inl (Keeps_refl cs))
        (choose-LockedOr env cs slot)
