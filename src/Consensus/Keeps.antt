-- ===== src/Consensus/Keeps.antt =====
-- The vote lock of src/consensus.c and the height of its chain, through voting and commit attempts.
use agentchain.Base.{
  ℕ, ◌≤◌, ◌≡◌, refl, ap, ◌∙◌, Bool, true, false, not, ◌||◌, ◌&&◌, Option, none, some, [], ◌∷◌, ◌++◌,
  inl, inr, Bool-cases, Option-cases, arith, add64, sub64, ltb, ◌==◌, get_elem?, set, if◌then◌else◌,
}
use mathlib.Core.Path.{subst}
use agentchain.Bytes.Compare.{Bytes}
use agentchain.Codec.Vote.{vote_message}
use agentchain.Codec.Block.{CommitSigner, Block, block_encode}
use agentchain.Crypto.{vrf_prove, vrf_verify}
use agentchain.State.{state_get}
use agentchain.Chain.Data.{Chain, current_slot}
use agentchain.Chain.Live.{min_stake_ucrd, total_sqrt_stake, live_sqrt_stake, active_count}
use agentchain.Chain.Seed.{epoch_of, epoch_seed, leader_alpha, committee_alpha}
use agentchain.Chain.Accept.{accept_block}
use agentchain.Chain.Accept.Steps.{SameChain, seed-SameChain}
use agentchain.Chain.Accept.Height.{HigherOr, accept-HigherOr}
use agentchain.Consensus.{Pending, Consensus, Env, put_pending, send}
use agentchain.Consensus.Votes.{
  note_priority, am_i_leader, am_i_committee, enter_vote, cast_vote, our_vote_now,
}
use agentchain.Consensus.Seal.{
  remove_txs, sum_signers, quorum, seal_grace_ms, is_committed, send_block, commit_pending,
  seal_pending, try_commit_inner, try_commit,
}

pub record Keeps (cs cs' : Consensus) : Type 0 where
  pub height : cs'.vote_height ≡ cs.vote_height
  pub block : cs'.vote_block ≡ cs.vote_block
  pub priority : cs'.vote_priority ≡ cs.vote_priority
  pub chain : cs.chain.height ≤ cs'.chain.height

pub Keeps_refl : (cs : Consensus) → Keeps cs cs
Keeps_refl cs = record { height = refl; block = refl; priority = refl; chain = omega arith }

pub Keeps_trans : (a b c : Consensus) → Keeps a b → Keeps b c → Keeps a c
Keeps_trans a b c k l = record {
  height = l.height ∙ k.height;
  block = l.block ∙ k.block;
  priority = l.priority ∙ k.priority;
  chain = omega (arith, k.chain, l.chain);
}

abbrev pub KeepsOr : Consensus → Option Consensus → Type 0
KeepsOr cs none = Unit
KeepsOr cs (some cs') = Keeps cs cs'

pub KeepsOr-trans : (a b : Consensus) (o : Option Consensus) → Keeps a b → KeepsOr b o → KeepsOr a o
KeepsOr-trans a b none k l = tt
KeepsOr-trans a b (some c) k l = Keeps_trans a b c k l

-- With the chain's cache renewed.
pub cached-Keeps :
    (cs : Consensus) (c : Chain) → SameChain cs.chain c → Keeps cs (record cs { chain = c })
cached-Keeps cs c same =
    let level : c.height ≡ cs.chain.height = ap (λ (x : Chain). x.height) same in
    record { height = refl; block = refl; priority = refl; chain = omega (arith, level) }

pub either-Keeps :
    (cs : Consensus) (t : Bool) (a b : Consensus)
    → Keeps cs a
    → Keeps cs b
    → Keeps cs (if t then a else b)
either-Keeps cs true a b k l = k
either-Keeps cs false a b k l = l

pub either-KeepsOr :
    (cs : Consensus) (t : Bool) (a b : Option Consensus)
    → KeepsOr cs a
    → KeepsOr cs b
    → KeepsOr cs (if t then a else b)
either-KeepsOr cs true a b k l = k
either-KeepsOr cs false a b k l = l

pub send-Keeps : (cs : Consensus) (k : ℕ) (m : Bytes) → Keeps cs (send cs k m)
send-Keeps cs k m =
    let out : Consensus = record cs { sent = cs.sent ++ (record { kind = k; payload = m } ∷ []) } in
    either-Keeps cs cs.bcast out cs
      (record { height = refl; block = refl; priority = refl; chain = omega arith }) (Keeps_refl cs)

pub send_block-Keeps : (cs : Consensus) (b : Block) → Keeps cs (send_block cs b)
unfolding send_block
send_block-Keeps cs b = elim (Option-cases (block_encode b)) [
  | inl long ↦ rw (send_block, long) (Keeps_refl cs)
  | inr (enc, fits) ↦ rw (send_block, fits) (send-Keeps cs 6 enc)
]

pub put-Keeps : (cs : Consensus) (i : ℕ) (p : Pending) → Keeps cs (put_pending cs i p)
put-Keeps cs i p = record { height = refl; block = refl; priority = refl; chain = omega arith }

pub note-Keeps :
    (cs : Consensus) (slot : ℕ) (priority : Bytes) → Keeps cs (note_priority cs slot priority)
unfolding note_priority
note-Keeps cs slot priority = record {
  height = refl;
  block = refl;
  priority = refl;
  chain = omega arith;
}

enter-Keeps :
    (cs : Consensus) (i : ℕ) (p : Pending) (mine : CommitSigner) → Keeps cs (enter_vote cs i p mine)
unfolding enter_vote
enter-Keeps cs i p mine = record {
  height = refl;
  block = refl;
  priority = refl;
  chain = omega arith;
}

module _ (hash : Bytes → Bytes) (verify : Bytes → Bytes → Bytes → Bool)
    (below : ℕ → ℕ → ℕ → Bool) where
  commit-KeepsOr :
      (env : Env) (cs : Consensus) (i : ℕ) (p : Pending)
      → KeepsOr cs (commit_pending hash verify below env cs i p)
  unfolding commit_pending
  commit-KeepsOr env cs i p =
      let b : Block = record (p.block) { signers = p.signers } in
      let taken = accept-HigherOr hash verify below cs.chain b env.now env.writes in
      elim (Option-cases (accept_block hash verify below cs.chain b env.now env.writes)) [
        | inl trap ↦ rw (commit_pending, trap) tt
        | inr ((c, r), got) ↦
            let up : cs.chain.height ≤ c.height = subst (HigherOr cs.chain) got taken in
            elim (Bool-cases (is_committed r)) [
              | inl accepted ↦
                  let cs1 : Consensus = record cs {
                    chain = c;
                    pending = set cs.pending i (record p { committed = true; block = b });
                    mempool = remove_txs hash cs.mempool b.txs;
                  } in
                  rw (commit_pending, got, accepted)
                    (Keeps_trans cs cs1 (send_block cs1 b)
                      (record { height = refl; block = refl; priority = refl; chain = up })
                      (send_block-Keeps cs1 b))
              | inr refused ↦
                  rw (commit_pending, got, refused)
                    (record { height = refl; block = refl; priority = refl; chain = up })
            ]
      ]

  seal-KeepsOr :
      (env : Env) (cs : Consensus) (i : ℕ) (p : Pending) (force_seal : Bool)
      → KeepsOr cs (seal_pending hash verify below env cs i p force_seal)
  unfolding seal_pending
  seal-KeepsOr env cs i p force_seal =
      let reached = if p.threshold_reached_ms == 0 then env.now else p.threshold_reached_ms in
      let p' : Pending = record p { threshold_reached_ms = reached } in
      let catching_up = ltb (add64 p.slot 1) (current_slot cs.chain env.now) in
      elim (Bool-cases
        (not force_seal && not catching_up && ltb (sub64 env.now reached) seal_grace_ms)) [
          | inl waits ↦ rw (seal_pending, waits) (put-Keeps cs i p')
          | inr due ↦
              rw (seal_pending, due)
                (KeepsOr-trans cs (put_pending cs i p') _ (put-Keeps cs i p')
                  (commit-KeepsOr env (put_pending cs i p') i p'))
        ]

  pub try_inner-KeepsOr :
      (env : Env) (cs : Consensus) (i : ℕ) (force_seal : Bool)
      → KeepsOr cs (try_commit_inner hash verify below env cs i force_seal)
  unfolding try_commit_inner
  try_inner-KeepsOr env cs i force_seal = elim (Option-cases (get_elem? cs.pending i)) [
    | inl absent ↦ rw (try_commit_inner, absent) (Keeps_refl cs)
    | inr (p, there) ↦
        let total = total_sqrt_stake cs.chain in
        let live = live_sqrt_stake cs.chain in
        let sum = sum_signers cs.chain.state p.signers 0 in
        elim (Bool-cases (not p.occupied || p.committed)) [
          | inl idle ↦ rw (try_commit_inner, there, idle) (Keeps_refl cs)
          | inr pends ↦ elim (Bool-cases (quorum (if live == 0 then total else live) total sum)) [
            | inr few ↦ rw (try_commit_inner, there, pends, few) (Keeps_refl cs)
            | inl enough ↦
                rw (try_commit_inner, there, pends, enough) (seal-KeepsOr env cs i p force_seal)
          ]
        ]
  ]

  pub try-KeepsOr :
      (env : Env) (cs : Consensus) (i : ℕ) → KeepsOr cs (try_commit hash verify below env cs i)
  unfolding try_commit
  try-KeepsOr env cs i = try_inner-KeepsOr env cs i false

module _ (hash : Bytes → Bytes) (verify : Bytes → Bytes → Bytes → Bool) (sign : Bytes → Bytes) where
  pub leader-SameChain :
      (leads : ℕ → ℕ → Bool) (cs : Consensus) (slot : ℕ)
      → SameChain cs.chain (am_i_leader hash verify sign leads cs slot).0
  unfolding am_i_leader
  leader-SameChain leads cs slot =
      let (me, has) = state_get cs.chain.state cs.my_addr in
      let seeded = epoch_seed hash cs.chain (epoch_of slot) in
      let same = seed-SameChain hash cs.chain (epoch_of slot) in
      let alpha = leader_alpha seeded.1 slot in
      let proof = (vrf_prove hash sign alpha).0 in
      elim (Bool-cases (not has || ltb me.stake min_stake_ucrd)) [
        | inl idle ↦ rw (am_i_leader, idle) refl
        | inr active ↦ elim (Bool-cases (active_count seeded.0 == 0)) [
          | inl nobody ↦ rw (am_i_leader, active, nobody) same
          | inr some_one ↦ elim (Option-cases (vrf_verify hash verify proof alpha cs.my_addr)) [
            | inl bad ↦ rw (am_i_leader, active, some_one, bad) same
            | inr (beta, good) ↦ rw (am_i_leader, active, some_one, good) same
          ]
        ]
      ]

  committee-SameChain :
      (below : ℕ → ℕ → ℕ → Bool) (cs : Consensus) (slot : ℕ)
      → SameChain cs.chain (am_i_committee hash verify sign below cs slot).0
  unfolding am_i_committee
  committee-SameChain below cs slot =
      let (me, has) = state_get cs.chain.state cs.my_addr in
      let seeded = epoch_seed hash cs.chain (epoch_of slot) in
      let same = seed-SameChain hash cs.chain (epoch_of slot) in
      let alpha = committee_alpha seeded.1 slot in
      let proof = (vrf_prove hash sign alpha).0 in
      elim (Bool-cases (not has || ltb me.stake min_stake_ucrd)) [
        | inl idle ↦ rw (am_i_committee, idle) refl
        | inr active ↦ elim (Option-cases (vrf_verify hash verify proof alpha cs.my_addr)) [
          | inl bad ↦ rw (am_i_committee, active, bad) same
          | inr (beta, good) ↦ rw (am_i_committee, active, good) same
        ]
      ]

  cast-Keeps :
      (cs : Consensus) (i : ℕ) (p : Pending) (cproof : Bytes)
      → Keeps cs (cast_vote hash verify sign cs i p cproof)
  unfolding cast_vote
  cast-Keeps cs i p cproof =
      let mine : CommitSigner = record {
        signer = cs.my_addr;
        sig = sign (vote_message p.height p.block_hash);
        vrf_proof = cproof;
      } in
      Keeps_trans cs (enter_vote cs i p mine) _ (enter-Keeps cs i p mine)
        (send-Keeps (enter_vote cs i p mine) 8 _)

  pub vote-Keeps :
      (below : ℕ → ℕ → ℕ → Bool) (cs : Consensus) (i : ℕ) (p : Pending)
      → Keeps cs (our_vote_now hash verify sign below cs i p)
  unfolding our_vote_now
  vote-Keeps below cs i p =
      let (c, member, cproof) = am_i_committee hash verify sign below cs p.slot in
      let cs' : Consensus = record cs { chain = c } in
      let cached = cached-Keeps cs c (committee-SameChain below cs p.slot) in
      elim (Bool-cases member) [
        | inr out ↦ rw (our_vote_now, out) cached
        | inl drawn ↦
            rw (our_vote_now, drawn)
              (Keeps_trans cs cs' (cast_vote hash verify sign cs' i p cproof) cached
                (cast-Keeps cs' i p cproof))
      ]
