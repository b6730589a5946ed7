-- ===== src/Consensus/Sealed.antt =====
-- What a successful seal in src/consensus.c does, with the chain and the pool that it changes.
use agentchain.Base.{
  ℕ, zero, suc, ◌≡◌, refl, sym, Bool, true, false, not, ◌||◌, some, List, [], ◌∷◌, inl, inr,
  Option-cases, arith, All, set, get_elem?, if◌then◌else◌, ◌==◌,
}
use mathlib.Core.Path.{subst}
use agentchain.Bytes.Compare.{Bytes, bytes_eq}
use agentchain.Codec.Block.{Block, block_encode}
use agentchain.Codec.Tx.{Tx, tx_hash}
use agentchain.Mempool.{Mempool, mempool_remove, mempool_has, mp_find, first}
use agentchain.Mempool.Order.{Kept, All-Kept}
use agentchain.Mempool.Pool.{IsPool, first-none}
use agentchain.Mempool.Add.{All-first}
use agentchain.Mempool.Results.{remove_lem}
use agentchain.Chain.Data.{Chain}
use agentchain.Chain.Live.{live_sqrt_stake, total_sqrt_stake}
use agentchain.Chain.Accept.{accept_ok, accept_block}
use agentchain.Chain.Accept.Extends.{Extends, accept_block_ok}
use agentchain.Consensus.{Pending, Consensus, Message, Env, put_pending}
use agentchain.Consensus.Seal.{
  sum_signers, quorum, remove_txs, send_block, commit_pending, seal_pending, try_commit_inner,
}

gone-Kept :
    (mp mq : Mempool) (h : Bytes)
    → Kept mp.entries mq.entries
    → mempool_has mq h ≡ false
    → mempool_has mp h ≡ false
unfolding mempool_has mp_find
gone-Kept mp mq h k e = elim (Option-cases (first (λ e. bytes_eq e.hash h) mq.entries)) [
  | inl n ↦
      rw
        (
          mempool_has,
          mp_find,
          All-first (λ e. bytes_eq e.hash h) mp.entries
              (All-Kept (λ e. bytes_eq e.hash h ≡ false) k
                (first-none (λ e. bytes_eq e.hash h) mq.entries n)),
        )
        refl
  | inr (i, at) ↦ ground (arith, at, e)
]

remove_txs-gone :
    (hash : Bytes → Bytes) (mp : Mempool) (txs : List Tx) (h : Bytes)
    → IsPool mp.entries
    → mempool_has mp h ≡ false
    → mempool_has (remove_txs hash mp txs) h ≡ false
unfolding remove_txs
remove_txs-gone hash mp [] h v e = e
remove_txs-gone hash mp (tx ∷ txs) h v e =
    let (v', out, k, idle, fewer, others) = remove_lem mp (tx_hash hash tx) v in
    remove_txs-gone hash (mempool_remove mp (tx_hash hash tx)) txs h v'
      (gone-Kept (mempool_remove mp (tx_hash hash tx)) mp h k e)

remove_txs-all :
    (hash : Bytes → Bytes) (mp : Mempool) (txs : List Tx)
    → IsPool mp.entries
    → All (λ tx. mempool_has (remove_txs hash mp txs) (tx_hash hash tx) ≡ false) txs
unfolding remove_txs
remove_txs-all hash mp [] v = tt
remove_txs-all hash mp (tx ∷ txs) v =
    let (v', out, k, idle, fewer, others) = remove_lem mp (tx_hash hash tx) v in
    (
      remove_txs-gone hash (mempool_remove mp (tx_hash hash tx)) txs (tx_hash hash tx) v' out,
      remove_txs-all hash (mempool_remove mp (tx_hash hash tx)) txs v',
    )

if-sent :
    (t : Bool) (cs : Consensus) (out : List Message)
    → (if t then record cs { sent = out } else cs)
      ≡ record cs { sent = (if t then record cs { sent = out } else cs).sent }
if-sent true cs out = refl
if-sent false cs out = refl

send_block-sent :
    (cs : Consensus) (b : Block) → send_block cs b ≡ record cs { sent = (send_block cs b).sent }
unfolding send_block
send_block-sent cs b = elim (Option-cases (block_encode b)) [
  | inl long ↦ rw (send_block, long) refl
  | inr (enc, fits) ↦ rw (send_block, fits) (if-sent cs.bcast cs _)
]

set-there :
    (ps : List Pending) (i : ℕ) (p q : Pending)
    → get_elem? ps i ≡ some p
    → get_elem? (set ps i q) i ≡ some q
set-there [] i p q e = cc
set-there (x ∷ ps) zero p q e = refl
set-there (x ∷ ps) (suc i) p q e = set-there ps i p q e

-- What has become of the engine `cs` and the block `b` of the entry `i`.
pub record IsSealed (hash : Bytes → Bytes) (verify : Bytes → Bytes → Bytes → Bool)
    (below : ℕ → ℕ → ℕ → Bool) (cs : Consensus) (i : ℕ) (b : Block) (cs' : Consensus) : Type 0 where
  pub extended : Extends hash verify below cs.chain b cs'.chain
  pub committed :
      (p : Pending) × get_elem? cs'.pending i ≡ some p × p.committed ≡ true × p.block ≡ b
  pub pooled_none : All (λ tx. mempool_has cs'.mempool (tx_hash hash tx) ≡ false) b.txs

module _ (hash : Bytes → Bytes) (verify : Bytes → Bytes → Bytes → Bool)
    (below : ℕ → ℕ → ℕ → Bool) where
  commit-IsSealed :
      (env : Env) (cs : Consensus) (i : ℕ) (p q : Pending) (c : Chain)
      → get_elem? cs.pending i ≡ some q
      → accept_block hash verify below cs.chain
          (record (p.block) { signers = p.signers })
          env.now
          env.writes
        ≡ some (c, accept_ok)
      → IsPool cs.mempool.entries
      → (cs' : Consensus) × commit_pending hash verify below env cs i p ≡ some cs'
        × IsSealed hash verify below cs i (record (p.block) { signers = p.signers }) cs'
  unfolding commit_pending
  commit-IsSealed env cs i p q c there e pool =
      let b : Block = record (p.block) { signers = p.signers } in
      let done : Pending = record p { committed = true; block = b } in
      let cs1 : Consensus = record cs {
        chain = c;
        pending = set cs.pending i done;
        mempool = remove_txs hash cs.mempool b.txs;
      } in
      let out : IsSealed hash verify below cs i b (record cs1 { sent = (send_block cs1 b).sent }) =
        record {
          extended = (accept_block_ok hash verify below cs.chain c b env.now env.writes e).1;
          committed = (done, set-there cs.pending i q done there, refl, refl);
          pooled_none = remove_txs-all hash cs.mempool b.txs pool;
        } in
      (
        send_block cs1 b,
        rw (commit_pending, e) refl,
        subst (IsSealed hash verify below cs i b) (sym (send_block-sent cs1 b)) out,
      )

  -- For a pending block that is not committed, whose signers reach both thresholds and whose certificate the
  -- chain accepts now, with a pool that keeps its invariant: the attempt of the seal phase returns a state in
  -- which the block is on the chain, its entry is committed with that certificate, and none of its
  -- transactions is in the pool.
  pub seal-IsSealed :
      (env : Env) (cs : Consensus) (i : ℕ) (p : Pending) (c : Chain)
      → get_elem? cs.pending i ≡ some p
      → (not p.occupied || p.committed) ≡ false
      → quorum
          (if live_sqrt_stake cs.chain == 0
            then total_sqrt_stake cs.chain
            else live_sqrt_stake cs.chain)
          (total_sqrt_stake cs.chain)
          (sum_signers cs.chain.state p.signers 0)
        ≡ true
      → accept_block hash verify below cs.chain
          (record (p.block) { signers = p.signers })
          env.now
          env.writes
        ≡ some (c, accept_ok)
      → IsPool cs.mempool.entries
      → (cs' : Consensus) × try_commit_inner hash verify below env cs i true ≡ some cs'
        × IsSealed hash verify below cs i (record (p.block) { signers = p.signers }) cs'
  unfolding try_commit_inner seal_pending
  seal-IsSealed env cs i p c there pends enough e pool =
      let reached = if p.threshold_reached_ms == 0 then env.now else p.threshold_reached_ms in
      let p' : Pending = record p { threshold_reached_ms = reached } in
      let (cs', done, out) =
        commit-IsSealed env (put_pending cs i p') i p' p' c (set-there cs.pending i p p' there) e
          pool in
      (
        cs',
        rw (try_commit_inner, there, pends, enough) done,
        record {
          extended = out.extended;
          committed = out.committed;
          pooled_none = out.pooled_none;
        },
      )
