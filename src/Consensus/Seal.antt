-- ===== src/Consensus/Seal.antt =====
-- `try_commit_inner` of src/consensus.c. `none` is a division by zero in the acceptance of the block.
use agentchain.Base.{
  ℕ, Bool, true, false, not, ◌||◌, ◌&&◌, Option, none, some, List, [], ◌∷◌, set, get_elem?, ltb,
  leb, ◌==◌, if◌then◌else◌, add64, sub64, mul64,
}
use agentchain.Bytes.Compare.{Bytes}
use agentchain.Codec.Block.{CommitSigner, Block, block_encode}
use agentchain.Codec.Tx.{Tx, tx_hash}
use agentchain.Isqrt.{isqrt_u64}
use agentchain.Mempool.{Mempool, mempool_remove}
use agentchain.State.{State, state_get}
use agentchain.Chain.Data.{current_slot}
use agentchain.Chain.Live.{min_stake_ucrd, live_sqrt_stake, total_sqrt_stake}
use agentchain.Chain.Accept.{Accept, accept_ok, accept_dup, accept_block}
use agentchain.Consensus.{Pending, Consensus, Env, put_pending, send}

-- The loop over the signers.
unfoldable pub sum_signers : State → List CommitSigner → ℕ → ℕ
sum_signers s [] sum = sum
sum_signers s (x ∷ xs) sum =
    let stake = (state_get s x.signer).0.stake in
    sum_signers s xs (if leb min_stake_ucrd stake then add64 sum (isqrt_u64 stake) else sum)

-- The two gates.
unfoldable pub quorum : ℕ → ℕ → ℕ → Bool
quorum live total sum =
    if live == 0
    then false
    else if ltb (mul64 sum 3) (mul64 live 2)
    then false
    else if ltb 0 total && leb (mul64 sum 2) total
    then false
    else true

abbrev pub seal_grace_ms : ℕ
seal_grace_ms = 300

abbrev pub is_committed : Accept → Bool
is_committed accept_ok = true
is_committed accept_dup = true
is_committed _ = false

-- The included transactions leave the pool.
unfoldable pub remove_txs : (Bytes → Bytes) → Mempool → List Tx → Mempool
remove_txs hash mp [] = mp
remove_txs hash mp (tx ∷ txs) = remove_txs hash (mempool_remove mp (tx_hash hash tx)) txs

unfoldable pub send_block : Consensus → Block → Consensus
send_block cs b = elim (block_encode b) [ none ↦ cs | some enc ↦ send cs 6 enc ]

module _ (hash : Bytes → Bytes) (verify : Bytes → Bytes → Bytes → Bool)
    (below : ℕ → ℕ → ℕ → Bool) where
  -- The signers move into the block, and the chain is asked to accept it.
  unfoldable pub commit_pending : Env → Consensus → ℕ → Pending → Option Consensus
  commit_pending env cs i p =
      let b : Block = record (p.block) { signers = p.signers } in
      elim (accept_block hash verify below cs.chain b env.now env.writes) [
        | none ↦ none
        | some (c, r) ↦ some (
            if is_committed r
            then send_block
                (record cs {
                  chain = c;
                  pending = set cs.pending i (record p { committed = true; block = b });
                  mempool = remove_txs hash cs.mempool b.txs;
                })
                b
            else record cs {
              chain = c;
              pending = set cs.pending i (record p { block = record b { signers = [] } });
            })
      ]

  -- Once the threshold is reached: the time of that, and the grace.
  unfoldable pub seal_pending : Env → Consensus → ℕ → Pending → Bool → Option Consensus
  seal_pending env cs i p force_seal =
      let reached = if p.threshold_reached_ms == 0 then env.now else p.threshold_reached_ms in
      let p' : Pending = record p { threshold_reached_ms = reached } in
      let catching_up = ltb (add64 p.slot 1) (current_slot cs.chain env.now) in
      if not force_seal && not catching_up && ltb (sub64 env.now reached) seal_grace_ms
      then some (put_pending cs i p')
      else commit_pending env (put_pending cs i p') i p'

  unfoldable pub try_commit_inner : Env → Consensus → ℕ → Bool → Option Consensus
  try_commit_inner env cs i force_seal = elim (get_elem? cs.pending i) [
    | none ↦ some cs
    | some p ↦
        let total = total_sqrt_stake cs.chain in
        let live = live_sqrt_stake cs.chain in
        let sum = sum_signers cs.chain.state p.signers 0 in
        if not p.occupied || p.committed
        then some cs
        else if not (quorum (if live == 0 then total else live) total sum)
        then some cs
        else seal_pending env cs i p force_seal
  ]

  unfoldable pub try_commit : Env → Consensus → ℕ → Option Consensus
  try_commit env cs i = try_commit_inner env cs i false
