-- ===== src/Chain/Accept/Written.antt =====
-- What a block that `ac_chain_accept_block` of src/chain.c has written leaves in memory.
use agentchain.Base.{
  ℕ, ◌≡◌, refl, ap, ◌∙◌, Bool, true, false, some, List, inl, inr, Bool-cases, Option-cases,
}
use agentchain.Bytes.Compare.{Bytes}
use agentchain.Codec.Block.{Block, block_encode}
use agentchain.Codec.Tx.{Tx}
use agentchain.State.Snapshot.{state_serialize}
use agentchain.Chain.Data.{Chain, Writes, block_write, meta_save}
use agentchain.Chain.Index.{record_txs, index_txs}
use agentchain.Chain.Live.{record_signers}
use agentchain.Chain.Accept.{Accept, accept_ok, commit_block}
use agentchain.Chain.Accept.Steps.{reindexed, record_txs-reindexed, index_txs-reindexed}

-- What the writes and the updates in memory leave.
pub record Committed (hash : Bytes → Bytes) (c : Chain) (b : Block) (tip : Bytes) (d : Chain)
    : Type 0 where
  pub state : d.state ≡ c.state
  pub height : d.height ≡ b.header.height
  pub tip_hash : d.tip_hash ≡ tip
  pub slot : d.last_slot ≡ b.header.slot
  pub live : d.live_map ≡ record_signers c.live_map b.signers b.header.height
  pub cache : d.cached_valid ≡ false

abbrev pub CommittedOk : (Bytes → Bytes) → Chain → Block → Bytes → Chain × Accept → Type 0
CommittedOk hash c b tip (d, r) = r ≡ accept_ok → Committed hash c b tip d

pub write-disk :
    (c : Chain) (b : Block) (ok : Bool)
    → (block_write c b ok).0 ≡ record c { disk = (block_write c b ok).0.disk }
unfolding block_write
write-disk c b ok = elim (Option-cases (block_encode b)) [
  | inl long ↦ rw (block_write, long) refl
  | inr (buf, fits) ↦ elim (Bool-cases ok) [
    | inl good ↦ rw (block_write, fits, good) refl
    | inr bad ↦ rw (block_write, fits, bad) refl
  ]
]

-- What no index holds is as it was.
kept :
    {A : Type 0} (f : Chain → A)
    → ((x y : Chain) → f (reindexed x y) ≡ f x)
    → (hash : Bytes → Bytes) (c : Chain) (txs : List Tx) (h : ℕ)
    → f (index_txs hash (record_txs c txs h 0) txs h 0) ≡ f c
kept f same hash c txs h =
    let d = record_txs c txs h 0 in
    ap f (index_txs-reindexed hash d txs h 0)
    ∙ same d (index_txs hash d txs h 0)
    ∙ ap f (record_txs-reindexed c txs h 0)
    ∙ same c d

module _ (hash : Bytes → Bytes) (c : Chain) (b : Block) (tip : Bytes) (w : Writes) where
  -- The chain after the three writes.
  abbrev pub stored : Chain
  stored =
      let c1 = (block_write c b w.block_ok).0 in
      (meta_save
        (record c1 {
          height = b.header.height;
          tip_hash = tip;
          last_slot = b.header.slot;
          last_timestamp_ms = b.header.timestamp_ms;
          base_fee = b.header.base_fee;
          disk = record (c1.disk) { snapshot = some (state_serialize c1.state) };
        })
        true).0

  abbrev pub relived : Chain
  relived = record stored { live_map = record_signers stored.live_map b.signers b.header.height }

  abbrev pub finished : Chain
  finished =
      record (index_txs hash (record_txs relived b.txs b.header.height 0) b.txs b.header.height 0) {
        cached_valid = false;
      }

  pub finished-Committed : Committed hash c b tip finished
  unfolding meta_save
  finished-Committed = record {
    state =
        kept (λ x. x.state) (λ _ _. refl) hash relived b.txs b.header.height
        ∙ ap (λ (x : Chain). x.state) (write-disk c b w.block_ok);
    height = kept (λ x. x.height) (λ _ _. refl) hash relived b.txs b.header.height;
    tip_hash = kept (λ x. x.tip_hash) (λ _ _. refl) hash relived b.txs b.header.height;
    slot = kept (λ x. x.last_slot) (λ _ _. refl) hash relived b.txs b.header.height;
    live =
        kept (λ x. x.live_map) (λ _ _. refl) hash relived b.txs b.header.height
        ∙ ap (λ (x : Chain). record_signers x.live_map b.signers b.header.height)
            (write-disk c b w.block_ok);
    cache = refl;
  }

  pub commit-Committed : CommittedOk hash c b tip (commit_block hash c b tip w)
  unfolding commit_block meta_save
  commit-Committed = elim (Bool-cases (block_write c b w.block_ok).1) [
    | inr failed ↦ rw (commit_block, failed) (λ o. cc)
    | inl block ↦ elim (Bool-cases w.snapshot_ok) [
      | inr failed ↦ rw (commit_block, block, failed) (λ o. cc)
      | inl snapshot ↦ elim (Bool-cases w.meta_ok) [
        | inr failed ↦ rw (commit_block, block, snapshot, meta_save, failed) (λ o. cc)
        | inl meta ↦ rw (commit_block, block, snapshot, meta_save, meta) (λ o. finished-Committed)
      ]
    ]
  ]
