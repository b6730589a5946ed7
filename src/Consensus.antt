-- ===== src/Consensus.antt =====
-- The consensus engine of src/consensus.c: its state, the table of pending blocks, and the wire form
-- of votes. The mutex is held around every handler, so each is one step; the proposal of a slot, which takes it
-- once its block is built, is taken as one step too. `sent` collects what is broadcast.
pub mod Votes
pub mod Seal
pub mod Handlers
pub mod Slots
pub mod Keeps
pub mod Handled
pub mod Phases
pub mod Lock
pub mod Runs
pub mod Choice
pub mod Wire
pub mod Sealed
mod Examples
use agentchain.Base.{
  ℕ, ◌+◌, Bool, true, false, not, ◌&&◌, Option, none, some, List, [], ◌∷◌, ◌++◌, length, take, drop,
  set, ltb, ◌==◌, replicate, if◌then◌else◌,
}
use agentchain.Bytes.Compare.{Bytes, bytes_eq}
use agentchain.Bytes.Endian.{be64, rd64}
use agentchain.Codec.Block.{CommitSigner, Block}
use agentchain.Codec.Header.{BlockHeader}
use agentchain.Mempool.{Mempool}
use agentchain.Chain.Data.{Chain, Writes}

abbrev pub pending_max : ℕ
pending_max = 8

-- `nsigners` is the length.
pub record Pending : Type 0 where
  pub occupied : Bool
  pub committed : Bool
  pub height : ℕ
  pub slot : ℕ
  pub block_hash : Bytes
  pub block : Block
  pub signers : List CommitSigner
  pub first_seen_ms : ℕ
  pub priority : Bytes
  pub threshold_reached_ms : ℕ

pub record SlotVote : Type 0 where
  pub slot : ℕ
  pub best_priority : Bytes
  pub voted_block : Bytes
  pub voted : Bool

-- The kind byte and the payload.
pub record Message : Type 0 where
  pub kind : ℕ
  pub payload : Bytes

pub record Consensus : Type 0 where
  pub chain : Chain
  pub mempool : Mempool
  pub my_addr : Bytes
  pub bcast : Bool
  pub validator : Bool
  pub pending : List Pending
  pub slot_votes : List SlotVote
  pub last_hdrs_req_ms : ℕ
  pub last_hdrs_req_target : ℕ
  pub vote_height : ℕ
  pub vote_block : Bytes
  pub vote_priority : Bytes
  pub sent : List Message

-- What one handler sees of the outside: the clock, read once, and the writes that succeed.
pub record Env : Type 0 where
  pub now : ℕ
  pub writes : Writes

abbrev pub send : Consensus → ℕ → Bytes → Consensus
send cs kind payload =
    if cs.bcast
    then record cs { sent = cs.sent ++ (record { kind = kind; payload = payload } ∷ []) }
    else cs

abbrev pub put_pending : Consensus → ℕ → Pending → Consensus
put_pending cs i p = record cs { pending = set cs.pending i p }

abbrev pub empty_header : BlockHeader
empty_header = record {
  version = 0;
  height = 0;
  slot = 0;
  parent_hash = replicate 32 0;
  timestamp_ms = 0;
  proposer = replicate 32 0;
  proposer_vrf_proof = replicate 64 0;
  state_root = replicate 32 0;
  tx_root = replicate 32 0;
  base_fee = 0;
  gas_used = 0;
  gas_limit = 0;
  tx_count = 0;
}

-- `memset(p, 0, ...)`, occupied, first seen now.
abbrev pub fresh : ℕ → Pending
fresh now = record {
  occupied = true;
  committed = false;
  height = 0;
  slot = 0;
  block_hash = replicate 32 0;
  block = record { header = empty_header; txs = []; signers = [] };
  signers = [];
  first_seen_ms = now;
  priority = replicate 16 0;
  threshold_reached_ms = 0;
}

-- The index of the entry with the hash, from index `i`.
unfoldable pub find_from : List Pending → Bytes → ℕ → Option ℕ
find_from [] bh i = none
find_from (p ∷ ps) bh i =
    let rest = find_from ps bh (i + 1) in
    if p.occupied && bytes_eq p.block_hash bh then some i else rest

unfoldable pub pending_find : Consensus → Bytes → Option ℕ
pending_find cs bh = find_from cs.pending bh 0

-- The first free entry, or else the one first seen, from index `i` with the oldest so far.
unfoldable pub alloc_from : List Pending → ℕ → ℕ → Option ℕ → ℕ
alloc_from [] i oldest seen = oldest
alloc_from (p ∷ ps) i oldest seen = elim p.occupied [
  | false ↦ i
  | true ↦ elim seen [
    | none ↦ alloc_from ps (i + 1) i (some p.first_seen_ms)
    | some t ↦ elim (ltb p.first_seen_ms t) [
      | true ↦ alloc_from ps (i + 1) i (some p.first_seen_ms)
      | false ↦ alloc_from ps (i + 1) oldest (some t)
    ]
  ]
]

-- The index of the entry, which the caller fills.
unfoldable pub pending_alloc : Consensus → ℕ
pending_alloc cs = alloc_from cs.pending 0 0 none

pub record Vote : Type 0 where
  pub height : ℕ
  pub block_hash : Bytes
  pub signer : Bytes
  pub sig : Bytes
  pub proof : Bytes

abbrev pub vote_wire_len : ℕ
vote_wire_len = 8 + 32 + 32 + 64 + 64

unfoldable pub vote_encode : Vote → Bytes
vote_encode v = be64 v.height ++ (v.block_hash ++ (v.signer ++ (v.sig ++ v.proof)))

unfoldable pub vote_decode : Bytes → Option Vote
vote_decode buf =
    if not (length buf == vote_wire_len)
    then none
    else some (record {
      height = rd64 buf;
      block_hash = take 32 (drop 8 buf);
      signer = take 32 (drop 40 buf);
      sig = take 64 (drop 72 buf);
      proof = take 64 (drop 136 buf);
    })
