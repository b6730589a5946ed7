-- ===== src/Lib.antt =====
-- AgentChain: a model of the core of the node in C, and what is proved of it.
--
-- The program. A node holds the global state (accounts and names), a mempool of transactions and a
-- chain of blocks. A transaction arrives as bytes, is decoded (src/codec.c), checked and filed in the
-- mempool (src/mempool.c), and applied to the state by the block that contains it (src/state.c).
-- The chain (src/chain.c) accepts and builds blocks: it runs their transactions on the state, checks the
-- committee's certificate and keeps files and indices. Consensus (src/consensus.c) keeps a table of
-- proposals, collects the committee's votes for them, and hands a block with enough votes to the chain; in
-- each slot a validator may propose, vote and seal. The network and the RPC server stand around this core.
--
-- The files.
-- - Base and its children: shared names, Boolean tests, lists over the native numbers, arithmetic on
--   `uint64_t` (`add64`, `sub64`, `mul64`), orders.
-- - Bytes: byte strings, `memcmp` and the big-endian words of src/common.h.
-- - Codec: src/codec.c. Cursor has the bounded cursors; Format is the interface of a wire format, a
--   writer and a reader with their laws, and its combinators; Body has the bodies, Tx transactions
--   with their signed bytes, hash and signature, Vote the message that a vote signs, and
--   Header the block headers with the block hash.
-- - Isqrt: `ac_isqrt_u64` of src/common.c, which weighs stakes. Hex: its hexadecimal text.
-- - Table: the sorted arrays of src/state.c, generic in key and record: the binary search, insertion
--   and removal. Rank relates the search to a scan, Update the updates to recursive ones, Laws has the
--   laws of a map, Totals sums over an array.
-- - State: src/state.c, `ac_state_get`, `ac_state_set` and the names. Apply is `ac_state_apply_tx`:
--   Checks the tests before anything is charged, Body the `switch` on the kind, Apply itself the
--   settlement of the fee; Safety, Transfer, SelfTransfer and Supply have the theorems on it. Contents has
--   several updates of the accounts in different orders.
-- - Mempool: src/mempool.c, the entries as a list, the locked part of `ac_mempool_add` as
--   `pool_enter`.
-- - Crypto: hashing in pieces and the VRF of src/crypto.c.
-- - Codec/Block: whole blocks with their certificate. State/Snapshot: the state root and the snapshots of
--   src/state.c.
-- - Chain: src/chain.c. The module itself has the base fee and the block reward; Data the chain's
--   record, the meta file and the block files; Index the transaction and address indices; Live the
--   active validators and the liveness map; Seed the epoch seeds, their cache and the inputs of the
--   VRFs; Commit the proposer's proof and the certificate; Accept `ac_chain_accept_block`, in the steps
--   check_header, execute_block and commit_block; Build `ac_chain_build_block`; Genesis the genesis
--   block and `ac_chain_open`; Top the ranking of accounts. Their children have the theorems; Accept.Cached
--   follows the cache of seeds through the acceptance of a block.
-- - Consensus: src/consensus.c. The module itself has the engine's record, the table of pending blocks and the
--   wire form of votes; Votes the priorities, the draws and our own vote; Seal `try_commit_inner`;
--   Handlers the handlers of blocks and votes; Slots the phases of a slot. Keeps, Handled, Phases and Lock have
--   what each operation does to the vote, Runs the runs of the engine, Choice the choice of a proposal, Sealed a
--   successful seal, Wire the wire form.
-- - Network: the frames and the outgoing queue of a peer of src/net.c. Delivery has the theorems; a socket is
--   the stream of the bytes that it carries.
-- The modules named Examples have tests; Chain.Accept.Samples has a chain and answers that they share.
--
-- How the model corresponds to the code. A struct is a record, a buffer with its length is a list of
-- numbers below 256, a fallible function returns an Option or a result type, and a function that
-- changes a struct returns the new one. `uint64_t` arithmetic is written out modulo 2^64. A local copy
-- that is written back later, as the sender's account in `ac_state_apply_tx`, is a field of the run
-- state, so that what aliases it is lost as in the code. The hash, the signature and its verification
-- are libsodium's: they are parameters. `ac_chain_accept_block` takes the clock and the writes that succeed
-- as arguments and returns the chain it leaves with its answer; a division by zero, which would end the
-- process, is an outer `none`, also for the operations of consensus. These take the clock and the writes as
-- an `Env`, since the mutex is held around each, and append what they broadcast to the field `sent`; the
-- proposal of a slot, which takes the mutex once its block is built, is one operation too. A step of Runs is
-- one of them, or a change of the chain or the pool by another thread.
--
-- Bounds. The binary search runs on fuel, the length of the array, and of the loops of the square
-- root Newton's on one round more than its estimate and the last on the distance to its end: all are proved
-- to be enough. All other recursion is structural. The
-- buffers of 512 and 2048 bytes, the 8192 entries of the mempool and the gas and fee constants are the
-- source's.
--
-- Not modelled: allocation failure, since buffers grow or the process ends; locks, threads, files,
-- sockets, logging; how the operating system writes a file, which is a flag for each write; the
-- floating-point comparisons of the leader and committee draws, `qsort` and `bsearch`, which are parameters; the
-- reserve functions of the growing arrays; the loop over the slots with its sleeps; the network but for its
-- frames and queues; RPC and command line.
pub mod Base
pub mod Bytes
pub mod Codec
pub mod Table
pub mod Isqrt
pub mod Hex
pub mod State
pub mod Mempool
pub mod Chain
pub mod Crypto
pub mod Consensus
pub mod Network
