-- ===== src/Chain/Accept/Samples.antt =====
-- A chain of one validator, at genesis, and src/chain.c's answers to blocks on it, for the tests.
use agentchain.Base.{ℕ, ◌≡◌, refl, Bool, true, false, Option, none, some, List, [], ◌∷◌, replicate}
use agentchain.Bytes.Compare.{bytes_eq, memcmp, bytes_order, Bytes}
use agentchain.Codec.Block.{block_encode, encode_txs, CommitSigner, Block}
use agentchain.State.{
  state_get, acc_lookup, state_set, account_is_empty, state_credit, state_debit, Account, State,
}
use agentchain.Chain.Data.{slot_time_ms, block_write, meta_save, Chain, Writes}
use agentchain.Chain.Accept.{
  run_txs, pay_leader, expected_base_fee, check_header, base_fee_refused, commit_block,
  execute_block, rollback, Accept, accept_ok, bad_commit, accept_block,
}
use agentchain.Bytes.Endian.{be8, be32, be64, rd64}
use agentchain.Chain.Commit.{
  validate_proposer_vrf, pre_table, pre_stake_lookup, signer_weight, signed_sqrt, thresholds,
  validate_commit,
}
use agentchain.Table.{lookup, lookup_loop}
use agentchain.Crypto.{hash_multi, vrf_compute_beta, vrf_verify}
use agentchain.Chain.Seed.{
  epoch_of, compute_genesis_seed, compute_epoch_seed, epoch_seed, leader_alpha, committee_alpha,
  committee_eligible,
}
use agentchain.Codec.Header.{block_header_encode, block_hash, block_tx_root}
use agentchain.Codec.Cursor.{wput, writes, written}
use agentchain.State.Snapshot.{state_root}
use agentchain.Chain.{block_reward}
use agentchain.Chain.Live.{
  each_validator, sum_sqrt_stake_cb, total_sqrt_stake, record_in, live_record_signer,
  record_signers, live_is_within_window, live_sum, live_sqrt_stake,
}
use agentchain.Isqrt.{isqrt_u64, newton, step_down, step_up}
use agentchain.Chain.Index.{record_txs, index_txs}
use agentchain.Codec.Vote.{vote_message}
use agentchain.Table.Totals.{total}

abbrev pub zeros : Bytes
zeros = replicate 32 0

abbrev pub constant : Bytes → Bytes
constant b = zeros

abbrev pub signed_all : Bytes → Bytes → Bytes → Bool
signed_all sig m pk = true

abbrev pub drawn_all : ℕ → ℕ → ℕ → Bool
drawn_all draw sqrt total = true

abbrev pub alice : Bytes
alice = replicate 32 1

abbrev pub alice_account : Account
alice_account = record {
  addr = alice;
  balance = 5000;
  nonce = 0;
  stake = 100_000_000;
  unbond_at = 0;
}

abbrev pub one : State
one = record { chain_id = 1; accounts = alice_account ∷ []; names = [] }

abbrev pub at_genesis : Chain
at_genesis = record {
  state = one;
  chain_id = 1;
  height = 0;
  tip_hash = zeros;
  last_slot = 0;
  last_timestamp_ms = 0;
  base_fee = 1;
  genesis_timestamp_ms = 100_000;
  cached_epoch = 0;
  cached_seed = zeros;
  cached_valid = false;
  tx_index = [];
  tx_index_sorted = true;
  addr_index = [];
  addr_index_sorted = true;
  live_map = record { addr = alice; last_sign_height = 0 } ∷ [];
  disk = record { blocks = λ h. none; meta = none; snapshot = none };
}

abbrev pub alice_vote : CommitSigner
alice_vote = record { signer = alice; sig = replicate 64 0; vrf_proof = replicate 64 0 }

abbrev pub empty_block : List CommitSigner → Block
empty_block signers = record {
  header = record {
    version = 1;
    height = 1;
    slot = 3;
    parent_hash = zeros;
    timestamp_ms = 106_000;
    proposer = alice;
    proposer_vrf_proof = replicate 64 0;
    state_root = zeros;
    tx_root = zeros;
    base_fee = 1;
    gas_used = 0;
    gas_limit = 30_000_000;
    tx_count = 0;
  };
  txs = [];
  signers = signers;
}

abbrev pub all_written : Writes
all_written = record { block_ok = true; snapshot_ok = true; meta_ok = true }

abbrev pub answer : Option (Chain × Accept) → Option Accept
answer none = none
answer (some (d, r)) = some r

abbrev pub left : Option (Chain × Accept) → Chain
left none = at_genesis
left (some (d, r)) = d

abbrev pub run : List CommitSigner → Option (Chain × Accept)
run signers =
    accept_block constant signed_all drawn_all at_genesis (empty_block signers) 107_000 all_written

pub accepted : run (alice_vote ∷ []) ≡ some (left (run (alice_vote ∷ [])), accept_ok)
unfolding accept_block bytes_eq memcmp bytes_order be8 be32 be64 rd64 slot_time_ms block_write
    meta_save validate_proposer_vrf pre_table pre_stake_lookup signer_weight signed_sqrt thresholds
    validate_commit state_get acc_lookup state_set account_is_empty state_credit state_debit lookup
    lookup_loop hash_multi vrf_compute_beta vrf_verify run_txs pay_leader expected_base_fee
    check_header base_fee_refused commit_block execute_block rollback epoch_of compute_genesis_seed
    compute_epoch_seed epoch_seed leader_alpha committee_alpha committee_eligible
    block_header_encode block_hash block_tx_root block_encode encode_txs wput writes written
    state_root block_reward each_validator sum_sqrt_stake_cb total_sqrt_stake record_in
    live_record_signer record_signers live_is_within_window live_sum live_sqrt_stake isqrt_u64
    newton step_down step_up record_txs index_txs vote_message
accepted = refl

pub unsigned : run [] ≡ some (left (run []), bad_commit)
unfolding accept_block bytes_eq memcmp bytes_order be8 be32 be64 rd64 slot_time_ms block_write
    meta_save validate_proposer_vrf pre_table pre_stake_lookup signer_weight signed_sqrt thresholds
    validate_commit state_get acc_lookup state_set account_is_empty state_credit state_debit lookup
    lookup_loop hash_multi vrf_compute_beta vrf_verify run_txs pay_leader expected_base_fee
    check_header base_fee_refused commit_block execute_block rollback epoch_of compute_genesis_seed
    compute_epoch_seed epoch_seed leader_alpha committee_alpha committee_eligible
    block_header_encode block_hash block_tx_root block_encode encode_txs wput writes written
    state_root block_reward each_validator sum_sqrt_stake_cb total_sqrt_stake record_in
    live_record_signer record_signers live_is_within_window live_sum live_sqrt_stake isqrt_u64
    newton step_down step_up record_txs index_txs vote_message
unsigned = refl
