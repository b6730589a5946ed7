-- ===== src/Chain/Accept/Examples.antt =====
-- Tests of src/chain.c: a chain of one validator, at genesis, and blocks on it.
use agentchain.Base.{
  ◌+◌, ◌≡◌, refl, true, Option, none, some, [], ◌∷◌, arith, ◌*◌, length, ltb, if◌then◌else◌,
}
use agentchain.Bytes.Compare.{bytes_eq, memcmp, bytes_order}
use agentchain.Codec.Block.{block_encode, encode_txs, Block}
use agentchain.State.{
  state_get, acc_lookup, state_set, account_is_empty, state_credit, state_debit, state_new,
}
use agentchain.Chain.Data.{slot_time_ms, block_write, meta_save, Chain}
use agentchain.Chain.Accept.{
  Accept, run_txs, pay_leader, expected_base_fee, check_header, base_fee_refused, commit_block,
  execute_block, rollback, bad_commit, accept_block,
}
use agentchain.Bytes.Endian.{be8, be32, be64, rd64}
use agentchain.Chain.Commit.{
  validate_proposer_vrf, pre_table, pre_stake_lookup, signer_weight, signed_sqrt, thresholds,
  validate_commit,
}
use agentchain.Table.{lookup, lookup_loop}
use agentchain.Crypto.{hash_multi, vrf_compute_beta, vrf_verify, vrf_prove, vrf_verify-prove}
use agentchain.Chain.Seed.{
  epoch_of, compute_genesis_seed, compute_epoch_seed, epoch_seed, leader_alpha, committee_alpha,
  committee_eligible,
}
use agentchain.Codec.Header.{block_header_encode, block_hash, block_tx_root}
use agentchain.Codec.Cursor.{wput, writes, written}
use agentchain.State.Snapshot.{state_root, state_serialize, state_deserialize}
use agentchain.Chain.{block_reward}
use agentchain.Chain.Live.{
  each_validator, sum_sqrt_stake_cb, total_sqrt_stake, record_in, live_record_signer,
  record_signers, live_is_within_window, live_sum, live_sqrt_stake, max_live,
}
use agentchain.Isqrt.{isqrt_u64, newton, step_down, step_up}
use agentchain.Chain.Index.{record_txs, index_txs}
use agentchain.Codec.Vote.{vote_message}
use agentchain.State.Laws.{IsValid}
use agentchain.State.Snapshot.RoundTrip.{IsAccount, IsStorable, deserialize-serialize}
use agentchain.Chain.Accept.Steps.{SameChain}
use agentchain.Chain.Accept.Cached.{accept_block-IsCached}
use agentchain.Chain.Accept.Refused.{accept_block_undone}
use agentchain.Chain.Accept.Extends.{Follows, Extends, accept_block_ok}
use agentchain.Chain.Commit.Quorum.{repeated, signed-repeated}
use agentchain.Chain.Live.Map.{
  IsLiveMap, record_signers-IsLiveMap, recorded, noted, recorded-live_record_signer,
}
use agentchain.Chain.Seed.Cache.{IsCached}
use agentchain.Chain.Build.{build_block, building_base_fee, assemble_block, select_txs}
use agentchain.Chain.Accept.Samples.{
  constant, signed_all, drawn_all, alice, alice_account, one, at_genesis, alice_vote, empty_block,
  all_written, left, run, accepted, unsigned,
}
use agentchain.Chain.Build.Agree.{Agrees, build_block-Agrees}

one-IsValid : IsValid one
unfolding account_is_empty
one-IsValid = record { sorted = (tt, tt); stored = (refl, tt); names_sorted = tt; names_valid = tt }

alice-IsAccount : IsAccount alice_account
alice-IsAccount = record {
  addr = refl;
  balance = omega arith;
  nonce = omega arith;
  stake = omega arith;
  unbond_at = omega arith;
}

one-IsStorable : IsStorable one
one-IsStorable = record {
  chain_id = omega arith;
  accounts = (alice-IsAccount, tt);
  names = tt;
  accounts_n = omega arith;
  names_n = omega arith;
}

accept_block_ok_example :
    Follows at_genesis (empty_block (alice_vote ∷ [])).header
    × Extends constant signed_all drawn_all at_genesis
        (empty_block (alice_vote ∷ []))
        (left (run (alice_vote ∷ [])))
accept_block_ok_example =
    accept_block_ok constant signed_all drawn_all at_genesis (left (run (alice_vote ∷ [])))
      (empty_block (alice_vote ∷ [])) 107_000 all_written accepted

accept_block_undone_example : SameChain at_genesis (left (run []))
accept_block_undone_example =
    accept_block_undone constant signed_all drawn_all at_genesis (left (run [])) (empty_block [])
      107_000 all_written bad_commit one-IsValid one-IsStorable unsigned (λ e. cc) (λ e. cc)

alice_weighs :
    signer_weight constant signed_all drawn_all [] [] 30_000
      (record { addr = alice; stake = 100_000_000 } ∷ [])
      alice_vote
    ≡ some 10_000
unfolding accept_block bytes_eq memcmp bytes_order be8 be32 be64 rd64 slot_time_ms block_write
    meta_save validate_proposer_vrf pre_table pre_stake_lookup signer_weight signed_sqrt thresholds
    validate_commit state_get acc_lookup state_set account_is_empty state_credit state_debit lookup
    lookup_loop hash_multi vrf_compute_beta vrf_verify run_txs pay_leader expected_base_fee
    check_header base_fee_refused commit_block execute_block rollback epoch_of compute_genesis_seed
    compute_epoch_seed epoch_seed leader_alpha committee_alpha committee_eligible
    block_header_encode block_hash block_tx_root block_encode encode_txs wput writes written
    state_root block_reward each_validator sum_sqrt_stake_cb total_sqrt_stake record_in
    live_record_signer record_signers live_is_within_window live_sum live_sqrt_stake isqrt_u64
    newton step_down step_up record_txs index_txs vote_message
alice_weighs = refl

-- Listed three times, a third of the weight passes for all of it.
signed-repeated_example :
    signed_sqrt constant signed_all drawn_all [] [] 30_000
      (record { addr = alice; stake = 100_000_000 } ∷ [])
      (repeated 3 alice_vote)
      0
    ≡ some (0 + 3 * 10_000)
signed-repeated_example =
    signed-repeated constant signed_all drawn_all [] [] 30_000
      (record { addr = alice; stake = 100_000_000 } ∷ []) alice_vote 10_000 3 0 alice_weighs
      (omega arith)

live_one : IsLiveMap at_genesis.live_map
live_one = record { bounded = omega arith; apart = (tt, tt) }

record_signers-IsLiveMap_example :
    IsLiveMap (record_signers at_genesis.live_map (alice_vote ∷ []) 1)
record_signers-IsLiveMap_example =
    record_signers-IsLiveMap at_genesis.live_map (alice_vote ∷ []) 1 live_one

recorded-live_record_signer_example :
    recorded (live_record_signer at_genesis.live_map alice 9) alice ≡ (
      if bytes_eq alice alice
      then noted (recorded at_genesis.live_map alice) (ltb (length at_genesis.live_map) max_live) 9
      else recorded at_genesis.live_map alice)
recorded-live_record_signer_example = recorded-live_record_signer at_genesis.live_map alice 9 alice

-- The chain once the first seed has been asked for, so that its cache holds it.
abbrev primed : Chain
primed = record at_genesis {
  cached_seed = compute_epoch_seed constant at_genesis 0;
  cached_valid = true;
}

primed-IsCached : IsCached constant primed
unfolding compute_epoch_seed
primed-IsCached e = refl

abbrev unsigned_again : Option (Chain × Accept)
unsigned_again =
    accept_block constant signed_all drawn_all primed (empty_block []) 107_000 all_written

refused_again : unsigned_again ≡ some (left unsigned_again, bad_commit)
unfolding accept_block bytes_eq memcmp bytes_order be8 be32 be64 rd64 slot_time_ms block_write
    meta_save validate_proposer_vrf pre_table pre_stake_lookup signer_weight signed_sqrt thresholds
    validate_commit state_get acc_lookup state_set account_is_empty state_credit state_debit lookup
    lookup_loop hash_multi vrf_compute_beta vrf_verify run_txs pay_leader expected_base_fee
    check_header base_fee_refused commit_block execute_block rollback epoch_of compute_genesis_seed
    compute_epoch_seed epoch_seed leader_alpha committee_alpha committee_eligible
    block_header_encode block_hash block_tx_root block_encode encode_txs wput writes written
    state_root block_reward each_validator sum_sqrt_stake_cb total_sqrt_stake record_in
    live_record_signer record_signers live_is_within_window live_sum live_sqrt_stake isqrt_u64
    newton step_down step_up record_txs index_txs vote_message
refused_again = refl

accept_block-IsCached_example :
    ((epoch_seed constant (left unsigned_again) 0).1
      ≡ compute_epoch_seed constant (left unsigned_again) 0)
    × IsCached constant (left unsigned_again)
    × IsCached constant (epoch_seed constant (left unsigned_again) 0).0
accept_block-IsCached_example =
    accept_block-IsCached constant signed_all drawn_all primed (left unsigned_again)
      (empty_block []) 107_000 all_written bad_commit primed-IsCached refused_again (λ e. cc) 0

deserialize-serialize_example : state_deserialize (state_new 1) (state_serialize one) ≡ (one, true)
unfolding state_new
deserialize-serialize_example =
    deserialize-serialize one (state_new 1) one-IsValid one-IsStorable refl

abbrev built : Option (Chain × Option Block)
built = build_block constant signed_all constant alice at_genesis 3 []

abbrev built_chain : Option (Chain × Option Block) → Chain
built_chain none = at_genesis
built_chain (some (d, o)) = d

abbrev built_block : Option (Chain × Option Block) → Block
built_block none = empty_block []
built_block (some (d, none)) = empty_block []
built_block (some (d, some b)) = b

builds : built ≡ some (built_chain built, some (built_block built))
unfolding accept_block bytes_eq memcmp bytes_order be8 be32 be64 rd64 slot_time_ms block_write
    meta_save validate_proposer_vrf pre_table pre_stake_lookup signer_weight signed_sqrt thresholds
    validate_commit state_get acc_lookup state_set account_is_empty state_credit state_debit lookup
    lookup_loop hash_multi vrf_compute_beta vrf_verify run_txs pay_leader expected_base_fee
    check_header base_fee_refused commit_block execute_block rollback epoch_of compute_genesis_seed
    compute_epoch_seed epoch_seed leader_alpha committee_alpha committee_eligible
    block_header_encode block_hash block_tx_root block_encode encode_txs wput writes written
    state_root block_reward each_validator sum_sqrt_stake_cb total_sqrt_stake record_in
    live_record_signer record_signers live_is_within_window live_sum live_sqrt_stake isqrt_u64
    newton step_down step_up record_txs index_txs vote_message build_block building_base_fee
    assemble_block select_txs vrf_prove
builds = refl

build_block-Agrees_example :
    SameChain at_genesis (built_chain built)
    × Agrees constant signed_all drawn_all at_genesis 3 (built_block built)
build_block-Agrees_example =
    build_block-Agrees constant signed_all drawn_all constant alice at_genesis (built_chain built) 3
      [] (built_block built) one-IsValid one-IsStorable tt builds

vrf_verify-prove_example :
    vrf_verify constant signed_all (vrf_prove constant constant (7 ∷ [])).0 (7 ∷ []) alice
    ≡ some (vrf_prove constant constant (7 ∷ [])).1
vrf_verify-prove_example = vrf_verify-prove constant constant signed_all alice (λ m. refl) (7 ∷ [])
