-- ===== src/Consensus/Examples.antt =====
-- Tests of src/consensus.c: a vote that moves to a block of lower priority, a choice, a ballot, a seal.
use agentchain.Base.{
  ℕ, ◌≤◌, ◌≡◌, refl, Bool, true, false, none, some, [], ◌∷◌, ◌++◌, arith, replicate, if◌then◌else◌,
  ◌==◌,
}
use agentchain.Bytes.Compare.{Bytes, memcmp, bytes_eq, bytes_order}
use agentchain.Bytes.Endian.{be8, be32, be64, rd64}
use agentchain.Codec.Block.{CommitSigner}
use agentchain.Codec.Vote.{vote_message}
use agentchain.Crypto.{hash_multi, vrf_compute_beta, vrf_prove, vrf_verify}
use agentchain.Isqrt.{isqrt_u64, newton, step_down, step_up}
use agentchain.Mempool.{mempool_new}
use agentchain.State.{Account, state_get, acc_lookup}
use agentchain.Table.{lookup, lookup_loop}
use agentchain.Chain.Data.{Chain, current_slot}
use agentchain.Chain.Live.{
  each_validator, sum_sqrt_stake_cb, total_sqrt_stake, live_is_within_window, live_sum,
  live_sqrt_stake,
}
use agentchain.Chain.Seed.{epoch_of, epoch_seed, committee_alpha, committee_eligible}
use agentchain.Consensus.{Pending, SlotVote, Consensus, Env, Vote, fresh, vote_encode, vote_decode}
use agentchain.Consensus.Votes.{
  slot_from, slot_vote_for, priority_cmp, has_signer, add_signer, enter_vote, am_i_committee,
  cast_vote, our_vote_now,
}
use agentchain.Consensus.Seal.{sum_signers, quorum, seal_pending, try_commit_inner, try_commit}
use agentchain.Consensus.Slots.{best_from, move_vote, choose_vote, vote_phase}
use agentchain.Consensus.Choice.{BestOf, best_from-BestOf}
use agentchain.Consensus.Sealed.{IsSealed, seal-IsSealed}
use agentchain.Mempool.Pool.{IsPool}
use agentchain.Chain.Accept.Samples.{
  constant, signed_all, drawn_all, alice, at_genesis, alice_vote, empty_block, all_written, left,
  run, accepted,
}
use agentchain.Consensus.Wire.{vote_decode-encode}
use agentchain.Consensus.Runs.{vote, start, later, Advances, run-Advances}

abbrev sign_all : Bytes → Bytes
sign_all m = replicate 64 0

abbrev leads_all : ℕ → ℕ → Bool
leads_all draw nactive = true

abbrev carol : Bytes
carol = replicate 32 3

abbrev carol_account : Account
carol_account = record { addr = carol; balance = 0; nonce = 0; stake = 100_000_000; unbond_at = 0 }

abbrev genesis : Chain
genesis = record {
  state = record { chain_id = 1; accounts = carol_account ∷ []; names = [] };
  chain_id = 1;
  height = 0;
  tip_hash = replicate 32 0;
  last_slot = 0;
  last_timestamp_ms = 0;
  base_fee = 1;
  genesis_timestamp_ms = 100_000;
  cached_epoch = 0;
  cached_seed = replicate 32 0;
  cached_valid = true;
  tx_index = [];
  tx_index_sorted = true;
  addr_index = [];
  addr_index_sorted = true;
  live_map = record { addr = carol; last_sign_height = 0 } ∷ [];
  disk = record { blocks = λ h. none; meta = none; snapshot = none };
}

-- A proposal for the height 1 with a hash and a priority of one repeated byte.
abbrev proposed : ℕ → ℕ → Pending
proposed h priority = record (fresh 101_000) {
  height = 1;
  slot = 1;
  block_hash = replicate 32 h;
  priority = replicate 16 priority;
}

abbrev unused : SlotVote
unused = record {
  slot = 0;
  best_priority = replicate 16 0;
  voted_block = replicate 32 0;
  voted = false;
}

-- The vote stands for the first of two proposals, which has the higher priority value.
abbrev backing : Consensus
backing = record {
  chain = genesis;
  mempool = mempool_new 1;
  my_addr = carol;
  bcast = true;
  validator = true;
  pending = proposed 7 5 ∷ proposed 8 3 ∷ [];
  slot_votes = unused ∷ unused ∷ [];
  last_hdrs_req_ms = 0;
  last_hdrs_req_target = 0;
  vote_height = 1;
  vote_block = replicate 32 7;
  vote_priority = replicate 16 5;
  sent = [];
}

abbrev clock : Env
clock = record {
  now = 103_000;
  writes = record { block_ok = true; snapshot_ok = true; meta_ok = true };
}

abbrev carol_vote : CommitSigner
carol_vote = record { signer = carol; sig = replicate 64 0; vrf_proof = replicate 64 0 }

abbrev voted : Consensus
voted = record backing {
  pending =
      proposed 7 5
      ∷ record (proposed 8 3) { signers = carol_vote ∷ []; threshold_reached_ms = 103_000 }
      ∷ [];
  slot_votes =
      record unused { slot = 2; best_priority = replicate 16 255 }
      ∷ record {
        slot = 1;
        best_priority = replicate 16 3;
        voted_block = replicate 32 8;
        voted = true;
      }
      ∷ [];
  vote_block = replicate 32 8;
  vote_priority = replicate 16 3;
  sent =
      record {
        kind = 8;
        payload = be64 1 ++ (replicate 32 8 ++ (carol ++ (replicate 64 0 ++ replicate 64 0)));
      }
      ∷ [];
}

voting : vote_phase constant signed_all sign_all drawn_all clock backing 2 ≡ some voted
unfolding vote_phase choose_vote slot_vote_for slot_from best_from priority_cmp memcmp move_vote
    our_vote_now am_i_committee epoch_seed epoch_of committee_alpha committee_eligible
    total_sqrt_stake each_validator sum_sqrt_stake_cb isqrt_u64 newton step_down step_up vrf_prove
    vrf_verify vrf_compute_beta hash_multi state_get acc_lookup lookup lookup_loop bytes_order
    bytes_eq cast_vote enter_vote has_signer add_signer vote_encode vote_message try_commit
    try_commit_inner sum_signers quorum seal_pending live_sqrt_stake live_sum live_is_within_window
    current_slot be8 be32 be64 rd64
voting = refl

run-Advances_example : 1 ≤ 1 × 0 ≤ 0 × Advances backing voted
run-Advances_example =
    run-Advances constant signed_all sign_all drawn_all leads_all backing voted
      (later start (vote clock 2 voting)) (omega arith) (omega arith)

best_from-BestOf_example : BestOf (proposed 7 5 ∷ proposed 8 3 ∷ []) 1 2 (some (1, proposed 8 3))
unfolding best_from priority_cmp memcmp
best_from-BestOf_example = best_from-BestOf (proposed 7 5 ∷ proposed 8 3 ∷ []) 1

abbrev ballot : Vote
ballot = record {
  height = 1;
  block_hash = replicate 32 8;
  signer = carol;
  sig = replicate 64 0;
  proof = replicate 64 0;
}

vote_decode-encode_example : vote_decode (vote_encode ballot) ≡ some ballot
vote_decode-encode_example =
    vote_decode-encode ballot
      (record { height = omega arith; block_hash = refl; signer = refl; sig = refl; proof = refl })

-- Alice's own block with her vote, pending.
abbrev ready : Pending
ready = record (fresh 106_000) {
  height = 1;
  slot = 3;
  block_hash = replicate 32 8;
  block = empty_block [];
  signers = alice_vote ∷ [];
}

abbrev waiting : Consensus
waiting = record backing { chain = at_genesis; my_addr = alice; pending = ready ∷ [] }

abbrev written_clock : Env
written_clock = record { now = 107_000; writes = all_written }

no_entries : IsPool (mempool_new 1).entries
unfolding mempool_new
no_entries = record { bounded = omega arith; falling = tt; apart = tt; tipped = tt }

ready-quorum :
    quorum
      (if live_sqrt_stake at_genesis == 0
        then total_sqrt_stake at_genesis
        else live_sqrt_stake at_genesis)
      (total_sqrt_stake at_genesis)
      (sum_signers at_genesis.state (alice_vote ∷ []) 0)
    ≡ true
unfolding total_sqrt_stake each_validator sum_sqrt_stake_cb isqrt_u64 newton step_down step_up
    state_get acc_lookup lookup lookup_loop bytes_order bytes_eq memcmp sum_signers quorum
    live_sqrt_stake live_sum live_is_within_window
ready-quorum = refl

seal-IsSealed_example :
    (cs' : Consensus) × try_commit_inner constant signed_all drawn_all written_clock waiting 0 true
      ≡ some cs'
    × IsSealed constant signed_all drawn_all waiting 0 (empty_block (alice_vote ∷ [])) cs'
seal-IsSealed_example =
    seal-IsSealed constant signed_all drawn_all written_clock waiting 0 ready
      (left (run (alice_vote ∷ []))) refl refl ready-quorum accepted no_entries
