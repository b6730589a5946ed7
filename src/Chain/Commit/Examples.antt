-- ===== src/Chain/Commit/Examples.antt =====
-- Tests of the commit certificates of src/chain.c: three validators of one weight, two of which sign.
use agentchain.Base.{
  ℕ, ◌<◌, ◌^◌, ◌≡◌, ◌≢◌, refl, ap, true, List, [], ◌∷◌, arith, replicate, take, get_or,
}
use agentchain.Bytes.Compare.{bytes_eq, memcmp, bytes_order}
use agentchain.Bytes.Endian.{be8, be32, be64, rd64}
use agentchain.Codec.Block.{CommitSigner, committee_max}
use agentchain.Codec.Vote.{vote_message}
use agentchain.Crypto.{hash_multi, vrf_compute_beta, vrf_verify}
use agentchain.Isqrt.{isqrt_u64, newton, step_down, step_up}
use agentchain.State.{Account, state_get, acc_lookup}
use agentchain.State.Laws.{Sorted}
use agentchain.Table.{lookup, lookup_loop}
use agentchain.Table.Totals.{total}
use agentchain.Mempool.Order.{Pairwise}
use agentchain.Chain.Data.{Chain}
use agentchain.Chain.Live.{
  each_validator, sum_sqrt_stake_cb, total_sqrt_stake, live_is_within_window, live_sum,
  live_sqrt_stake,
}
use agentchain.Chain.Seed.{
  epoch_of, compute_genesis_seed, compute_epoch_seed, epoch_seed, committee_alpha,
  committee_eligible,
}
use agentchain.Chain.Commit.{
  pre_table, pre_stake_lookup, signer_weight, signed_sqrt, thresholds, validate_commit,
}
use agentchain.Chain.Commit.Power.{power, total_power, OtherSigner}
use agentchain.Chain.Commit.Intersect.{Shared, quorum_intersection}
use agentchain.Chain.Accept.Samples.{
  constant, signed_all, drawn_all, at_genesis, empty_block, zeros,
}

abbrev bonded : ℕ → Account
bonded k = record {
  addr = replicate 32 k;
  balance = 0;
  nonce = 0;
  stake = 100_000_000;
  unbond_at = 0;
}

abbrev three : Chain
three = record at_genesis {
  state = record { chain_id = 1; accounts = bonded 1 ∷ bonded 2 ∷ bonded 3 ∷ []; names = [] };
  live_map =
      record { addr = replicate 32 1; last_sign_height = 0 }
      ∷ record { addr = replicate 32 2; last_sign_height = 0 }
      ∷ record { addr = replicate 32 3; last_sign_height = 0 }
      ∷ [];
}

abbrev signed_by : ℕ → CommitSigner
signed_by k = record { signer = replicate 32 k; sig = replicate 64 0; vrf_proof = replicate 64 0 }

abbrev first_two : List CommitSigner
first_two = signed_by 1 ∷ signed_by 2 ∷ []

abbrev last_two : List CommitSigner
last_two = signed_by 2 ∷ signed_by 3 ∷ []

other_keys : (j k : ℕ) → j ≢ k → replicate 32 j ≢ replicate 32 k
other_keys j k h e = h (ap (λ l. get_or l 0 0) e)

first_two-apart : Pairwise OtherSigner first_two
first_two-apart = ((other_keys 1 2 (omega arith), tt), (tt, tt))

last_two-apart : Pairwise OtherSigner last_two
last_two-apart = ((other_keys 2 3 (omega arith), tt), (tt, tt))

three-Sorted : Sorted three.state
unfolding bytes_order memcmp
three-Sorted = (refl, (refl, (tt, tt)))

three_power : total_power three.state < 2 ^ 63
unfolding total_power total power isqrt_u64 newton step_down step_up
three_power = omega arith

first_two_win :
    (validate_commit constant signed_all drawn_all three
      (empty_block first_two)
      zeros
      (total_sqrt_stake three)
      (pre_table three.state (take committee_max first_two))).1
    ≡ true
unfolding validate_commit be8 be32 be64 rd64 bytes_eq memcmp bytes_order pre_table pre_stake_lookup
    signer_weight signed_sqrt thresholds state_get acc_lookup lookup lookup_loop hash_multi
    vrf_compute_beta vrf_verify epoch_of compute_genesis_seed compute_epoch_seed epoch_seed
    committee_alpha committee_eligible each_validator sum_sqrt_stake_cb total_sqrt_stake
    live_is_within_window live_sum live_sqrt_stake isqrt_u64 newton step_down step_up vote_message
first_two_win = refl

-- The two certificates are for different blocks, on chains that differ in the hash of the tip.
last_two_win :
    (validate_commit constant signed_all drawn_all
      (record three { tip_hash = replicate 32 9 })
      (empty_block last_two)
      (replicate 32 9)
      (total_sqrt_stake three)
      (pre_table three.state (take committee_max last_two))).1
    ≡ true
unfolding validate_commit be8 be32 be64 rd64 bytes_eq memcmp bytes_order pre_table pre_stake_lookup
    signer_weight signed_sqrt thresholds state_get acc_lookup lookup lookup_loop hash_multi
    vrf_compute_beta vrf_verify epoch_of compute_genesis_seed compute_epoch_seed epoch_seed
    committee_alpha committee_eligible each_validator sum_sqrt_stake_cb total_sqrt_stake
    live_is_within_window live_sum live_sqrt_stake isqrt_u64 newton step_down step_up vote_message
last_two_win = refl

quorum_intersection_example : Shared first_two last_two
quorum_intersection_example =
    quorum_intersection constant signed_all drawn_all three three
      (record three { tip_hash = replicate 32 9 }) (empty_block first_two) (empty_block last_two)
      zeros (replicate 32 9) three-Sorted three_power first_two-apart last_two-apart first_two_win
      last_two_win
