-- ===== src/State/Apply/Body.antt =====
-- `ac_state_apply_tx` of src/state.c: the `switch` that executes the body. `verify sig m pk` stands
-- for `ac_verify`, which is libsodium's.
use agentchain.Base.{
  ℕ, ◌*◌, ◌/◌, Bool, not, ◌||◌, none, some, ltb, ◌==◌, add64, sub64, if◌then◌else◌,
}
use agentchain.Bytes.Compare.{Bytes, bytes_eq}
use agentchain.Codec.Body.{
  BodyTransfer, BodyStake, BodyName, BodySlash, body_transfer_decode, body_stake_decode,
  body_name_decode, body_slash_decode,
}
use agentchain.Codec.Tx.{
  Tx, tx_transfer, tx_stake_bond, tx_stake_unbond, tx_register_name, tx_slash_evidence,
}
use agentchain.Codec.Vote.{vote_message}
use agentchain.State.{Account, State, state_get, state_set, state_name_register}
use agentchain.State.Apply.Checks.{
  ApplyError, bad_body, unknown_kind, out_of_gas, insufficient, insufficient_stake, bad_name, fee,
  name_taken, bad_evidence, non_conflicting, bad_signatures, no_stake,
}

-- The locals of the `switch` at its end: the state, the copy of the sender's account, the gas
-- charged, what was added to `result->fee_burned`, and `body_err`, `no_error` while `body_ok`.
pub record Run : Type 0 where
  pub state : State
  pub sender : Account
  pub charged_gas : ℕ
  pub burned : ℕ
  pub body_err : ApplyError

abbrev pub stop : Run → ApplyError → Run
stop r e = record r { body_err = e }

unfoldable pub run_transfer : Run → Tx → BodyTransfer → Run
run_transfer r tx b =
    let (rcv, exists) = state_get r.state b.recipient in
    let charged = add64 r.charged_gas (if exists then 0 else 50) in
    if ltb tx.gas_limit charged
    then record r { charged_gas = charged; body_err = out_of_gas }
    else record r {
      state =
          state_set r.state
            (record rcv { addr = b.recipient; balance = add64 rcv.balance b.amount });
      sender = record (r.sender) { balance = sub64 r.sender.balance b.amount };
      charged_gas = charged;
    }

unfoldable pub run_bond : Run → BodyStake → Run
run_bond r b = if ltb r.sender.balance b.amount then stop r insufficient else record r {
  sender = record (r.sender) {
    balance = sub64 r.sender.balance b.amount;
    stake = add64 r.sender.stake b.amount;
  };
}

unfoldable pub run_unbond : Run → ℕ → BodyStake → Run
run_unbond r slot b = if ltb r.sender.stake b.amount then stop r insufficient_stake else record r {
  sender = record (r.sender) {
    stake = sub64 r.sender.stake b.amount;
    balance = add64 r.sender.balance b.amount;
    unbond_at = if r.sender.unbond_at == 0 then add64 slot (7200 * 6 / 24) else r.sender.unbond_at;
  };
}

abbrev pub name_fee : ℕ
name_fee = 1_000_000

unfoldable pub run_name : Run → Tx → BodyName → Run
run_name r tx b =
    if ltb r.sender.balance name_fee
    then stop r fee
    else elim (state_name_register r.state b.name tx.sender) [
      | none ↦ stop r name_taken
      | some s ↦ record r {
        state = s;
        sender = record (r.sender) { balance = sub64 r.sender.balance name_fee };
        burned = add64 r.burned name_fee;
      }
    ]

module _ (verify : Bytes → Bytes → Bytes → Bool) where
  unfoldable pub run_slash : Run → BodySlash → Run
  run_slash r b =
      if bytes_eq b.block_hash_a b.block_hash_b
      then stop r non_conflicting
      else if not (verify b.sig_a (vote_message b.height b.block_hash_a) b.validator)
          || not (verify b.sig_b (vote_message b.height b.block_hash_b) b.validator)
      then stop r bad_signatures
      else let v = (state_get r.state b.validator).0 in
        if v.stake == 0 then stop r no_stake else record r {
          state = state_set r.state (record v { stake = 0 });
          sender = record (r.sender) { balance = add64 r.sender.balance (v.stake / 2) };
        }

  -- The `switch` on the kind.
  unfoldable pub run_body : Run → Tx → ℕ → Run
  run_body r tx slot =
      if tx.kind == tx_transfer
      then elim (body_transfer_decode tx.body) [
        | none ↦ stop r bad_body
        | some b ↦ run_transfer r tx b
      ]
      else if tx.kind == tx_stake_bond
      then elim (body_stake_decode tx.body) [ none ↦ stop r bad_body | some b ↦ run_bond r b ]
      else if tx.kind == tx_stake_unbond
      then elim (body_stake_decode tx.body) [
        | none ↦ stop r bad_body
        | some b ↦ run_unbond r slot b
      ]
      else if tx.kind == tx_register_name
      then elim (body_name_decode tx.body) [ none ↦ stop r bad_name | some b ↦ run_name r tx b ]
      else if tx.kind == tx_slash_evidence
      then elim (body_slash_decode tx.body) [ none ↦ stop r bad_evidence | some b ↦ run_slash r b ]
      else stop r unknown_kind
