-- ===== src/State/Apply.antt =====
-- `ac_state_apply_tx` of src/state.c: the transition for one transaction, from the checks and the
-- `switch` of the modules `Checks` and `Body`. `verify sig m pk` stands for `ac_verify`.
pub mod Checks
pub mod Body
pub mod Outcomes
pub mod Accepted
pub mod Safety
pub mod Transfer
pub mod SelfTransfer
pub mod Fees
use agentchain.Base.{ℕ, ◌-◌, Bool, true, false, ltb, add64, mul64, if◌then◌else◌}
use agentchain.Bytes.Compare.{Bytes}
use agentchain.Codec.Tx.{Tx}
use agentchain.State.{State, state_get, state_set}
use agentchain.State.Apply.Checks.{ApplyError, no_error, refuse, accept, check_tx}
use agentchain.State.Apply.Body.{Run, run_body}

pub record ApplyResult : Type 0 where
  pub ok : Bool
  pub gas_used : ℕ
  pub fee_burned : ℕ
  pub fee_tip : ℕ
  pub err : ApplyError

-- What `ac_state_apply_tx` returns: -1, 1 and 0.
pub data Outcome : Type 0 where
  rejected body_failed applied : Outcome

pub record Applied : Type 0 where
  pub state : State
  pub result : ApplyResult
  pub outcome : Outcome

abbrev pub is_done : ApplyError → Bool
is_done no_error = true
is_done _ = false

-- Charging the gas, and writing the sender back.
unfoldable pub settle : Run → Tx → ℕ → Applied
settle r tx base_fee =
    let gas = if ltb tx.gas_limit r.charged_gas then tx.gas_limit else r.charged_gas in
    let burned = mul64 gas base_fee in
    let tip = mul64 gas tx.tip in
    let total = add64 burned tip in
    let left = if ltb r.sender.balance total then 0 else r.sender.balance - total in
    let done = is_done r.body_err in
    record {
      state = state_set r.state (record (r.sender) { addr = tx.sender; balance = left });
      result = record {
        ok = done;
        gas_used = gas;
        fee_burned = add64 r.burned burned;
        fee_tip = tip;
        err = r.body_err;
      };
      outcome = if done then applied else body_failed;
    }

-- The run that the `switch` starts from: the nonce has advanced.
abbrev pub entered : State → Tx → ℕ → Run
entered s tx needed =
    let sender = (state_get s tx.sender).0 in
    record {
      state = s;
      sender = record sender { nonce = add64 sender.nonce 1 };
      charged_gas = needed;
      burned = 0;
      body_err = no_error;
    }

module _ (verify : Bytes → Bytes → Bytes → Bool) where
  unfoldable pub state_apply_tx : State → Tx → ℕ → ℕ → Applied
  state_apply_tx s tx slot base_fee = elim (check_tx s tx slot base_fee) [
    | refuse e ↦ record {
      state = s;
      result = record { ok = false; gas_used = 0; fee_burned = 0; fee_tip = 0; err = e };
      outcome = rejected;
    }
    | accept needed ↦ settle (run_body verify (entered s tx needed) tx slot) tx base_fee
  ]
