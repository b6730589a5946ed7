-- ===== src/State/Apply/Checks.antt =====
-- `ac_state_apply_tx` of src/state.c: the checks before anything is charged.
use agentchain.Base.{
  ℕ, ◌-◌, ◌/◌, ◌^◌, Bool, not, ◌&&◌, ◌||◌, Option, none, some, length, ltb, leb, ◌==◌, add64, mul64,
  if◌then◌else◌,
}
use agentchain.Codec.Body.{body_transfer_decode}
use agentchain.Codec.Tx.{Tx, tx_version, tx_transfer, tx_intrinsic_gas}
use agentchain.State.{Account, State, state_get}

-- The messages that `result->err` can hold.
pub data ApplyError : Type 0 where
  no_error bad_version wrong_chain_id expired bad_nonce unknown_kind gas_limit_too_low : ApplyError
  fee_overflow bad_body insufficient_balance out_of_gas insufficient insufficient_stake : ApplyError
  bad_name fee name_taken bad_evidence non_conflicting bad_signatures no_stake : ApplyError

-- The checks before anything is charged, with the gas that the transaction needs at least.
pub data Check : Type 0 where
  refuse : ApplyError → Check
  accept : ℕ → Check

-- The amount that a transfer moves; `none` if its body does not decode.
unfoldable pub transfer_value : Tx → Option ℕ
transfer_value tx =
    if tx.kind == tx_transfer
    then elim (body_transfer_decode tx.body) [ none ↦ none | some b ↦ some b.amount ]
    else some 0

-- `per_gas != 0 && gas_limit > UINT64_MAX / per_gas`.
unfoldable pub fee_overflows : ℕ → ℕ → Bool
fee_overflows gas_limit per_gas = not (per_gas == 0) && ltb ((2 ^ 64 - 1) / per_gas) gas_limit

-- `max_fee > UINT64_MAX - value || balance < max_fee + value`.
unfoldable pub lacks_funds : ℕ → ℕ → ℕ → Bool
lacks_funds balance max_fee value =
    ltb (2 ^ 64 - 1 - value) max_fee || ltb balance (add64 max_fee value)

-- The checks on the fee and the balance.
unfoldable pub check_funds : Account → Tx → ℕ → ℕ → Check
check_funds sender tx base_fee needed =
    let per_gas = add64 base_fee tx.tip in
    if fee_overflows tx.gas_limit per_gas then refuse fee_overflow else elim (transfer_value tx) [
      | none ↦ refuse bad_body
      | some value ↦
          if lacks_funds sender.balance (mul64 tx.gas_limit per_gas) value
          then refuse insufficient_balance
          else accept needed
    ]

unfoldable pub check_tx : State → Tx → ℕ → ℕ → Check
check_tx s tx slot base_fee =
    let sender = (state_get s tx.sender).0 in
    if not (tx.version == tx_version)
    then refuse bad_version
    else if not (tx.chain_id == s.chain_id)
    then refuse wrong_chain_id
    else if leb tx.valid_until slot
    then refuse expired
    else if not (tx.nonce == sender.nonce)
    then refuse bad_nonce
    else elim (tx_intrinsic_gas tx.kind) [
      | none ↦ refuse unknown_kind
      | some igas ↦
          let needed = add64 igas (length tx.memo) in
          if ltb tx.gas_limit needed
          then refuse gas_limit_too_low
          else check_funds sender tx base_fee needed
    ]
