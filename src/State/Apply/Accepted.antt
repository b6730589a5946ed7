-- ===== src/State/Apply/Accepted.antt =====
-- `ac_state_apply_tx` of src/state.c: what the checks have established when they let a transaction
-- through.
use agentchain.Base.{ℕ, ◌≤◌, ◌≡◌, false, some, arith, length, inl, inr, Option-cases, add64, mul64}
use agentchain.Codec.Tx.{Tx, tx_intrinsic_gas}
use agentchain.State.{Account, State, state_get}
use agentchain.State.Apply.Checks.{
  accept, check_tx, check_funds, transfer_value, fee_overflows, lacks_funds,
}

abbrev MeetsFunds : Account → Tx → ℕ → Type 0
MeetsFunds sender tx base_fee =
    (fee_overflows tx.gas_limit (add64 base_fee tx.tip) ≡ false)
    × ((value : ℕ) × (transfer_value tx ≡ some value)
        × (lacks_funds sender.balance (mul64 tx.gas_limit (add64 base_fee tx.tip)) value ≡ false))

pub funds-accept :
    (sender : Account) (tx : Tx) (base_fee needed n : ℕ)
    → check_funds sender tx base_fee needed ≡ accept n
    → (n ≡ needed) × MeetsFunds sender tx base_fee
unfolding check_funds
funds-accept sender tx base_fee needed n h = ground arith

pub check-accept :
    (s : State) (tx : Tx) (slot base_fee n : ℕ)
    → check_tx s tx slot base_fee ≡ accept n
    → (tx.nonce ≡ (state_get s tx.sender).0.nonce)
      × ((igas : ℕ) × (tx_intrinsic_gas tx.kind ≡ some igas)
          × (n ≡ add64 igas (length tx.memo))
          × (n ≤ tx.gas_limit)
          × MeetsFunds (state_get s tx.sender).0 tx base_fee)
unfolding check_tx
check-accept s tx slot base_fee n h = elim (Option-cases (tx_intrinsic_gas tx.kind)) [
  | inl e ↦ ground arith
  | inr (g, e) ↦
      ground
        (arith, e, funds-accept (state_get s tx.sender).0 tx base_fee (add64 g (length tx.memo)) n)
]
