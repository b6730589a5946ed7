-- ===== src/State/Apply/SelfTransfer.antt =====
-- `ac_state_apply_tx` of src/state.c on a TRANSFER of the sender to itself.
use agentchain.Base.{
  ℕ, ◌+◌, ◌^◌, ◌≤◌, ◌<◌, ◌≡◌, refl, ap, Bool, true, some, arith, inl, inr, Bool-cases, add64, ltb,
  if◌then◌else◌,
}
use agentchain.Bytes.Compare.{Bytes}
use agentchain.Codec.Body.{BodyTransfer, body_transfer_decode}
use agentchain.Codec.Tx.{Tx, tx_transfer}
use agentchain.State.{Account, State, state_get, state_set}
use agentchain.State.Laws.{IsValid, Sorted, set-Sorted, get-set_self}
use agentchain.State.Supply.{wealth, supply, wealth_at, supply-set, wealth-le}
use agentchain.State.Apply.Checks.{ApplyError, no_error, accept, check_tx}
use agentchain.State.Apply.Body.{Run, run_transfer}
use agentchain.State.Apply.Safety.{Check-cases, apply-accept, apply-refuse}
use agentchain.State.Apply.Transfer.{run, fee_fits-run, supply-settle, body-transfer}
use agentchain.State.Apply.{applied, settle, entered, state_apply_tx, is_done}

module _ (r : Run) (tx : Tx) (b : BodyTransfer) (v : Sorted r.state)
    (self : b.recipient ≡ tx.sender) where
  abbrev moved : Run
  moved = run_transfer r tx b

  -- Either there was not enough gas, or the supply grew by what the account then holds more, and the
  -- copy paid the amount.
  self_moved :
      moved.body_err ≡ no_error
      → r.sender.balance < 2 ^ 64
      → b.amount ≤ r.sender.balance
      → (supply moved.state + wealth_at r.state tx.sender
          ≡ supply r.state + wealth_at moved.state tx.sender)
        × Sorted moved.state
        × (moved.burned ≡ r.burned)
        × (moved.sender.balance + b.amount ≡ r.sender.balance)
        × (moved.sender.stake ≡ r.sender.stake)
  unfolding run_transfer
  self_moved ok small enough =
      let e = (state_get r.state b.recipient).1 in
      let rcv = (state_get r.state b.recipient).0 in
      let acc : Account = record rcv { addr = b.recipient; balance = add64 rcv.balance b.amount } in
      let swap = supply-set r.state acc v in
      let held : wealth_at (state_set r.state acc) b.recipient ≡ wealth acc =
        ap (λ p. wealth p.0) (get-set_self r.state acc v) in
      elim (Bool-cases (ltb tx.gas_limit (add64 r.charged_gas (if e then 0 else 50)))) [
        | inl h ↦ absurd (ground (arith, h, ok))
        | inr h ↦
            rw (h, run_transfer, ← self)
              (
                omega (arith, swap, held),
                set-Sorted r.state _ v,
                refl,
                omega (arith, small, enough),
                refl,
              )
      ]

done-no_error : (e : ApplyError) → is_done e ≡ true → e ≡ no_error
done-no_error e h = ground arith

settle-applied :
    (r : Run) (tx : Tx) (base_fee : ℕ)
    → (settle r tx base_fee).outcome ≡ applied
    → r.body_err ≡ no_error
unfolding settle
settle-applied r tx base_fee h = elim (Bool-cases (is_done r.body_err)) [
  | inl y ↦ done-no_error r.body_err y
  | inr n ↦ ground (arith, h, n)
]

module _ (verify : Bytes → Bytes → Bytes → Bool) (s : State) (tx : Tx) (slot base_fee : ℕ)
    (b : BodyTransfer) where
  module _ (v : IsValid s) (k : tx.kind ≡ tx_transfer) (d : body_transfer_decode tx.body ≡ some b)
      (self : b.recipient ≡ tx.sender) (small : supply s < 2 ^ 64) (amount : b.amount < 2 ^ 64)
      (fee : base_fee + tx.tip < 2 ^ 64) (n : ℕ) (h : check_tx s tx slot base_fee ≡ accept n) where
    abbrev ran : Run
    ran = run verify s tx slot base_fee b n

    self-accept :
        (settle ran tx base_fee).outcome ≡ applied
        → supply (settle ran tx base_fee).state
            + ((settle ran tx base_fee).result.fee_burned + (settle ran tx base_fee).result.fee_tip)
            + b.amount
          ≡ supply s
    self-accept done =
        let (below, covered) = fee_fits-run verify s tx slot base_fee b k d amount fee n h in
        let most = wealth-le s tx.sender v.sorted in
        let (swap, sorted, burned, paid, staked) =
          self_moved (entered s tx n) tx b v.sorted self (settle-applied ran tx base_fee done)
            (omega (arith, most, small)) (omega (arith, covered)) in
        let last =
          supply-settle ran tx base_fee below (omega (arith, covered, paid)) sorted burned in
        omega (arith, swap, last, paid, staked)

  -- A transfer of an account of a valid state to itself that is applied destroys its amount: the
  -- supply after it, with the fees that the result reports as burned and as tip and with the amount,
  -- is the supply before it. The supply and the amount are below 2^64, the base fee and the tip
  -- together too.
  pub self_transfer-supply :
      IsValid s
      → tx.kind ≡ tx_transfer
      → body_transfer_decode tx.body ≡ some b
      → b.recipient ≡ tx.sender
      → supply s < 2 ^ 64
      → b.amount < 2 ^ 64
      → base_fee + tx.tip < 2 ^ 64
      → (state_apply_tx verify s tx slot base_fee).outcome ≡ applied
      → let after = state_apply_tx verify s tx slot base_fee in
        supply after.state + (after.result.fee_burned + after.result.fee_tip) + b.amount ≡ supply s
  self_transfer-supply v k d self small amount fee done =
      elim (Check-cases (check_tx s tx slot base_fee)) [
        | inl (e, h) ↦
            let (out, _, _, _, _, _) = apply-refuse verify s tx slot base_fee e h in
            absurd (ground (arith, out, done))
        | inr (n, h) ↦
            let is = apply-accept verify s tx slot base_fee n h in
            let body = body-transfer verify (entered s tx n) tx slot b k d in
            rw (is, body) (self-accept v k d self small amount fee n h (rw (is, body) at done))
      ]
