-- ===== src/State/Apply/Transfer.antt =====
-- `ac_state_apply_tx` of src/state.c on a TRANSFER.
use agentchain.Base.{
  ℕ, ◌+◌, ◌*◌, ◌-◌, ◌^◌, ◌≤◌, ◌<◌, ◌≡◌, ◌≢◌, refl, ap, Bool, some, arith, inl, inr, Bool-cases,
  add64, mul64, ltb, if◌then◌else◌,
}
use agentchain.Bytes.Compare.{Bytes}
use agentchain.Codec.Body.{BodyTransfer, body_transfer_decode}
use agentchain.Codec.Tx.{Tx, tx_transfer}
use agentchain.State.{Account, State, state_get, state_set}
use agentchain.State.Laws.{IsValid, Sorted, set-Sorted, get-set_ne}
use agentchain.State.Supply.{wealth, supply, wealth_at, supply-set, two_wealths}
use agentchain.State.Apply.Checks.{accept, check_tx, transfer_value}
use agentchain.State.Apply.Accepted.{check-accept}
use agentchain.State.Apply.Fees.{fee_fits}
use agentchain.State.Apply.Body.{Run, run_body, run_transfer}
use agentchain.State.Apply.Safety.{Check-cases, apply-accept, apply-refuse, settle-gas}
use agentchain.State.Apply.{settle, entered, state_apply_tx}

left_exact :
    (balance gas base_fee tip : ℕ)
    → gas * base_fee + gas * tip < 2 ^ 64
    → gas * base_fee + gas * tip ≤ balance
    → let total = add64 (mul64 gas base_fee) (mul64 gas tip) in
      (if ltb balance total then 0 else balance - total) ≡ balance - (gas * base_fee + gas * tip)
left_exact balance gas base_fee tip b p =
    let exact : add64 (mul64 gas base_fee) (mul64 gas tip) ≡ gas * base_fee + gas * tip =
      omega arith in
    rw exact (ground arith)

module _ (r : Run) (tx : Tx) (base_fee : ℕ) where
  abbrev pub gas_of : ℕ
  unfolding settle
  gas_of = (settle r tx base_fee).result.gas_used

  abbrev pub due : ℕ
  due = gas_of * base_fee + gas_of * tx.tip

  abbrev pub charged : Account
  charged = record (r.sender) { addr = tx.sender; balance = r.sender.balance - due }

  module _ (b : due < 2 ^ 64) (p : due ≤ r.sender.balance) where
    settle-state : (settle r tx base_fee).state ≡ state_set r.state charged
    unfolding settle
    settle-state =
        ap (λ x. state_set r.state (record (r.sender) { addr = tx.sender; balance = x }))
          (left_exact r.sender.balance gas_of base_fee tx.tip b p)

    settle-fees :
        r.burned ≡ 0
        → (settle r tx base_fee).result.fee_burned + (settle r tx base_fee).result.fee_tip ≡ due
    unfolding settle
    settle-fees z = omega arith

    -- With the money of the sender's copy counted in, and that of the account that it replaces
    -- counted out, the supply loses the fee and nothing else.
    pub supply-settle :
        Sorted r.state
        → r.burned ≡ 0
        → supply (settle r tx base_fee).state
            + ((settle r tx base_fee).result.fee_burned + (settle r tx base_fee).result.fee_tip)
            + wealth_at r.state tx.sender
          ≡ supply r.state + wealth r.sender
    supply-settle h z =
        let swap = supply-set r.state charged h in
        rw (settle-state, settle-fees z) (omega (arith, swap, p))

module _ (verify : Bytes → Bytes → Bytes → Bool) (r : Run) (tx : Tx) (slot : ℕ)
    (b : BodyTransfer) where
  pub body-transfer :
      tx.kind ≡ tx_transfer
      → body_transfer_decode tx.body ≡ some b
      → run_body verify r tx slot ≡ run_transfer r tx b
  unfolding run_body run_transfer
  body-transfer k d = rw (k, d, run_body) refl

transfer-value :
    (tx : Tx) (b : BodyTransfer) (value : ℕ)
    → tx.kind ≡ tx_transfer
    → body_transfer_decode tx.body ≡ some b
    → transfer_value tx ≡ some value
    → value ≡ b.amount
unfolding transfer_value
transfer-value tx b value k d h = ground (arith, d)

module _ (r : Run) (tx : Tx) (b : BodyTransfer) (v : Sorted r.state)
    (apart : b.recipient ≢ tx.sender) where
  abbrev moved : Run
  moved = run_transfer r tx b

  supply-transfer :
      r.sender.balance ≤ (state_get r.state tx.sender).0.balance
      → supply r.state < 2 ^ 64
      → b.amount ≤ r.sender.balance
      → (supply moved.state + wealth moved.sender + wealth_at r.state tx.sender
          ≡ supply r.state + wealth r.sender + wealth_at moved.state tx.sender)
        × Sorted moved.state
        × (moved.burned ≡ r.burned)
        × (r.sender.balance ≤ moved.sender.balance + b.amount)
  unfolding run_transfer
  supply-transfer held small enough =
      let e = (state_get r.state b.recipient).1 in
      let rcv = (state_get r.state b.recipient).0 in
      let acc : Account = record rcv { addr = b.recipient; balance = add64 rcv.balance b.amount } in
      let swap = supply-set r.state acc v in
      let two = two_wealths r.state tx.sender b.recipient v apart in
      let other : wealth_at (state_set r.state acc) tx.sender ≡ wealth_at r.state tx.sender =
        ap (λ p. wealth p.0) (get-set_ne r.state acc v tx.sender apart) in
      elim (Bool-cases (ltb tx.gas_limit (add64 r.charged_gas (if e then 0 else 50)))) [
        | inl h ↦ rw (h, run_transfer) (omega arith, v, refl, omega arith)
        | inr h ↦
            rw (h, run_transfer)
              (
                omega (arith, swap, two, other, held, small, enough),
                set-Sorted r.state _ v,
                refl,
                omega (arith, two, held, small, enough),
              )
      ]

module _ (verify : Bytes → Bytes → Bytes → Bool) (s : State) (tx : Tx) (slot base_fee : ℕ)
    (b : BodyTransfer) where
  abbrev pub run : ℕ → Run
  run n = run_transfer (entered s tx n) tx b

  module _ (k : tx.kind ≡ tx_transfer) (d : body_transfer_decode tx.body ≡ some b)
      (amount : b.amount < 2 ^ 64) (fee : base_fee + tx.tip < 2 ^ 64) (n : ℕ)
      (h : check_tx s tx slot base_fee ≡ accept n) where
    pub fee_fits-run :
        (due (run n) tx base_fee < 2 ^ 64)
        × (due (run n) tx base_fee + b.amount ≤ (state_get s tx.sender).0.balance)
    unfolding gas_of
    fee_fits-run =
        let (igas, _, _, _, funds) = (check-accept s tx slot base_fee n h).1 in
        let (over, payable) = funds in
        let (value, is_value, covered) = payable in
        let same : value ≡ b.amount = transfer-value tx b value k d is_value in
        let capped : gas_of (run n) tx base_fee ≤ tx.gas_limit =
          rw (settle-gas (run n) tx base_fee) (omega arith) in
        fee_fits (gas_of (run n) tx base_fee) tx.gas_limit base_fee tx.tip
          (state_get s tx.sender).0.balance b.amount capped fee amount over (rw same at covered)

  module _ (v : IsValid s) (k : tx.kind ≡ tx_transfer) (d : body_transfer_decode tx.body ≡ some b)
      (apart : b.recipient ≢ tx.sender) (small : supply s < 2 ^ 64) (amount : b.amount < 2 ^ 64)
      (fee : base_fee + tx.tip < 2 ^ 64) (n : ℕ) (h : check_tx s tx slot base_fee ≡ accept n) where
    supply-accept :
        supply (settle (run n) tx base_fee).state
          + ((settle (run n) tx base_fee).result.fee_burned
              + (settle (run n) tx base_fee).result.fee_tip)
        ≡ supply s
    supply-accept =
        let (below, covered) = fee_fits-run k d amount fee n h in
        let (swap, sorted, burned, room) =
          supply-transfer (entered s tx n) tx b v.sorted apart (omega arith) small
            (omega (arith, covered)) in
        let last =
          supply-settle (run n) tx base_fee below (omega (arith, covered, room)) sorted burned in
        omega (arith, swap, last)

  -- A transfer between two different accounts of a valid state creates and destroys no money: the
  -- supply after it, with the fees that the result reports as burned and as tip, is the supply
  -- before it, whether it is refused, runs out of gas or is applied. The supply and the amount are
  -- below 2^64, the base fee and the tip together too.
  pub transfer-supply :
      IsValid s
      → tx.kind ≡ tx_transfer
      → body_transfer_decode tx.body ≡ some b
      → b.recipient ≢ tx.sender
      → supply s < 2 ^ 64
      → b.amount < 2 ^ 64
      → base_fee + tx.tip < 2 ^ 64
      → let after = state_apply_tx verify s tx slot base_fee in
        supply after.state + (after.result.fee_burned + after.result.fee_tip) ≡ supply s
  transfer-supply v k d apart small amount fee = elim (Check-cases (check_tx s tx slot base_fee)) [
    | inl (e, h) ↦
        let (_, same, _, _, burned, tip) = apply-refuse verify s tx slot base_fee e h in
        rw (same, burned, tip) (omega arith)
    | inr (n, h) ↦
        rw
          (
            apply-accept verify s tx slot base_fee n h,
            body-transfer verify (entered s tx n) tx slot b k d,
          )
          (supply-accept v k d apart small amount fee n h)
  ]
