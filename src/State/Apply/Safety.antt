-- ===== src/State/Apply/Safety.antt =====
-- `ac_state_apply_tx` of src/state.c: what holds of every transaction, whatever its kind and its
-- outcome.
use agentchain.Base.{
  ℕ, min, ◌^◌, ◌≤◌, ◌<◌, ◌≡◌, ◌≢◌, refl, sym, ap, ◌∙◌, Bool, some, arith, length, inl, inr, ◌⊎◌,
  add64,
}
use agentchain.Bytes.Compare.{Bytes}
use agentchain.Codec.Tx.{Tx, tx_intrinsic_gas}
use agentchain.State.{State, state_get}
use agentchain.State.Laws.{IsValid, set-IsValid, get-set_self, chain_id-set}
use agentchain.State.Apply.Checks.{ApplyError, Check, refuse, accept, check_tx}
use agentchain.State.Apply.Accepted.{check-accept}
use agentchain.State.Apply.Body.{Run, run_body}
use agentchain.State.Apply.Outcomes.{Keeps, body-Keeps}
use agentchain.State.Apply.{rejected, Applied, settle, entered, state_apply_tx}

pub Check-cases : (c : Check) → ((e : ApplyError) × (c ≡ refuse e)) ⊎ ((n : ℕ) × (c ≡ accept n))
Check-cases (refuse e) = inl (e, refl)
Check-cases (accept n) = inr (n, refl)

settle-IsValid :
    (r : Run) (tx : Tx) (base_fee : ℕ) → IsValid r.state → IsValid (settle r tx base_fee).state
unfolding settle
settle-IsValid r tx base_fee v = set-IsValid r.state _ v

settle-nonce :
    (r : Run) (tx : Tx) (base_fee : ℕ)
    → IsValid r.state
    → (state_get (settle r tx base_fee).state tx.sender).0.nonce ≡ r.sender.nonce
unfolding settle
settle-nonce r tx base_fee v = ap (λ p. p.0.nonce) (get-set_self r.state _ v.sorted)

settle-chain_id :
    (r : Run) (tx : Tx) (base_fee : ℕ) → (settle r tx base_fee).state.chain_id ≡ r.state.chain_id
unfolding settle
settle-chain_id r tx base_fee = chain_id-set r.state _

pub settle-gas :
    (r : Run) (tx : Tx) (base_fee : ℕ)
    → (settle r tx base_fee).result.gas_used ≡ min r.charged_gas tx.gas_limit
unfolding settle
settle-gas r tx base_fee = ground arith

settle-included : (r : Run) (tx : Tx) (base_fee : ℕ) → (settle r tx base_fee).outcome ≢ rejected
unfolding settle
settle-included r tx base_fee h = ground arith

module _ (verify : Bytes → Bytes → Bytes → Bool) (s : State) (tx : Tx) (slot base_fee : ℕ) where
  abbrev after : Applied
  after = state_apply_tx verify s tx slot base_fee

  pub apply-refuse :
      (e : ApplyError)
      → check_tx s tx slot base_fee ≡ refuse e
      → (after.outcome ≡ rejected)
        × (after.state ≡ s)
        × (after.result.err ≡ e)
        × (after.result.gas_used ≡ 0)
        × (after.result.fee_burned ≡ 0)
        × (after.result.fee_tip ≡ 0)
  unfolding state_apply_tx
  apply-refuse e h = rw (h, state_apply_tx) (refl, refl, refl, refl, refl, refl)

  apply_refused : (e : ApplyError) → check_tx s tx slot base_fee ≡ refuse e → after.state ≡ s
  apply_refused e h = let (_, same, _, _, _, _) = apply-refuse e h in same

  pub apply-accept :
      (n : ℕ)
      → check_tx s tx slot base_fee ≡ accept n
      → after ≡ settle (run_body verify (entered s tx n) tx slot) tx base_fee
  unfolding state_apply_tx
  apply-accept n h = rw (h, state_apply_tx) refl

  module _ (v : IsValid s) (n : ℕ) (h : check_tx s tx slot base_fee ≡ accept n) where
    abbrev ran : Run
    ran = run_body verify (entered s tx n) tx slot

    abbrev kept : Keeps (entered s tx n) ran
    kept = body-Keeps verify (entered s tx n) tx slot v

    accept-IsValid : IsValid after.state × (after.state.chain_id ≡ s.chain_id)
    accept-IsValid =
        rw (apply-accept n h) (
          settle-IsValid ran tx base_fee kept.valid,
          settle-chain_id ran tx base_fee ∙ kept.chain_id,
        )

    accept_included : after.outcome ≢ rejected
    accept_included = rw (apply-accept n h) (settle-included ran tx base_fee)

    accept-nonce : (state_get after.state tx.sender).0.nonce ≡ add64 tx.nonce 1
    accept-nonce = rw (apply-accept n h) (
        settle-nonce ran tx base_fee kept.valid
        ∙ kept.nonce
        ∙ ap (λ k. add64 k 1) (sym (check-accept s tx slot base_fee n h).0))

    accept-gas :
        tx.gas_limit < 2 ^ 32 → (n ≤ after.result.gas_used) × (after.result.gas_used ≤ tx.gas_limit)
    accept-gas b =
        let (igas, _, _, fits, _) = (check-accept s tx slot base_fee n h).1 in
        let more : n ≤ ran.charged_gas = kept.floor (omega arith) in
        rw (apply-accept n h, settle-gas ran tx base_fee) (ground arith)

  -- Applying a transaction to a valid state gives a valid state of the same chain, whatever the
  -- outcome: accounts and names stay strictly ascending, and no empty account is stored.
  pub apply-IsValid : IsValid s → IsValid after.state × (after.state.chain_id ≡ s.chain_id)
  apply-IsValid v = elim (Check-cases (check_tx s tx slot base_fee)) [
    | inl (e, h) ↦ rw (apply_refused e h) (v, refl)
    | inr (n, h) ↦ accept-IsValid v n h
  ]

  -- On a valid state a transaction is either refused, then the state is as it was and no gas and no
  -- fee is charged, or it carries the sender's nonce and leaves the sender the next one, which wraps
  -- at 2^64: also when its body fails.
  pub apply_nonce :
      IsValid s
      → ((after.outcome ≡ rejected)
          × (after.state ≡ s)
          × (after.result.gas_used ≡ 0)
          × (after.result.fee_burned ≡ 0)
          × (after.result.fee_tip ≡ 0))
        ⊎ ((after.outcome ≢ rejected)
            × (tx.nonce ≡ (state_get s tx.sender).0.nonce)
            × ((state_get after.state tx.sender).0.nonce ≡ add64 tx.nonce 1))
  apply_nonce v = elim (Check-cases (check_tx s tx slot base_fee)) [
    | inl (e, h) ↦ let (o, same, _, g, b, t) = apply-refuse e h in inl (o, same, g, b, t)
    | inr (n, h) ↦
        inr (accept_included v n h, (check-accept s tx slot base_fee n h).0, accept-nonce v n h)
  ]

  -- A transaction that is not refused on a valid state is charged for at least its intrinsic gas and
  -- its memo, and for no more than its gas limit, if that is below 2^32.
  pub apply_gas :
      IsValid s
      → tx.gas_limit < 2 ^ 32
      → after.outcome ≢ rejected
      → (igas : ℕ) × (tx_intrinsic_gas tx.kind ≡ some igas)
        × (add64 igas (length tx.memo) ≤ after.result.gas_used)
        × (after.result.gas_used ≤ tx.gas_limit)
  apply_gas v b o = elim (Check-cases (check_tx s tx slot base_fee)) [
    | inl (e, h) ↦ elim (o (let (r, _, _, _, _, _) = apply-refuse e h in r)) [ ]
    | inr (n, h) ↦
        let (igas, known, needed, _, _) = (check-accept s tx slot base_fee n h).1 in
        let (more, less) = accept-gas v n h b in (igas, known, rw (← needed) more, less)
  ]

module _ (verify : Bytes → Bytes → Bytes → Bool) (s : State) (tx : Tx) (slot base_fee : ℕ) where
  -- A transaction with a 64-bit nonce that was not refused on a valid state is refused from then on:
  -- applying it again to the resulting state, in any slot and at any base fee, leaves that state as
  -- it is.
  pub replay_refused :
      IsValid s
      → tx.nonce < 2 ^ 64
      → (state_apply_tx verify s tx slot base_fee).outcome ≢ rejected
      → (later fee : ℕ)
      → let t = (state_apply_tx verify s tx slot base_fee).state in
        ((state_apply_tx verify t tx later fee).outcome ≡ rejected)
        × ((state_apply_tx verify t tx later fee).state ≡ t)
  replay_refused v b o later fee =
      let t = (state_apply_tx verify s tx slot base_fee).state in
      let w : IsValid t = (apply-IsValid verify s tx slot base_fee v).0 in
      elim (apply_nonce verify s tx slot base_fee v) [
        | inl (r, _, _, _, _) ↦ elim (o r) [ ]
        | inr (_, _, advanced) ↦ elim (apply_nonce verify t tx later fee w) [
          | inl (r, same, _, _, _) ↦ (r, same)
          | inr (_, again, _) ↦ ground (arith, advanced, again)
        ]
      ]
