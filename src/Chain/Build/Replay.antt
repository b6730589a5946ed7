-- ===== src/Chain/Build/Replay.antt =====
-- The loop over candidates in `ac_chain_build_block` of src/chain.c against the loop over a block's transactions in
-- `ac_chain_accept_block`.
use agentchain.Base.{
  ℕ, ◌+◌, ◌≤◌, ◌<◌, ◌^◌, ◌≡◌, ◌≢◌, refl, ap, Bool, true, false, not, ◌||◌, some, List, [], ◌∷◌,
  arith, All, length, ltb, leb, inl, inr, Bool-cases, add64,
}
use agentchain.Bytes.Compare.{Bytes}
use agentchain.Codec.Tx.{Tx, tx_verify, tx_total_gas, tx_intrinsic_gas}
use agentchain.State.{State}
use agentchain.State.Laws.{IsValid}
use agentchain.State.Apply.{Applied, Outcome, rejected, body_failed, applied, state_apply_tx}
use agentchain.State.Apply.Safety.{apply_nonce, apply_gas, apply-IsValid}
use agentchain.Chain.Accept.{is_rejected, block_gas_limit, run_txs}
use agentchain.Chain.Build.{Selection, select_txs}

-- Fields within the wire format's bounds.
abbrev pub IsSmall : Tx → Type 0
IsSmall tx = (tx.gas_limit < 2 ^ 32) × (length tx.memo ≤ 512)

of_rejected : (o : Outcome) → is_rejected o ≡ true → o ≡ rejected
of_rejected rejected h = refl
of_rejected body_failed h = cc
of_rejected applied h = cc

of_included : (o : Outcome) → is_rejected o ≡ false → o ≢ rejected
of_included o h e = ground (arith, ap is_rejected e)

total-intrinsic :
    (tx : Tx) (g : ℕ)
    → tx_intrinsic_gas tx.kind ≡ some g
    → (tx_total_gas tx ≡ g + length tx.memo) × (g ≤ 521)
unfolding tx_total_gas tx_intrinsic_gas
total-intrinsic tx g h = (rw (tx_total_gas, h) refl, ground arith)

module _ (hash : Bytes → Bytes) (verify : Bytes → Bytes → Bytes → Bool) (slot base_fee : ℕ) where
  abbrev step : State → Tx → Applied
  step s tx = state_apply_tx verify s tx slot base_fee

  abbrev chosen : State → List Tx → ℕ → ℕ → Selection
  chosen s txs gas tips = select_txs hash verify s txs slot base_fee gas tips

  refused_state :
      (s : State) (tx : Tx)
      → IsValid s
      → is_rejected (step s tx).outcome ≡ true
      → (step s tx).state ≡ s
  refused_state s tx v h = elim (apply_nonce verify s tx slot base_fee v) [
    | inl (_, same, _, _, _) ↦ same
    | inr (o, _, _) ↦ elim (o (of_rejected _ h)) [ ]
  ]

  step-gas :
      (s : State) (tx : Tx)
      → IsValid s
      → IsSmall tx
      → is_rejected (step s tx).outcome ≡ false
      → (tx_total_gas tx ≤ (step s tx).result.gas_used) × ((step s tx).result.gas_used < 2 ^ 32)
  step-gas s tx v b h =
      let (g, known, more, less) = apply_gas verify s tx slot base_fee v b.0 (of_included _ h) in
      let (same, small) = total-intrinsic tx g known in (omega (arith, b.1), omega (arith, b.0))

  -- Past the limit nothing more is chosen.
  full :
      (s : State) (txs : List Tx) (gas tips : ℕ)
      → IsValid s
      → All IsSmall txs
      → block_gas_limit < gas
      → gas < 2 ^ 33
      → chosen s txs gas tips ≡ record { state = s; kept = []; total_gas = gas; total_tips = tips }
  unfolding select_txs
  full s [] gas tips v b more less = refl
  full s (tx ∷ txs) gas tips v b more less =
      let rest = full s txs gas tips v b.1 more less in
      elim (Bool-cases
        (not (tx_verify hash verify tx) || ltb block_gas_limit (add64 gas (tx_total_gas tx)))) [
          | inl skip ↦ rw (skip, select_txs) rest
          | inr room ↦ elim (Bool-cases (is_rejected (step s tx).outcome)) [
            | inl out ↦ rw (room, select_txs, out, refused_state s tx v out) rest
            | inr kept ↦ absurd (ground (arith, step-gas s tx v b.0 kept))
          ]
        ]

  -- Executing the transactions that were chosen gives the state, the gas and the tips of the choice, and fails
  -- exactly when the gas is over the limit.
  pub run-select :
      (s : State) (txs : List Tx) (gas tips : ℕ)
      → IsValid s
      → All IsSmall txs
      → gas ≤ block_gas_limit
      → run_txs hash verify s (chosen s txs gas tips).kept slot base_fee gas tips ≡ record {
        state = (chosen s txs gas tips).state;
        total_gas = (chosen s txs gas tips).total_gas;
        total_tips = (chosen s txs gas tips).total_tips;
        tx_ok = leb (chosen s txs gas tips).total_gas block_gas_limit;
      }
  unfolding select_txs run_txs
  run-select s [] gas tips v b fits = ground arith
  run-select s (tx ∷ txs) gas tips v b fits =
      elim (Bool-cases
        (not (tx_verify hash verify tx) || ltb block_gas_limit (add64 gas (tx_total_gas tx)))) [
          | inl skip ↦ rw (skip, select_txs) (run-select s txs gas tips v b.1 fits)
          | inr room ↦ elim (Bool-cases (is_rejected (step s tx).outcome)) [
            | inl out ↦
                rw (room, select_txs, out, refused_state s tx v out)
                  (run-select s txs gas tips v b.1 fits)
            | inr kept ↦
                let gas' = add64 gas (step s tx).result.gas_used in
                let tips' = add64 tips (step s tx).result.fee_tip in
                let v' = (apply-IsValid verify s tx slot base_fee v).0 in
                let signed : tx_verify hash verify tx ≡ true = ground arith in
                elim (Bool-cases (ltb block_gas_limit gas')) [
                  | inl over ↦
                      let small : gas' < 2 ^ 33 = omega (arith, step-gas s tx v b.0 kept) in
                      rw
                        (
                          room,
                          select_txs,
                          kept,
                          full (step s tx).state txs gas' tips' v' b.1 (ground arith) small,
                          run_txs,
                          signed,
                          kept,
                          over,
                        )
                        (ground (arith, over))
                  | inr under ↦
                      rw (room, select_txs, kept, run_txs, signed, kept, under)
                        (run-select (step s tx).state txs gas' tips' v' b.1 (ground arith))
                ]
          ]
        ]
