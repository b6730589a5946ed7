-- ===== src/State/Apply/Outcomes.antt =====
-- `ac_state_apply_tx` of src/state.c, branch by branch: what is charged, the invariant, the nonce.
use agentchain.Base.{
  ℕ, ◌+◌, ◌^◌, ◌≤◌, ◌<◌, ◌≡◌, refl, ◌||◌, Bool, true, false, not, Option, none, some, arith, inl,
  inr, Bool-cases, Option-cases, ltb, ◌==◌, add64, if◌then◌else◌,
}
use agentchain.Bytes.Compare.{Bytes, bytes_eq}
use agentchain.Codec.Body.{
  BodyTransfer, BodyStake, BodyName, BodySlash, body_transfer_decode, body_stake_decode,
  body_name_decode, body_slash_decode,
}
use agentchain.Codec.Tx.{
  Tx, tx_transfer, tx_stake_bond, tx_stake_unbond, tx_register_name, tx_slash_evidence,
}
use agentchain.Codec.Vote.{vote_message}
use agentchain.State.{state_get, state_name_register}
use agentchain.State.Laws.{IsValid, set-IsValid, chain_id-set}
use agentchain.State.Registry.{register-IsValid, register_some}
use agentchain.State.Apply.Checks.{ApplyError, bad_body, bad_name, bad_evidence, unknown_kind}
use agentchain.State.Apply.Body.{
  Run, name_fee, stop, run_body, run_transfer, run_bond, run_unbond, run_name, run_slash,
}

-- What every run of the `switch` keeps.
pub record Keeps (r q : Run) : Type 0 where
  pub valid : IsValid q.state
  pub chain_id : q.state.chain_id ≡ r.state.chain_id
  pub nonce : q.sender.nonce ≡ r.sender.nonce
  pub gas : q.charged_gas ≤ r.charged_gas + 50
  pub floor : r.charged_gas + 50 < 2 ^ 64 → r.charged_gas ≤ q.charged_gas

stop-Keeps : (r : Run) (e : ApplyError) → IsValid r.state → Keeps r (stop r e)
stop-Keeps r e v = record {
  valid = v;
  chain_id = refl;
  nonce = refl;
  gas = omega arith;
  floor = λ b. omega arith;
}

either-Keeps : {r p q : Run} (b : Bool) → Keeps r p → Keeps r q → Keeps r (if b then p else q)
either-Keeps true k l = k
either-Keeps false k l = l

decoded-Keeps :
    {B : Type 0} {r p : Run} {f : B → Run} (o : Option B)
    → ((b : B) → Keeps r (f b))
    → Keeps r p
    → Keeps r (elim o [ none ↦ p | some b ↦ f b ])
decoded-Keeps none k l = l
decoded-Keeps (some b) k l = k b

charged-le : (g : ℕ) (e : Bool) → add64 g (if e then 0 else 50) ≤ g + 50
charged-le g e = ground arith

charged-ge : (g : ℕ) (e : Bool) → g + 50 < 2 ^ 64 → g ≤ add64 g (if e then 0 else 50)
charged-ge g e h = ground arith

transfer-Keeps :
    (r : Run) (tx : Tx) (b : BodyTransfer) → IsValid r.state → Keeps r (run_transfer r tx b)
unfolding run_transfer
transfer-Keeps r tx b v =
    let e = (state_get r.state b.recipient).1 in
    elim (Bool-cases (ltb tx.gas_limit (add64 r.charged_gas (if e then 0 else 50)))) [
      | inl h ↦
          rw (h, run_transfer)
            (record {
              valid = v;
              chain_id = refl;
              nonce = refl;
              gas = charged-le r.charged_gas e;
              floor = charged-ge r.charged_gas e;
            })
      | inr h ↦
          rw (h, run_transfer)
            (record {
              valid = set-IsValid r.state _ v;
              chain_id = chain_id-set r.state _;
              nonce = refl;
              gas = charged-le r.charged_gas e;
              floor = charged-ge r.charged_gas e;
            })
    ]

bond-Keeps : (r : Run) (b : BodyStake) → IsValid r.state → Keeps r (run_bond r b)
unfolding run_bond
bond-Keeps r b v = elim (Bool-cases (ltb r.sender.balance b.amount)) [
  | inl h ↦ rw (h, run_bond) (stop-Keeps r _ v)
  | inr h ↦
      rw (h, run_bond)
        (record {
          valid = v;
          chain_id = refl;
          nonce = refl;
          gas = omega arith;
          floor = λ b. omega arith;
        })
]

unbond-Keeps :
    (r : Run) (slot : ℕ) (b : BodyStake) → IsValid r.state → Keeps r (run_unbond r slot b)
unfolding run_unbond
unbond-Keeps r slot b v = elim (Bool-cases (ltb r.sender.stake b.amount)) [
  | inl h ↦ rw (h, run_unbond) (stop-Keeps r _ v)
  | inr h ↦
      rw (h, run_unbond)
        (record {
          valid = v;
          chain_id = refl;
          nonce = refl;
          gas = omega arith;
          floor = λ b. omega arith;
        })
]

name-Keeps : (r : Run) (tx : Tx) (b : BodyName) → IsValid r.state → Keeps r (run_name r tx b)
unfolding run_name
name-Keeps r tx b v = elim (Bool-cases (ltb r.sender.balance name_fee)) [
  | inl h ↦ rw (h, run_name) (stop-Keeps r _ v)
  | inr h ↦ elim (Option-cases (state_name_register r.state b.name tx.sender)) [
    | inl e ↦ rw (h, e, run_name) (stop-Keeps r _ v)
    | inr (t, e) ↦
        rw (h, e, run_name)
          (record {
            valid = register-IsValid r.state b.name tx.sender v t e;
            chain_id = rw (register_some r.state b.name tx.sender v t e).0 refl;
            nonce = refl;
            gas = omega arith;
            floor = λ b. omega arith;
          })
  ]
]

module _ (verify : Bytes → Bytes → Bytes → Bool) where
  abbrev signed_twice : BodySlash → Bool
  signed_twice b =
      not (verify b.sig_a (vote_message b.height b.block_hash_a) b.validator)
      || not (verify b.sig_b (vote_message b.height b.block_hash_b) b.validator)

  slash-Keeps : (r : Run) (b : BodySlash) → IsValid r.state → Keeps r (run_slash verify r b)
  unfolding run_slash
  slash-Keeps r b v = elim (Bool-cases (bytes_eq b.block_hash_a b.block_hash_b)) [
    | inl h ↦ rw (h, run_slash) (stop-Keeps r _ v)
    | inr h ↦ elim (Bool-cases (signed_twice b)) [
      | inl g ↦ rw (h, g, run_slash) (stop-Keeps r _ v)
      | inr g ↦ elim (Bool-cases ((state_get r.state b.validator).0.stake == 0)) [
        | inl z ↦ rw (h, g, z, run_slash) (stop-Keeps r _ v)
        | inr z ↦
            rw (h, g, z, run_slash)
              (record {
                valid = set-IsValid r.state _ v;
                chain_id = chain_id-set r.state _;
                nonce = refl;
                gas = omega arith;
                floor = λ b. omega arith;
              })
      ]
    ]
  ]

  -- Whatever the kind and the body, the `switch` keeps the state valid and its chain, leaves the
  -- nonce of the sender's copy alone, and charges at most 50 gas more.
  pub body-Keeps :
      (r : Run) (tx : Tx) (slot : ℕ) → IsValid r.state → Keeps r (run_body verify r tx slot)
  unfolding run_body
  body-Keeps r tx slot v =
      let kind = tx.kind in
      let stopped : (e : ApplyError) → Keeps r (stop r e) = λ e. stop-Keeps r e v in
      either-Keeps (kind == tx_transfer)
        (decoded-Keeps (body_transfer_decode tx.body) (λ b. transfer-Keeps r tx b v)
          (stopped bad_body))
        (either-Keeps (kind == tx_stake_bond)
          (decoded-Keeps (body_stake_decode tx.body) (λ b. bond-Keeps r b v) (stopped bad_body))
          (either-Keeps (kind == tx_stake_unbond)
            (decoded-Keeps (body_stake_decode tx.body) (λ b. unbond-Keeps r slot b v)
              (stopped bad_body))
            (either-Keeps (kind == tx_register_name)
              (decoded-Keeps (body_name_decode tx.body) (λ b. name-Keeps r tx b v)
                (stopped bad_name))
              (either-Keeps (kind == tx_slash_evidence)
                (decoded-Keeps (body_slash_decode tx.body) (λ b. slash-Keeps r b v)
                  (stopped bad_evidence))
                (stopped unknown_kind)))))
