-- ===== src/State/Examples.antt =====
-- Tests of src/state.c: a state with one funded account, and transactions on it.
use agentchain.Base.{
  ℕ, ◌+◌, ◌≤◌, ◌≡◌, ◌≢◌, refl, ap, Bool, true, none, some, [], ◌∷◌, ◌++◌, arith, replicate, get_or,
  add64, not, if◌then◌else◌, ◌⊎◌, ◌↔◌,
}
use agentchain.Bytes.Compare.{Bytes, bytes_eq, bytes_order, memcmp}
use agentchain.Bytes.Endian.{rd64}
use agentchain.Codec.Body.{
  BodyTransfer, body_transfer_decode, transfer_read, name_valid, all_name_chars, name_char,
}
use agentchain.Codec.Cursor.{whole, rmap, ◌⊗◌, rget, rget_u64}
use agentchain.Codec.Tx.{Tx, tx_transfer, tx_intrinsic_gas}
use agentchain.State.{
  Account, State, addr_of, acc_lookup, state_get, state_set, account_is_empty, state_name_register,
  state_name_lookup, name_lookup_index,
}
use agentchain.State.Laws.{IsValid, get-set, set-IsValid}
use agentchain.State.Registry.{registered, register_iff, lookup-register}
use agentchain.State.Supply.{supply}
use agentchain.State.Apply.Checks.{
  check_tx, check_funds, fee_overflows, transfer_value, lacks_funds,
}
use agentchain.State.Apply.Body.{run_body, run_transfer}
use agentchain.Table.{lookup, lookup_loop}
use agentchain.Table.Rank.{lookup-scan, scan}
use agentchain.State.Contents.{set-set}
use agentchain.State.Names.{name_cmp-memcmp, name_cmp}
use agentchain.State.Apply.Safety.{apply_nonce, apply-IsValid, apply_gas, replay_refused}
use agentchain.State.Apply.Transfer.{transfer-supply}
use agentchain.State.Apply.SelfTransfer.{self_transfer-supply}
use agentchain.State.Apply.{rejected, applied, state_apply_tx, settle}
use agentchain.Table.Totals.{total}

abbrev alice : Bytes
alice = replicate 32 1

abbrev bob : Bytes
bob = replicate 32 2

abbrev alice_account : Account
alice_account = record { addr = alice; balance = 5000; nonce = 7; stake = 40; unbond_at = 0 }

abbrev funded : State
funded = record { chain_id = 1; accounts = alice_account ∷ []; names = [] }

funded-IsValid : IsValid funded
unfolding account_is_empty
funded-IsValid = record {
  sorted = (tt, tt);
  stored = (refl, tt);
  names_sorted = tt;
  names_valid = tt;
}

abbrev payment : BodyTransfer
payment = record { recipient = bob; amount = 300 }

-- 32 + 8 bytes: bob, 300.
abbrev pay : Tx
pay = record {
  version = 1;
  chain_id = 1;
  kind = tx_transfer;
  sender = alice;
  nonce = 7;
  gas_limit = 100;
  tip = 2;
  valid_until = 90;
  body = bob ++ (0 ∷ 0 ∷ 0 ∷ 0 ∷ 0 ∷ 0 ∷ 1 ∷ 44 ∷ []);
  memo = 104 ∷ 105 ∷ [];
  sig = replicate 64 0;
}

-- A verification that accepts everything: transfers do not call it.
abbrev lenient : Bytes → Bytes → Bytes → Bool
lenient sig m pk = true

pay-decode : body_transfer_decode pay.body ≡ some payment
unfolding body_transfer_decode transfer_read rd64 whole rmap ◌⊗◌ rget rget_u64
pay-decode = refl

pay-applied : (state_apply_tx lenient funded pay 10 1).outcome ≡ applied
unfolding state_apply_tx check_tx state_get acc_lookup lookup bytes_order memcmp tx_intrinsic_gas
    check_funds fee_overflows transfer_value body_transfer_decode whole transfer_read rmap ◌⊗◌ rget
    rget_u64 rd64 lacks_funds run_body run_transfer settle lookup_loop
pay-applied = refl

pay-included : (state_apply_tx lenient funded pay 10 1).outcome ≢ rejected
pay-included h = ground (arith, h, pay-applied)

supply-funded : supply funded ≡ 5040
unfolding supply total
supply-funded = refl

bob-alice : bob ≢ alice
bob-alice h =
    let heads : get_or bob 0 0 ≡ get_or alice 0 0 = ap (λ l. get_or l 0 0) h in absurd (omega arith)

transfer-supply_example :
    let after = state_apply_tx lenient funded pay 10 1 in
    supply after.state + (after.result.fee_burned + after.result.fee_tip) ≡ supply funded
transfer-supply_example =
    transfer-supply lenient funded pay 10 1 payment funded-IsValid refl pay-decode bob-alice
      (omega (arith, supply-funded)) (omega arith) (omega arith)

replay_refused_example :
    let t = (state_apply_tx lenient funded pay 10 1).state in
    ((state_apply_tx lenient t pay 11 1).outcome ≡ rejected)
    × ((state_apply_tx lenient t pay 11 1).state ≡ t)
replay_refused_example =
    replay_refused lenient funded pay 10 1 funded-IsValid (omega arith) pay-included 11 1

apply_nonce_example :
    let after = state_apply_tx lenient funded pay 10 1 in
    ((after.outcome ≡ rejected)
      × (after.state ≡ funded)
      × (after.result.gas_used ≡ 0)
      × (after.result.fee_burned ≡ 0)
      × (after.result.fee_tip ≡ 0))
    ⊎ ((after.outcome ≢ rejected)
        × (7 ≡ (state_get funded alice).0.nonce)
        × ((state_get after.state alice).0.nonce ≡ add64 7 1))
apply_nonce_example = apply_nonce lenient funded pay 10 1 funded-IsValid

apply-IsValid_example :
    IsValid (state_apply_tx lenient funded pay 10 1).state
    × ((state_apply_tx lenient funded pay 10 1).state.chain_id ≡ 1)
apply-IsValid_example = apply-IsValid lenient funded pay 10 1 funded-IsValid

apply_gas_example :
    (igas : ℕ) × (tx_intrinsic_gas tx_transfer ≡ some igas)
    × (add64 igas 2 ≤ (state_apply_tx lenient funded pay 10 1).result.gas_used)
    × ((state_apply_tx lenient funded pay 10 1).result.gas_used ≤ 100)
apply_gas_example = apply_gas lenient funded pay 10 1 funded-IsValid (omega arith) pay-included

abbrev bob_account : Account
bob_account = record { addr = bob; balance = 9; nonce = 0; stake = 0; unbond_at = 0 }

get-set_example : state_get (state_set funded bob_account) alice ≡ (
    if bytes_eq bob alice
    then (bob_account, not (account_is_empty bob_account))
    else state_get funded alice)
get-set_example = get-set funded bob_account alice funded-IsValid.sorted

set-IsValid_example : IsValid (state_set funded bob_account)
set-IsValid_example = set-IsValid funded bob_account funded-IsValid

set-set_example : state_set (state_set funded bob_account) alice_account ≡ (
    if bytes_eq bob alice
    then state_set funded alice_account
    else state_set (state_set funded alice_account) bob_account)
set-set_example = set-set funded bob_account alice_account funded-IsValid

abbrev a_name : Bytes
a_name = b'b' ∷ b'o' ∷ b'b' ∷ []

a_name-valid : name_valid a_name ≡ true
unfolding name_valid all_name_chars name_char
a_name-valid = refl

abbrev with_name : State
with_name = record funded { names = record { name = a_name; addr = bob } ∷ [] }

registers : state_name_register funded a_name bob ≡ some with_name
unfolding state_name_register name_valid all_name_chars name_char name_lookup_index lookup
    lookup_loop
registers = refl

lookup-register_example :
    IsValid with_name
    × ((j : Bytes)
        → state_name_lookup with_name j
          ≡ (if bytes_eq a_name j then some bob else state_name_lookup funded j))
    × ((b : Bytes) → state_name_register with_name a_name b ≡ none)
lookup-register_example = lookup-register funded with_name a_name bob funded-IsValid registers

name_cmp-memcmp_example : name_cmp a_name (b'b' ∷ []) ≡ memcmp a_name (b'b' ∷ [])
name_cmp-memcmp_example = name_cmp-memcmp a_name (b'b' ∷ [])

lookup-scan_example :
    lookup bytes_order addr_of funded.accounts bob ≡ scan bytes_order addr_of bob funded.accounts
lookup-scan_example = lookup-scan bytes_order addr_of bob funded.accounts funded-IsValid.sorted

register_iff_example :
    (state_name_register funded a_name bob ≡ some (registered funded a_name bob))
    ↔ ((name_valid a_name ≡ true) × (state_name_lookup funded a_name ≡ none))
register_iff_example = register_iff funded a_name bob funded-IsValid

abbrev to_self : BodyTransfer
to_self = record { recipient = alice; amount = 300 }

abbrev pay_self : Tx
pay_self = record pay { body = alice ++ (0 ∷ 0 ∷ 0 ∷ 0 ∷ 0 ∷ 0 ∷ 1 ∷ 44 ∷ []) }

self-decode : body_transfer_decode pay_self.body ≡ some to_self
unfolding body_transfer_decode transfer_read rd64 whole rmap ◌⊗◌ rget rget_u64
self-decode = refl

self-applied : (state_apply_tx lenient funded pay_self 10 1).outcome ≡ applied
unfolding state_apply_tx check_tx state_get acc_lookup lookup bytes_order memcmp tx_intrinsic_gas
    check_funds fee_overflows transfer_value body_transfer_decode whole transfer_read rmap ◌⊗◌ rget
    rget_u64 rd64 lacks_funds run_body run_transfer settle lookup_loop
self-applied = refl

self_transfer-supply_example :
    let after = state_apply_tx lenient funded pay_self 10 1 in
    supply after.state + (after.result.fee_burned + after.result.fee_tip) + 300 ≡ supply funded
self_transfer-supply_example =
    self_transfer-supply lenient funded pay_self 10 1 to_self funded-IsValid refl self-decode refl
      (omega (arith, supply-funded)) (omega arith) (omega arith) self-applied
