-- ===== src/Chain/Live.antt =====
-- The active validators and the liveness map of src/chain.c.
pub mod Map
use agentchain.Base.{
  ℕ, ◌+◌, ◌-◌, Bool, true, false, ◌&&◌, List, [], ◌∷◌, length, ltb, leb, ◌==◌, if◌then◌else◌, add64,
}
use agentchain.Bytes.Compare.{Bytes, bytes_eq}
use agentchain.Isqrt.{isqrt_u64}
use agentchain.State.{Account, State, state_get}
use agentchain.Codec.Block.{CommitSigner}
use agentchain.Chain.Data.{LiveEntry, Chain}

abbrev pub min_stake_ucrd : ℕ
min_stake_ucrd = 100_000_000

-- `ac_chain_each_validator` with a callback that never stops: a fold over the bonded accounts.
unfoldable pub each_validator {ℓ} : {A : Type ℓ} → (Account → ℕ → A → A) → List Account → A → A
each_validator fn [] ctx = ctx
each_validator fn (a ∷ rest) ctx = elim (ltb a.stake min_stake_ucrd) [
  | true ↦ each_validator fn rest ctx
  | false ↦ each_validator fn rest (fn a (isqrt_u64 a.stake) ctx)
]

unfoldable pub sum_sqrt_stake_cb : Account → ℕ → ℕ → ℕ
sum_sqrt_stake_cb a sq ctx = add64 ctx sq

unfoldable pub count_cb : Account → ℕ → ℕ → ℕ
count_cb a sq ctx = ctx + 1

unfoldable pub total_sqrt_stake : Chain → ℕ
total_sqrt_stake c = each_validator sum_sqrt_stake_cb c.state.accounts 0

unfoldable pub active_count : Chain → ℕ
active_count c = each_validator count_cb c.state.accounts 0

abbrev pub liveness_window : ℕ
liveness_window = 16

abbrev pub max_live : ℕ
max_live = 256

-- The loop over the map; `n` is `live_n`, for the entry that is added at the end.
unfoldable pub record_in : ℕ → Bytes → ℕ → List LiveEntry → List LiveEntry
record_in n a h [] = if ltb n max_live then record { addr = a; last_sign_height = h } ∷ [] else []
record_in n a h (e ∷ es) = elim (bytes_eq e.addr a) [
  | true ↦ (if ltb e.last_sign_height h then record e { last_sign_height = h } else e) ∷ es
  | false ↦ e ∷ record_in n a h es
]

unfoldable pub live_record_signer : List LiveEntry → Bytes → ℕ → List LiveEntry
live_record_signer m a h = record_in (length m) a h m

-- The loop of `accept_block` over the signers.
unfoldable pub record_signers : List LiveEntry → List CommitSigner → ℕ → List LiveEntry
record_signers m [] h = m
record_signers m (s ∷ ss) h = record_signers (live_record_signer m s.signer h) ss h

unfoldable pub live_is_within_window : ℕ → ℕ → Bool
live_is_within_window height last =
    if last == 0 && ltb height liveness_window
    then true
    else if last == 0
    then false
    else if leb height last
    then true
    else ltb (height - last) liveness_window

-- An entry that counts: within the window, in the state, and bonded.
abbrev pub is_live : State → ℕ → LiveEntry → Bool
is_live s height e =
    live_is_within_window height e.last_sign_height
    && (state_get s e.addr).1
    && leb min_stake_ucrd (state_get s e.addr).0.stake

-- The sum and the number of entries counted.
unfoldable pub live_sum : State → ℕ → List LiveEntry → ℕ → ℕ → ℕ × ℕ
live_sum s height [] sum counted = (sum, counted)
live_sum s height (e ∷ es) sum counted = elim (is_live s height e) [
  | false ↦ live_sum s height es sum counted
  | true ↦ live_sum s height es (add64 sum (isqrt_u64 (state_get s e.addr).0.stake)) (counted + 1)
]

unfoldable pub live_sqrt_stake : Chain → ℕ
live_sqrt_stake c =
    let (sum, counted) = live_sum c.state c.height c.live_map 0 0 in
    if counted == 0 then total_sqrt_stake c else sum

unfoldable pub live_count : Chain → ℕ
live_count c = (live_sum c.state c.height c.live_map 0 0).1
