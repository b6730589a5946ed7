-- ===== src/Chain/Live/Map.antt =====
-- The liveness map of src/chain.c as a table.
use agentchain.Base.{
  ℕ, suc, ◌≤◌, ◌≡◌, ◌⊎◌, inl, inr, Bool, false, Option, none, some, List, [], ◌∷◌, arith, All,
  length, ltb, Bool-cases, if◌then◌else◌,
}
use agentchain.Bytes.Compare.{Bytes, bytes_eq, bytes_eq_iff}
use agentchain.Mempool.Order.{Pairwise}
use agentchain.Chain.Data.{LiveEntry}
use agentchain.Codec.Block.{CommitSigner}
use agentchain.Chain.Live.{max_live, record_in, live_record_signer, record_signers}

-- Filed under another address.
abbrev pub Other : Bytes → LiveEntry → Type 0
Other a e = bytes_eq e.addr a ≡ false

abbrev pub Differ : LiveEntry → LiveEntry → Type 0
Differ d e = Other d.addr e

abbrev pub Before : ℕ → LiveEntry → Type 0
Before h e = e.last_sign_height ≤ h

-- At most 256 entries, for different addresses.
pub record IsLiveMap (m : List LiveEntry) : Type 0 where
  pub bounded : length m ≤ max_live
  pub apart : Pairwise Differ m

length-record :
    (n : ℕ) (a : Bytes) (h : ℕ) (m : List LiveEntry)
    → (length (record_in n a h m) ≡ length m)
      ⊎ ((length (record_in n a h m) ≡ suc (length m)) × (suc n ≤ max_live))
unfolding record_in
length-record n a h [] = ground arith
length-record n a h (e ∷ es) = ground (arith, length-record n a h es)

Other-record :
    (n : ℕ) (d a : Bytes) (h : ℕ) (m : List LiveEntry)
    → bytes_eq a d ≡ false
    → All (Other d) m
    → All (Other d) (record_in n a h m)
unfolding record_in
Other-record n d a h [] x v = ground arith
Other-record n d a h (e ∷ es) x v = ground (arith, Other-record n d a h es x v.1)

bytes_eq_sym : (a b : Bytes) → bytes_eq a b ≡ false → bytes_eq b a ≡ false
bytes_eq_sym a b h = ground (arith, bytes_eq_iff a b, bytes_eq_iff b a)

apart-record :
    (n : ℕ) (a : Bytes) (h : ℕ) (m : List LiveEntry)
    → Pairwise Differ m
    → Pairwise Differ (record_in n a h m)
unfolding record_in
apart-record n a h [] v = ground arith
apart-record n a h (e ∷ es) v = elim (Bool-cases (bytes_eq e.addr a)) [
  | inl same ↦ elim (Bool-cases (ltb e.last_sign_height h)) [
    | inl up ↦ rw (same, record_in, up) v
    | inr up ↦ rw (same, record_in, up) v
  ]
  | inr other ↦
      rw (other, record_in)
        (Other-record n e.addr a h es (bytes_eq_sym e.addr a other) v.0, apart-record n a h es v.1)
]

record-IsLiveMap :
    (m : List LiveEntry) (a : Bytes) (h : ℕ) → IsLiveMap m → IsLiveMap (live_record_signer m a h)
unfolding live_record_signer
record-IsLiveMap m a h v = record {
  bounded = ground (arith, length-record (length m) a h m, v.bounded);
  apart = apart-record (length m) a h m v.apart;
}

-- Recording the signers of a block keeps at most 256 entries, for different addresses.
pub record_signers-IsLiveMap :
    (m : List LiveEntry) (ss : List CommitSigner) (h : ℕ)
    → IsLiveMap m
    → IsLiveMap (record_signers m ss h)
unfolding record_signers
record_signers-IsLiveMap m [] h v = v
record_signers-IsLiveMap m (s ∷ ss) h v =
    record_signers-IsLiveMap (live_record_signer m s.signer h) ss h
      (record-IsLiveMap m s.signer h v)

-- The height recorded for an address.
unfoldable pub recorded : List LiveEntry → Bytes → Option ℕ
recorded [] a = none
recorded (e ∷ es) a =
    let rest = recorded es a in if bytes_eq e.addr a then some e.last_sign_height else rest

-- The height recorded after signing at `h`, when there is `room` for a new entry or not.
abbrev pub noted : Option ℕ → Bool → ℕ → Option ℕ
noted none room h = if room then some h else none
noted (some k) room h = some (if ltb k h then h else k)

recorded-record_in :
    (n : ℕ) (a : Bytes) (h : ℕ) (m : List LiveEntry) (b : Bytes)
    → recorded (record_in n a h m) b
      ≡ (if bytes_eq a b then noted (recorded m a) (ltb n max_live) h else recorded m b)
unfolding record_in recorded
recorded-record_in n a h [] b = ground arith
recorded-record_in n a h (e ∷ es) b = ground (
  arith,
  recorded-record_in n a h es b,
  bytes_eq_iff e.addr a,
  bytes_eq_iff e.addr b,
  bytes_eq_iff a b,
)

-- Recording a signer raises the height recorded for its address to that of the block, unless it is higher
-- already, or adds an entry while there are fewer than 256, and changes nothing for any other address.
pub recorded-live_record_signer :
    (m : List LiveEntry) (a : Bytes) (h : ℕ) (b : Bytes)
    → recorded (live_record_signer m a h) b
      ≡ (if bytes_eq a b then noted (recorded m a) (ltb (length m) max_live) h else recorded m b)
unfolding live_record_signer
recorded-live_record_signer m a h b = recorded-record_in (length m) a h m b
