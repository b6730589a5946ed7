-- ===== src/Codec/Tx/Signing.antt =====
-- What a signature covers: `ac_tx_signable_bytes`, `ac_tx_sign`, `ac_tx_verify`, `ac_tx_hash`.
use mathlib.Core.List.{flatten}
use agentchain.Base.{
  ℕ, ◌≤◌, ◌≡◌, refl, sym, ap, ◌∙◌, Bool, true, some, [], ◌∷◌, ◌++◌, arith, length, drop, le→leb,
}
use agentchain.Bytes.Compare.{Bytes}
use agentchain.Codec.Cursor.{written-writes}
use agentchain.Codec.Format.{Format, bytes_format}
use agentchain.Codec.Format.Combine.{u8_format, u32_format, u64_format, pair_format}
use agentchain.Codec.Format.Whole.{var_format, whole-put}
use agentchain.Codec.Cursor.{whole}
use agentchain.Codec.Tx.{Tx, tx_domain, tx_fields, tx_signable_bytes, tx_hash, tx_sign, tx_verify}
use agentchain.Codec.Tx.RoundTrip.{IsTx}

-- Everything but the signature.
abbrev pub unsigned : Tx → Tx
unsigned tx = record tx { sig = [] }

abbrev Core : Type 0
Core = ℕ × (ℕ × (ℕ × (Bytes × (ℕ × (ℕ × (ℕ × (ℕ × (Bytes × Bytes))))))))

core : Tx → Core
core tx = (
  tx.version,
  (
    tx.chain_id,
    (
      tx.kind,
      (tx.sender, (tx.nonce, (tx.gas_limit, (tx.tip, (tx.valid_until, (tx.body, tx.memo)))))),
    ),
  ),
)

abbrev of_core : Core → Tx
of_core (v, (c, (k, (s, (n, (g, (t, (u, (b, m))))))))) = record {
  version = v;
  chain_id = c;
  kind = k;
  sender = s;
  nonce = n;
  gas_limit = g;
  tip = t;
  valid_until = u;
  body = b;
  memo = m;
  sig = [];
}

core_format : Format Core
unfolding pair_format bytes_format u8_format u32_format u64_format var_format core
core_format = pair_format u8_format (
    pair_format u64_format (
      pair_format u8_format (
        pair_format (bytes_format 32) (
          pair_format u64_format (
            pair_format u32_format (
              pair_format u64_format (
                pair_format u64_format
                  (pair_format (var_format 512 (omega arith)) (var_format 512 (omega arith))))))))))

core_flat : (tx : Tx) → flatten (tx_fields tx []) ≡ core_format.put (core tx) []
unfolding core_format flatten
core_flat tx = refl

core_valid : (tx : Tx) → IsTx tx → core_format.Valid (core tx)
unfolding core_format
core_valid tx v = (
  v.version,
  (
    v.chain_id,
    (v.kind, (v.sender, (v.nonce, (v.gas_limit, (v.tip, (v.valid_until, (v.body, v.memo))))))),
  ),
)

size-le : (tx : Tx) → IsTx tx → core_format.size (core tx) ≤ 1200
unfolding core_format
size-le tx v = omega arith

core_size : (tx : Tx) → IsTx tx → length (core_format.put (core tx) []) ≤ 1200
core_size tx v = omega (arith, core_format.length-put (core tx) [], size-le tx v)

abbrev signed_bytes : Tx → Bytes
signed_bytes tx = flatten (tx_domain ∷ tx_fields tx [])

signed_flat : (tx : Tx) → signed_bytes tx ≡ tx_domain ++ core_format.put (core tx) []
unfolding core_format flatten
signed_flat tx = refl

signed_fits : (tx : Tx) → IsTx tx → length (signed_bytes tx) ≤ 2048
signed_fits tx v = rw (signed_flat tx) (omega (arith, core_size tx v))

signable_some : (tx : Tx) → IsTx tx → tx_signable_bytes 2048 tx ≡ some (signed_bytes tx)
unfolding tx_signable_bytes
signable_some tx v =
    rw (written-writes (tx_domain ∷ tx_fields tx []) 2048, le→leb _ _ (signed_fits tx v)) refl

core_inj : (s t : Tx) → IsTx s → IsTx t → signed_bytes s ≡ signed_bytes t → core s ≡ core t
core_inj s t v w e =
    let tail : core_format.put (core s) [] ≡ core_format.put (core t) [] =
      ap (drop 10) (sym (signed_flat s) ∙ e ∙ signed_flat t) in
    cc (
      sym (whole-put core_format (core s) (core_valid s v))
      ∙ ap (whole core_format.get) tail
      ∙ whole-put core_format (core t) (core_valid t w))

-- Two transactions with fields of the widths of the wire format that have the same bytes to sign
-- agree in every field but the signature.
pub signable_inj :
    (s t : Tx)
    → IsTx s
    → IsTx t
    → tx_signable_bytes 2048 s ≡ tx_signable_bytes 2048 t
    → unsigned s ≡ unsigned t
unfolding core
signable_inj s t v w e =
    ap of_core (core_inj s t v w (ground (arith, signable_some s v, signable_some t w)))

signable_sig :
    (tx : Tx) (s : Bytes)
    → tx_signable_bytes 2048 (record tx { sig = s }) ≡ tx_signable_bytes 2048 tx
unfolding tx_signable_bytes
signable_sig tx s = refl

-- A well-formed transaction can be signed. If `ac_verify` accepts what `ac_sign` makes under the
-- sender's key, the signed transaction verifies; it differs in its signature alone and has the
-- same hash.
pub tx_verify-sign :
    (hash sign : Bytes → Bytes) (verify : Bytes → Bytes → Bytes → Bool) (tx : Tx)
    → IsTx tx
    → ((m : Bytes) → verify (sign m) m tx.sender ≡ true)
    → (t : Tx) × (tx_sign hash sign tx ≡ some t)
      × (tx_verify hash verify t ≡ true)
      × (unsigned t ≡ unsigned tx)
      × (tx_hash hash t ≡ tx_hash hash tx)
unfolding tx_sign tx_verify tx_hash
tx_verify-sign hash sign verify tx v law =
    let m : Bytes = hash (signed_bytes tx) in
    let e = signable_some tx v in
    (
      record tx { sig = sign m },
      rw (e, tx_sign) refl,
      rw (signable_sig tx (sign m), e, tx_verify) (law m),
      refl,
      rw (signable_sig tx (sign m), tx_hash) refl,
    )
