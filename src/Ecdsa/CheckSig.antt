-- ===== src/Ecdsa/CheckSig.antt =====
-- `check_sig` of src/protocols/ecdsa/mod.rs: a signature under the crate `secp256k1`, and the bytes that
-- it is given.
use tss_ecdsa_cli.Base.{
  ℕ, suc, ◌+◌, ◌<◌, ◌≤◌, ◌≡◌, ◌⊎◌, inl, inr, refl, ap, ◌∙◌, ◌==◌, ltb, if◌then◌else◌, Bool, true,
  Bool-cases, List, ◌∷◌, ◌++◌, length, length-append, Option, Run, ret, panic, explicit, ◌>>=◌,
  unwrap_option, assert, arith,
}
use tss_ecdsa_cli.Curves.{Curve, Bignum}
use tss_ecdsa_cli.Protocols.Shares.{pad_left}
use tss_ecdsa_cli.Protocols.Padded.{padded, pad_left_lem, length-padded}

-- The `parse_slice` of the three types, and `verify`; of `curv`, the bytes of a scalar and
-- `to_bytes(false)` of a point.
pub record Secp256k1 (curve : Curve) : Type 1 where
  pub Message : Type 0
  pub PublicKey : Type 0
  pub Signature : Type 0
  pub parse_message : List ℕ → Option Message
  pub parse_public_key : List ℕ → Option PublicKey
  pub parse_signature : List ℕ → Option Signature
  pub verify : Message → Signature → PublicKey → Bool
  pub scalar_bytes : curve.Scalar → List ℕ
  pub uncompressed : curve.Point → List ℕ

-- A point of 64 bytes gets the byte 4 in front.
unfoldable pub full_key : List ℕ → List ℕ
full_key raw_pk = if length raw_pk == 64 then 4 ∷ raw_pk else raw_pk

module _ {curve : Curve} (bignum : Bignum) (secp : Secp256k1 curve) where
  -- From the bytes on.
  unfoldable pub verify_bytes : List ℕ → List ℕ → Run (List ℕ) → Run (Unit {0})
  verify_bytes msg raw_pk compact = do
    message ← unwrap_option (secp.parse_message msg)
    public_key ← unwrap_option (secp.parse_public_key raw_pk)
    bytes ← compact
    signature ← unwrap_option (secp.parse_signature bytes)
    assert (secp.verify message signature public_key)

  unfoldable pub check_sig : curve.Scalar → curve.Scalar → ℕ → curve.Point → Run (Unit {0})
  unfolding pad_left full_key verify_bytes
  check_sig r s msg pk = do
    padded_msg ← pad_left 32 (bignum.to_bytes msg)
    verify_bytes padded_msg (full_key (secp.uncompressed pk)) (do
      bytes_r ← pad_left 32 (secp.scalar_bytes r)
      bytes_s ← pad_left 32 (secp.scalar_bytes s)
      ret (bytes_r ++ bytes_s))

  too_long : (bytes : List ℕ) → 32 < length bytes → pad_left 32 bytes ≡ panic explicit
  unfolding pad_left
  too_long bytes h = let yes' : ltb 32 (length bytes) ≡ true = ground arith in rw yes' refl

  length-full_key :
      (raw_pk : List ℕ)
      → (length raw_pk ≡ 64) ⊎ (length raw_pk ≡ 65)
      → length (full_key raw_pk) ≡ 65
  unfolding full_key
  length-full_key raw_pk (inl h) = rw h (ap suc h)
  length-full_key raw_pk (inr h) = rw h h

  -- If scalars have 32 bytes at most and points 64 or 65, then `check_sig` hands the crate
  -- `secp256k1` a message of 32 bytes, a public key of 65 and a signature of 64, where the number
  -- of the message has 32 bytes at most; for a longer one it panics before.
  pub check_sig_lem :
      ((a : curve.Scalar) → length (secp.scalar_bytes a) ≤ 32)
      → ((p : curve.Point)
          → (length (secp.uncompressed p) ≡ 64) ⊎ (length (secp.uncompressed p) ≡ 65))
      → (r s : curve.Scalar) (msg : ℕ) (pk : curve.Point)
      → ((length (bignum.to_bytes msg) ≤ 32)
          × ((bytes raw_pk compact : List ℕ) × (length bytes ≡ 32)
              × (length raw_pk ≡ 65)
              × (length compact ≡ 64)
              × (check_sig r s msg pk ≡ verify_bytes bytes raw_pk (ret compact))))
        ⊎ ((32 < length (bignum.to_bytes msg)) × (check_sig r s msg pk ≡ panic explicit))
  unfolding check_sig
  check_sig_lem scalars points r s msg pk =
      elim (Bool-cases (ltb 32 (length (bignum.to_bytes msg)))) [
        | inl long ↦
            let more : 32 < length (bignum.to_bytes msg) = ground (arith, long) in
            inr (more, rw (too_long (bignum.to_bytes msg) more) refl)
        | inr short ↦
            let fits : length (bignum.to_bytes msg) ≤ 32 = ground (arith, short) in
            inl (
              fits,
              (
                padded 32 (bignum.to_bytes msg),
                full_key (secp.uncompressed pk),
                padded 32 (secp.scalar_bytes r) ++ padded 32 (secp.scalar_bytes s),
                length-padded 32 (bignum.to_bytes msg) fits,
                length-full_key (secp.uncompressed pk) (points pk),
                length-append (padded 32 (secp.scalar_bytes r)) (padded 32 (secp.scalar_bytes s))
                    ∙ both (length-padded 32 (secp.scalar_bytes r) (scalars r))
                        (length-padded 32 (secp.scalar_bytes s) (scalars s)),
                rw
                    (
                      pad_left_lem 32 (bignum.to_bytes msg) fits,
                      pad_left_lem 32 (secp.scalar_bytes r) (scalars r),
                      pad_left_lem 32 (secp.scalar_bytes s) (scalars s),
                    )
                    refl,
              ),
            )
      ]
    where
      both : {a b : ℕ} → a ≡ 32 → b ≡ 32 → a + b ≡ 64
      both e e' = omega (arith, e, e')
