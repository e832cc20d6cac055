-- ===== src/Eddsa/Signed.antt =====
-- Why the signatures of src/protocols/eddsa/signer.rs for a derived key verify.
use tss_ecdsa_cli.Base.{
  ℕ, ◌≡◌, sym, ap, ◌∙◌, Text, is_empty, List, Option, none, some, false, Bool-cases, inl, inr, Run,
  ret, >>=-eq-ret, unwrap_option,
}
use tss_ecdsa_cli.Curves.{Curve, IsCurve, Bignum}
use tss_ecdsa_cli.HdKeys.{get_hd_key}
use tss_ecdsa_cli.HdKeys.Derived.{get_hd_key_lem}
use tss_ecdsa_cli.Eddsa.Derived.{
  Ed25519, Signature, challenge, update_signature, signature_at, update_hd_derived_public_key,
  key_at,
}

-- The scalars act on the points as a ring does, and the inverse undoes a product on the group of the
-- generator.
pub record IsEd25519 (curve : Curve) (ed : Ed25519 curve) : Type 0 where
  pub is_curve : IsCurve curve
  pub add-mul :
      (p q : curve.Point) (a : curve.Scalar)
      → curve.mul (curve.add p q) a ≡ curve.add (curve.mul p a) (curve.mul q a)
  pub mul-mul_scalar :
      (p : curve.Point) (a b : curve.Scalar)
      → curve.mul p (curve.mul_scalar a b) ≡ curve.mul (curve.mul p a) b
  pub mul-invert :
      (a b x : curve.Scalar)
      → ed.invert a ≡ some b
      → curve.mul (curve.mul (curve.mul curve.generator x) b) a ≡ curve.mul curve.generator x

module _ (curve : Curve) (bignum : Bignum) (ed : Ed25519 curve) (laws : IsEd25519 curve ed) where
  open curve use {Scalar, Point, add, mul, generator, add_scalar, mul_scalar}

  -- The equation of a signature of a message with the secret of `key`, under the public key `y`.
  abbrev pub IsSignature : Signature curve → Point → Point → List ℕ → Type 0
  IsSignature signature key y message =
      mul generator signature.s
      ≡ add signature.r (mul key (challenge curve bignum ed signature.r y message))

  invert_found :
      (a : Scalar) (inv : Scalar) → unwrap_option (ed.invert a) ≡ ret inv → ed.invert a ≡ some inv
  invert_found a inv e = found (ed.invert a) inv e
    where
      found : (o : Option Scalar) (inv : Scalar) → unwrap_option o ≡ ret inv → o ≡ some inv
      found none inv e = cc
      found (some b) inv e = cc

  -- The detour by the eighth of a key leads back to the key.
  update_hd_derived_public_key_lem :
      (key y : Point) (x : Scalar)
      → key ≡ mul generator x
      → update_hd_derived_public_key curve bignum ed key ≡ ret y
      → y ≡ key
  unfolding update_hd_derived_public_key
  update_hd_derived_public_key_lem key y x secret e =
      let (inv, found, out) = >>=-eq-ret (unwrap_option (ed.invert (curve.scalar_of 8))) _ e in
      returned (mul (mul key inv) (curve.scalar_of 8)) y out
      ∙ ap (λ p. mul (mul p inv) (curve.scalar_of 8)) secret
      ∙ laws.mul-invert (curve.scalar_of 8) inv x (invert_found (curve.scalar_of 8) inv found)
      ∙ sym secret
    where
      returned : (a b : Point) → ret a ≡ ret b → b ≡ a
      returned a b e = cc

  key_at_lem :
      (root y : Point) (chain_code x f : Scalar) (path : Text)
      → root ≡ mul generator x
      → is_empty path ≡ false
      → key_at curve bignum ed root chain_code path ≡ ret (y, f)
      → y ≡ add root (mul generator f)
  unfolding key_at
  key_at_lem root y chain_code x f path secret deep e =
      let (child, derived, rest) =
        >>=-eq-ret (get_hd_key curve bignum root path (mul generator chain_code)) _
          (rw deep at e) in
      let (safe, updated, out) =
        >>=-eq-ret (update_hd_derived_public_key curve bignum ed child.0) _ rest in
      let tweaked =
        get_hd_key_lem curve bignum laws.is_curve root child.0 (mul generator chain_code) path x
          child.1 secret derived in
      ap (λ r. r.0) (returned (safe, child.1) (y, f) out)
      ∙ update_hd_derived_public_key_lem child.0 safe (add_scalar x child.1) tweaked.1 updated
      ∙ tweaked.0
      ∙ ap (λ g. add root (mul generator g))
          (ap (λ r. r.1) (sym (returned (safe, child.1) (y, f) out)))
    where
      returned : (a b : Point × Scalar) → ret a ≡ ret b → b ≡ a
      returned a b e = cc

  -- If the scalars act on the points as a ring does, the inverse of a scalar undoes its product on
  -- the group of the generator, and the key at a path of a root with the secret `x` is `y` with the
  -- tweak `f`: a signature whose equation holds with the secret of the root, the public key in its
  -- challenge being `y`, becomes by `signature_at` one whose equation holds with the secret of `y`,
  -- for the empty path, where nothing is changed, and for others, where `update_signature` adds the
  -- tweak times the challenge.
  pub signature_at_lem :
      (root y r : Point) (s x chain_code f : Scalar) (path : Text) (message : List ℕ)
      → root ≡ mul generator x
      → key_at curve bignum ed root chain_code path ≡ ret (y, f)
      → IsSignature (record { r = r; s = s }) root y message
      → IsSignature
          (signature_at curve bignum ed path (record { r = r; s = s }) y message f)
          y
          y
          message
  unfolding signature_at update_signature key_at
  signature_at_lem root y r s x chain_code f path message secret derived signed =
      elim (Bool-cases (is_empty path)) [
        | inl at_root ↦
            rw at_root (signed ∙ ap (λ p. add r (mul p k)) (same (rw at_root at derived)))
        | inr deep ↦ rw deep (
            laws.is_curve.mul-add_scalar generator s (mul_scalar f k)
            ∙ ap (λ p. add p (mul generator (mul_scalar f k))) signed
            ∙ ap (add (add r (mul root k))) (laws.mul-mul_scalar generator f k)
            ∙ laws.is_curve.add_assoc r (mul root k) (mul (mul generator f) k)
            ∙ ap (add r) (sym (laws.add-mul root (mul generator f) k))
            ∙ ap (λ p. add r (mul p k))
                (sym (key_at_lem root y chain_code x f path secret deep derived)))
      ]
    where
      k : Scalar
      k = challenge curve bignum ed r y message

      same : ◌≡◌ {A = Run (Point × Scalar)} (ret (root, curve.zero_scalar)) (ret (y, f)) → root ≡ y
      same e = cc
