-- ===== src/Eddsa/Derived.antt =====
-- Keys and signatures at a path: what `run_signer` of src/protocols/eddsa/signer.rs and `run_pubkey` of
-- src/protocols/eddsa/mod.rs do for a path that is not empty.
use tss_ecdsa_cli.Base.{
  ℕ, Text, is_empty, List, [], ◌∷◌, ◌++◌, foldl, Option, if◌then◌else◌, Run, ret, ◌>>=◌,
  unwrap_option,
}
use tss_ecdsa_cli.Client.Effects.{Io, ◌>>=◌ as ◌>>io◌, pure, run}
use tss_ecdsa_cli.Curves.{Curve, Bignum}
use tss_ecdsa_cli.Files.{Files, read_to_string}
use tss_ecdsa_cli.HdKeys.{PublicKey, get_hd_key}
use tss_ecdsa_cli.Eddsa.Library.{Library, Codecs}

-- `Scalar::invert` of `curv`, and `Sha512` of `sha2`.
pub record Ed25519 (curve : Curve) : Type 0 where
  pub invert : curve.Scalar → Option curve.Scalar
  pub sha512 : List ℕ → List ℕ

-- `Signature` of `multi-party-eddsa`, whose first field is `R`.
pub record Signature (curve : Curve) : Type 0 where
  pub r : curve.Point
  pub s : curve.Scalar

abbrev pub reverse : List ℕ → List ℕ
reverse bytes = foldl (λ acc b. b ∷ acc) [] bytes

module _ (curve : Curve) (bignum : Bignum) (ed : Ed25519 curve) where
  open curve use {
    Scalar, Point, add, mul, generator, add_scalar, mul_scalar, zero_scalar, scalar_of,
  }

  -- The scalar of a commitment, a public key and a message, `add_to_sigma` in `update_signature`.
  unfoldable pub challenge : Point → Point → List ℕ → Scalar
  challenge r public_key message = scalar_of (
      bignum.from_bytes
        (reverse (ed.sha512 (curve.to_bytes r ++ (curve.to_bytes public_key ++ message)))))

  unfoldable pub update_signature : Signature curve → Point → List ℕ → Scalar → Signature curve
  update_signature signature public_key message f_l_new = record signature {
    s = add_scalar signature.s (mul_scalar f_l_new (challenge signature.r public_key message));
  }

  -- The `if sign_at_path` of `run_signer` after `generate`.
  unfoldable pub signature_at : Text → Signature curve → Point → List ℕ → Scalar → Signature curve
  unfolding update_signature
  signature_at path signature public_key message f_l_new =
      if is_empty path then signature else update_signature signature public_key message f_l_new

  unfoldable pub update_hd_derived_public_key : Point → Run Point
  update_hd_derived_public_key public_key = do
    eight_inverse ← unwrap_option (ed.invert (scalar_of 8))
    ret (mul (mul public_key eight_inverse) (scalar_of 8))

  -- The `match` on the path, which both functions have: the public key, and the tweak.
  unfoldable pub key_at : Point → Scalar → Text → Run (Point × Scalar)
  unfolding update_hd_derived_public_key get_hd_key
  key_at y_sum chain_code path = if is_empty path then ret (y_sum, zero_scalar) else (do
    child ← get_hd_key curve bignum y_sum path (mul generator chain_code)
    safe_public_key_child ← update_hd_derived_public_key child.0
    ret (safe_public_key_child, child.1))

  module _ {lib : Library curve} (json : Codecs lib) (to_hex : ℕ → Text) {W : Type 0} where
    unfoldable pub run_pubkey : Files W → Text → Text → Io W PublicKey
    unfolding key_at
    run_pubkey files keys_file_path path = read_to_string files keys_file_path >>io λ data'.
        run (unwrap_option (json.stored.from_str data')) >>io λ stored.
        run (key_at stored.5 stored.1 path) >>io λ key.
        run (unwrap_option (curve.x_coord key.0)) >>io λ x.
        run (unwrap_option (curve.y_coord key.0)) >>io λ y.
        pure (record { x = to_hex x; y = to_hex y; path = path })
