-- ===== src/Ecdsa/Pubkey.antt =====
-- The public keys of src/protocols/ecdsa/mod.rs: `run_pubkey_or_sign` with the action `pubkey`.
pub mod Backward
use tss_ecdsa_cli.Base.{ℕ, Text, is_empty, if◌then◌else◌, Run, ret, ◌>>=◌, unwrap_option}
use tss_ecdsa_cli.Client.Effects.{Io, ◌>>=◌ as ◌>>io◌, pure, run}
use tss_ecdsa_cli.Curves.{Curve, Bignum}
use tss_ecdsa_cli.Files.{Files, read_to_string}
use tss_ecdsa_cli.HdKeys.{PublicKey, get_hd_key}
use tss_ecdsa_cli.Ecdsa.Library.{Library, Codecs}
use tss_ecdsa_cli.Ecdsa.Conversion.{Hexadecimal}

module _ {curve : Curve} (bignum : Bignum) (hex : Hexadecimal curve) where
  open curve use {Scalar, Point, mul, generator, zero_scalar}

  -- The chain code of the file, unless another is given.
  unfoldable pub given_chain_code : Text → Scalar → Run Scalar
  given_chain_code chain_code_hex chain_code =
      if is_empty chain_code_hex then ret chain_code else (do
        bytes ← unwrap_option (hex.decode chain_code_hex)
        unwrap_option (hex.scalar_from_bytes bytes))

  -- The `match` on the path: the public key, and the tweak.
  unfoldable pub key_at_path : Point → Scalar → Text → Run (Point × Scalar)
  unfolding get_hd_key
  key_at_path y_sum chain_code path =
      if is_empty path
      then ret (y_sum, zero_scalar)
      else get_hd_key curve bignum y_sum path (mul generator chain_code)

  module _ {lib : Library curve} (json : Codecs lib) (to_hex : ℕ → Text) {W : Type 0} where
    unfoldable pub pubkey_action : Files W → Text → Text → Text → Io W PublicKey
    unfolding given_chain_code key_at_path
    pubkey_action files keysfile_path path chain_code_hex =
        read_to_string files keysfile_path >>io λ data'.
        run (unwrap_option (json.stored.from_str data')) >>io λ stored.
        run (given_chain_code chain_code_hex stored.1) >>io λ chain_code.
        run (key_at_path stored.6 chain_code path) >>io λ key.
        run (unwrap_option (curve.x_coord key.0)) >>io λ x.
        run (unwrap_option (curve.y_coord key.0)) >>io λ y.
        pure (record { x = to_hex x; y = to_hex y; path = path })
