-- ===== src/Ecdsa/Commands.antt =====
-- `run_pubkey_or_sign` of src/protocols/ecdsa/mod.rs: the public key at a path, or a signature.
use tss_ecdsa_cli.Base.{
  ℕ, if◌then◌else◌, Text, text_eq, codes, is_empty, not, List, get_elem?, at_index, unwrap_option,
}
use tss_ecdsa_cli.Digest.{message_bytes}
use tss_ecdsa_cli.Client.Effects.{Io, ◌>>=◌ as ◌>>io◌, pure, run}
use tss_ecdsa_cli.Client.Web.{Network, Wire}
use tss_ecdsa_cli.Curves.{Curve, Bignum}
use tss_ecdsa_cli.Files.{Files, read_to_string}
use tss_ecdsa_cli.HdKeys.{PublicKey}
use tss_ecdsa_cli.Ecdsa.Library.{Library, Codecs}
use tss_ecdsa_cli.Ecdsa.Conversion.{Hexadecimal}
use tss_ecdsa_cli.Ecdsa.Pubkey.{given_chain_code, key_at_path}
use tss_ecdsa_cli.Ecdsa.Signer.Crates.{SignLibrary, SignCodecs}
use tss_ecdsa_cli.Ecdsa.Signer.Signature.{SignedMessage, Timeouts, sign}

-- What the command prints.
pub data Output : Type 0 where
  public_key : PublicKey → Output
  signature : SignedMessage → Output

module _ {curve : Curve} (bignum : Bignum) (hex : Hexadecimal curve) {lib : Library curve}
    (json : Codecs lib) (to_hex : ℕ → Text) where
  module _ (net : Network) (wire : Wire) (vars : Timeouts) (fuel : ℕ) (sl : SignLibrary lib)
      (sign_json : SignCodecs sl) (sha256 : List ℕ → List ℕ) where
    open net use {World}

    unfoldable pub run_pubkey_or_sign :
        Files World → Text → Text → Text → Text → Text → List Text → Text → Io World Output
    unfolding given_chain_code key_at_path message_bytes sign
    run_pubkey_or_sign files action keysfile_path path message_str manager_addr params
          chain_code_hex =
        read_to_string files keysfile_path >>io λ data'.
        run (unwrap_option (json.stored.from_str data')) >>io λ stored.
        run (given_chain_code bignum hex chain_code_hex stored.1) >>io λ chain_code.
        run (key_at_path bignum hex stored.6 chain_code path) >>io λ key.
        (if text_eq action (codes "pubkey")
          then (run (unwrap_option (curve.x_coord key.0)) >>io λ x.
              run (unwrap_option (curve.y_coord key.0)) >>io λ y.
              pure (public_key (record { x = to_hex x; y = to_hex y; path = path })))
          else (run (at_index (get_elem? params 0)) >>io λ threshold.
              run (at_index (get_elem? params 1)) >>io λ parties.
              sign bignum to_hex sl net wire vars fuel sign_json sha256 manager_addr
                (record { threshold = threshold; parties = parties })
                (record {
                  party_keys = stored.0;
                  shared_keys = stored.2;
                  party_id = stored.3;
                  vss_scheme_vec = stored.4;
                  paillier_key_vector = stored.5;
                  y_sum = key.0;
                  message = message_bytes hex.decode message_str;
                  f_l_new = key.1;
                  sign_at_path = not (is_empty path);
                })
              >>io λ signed. pure (signature signed)))
