-- ===== src/Eddsa/Signer/Signature.antt =====
-- `run_signer` of src/protocols/eddsa/signer.rs, and `sign` of src/protocols/eddsa/mod.rs.
use tss_ecdsa_cli.Base.{
  ℕ, ◌-◌, is_empty, if◌then◌else◌, Text, codes, parse_u16, List, Option, none, some, Run, ret,
  panic, assertion, assert, ◌>>=◌, get_elem?, at_index, unwrap_option,
}
use tss_ecdsa_cli.Room.{add_u16, sub_u16}
use tss_ecdsa_cli.Cipher.{AesGcm}
use tss_ecdsa_cli.Common.{Params}
use tss_ecdsa_cli.Digest.{as_bytes, message_bytes, sha256_digest}
use tss_ecdsa_cli.Client.Effects.{Io, ◌>>=◌ as ◌>>io◌, pure, run}
use tss_ecdsa_cli.Client.Web.{Network, Wire}
use tss_ecdsa_cli.Client.{new}
use tss_ecdsa_cli.Client.Signup.{signup}
use tss_ecdsa_cli.Curves.{Curve, Bignum}
use tss_ecdsa_cli.Files.{Files, read_to_string}
use tss_ecdsa_cli.Protocols.{unwrap_result}
use tss_ecdsa_cli.Protocols.Rounds.{exchange_data}
use tss_ecdsa_cli.Ecdsa.Signer.Signature.{Timeouts}
use tss_ecdsa_cli.Eddsa.{curve_name}
use tss_ecdsa_cli.Eddsa.Library.{Library, Codecs}
use tss_ecdsa_cli.Eddsa.Derived.{Ed25519, Signature, key_at, signature_at}
use tss_ecdsa_cli.Eddsa.Signer.Crates.{SignLibrary, SignCodecs}
use tss_ecdsa_cli.Eddsa.Signer.Session.{SignSession, Ephemeral, eph_keygen_t_n_parties}

-- What `sign` returns as JSON, beside its status: the numbers in base 16, and the bytes of the message.
pub record SignedText : Type 0 where
  pub r : Text
  pub s : Text
  pub x : Text
  pub y : Text
  pub msg_int : List ℕ

-- `assert!` of `is_ok`, and `unwrap`.
abbrev pub assert_ok : {A : Type 0} → Option A → Run A
assert_ok none = panic assertion
assert_ok (some a) = ret a

-- What a file of keys and the path give the signer.
pub record Keyholder {curve : Curve} (lib : Library curve) : Type 0 where
  pub party_keys : lib.Keys
  pub shared_keys : lib.SharedKeys
  pub party_id : ℕ
  pub vss_scheme_vec : List lib.VerifiableSs
  pub y : curve.Point
  pub f_l_new : curve.Scalar
  pub path : Text

module _ {curve : Curve} (bignum : Bignum) (ed : Ed25519 curve) {lib : Library curve}
    (sl : SignLibrary lib) where
  open curve use {Point}

  -- The secret of the signer, whose public key is the one at the path.
  abbrev pub shared_keys_at : Text → lib.SharedKeys → Point → lib.SharedKeys
  shared_keys_at path shared_keys y = if is_empty path then shared_keys else sl.with_y shared_keys y

  -- From the local signatures on: their check, and the signature.
  unfoldable pub combine :
      Keyholder lib → List ℕ → List ℕ → Ephemeral sl → List sl.LocalSig → Run (Signature curve)
  unfolding signature_at
  combine holder message parties_index_vec eph local_sig_vec = do
    vss_sum ← assert_ok (
        sl.verify_local_sigs local_sig_vec parties_index_vec holder.vss_scheme_vec
          eph.vss_scheme_vec)
    let signature =
        signature_at curve bignum ed holder.path
          (sl.generate vss_sum local_sig_vec parties_index_vec eph.r_sum) holder.y message
          holder.f_l_new
    assert (sl.verify signature message holder.y) >>= λ _. ret signature

  module _ (net : Network) (wire : Wire) (vars : Timeouts) (fuel : ℕ) (aes : AesGcm)
      (codecs : Codecs lib) (json : SignCodecs sl) (nonces : ℕ → List ℕ) where
    open net use {World}

    -- `run_signer` after the signup.
    unfoldable pub sign_in_session :
        SignSession → Keyholder lib → List ℕ → Io World (Signature curve)
    unfolding exchange_data eph_keygen_t_n_parties combine
    sign_in_session p holder message =
        exchange_data net wire vars.poll fuel json.index p.client p.party_num_int
          (add_u16 p.threshold 1) p.uuid (codes "round0") 25 (sub_u16 holder.party_id 1)
        >>io λ parties_index_vec.
            eph_keygen_t_n_parties net wire vars.poll fuel bignum aes sl json codecs.vss codecs.aead
              nonces p holder.party_keys message parties_index_vec
            >>io λ eph.
                run (at_index (get_elem? eph.shared_keys_vec (p.party_num_int - 1))) >>io λ own.
                exchange_data net wire vars.poll fuel json.local_sig p.client p.party_num_int
                  p.total_parties p.uuid (codes "round1_local_sig") 25
                  (sl.compute message own (shared_keys_at holder.path holder.shared_keys holder.y))
                >>io λ local_sig_vec.
                    run (combine holder message parties_index_vec eph local_sig_vec)

    module _ (decode : Text → Option (List ℕ)) (sha256 : List ℕ → List ℕ)
        (files : Files World) where
      unfoldable pub run_signer :
          Text → Text → Params → Text → Text → Io World (Signature curve × Point)
      unfolding key_at message_bytes sha256_digest signup sign_in_session
      run_signer manager_address key_file_path params message_str path =
          (let message = message_bytes decode message_str in
            read_to_string files key_file_path >>io λ data'.
            run (unwrap_option (codecs.stored.from_str data')) >>io λ stored.
            run (key_at curve bignum ed stored.5 stored.1 path) >>io λ key.
            run (unwrap_option (parse_u16 params.threshold)) >>io λ threshold.
            signup net wire (new manager_address) vars.signup fuel (codes "signupsign") params
              (sha256_digest sha256 message) stored.3 curve_name
            >>io λ joined. run (unwrap_result joined) >>io λ session.
                sign_in_session
                  (record {
                    client = new manager_address;
                    party_num_int = session.0.number;
                    total_parties = session.1;
                    uuid = session.0.uuid;
                    threshold = threshold;
                  })
                  (record {
                    party_keys = stored.0;
                    shared_keys = stored.2;
                    party_id = stored.3;
                    vss_scheme_vec = stored.4;
                    y = key.0;
                    f_l_new = key.1;
                    path = path;
                  })
                  message
                >>io λ signature. pure (signature, key.0))

      unfoldable pub sign : (ℕ → Text) → Text → Text → List Text → Text → Text → Io World SignedText
      unfolding run_signer as_bytes
      sign to_hex manager_address key_file_path params message_str path =
          run (at_index (get_elem? params 0)) >>io λ threshold.
          run (at_index (get_elem? params 1)) >>io λ parties.
          run_signer manager_address key_file_path
            (record { threshold = threshold; parties = parties }) message_str path
          >>io λ signed. run (unwrap_option (curve.x_coord signed.1)) >>io λ x.
              run (unwrap_option (curve.y_coord signed.1)) >>io λ y. pure (record {
                r = to_hex (bignum.from_bytes (sl.uncompressed signed.0.r));
                s = to_hex (bignum.from_bytes (sl.scalar_bytes signed.0.s));
                x = to_hex x;
                y = to_hex y;
                msg_int = as_bytes message_str;
              })
