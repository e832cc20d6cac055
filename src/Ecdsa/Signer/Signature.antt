-- ===== src/Ecdsa/Signer/Signature.antt =====
-- `sign` of src/protocols/ecdsa/signer.rs: from the signup of the signer to the signature.
use tss_ecdsa_cli.Base.{ℕ, ◌%◌, ◌^◌, Text, codes, List, Option, Run, ret, ◌>>=◌, unwrap_option}
use tss_ecdsa_cli.Common.{Params}
use tss_ecdsa_cli.Digest.{sha256_digest}
use tss_ecdsa_cli.Client.Effects.{Io, ◌>>=◌ as ◌>>io◌, run}
use tss_ecdsa_cli.Client.Web.{Network, Wire}
use tss_ecdsa_cli.Client.{new}
use tss_ecdsa_cli.Client.Signup.{signup}
use tss_ecdsa_cli.Curves.{Curve, Bignum}
use tss_ecdsa_cli.Protocols.{unwrap_result, accepted}
use tss_ecdsa_cli.Protocols.Others.{remove_at}
use tss_ecdsa_cli.Ecdsa.{curve_name}
use tss_ecdsa_cli.Ecdsa.Library.{Library}
use tss_ecdsa_cli.Ecdsa.Signer.Crates.{SignLibrary, SignCodecs}
use tss_ecdsa_cli.Ecdsa.Signer.{at_path, create_sign_keys, previous}
use tss_ecdsa_cli.Ecdsa.Signer.Session.{
  Signing, Signer, exchange_reads, exchange_ids, exchange_products, exchange_point, exchange_phase5,
}

-- What `sign` returns as JSON, beside its status: the numbers in base 16, and the message.
pub record SignedMessage : Type 0 where
  pub r : Text
  pub s : Text
  pub recid : ℕ
  pub x : Text
  pub y : Text
  pub msg_int : ℕ

-- The variables of the environment, TSS_CLI_POLL_TIMEOUT and TSS_CLI_SIGNUP_TIMEOUT.
pub record Timeouts : Type 0 where
  pub poll : Option Text
  pub signup : Option Text

-- What is signed: the last 32 bytes.
abbrev pub message_bn : Bignum → List ℕ → ℕ
message_bn bignum message = bignum.from_bytes message % 2 ^ 256

module _ {curve : Curve} (bignum : Bignum) (to_hex : ℕ → Text) {lib : Library curve}
    (sl : SignLibrary lib) where
  open curve use {Scalar, Point}

  -- From the signature on: its check, and the result.
  unfoldable pub output : sl.LocalSignature → List Scalar → Point → List ℕ → Run SignedMessage
  output local_sig s_i_vec y_sum message = do
    sig ← unwrap_option (sl.output_signature local_sig s_i_vec)
    accepted (sl.verify sig y_sum (message_bn bignum message)) >>= λ _. do
      x ← unwrap_option (curve.x_coord y_sum)
      y ← unwrap_option (curve.y_coord y_sum)
      ret (record {
        r = to_hex (curve.to_bigint (sl.r sig));
        s = to_hex (curve.to_bigint (sl.s sig));
        recid = sl.recid sig;
        x = to_hex x;
        y = to_hex y;
        msg_int = bignum.from_bytes message;
      })

  module _ (net : Network) (wire : Wire) (vars : Timeouts) (fuel : ℕ) (json : SignCodecs sl) where
    open net use {World}

    -- `sign` after the signup.
    unfoldable pub sign_in_room : Signing → Signer lib → Io World SignedMessage
    unfolding exchange_ids at_path create_sign_keys exchange_products exchange_point exchange_phase5
        exchange_reads remove_at output
    sign_in_room p signer =
        exchange_ids net wire vars.poll fuel sl json p signer.party_id >>io λ signers_vec.
        run (
          at_path sl signer.sign_at_path p.party_num_int signer.f_l_new signer.vss_scheme_vec
            (sl.set_private signer.party_keys signer.shared_keys))
        >>io λ updated.
            run (create_sign_keys sl p.party_num_int updated.1 updated.0 signers_vec)
            >>io λ sign_keys.
                exchange_products net wire vars.poll fuel sl json p signer updated.0 signers_vec
                  sign_keys
                >>io λ shared. exchange_point net wire vars.poll fuel sl json p shared >>io λ r.
                    (let local_sig =
                        sl.phase5_local_sig (sl.k_i sign_keys) (message_bn bignum signer.message) r
                          shared.sigma signer.y_sum in
                      exchange_phase5 net wire vars.poll fuel sl json p local_sig r >>io λ s_i.
                      exchange_reads net wire vars.poll fuel sl json json.scalar p (codes "round9")
                        s_i
                      >>io λ s_i_vec.
                          run (remove_at (previous p.party_num_int) s_i_vec) >>io λ others.
                          run (output local_sig others.1 signer.y_sum signer.message))

    -- The room is named by the hash of the message, `sha256` being the hash.
    unfoldable pub sign : (List ℕ → List ℕ) → Text → Params → Signer lib → Io World SignedMessage
    unfolding signup sign_in_room sha256_digest
    sign sha256 addr params signer =
        signup net wire (new addr) vars.signup fuel (codes "signupsign") params
          (sha256_digest sha256 signer.message) signer.party_id curve_name
        >>io λ joined. run (unwrap_result joined) >>io λ session.
            sign_in_room
              (record {
                client = new addr;
                party_num_int = session.0.number;
                total_parties = session.1;
                uuid = session.0.uuid;
              })
              signer
