-- ===== src/Eddsa/Signer/Agreement.antt =====
-- A session of signers of src/protocols/eddsa/signer.rs that keep to the protocol, in which all messages
-- arrive: what each of them returns.
use tss_ecdsa_cli.Base.{
  ℕ, suc, ◌+◌, ◌-◌, ◌^◌, ◌≡◌, refl, ap, ◌∙◌, Text, codes, to_text, parse_u16, parse_uint-to_text,
  List, map, get_elem?, Option, some, ret, ok, unwrap_option, arith,
}
use tss_ecdsa_cli.Cipher.{AesGcm}
use tss_ecdsa_cli.Cipher.Sealed.{IsAesGcm}
use tss_ecdsa_cli.Digest.{sha256_digest, message_bytes}
use tss_ecdsa_cli.Room.{sub_u16}
use tss_ecdsa_cli.Client.Effects.{with_world}
use tss_ecdsa_cli.Client.Web.{Network, Wire}
use tss_ecdsa_cli.Client.{Client, new, range, client_timeout}
use tss_ecdsa_cli.Client.Signup.{signup}
use tss_ecdsa_cli.Curves.{Curve, Bignum}
use tss_ecdsa_cli.Files.{Files, read_to_string}
use tss_ecdsa_cli.Protocols.Numbers.{get_elem?-range}
use tss_ecdsa_cli.Protocols.Delivers.{Yields, after_ret, then_run-Yields, exchange_data_lem}
use tss_ecdsa_cli.Ecdsa.Signer.Signature.{Timeouts}
use tss_ecdsa_cli.Eddsa.{curve_name}
use tss_ecdsa_cli.Eddsa.Library.{Library, Codecs}
use tss_ecdsa_cli.Eddsa.Derived.{Ed25519, key_at}
use tss_ecdsa_cli.Eddsa.Signer.Crates.{SignLibrary, SignCodecs}
use tss_ecdsa_cli.Eddsa.Signer.Honest.{
  SignDrawn, IsMember, holder_of, sent_indices, ephemeral, local_sig, signature, AreSigners,
  AreSignCodecs,
}
use tss_ecdsa_cli.Eddsa.Signer.Arrives.{SignArrives}
use tss_ecdsa_cli.Eddsa.Signer.Indices.{joined_below}
use tss_ecdsa_cli.Eddsa.Signer.Generated.{session, eph_keygen_lem}
use tss_ecdsa_cli.Eddsa.Signer.Signature.{combine, sign_in_session, run_signer}

module _ (net : Network) (wire : Wire) (client : Client) (vars : Timeouts) {curve : Curve}
    (bignum : Bignum) (ed : Ed25519 curve) {aes : AesGcm} (cipher : IsAesGcm aes)
    {lib : Library curve} (sl : SignLibrary lib) (codecs : Codecs lib) (json : SignCodecs sl)
    (d : SignDrawn sl) (uuid : Text) {timeout : ℕ} (t : client_timeout vars.poll ≡ ret timeout)
    (fuel p : ℕ) (member : IsMember bignum ed sl d p) (laws : AreSignCodecs bignum codecs json)
    (honest : AreSigners bignum ed sl d) {Stage : ℕ → net.World → Type 0}
    (arrives : SignArrives net wire client bignum ed cipher sl codecs json d uuid p Stage) where
  combine_lem :
      combine bignum ed sl
        (holder_of bignum ed sl d p)
        d.message
        (sent_indices bignum ed sl d)
        (ephemeral bignum ed sl d)
        (map (local_sig bignum ed sl d) (range 1 (d.threshold + 1)))
      ≡ ret (signature bignum ed sl d)
  unfolding combine
  combine_lem = rw honest.local_sigs_verify (rw honest.verifies refl)

  own_ephemeral :
      get_elem? (map d.ephemeral_shared (range 1 (d.threshold + 1))) (p - 1)
      ≡ some (d.ephemeral_shared p)
  own_ephemeral =
      let (low, high) = member in
      let back : 1 + (p - 1) ≡ p = omega arith in
      get_elem?-range d.ephemeral_shared 1 (d.threshold + 1) (p - 1) (omega arith)
      ∙ ap (λ j. some (d.ephemeral_shared j)) back

  sign_in_session_lem :
      (w : net.World)
      → Stage 0 w
      → Yields net wire client (Stage 6) (signature bignum ed sl d) (
          sign_in_session bignum ed sl net wire vars
            (suc fuel)
            aes
            codecs
            json
            (d.nonces p)
            (session net wire client vars.poll bignum ed cipher sl codecs json d uuid t fuel p
              member laws honest arrives)
            (holder_of bignum ed sl d p)
            d.message
            w)
  unfolding sign_in_session
  sign_in_session_lem w before =
      let (low, high) = member in
      rw
        (joined_below d.ids honest.some_id honest.small_id d.threshold (d.threshold + 1) p
          honest.fits (omega arith))
        (then_run-Yields net wire client _ _
          (exchange_data_lem net wire client vars.poll t fuel json.index laws.indices p
            (d.threshold + 1) 25 (codes "round0") uuid (λ i. sub_u16 (d.ids i) 1) w arrives.round0
            before)
          (λ w1 h1.
            then_run-Yields net wire client _ _
              (eph_keygen_lem net wire client vars.poll bignum ed cipher sl codecs json d uuid t
                fuel p member laws honest arrives w1 h1)
              (λ w2 h2. rw own_ephemeral (
                then_run-Yields net wire client _ _
                  (exchange_data_lem net wire client vars.poll t fuel json.local_sig laws.local_sigs
                    p (d.threshold + 1) 25 (codes "round1_local_sig") uuid
                    (local_sig bignum ed sl d) w2 arrives.local_sigs h2)
                  (λ w3 h3. (w3, rw combine_lem refl, h3))))))

  threshold_read : parse_u16 (to_text d.threshold) ≡ some d.threshold
  unfolding parse_u16
  threshold_read = parse_uint-to_text (2 ^ 16) d.threshold (omega (arith, honest.fits))

  -- For a party `p` of an EdDSA signing session that as many signers have joined as the threshold
  -- and one, numbered from 1: if the keys can be read from the file and lead to the public key at
  -- the path, the signup has given `p` its number, the UUID and the count of the signers, the
  -- codecs and the cipher keep their documented behaviour, the timeout can be read, round by round,
  -- each message that `p` sends is accepted and each message of another party that it polls for is
  -- there when it first asks for it, the indices lie between 1 and 2 ^ 16, the key that a signer
  -- shares with another goes by the index of the other, x coordinates have 32 bytes at most and
  -- nonces 12, and the libraries accept what all signers sent and the signature, then `run_signer`
  -- comes to its end, and returns the public key and the signature that the libraries make of the
  -- local signatures of all, updated for the path, the same for every signer.
  pub run_signer_lem :
      (decode : Text → Option (List ℕ)) (sha256 : List ℕ → List ℕ) (files : Files net.World)
      (key_file_path data' message_str parties : Text) (chain_code : curve.Scalar)
      (root : curve.Point) (w w' : net.World)
      → message_bytes decode message_str ≡ d.message
      → files.read_file key_file_path w ≡ some data'
      → codecs.stored.from_str data'
        ≡ some (d.keys p, chain_code, d.shared_keys p, d.ids p, d.vss_scheme_vec, root)
      → key_at curve bignum ed root chain_code d.path ≡ ret (d.y, d.f_l_new)
      → signup net wire client vars.signup
          (suc fuel)
          (codes "signupsign")
          (record { threshold = to_text d.threshold; parties = parties })
          (sha256_digest sha256 d.message)
          (d.ids p)
          curve_name
          w
        ≡ ret (ok (record { number = p; uuid = uuid }, d.threshold + 1), w')
      → Stage 0 w'
      → Yields net wire client
          (Stage 6)
          (signature bignum ed sl d, d.y)
          (run_signer bignum ed sl net wire vars
            (suc fuel)
            aes
            codecs
            json
            (d.nonces p)
            decode
            sha256
            files
            client.address
            key_file_path
            (record { threshold = to_text d.threshold; parties = parties })
            message_str
            d.path
            w)
  unfolding run_signer new
  run_signer_lem decode sha256 files key_file_path data' message_str parties chain_code root w w'
        is_message readable stored derived signed_up before =
      rw is_message (
        after_ret net wire client _ _ (read files key_file_path data' w readable) (
          after_ret net wire client _ _ (ap (λ o. with_world (unwrap_option o) w) stored) (
            after_ret net wire client _ _ (ap (λ r. with_world r w) derived) (
              after_ret net wire client _ _
                (ap (λ o. with_world (unwrap_option o) w) threshold_read)
                (after_ret net wire client _ _ signed_up (
                  then_run-Yields net wire client _ _ (sign_in_session_lem w' before)
                    (λ w1 h1. (w1, refl, h1))))))))
    where
      read :
          (files : Files net.World) (path text : Text) (w : net.World)
          → files.read_file path w ≡ some text
          → read_to_string files path w ≡ ret (text, w)
      read files path text w e = rw (e, read_to_string) refl
