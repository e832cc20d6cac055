-- ===== src/Ecdsa/Keygen/Agreement.antt =====
-- A key generation of src/protocols/ecdsa/keygen.rs in which all parties keep to the protocol and all
-- messages arrive: what each of them has at the end.
use tss_ecdsa_cli.Base.{
  ℕ, suc, ◌≤◌, ◌<◌, ◌≡◌, sym, ap, ◌∙◌, Text, codes, [], ◌∷◌, ◌^◌, to_text, parse_u16,
  parse_uint-to_text, List, map, length, length-map, Option, some, ret, ok, arith,
}
use tss_ecdsa_cli.Cipher.{AesGcm}
use tss_ecdsa_cli.Cipher.Sealed.{IsAesGcm}
use tss_ecdsa_cli.Client.Web.{Network, Wire}
use tss_ecdsa_cli.Client.{Client, range, client_timeout, keygen_signup, new}
use tss_ecdsa_cli.Curves.{Curve, Bignum}
use tss_ecdsa_cli.Protocols.Delivers.{Yields, then_run-Yields, exchange_data_lem}
use tss_ecdsa_cli.Protocols.Numbers.{length-range}
use tss_ecdsa_cli.Protocols.Agreed.{total, fold_from_head-map, generate_shared_chain_code_lem}
use tss_ecdsa_cli.Files.{Files, write}
use tss_ecdsa_cli.Ecdsa.{curve_name}
use tss_ecdsa_cli.Ecdsa.Library.{Library, Codecs, Parameters, Stored}
use tss_ecdsa_cli.Ecdsa.Keygen.{encryption_keys}
use tss_ecdsa_cli.Ecdsa.Keygen.Opened.{encryption_keys_lem}
use tss_ecdsa_cli.Ecdsa.Keygen.Honest.{Drawn, message_of, point_of, IsHonest, AreLawful}
use tss_ecdsa_cli.Ecdsa.Keygen.Session.{Party, generate_keys, run_keygen}
use tss_ecdsa_cli.Ecdsa.Keygen.Arrives.{Arrives}
use tss_ecdsa_cli.Ecdsa.Keygen.Rounds.{commitments_lem, decommitments_lem, shares_lem}

module _ (net : Network) (wire : Wire) (client : Client) (var : Option Text) {curve : Curve}
    (bignum : Bignum) {aes : AesGcm} (cipher : IsAesGcm aes) (lib : Library curve)
    (json : Codecs lib) (d : Drawn lib) (params : Parameters) (uuid : Text) where
  module _ (laws : AreLawful bignum json) (honest : IsHonest lib d bignum params) {timeout : ℕ}
      (t : client_timeout var ≡ ret timeout) (fuel p : ℕ) (low : 1 ≤ p)
      (high : p ≤ params.share_count) {Stage : ℕ → net.World → Type 0}
      (arrives : Arrives net wire client var bignum cipher lib json d params uuid p Stage) where
    abbrev party : Party lib
    party = record {
      client = client;
      party_num_int = p;
      parties = params.share_count;
      uuid = uuid;
      party_keys = d.keys p;
    }

    abbrev all : List ℕ
    all = range 1 params.share_count

    -- What is in the file of party `p`: its own keys and shares, and for all parties alike the chain
    -- code, the commitments to the shares, the encryption keys and the public key.
    abbrev pub keys_of : Stored lib
    keys_of = (
      d.keys p,
      total curve.add_scalar d.chain_code params.share_count,
      d.shared_keys p,
      p,
      map d.vss all,
      map lib.e (map (message_of lib d) all),
      total curve.add (point_of lib d) params.share_count,
    )

    paillier :
        encryption_keys lib json (map (message_of lib d) all) (range 0 params.share_count)
        ≡ ret (map lib.e (map (message_of lib d) all))
    paillier =
        ap (λ k. encryption_keys lib json (map (message_of lib d) all) (range 0 k)) (sym count)
        ∙ encryption_keys_lem lib json (map (message_of lib d) all)
      where
        count : length (map (message_of lib d) all) ≡ params.share_count
        count = length-map (message_of lib d) all ∙ length-range 1 params.share_count

    -- The rounds from the verification of the commitments on.
    generate_keys_lem :
        (w : net.World)
        → Stage 0 w
        → Yields net wire client (Stage 7) keys_of (
            generate_keys net wire var
              (suc fuel)
              bignum
              aes
              lib
              json
              party
              params
              (record { chain_code_i = d.chain_code p; nonces = d.nonces p })
              w)
    unfolding generate_keys
    generate_keys_lem w h =
        then_run-Yields net wire client _ _
          (generate_shared_chain_code_lem net wire client var t fuel curve json.scalar
            json.dlog_proof lib.verify d.chain_code (λ i. lib.prove (d.chain_code i)) p
            params.share_count 25 uuid w laws.scalars laws.proofs (omega arith) honest.proves
            arrives.chain_proofs arrives.chain_codes h)
          (λ w1 h1.
            then_run-Yields net wire client _ _
              (commitments_lem net wire client var bignum cipher lib json d params uuid laws honest
                t fuel p low high arrives w1 h1)
              (λ w2 h2.
                then_run-Yields net wire client _ _
                  (decommitments_lem net wire client var bignum cipher lib json d params uuid laws
                    honest t fuel p low high arrives w2 h2)
                  (λ w3 h3.
                    rw
                      (
                        fold_from_head-map curve.add (point_of lib d) params.share_count
                            (omega arith),
                        honest.distributes p,
                      )
                      (then_run-Yields net wire client _ _
                        (shares_lem net wire client var bignum cipher lib json d params uuid laws
                          honest t fuel p low high arrives w3 h3)
                        (λ w4 h4.
                          then_run-Yields net wire client _ _
                            (exchange_data_lem net wire client var t fuel json.vss laws.vsses p
                              params.share_count 25 (codes "round4") uuid d.vss w4 arrives.round4
                              h4)
                            (λ w5 h5. rw (honest.constructs p) (
                              then_run-Yields net wire client _ _
                                (exchange_data_lem net wire client var t fuel json.dlog_proof
                                  laws.proofs p params.share_count 25 (codes "round5") uuid d.proof
                                  w5 arrives.round5 h5)
                                (λ w6 h6. (w6, rw (honest.proofs_verify, paillier), h6)))))))))

    -- For a party `p` of a key generation, numbered 1 to `n`: if the libraries accept what all
    -- parties drew and sent, the codecs and the cipher keep their documented behaviour, the keys
    -- that two parties share have 32 bytes and the nonces 12, the threshold and the number of
    -- parties are below 2 ^ 16, `p` signed up, round by round, each message that `p` sends is
    -- accepted and each message of another party that it polls for is there when it first asks for
    -- it, and the file can be written, then `run_keygen` comes to its end, and has written a file
    -- with the keys and the shares of `p` and with, the same for every party, the chain code and
    -- the public key (the sums of what all contributed), the commitments to the shares and the
    -- encryption keys, in the order of the parties.
    pub run_keygen_lem :
        (files : Files net.World) (path : Text) (w w' : net.World)
        → params.threshold < 2 ^ 16
        → params.share_count < 2 ^ 16
        → lib.create p ≡ d.keys p
        → keygen_signup net wire client
            (record { parties = to_text params.share_count; threshold = to_text params.threshold })
            curve_name
            w
          ≡ ret (ok (record { number = p; uuid = uuid }), w')
        → Stage 0 w'
        → ((end : net.World)
            → Stage 7 end
            → (after : net.World) × (files.write_file path (json.stored.to_string keys_of) end
                ≡ some after))
        → Yields net wire client
            (λ after.
              (end : net.World) × Stage 7 end
              × (files.write_file path (json.stored.to_string keys_of) end ≡ some after))
            tt
            (run_keygen net wire var
              (suc fuel)
              bignum
              aes
              lib
              json
              files
              client.address
              path
              (to_text params.threshold ∷ to_text params.share_count ∷ [])
              (record { chain_code_i = d.chain_code p; nonces = d.nonces p })
              w)
    unfolding run_keygen parse_u16 new
    run_keygen_lem files path w w' small small' own signed_up h writes =
        rw
          (
            parse_uint-to_text (2 ^ 16) params.threshold small,
            parse_uint-to_text (2 ^ 16) params.share_count small',
          )
          (rw signed_up (
            rw own (
              then_run-Yields net wire client _ _ (generate_keys_lem w' h) (λ end h6.
                let (after, written) = writes end h6 in
                (after, rw (written, write), (end, h6, written))))))
