-- ===== src/Eddsa/Keygen/Rounds.antt =====
-- The rounds of `run_keygen` in src/protocols/eddsa/keygen.rs where all parties keep to the protocol and
-- all messages arrive.
use tss_ecdsa_cli.Base.{
  ℕ, suc, ◌+◌, ◌-◌, ◌≤◌, ◌≡◌, ap, ◌∙◌, Text, codes, List, map, get_elem?, Option, some, Run, ret,
  arith,
}
use tss_ecdsa_cli.Cipher.{AesGcm}
use tss_ecdsa_cli.Cipher.Sealed.{IsAesGcm}
use tss_ecdsa_cli.Client.Effects.{run-bind, with_world}
use tss_ecdsa_cli.Client.Web.{Network, Wire}
use tss_ecdsa_cli.Client.{Client, range, client_timeout}
use tss_ecdsa_cli.Curves.{Curve, Bignum}
use mathlib.Core.Path.{fun_ext}
use tss_ecdsa_cli.Protocols.{decode_all, insert_at}
use tss_ecdsa_cli.Protocols.Shares.{open_shares}
use tss_ecdsa_cli.Protocols.Delivers.{Yields, then_run-Yields, round_answers_lem, p2ps-Yields}
use tss_ecdsa_cli.Protocols.Gathered.{others}
use tss_ecdsa_cli.Protocols.Numbers.{get_elem?-range, insert_at_lem}
use tss_ecdsa_cli.Protocols.Padded.{padded}
use tss_ecdsa_cli.Protocols.Encrypted.{sealed}
use tss_ecdsa_cli.Protocols.Opened.{open_shares_lem}
use tss_ecdsa_cli.Protocols.Sealing.{send_shares_lem}
use tss_ecdsa_cli.Ecdsa.Library.{Parameters}
use tss_ecdsa_cli.Eddsa.Library.{Library, Codecs}
use tss_ecdsa_cli.Eddsa.Keygen.{aes_key_bytes_len}
use tss_ecdsa_cli.Eddsa.Keygen.Opened.{open_decommitments_lem}
use tss_ecdsa_cli.Eddsa.Keygen.Honest.{
  Drawn, message_of, decom_of, point_of, key_of, length-key_of, shared_key_lem, IsHonest,
  shared_x_comm, AreLawful,
}
use tss_ecdsa_cli.Eddsa.Keygen.Session.{
  Party, exchange_commitments, exchange_decommitments, exchange_shares,
}
use tss_ecdsa_cli.Eddsa.Keygen.Arrives.{Arrives, pack}

module _ (net : Network) (wire : Wire) (client : Client) (var : Option Text) {curve : Curve}
    (bignum : Bignum) {aes : AesGcm} (cipher : IsAesGcm aes) (lib : Library curve)
    (json : Codecs lib) (d : Drawn lib) (params : Parameters) (uuid : Text) where
  module _ (laws : AreLawful bignum json) (honest : IsHonest lib d bignum params) {timeout : ℕ}
      (t : client_timeout var ≡ ret timeout) (fuel p : ℕ) (low : 1 ≤ p)
      (high : p ≤ params.share_count) {Stage : ℕ → net.World → Type 0}
      (arrives : Arrives net wire client var bignum cipher lib json d params uuid p Stage) where
    abbrev pub party : Party lib
    party = record {
      client = client;
      party_num_int = p;
      parties = params.share_count;
      uuid = uuid;
      party_keys = d.keys p;
    }

    abbrev pub all : List ℕ
    all = range 1 params.share_count

    pub commitments_lem :
        (w : net.World)
        → Stage 2 w
        → Yields net wire client (Stage 3) (map (message_of lib d) all) (
            exchange_commitments net wire var
              (suc fuel)
              bignum
              aes
              lib
              json
              party
              (message_of lib d p)
              w)
    unfolding exchange_commitments
    commitments_lem w h =
        then_run-Yields net wire client _ _
          (round_answers_lem net wire client var t fuel p params.share_count 25 (codes "round1")
            uuid _ w arrives.round1 h)
          (λ w1 h1. (
            w1,
            run-bind
                  (decode_all json.broadcast_message (
                    map (λ i. json.broadcast_message.to_string (message_of lib d i))
                      (others p all)))
                  (insert_at (p - 1) (message_of lib d p)) w1
                ∙ rw (
                    insert_at_lem json.broadcast_message laws.messages p params.share_count
                      (message_of lib d) low high),
            h1,
          ))

    pub decommitments_lem :
        (w : net.World)
        → Stage 3 w
        → Yields net wire client
            (Stage 4)
            (
              map (point_of lib d) all,
              map (λ i. lib.blind_factor (decom_of lib d i)) all,
              map (key_of lib d bignum p) (others p all),
            )
            (exchange_decommitments net wire var
              (suc fuel)
              bignum
              aes
              lib
              json
              party
              (decom_of lib d p)
              w)
    unfolding exchange_decommitments
    decommitments_lem w h =
        then_run-Yields net wire client _ _
          (round_answers_lem net wire client var t fuel p params.share_count 25 (codes "round2")
            uuid _ w arrives.round2 h)
          (λ w1 h1. (
            w1,
            rw (
                open_decommitments_lem bignum lib json laws.decommitments p (d.keys p)
                  (decom_of lib d) (key_of lib d bignum p)
                  (λ i. shared_key_lem lib d bignum params honest p i json) all),
            h1,
          ))

    pub shares_lem :
        (w : net.World)
        → Stage 4 w
        → Yields net wire client (Stage 5) (map (λ i. d.share i p) all) (
            exchange_shares net wire var
              (suc fuel)
              bignum
              aes
              lib
              json
              party
              (d.nonces p)
              (map (key_of lib d bignum p) (others p all))
              (map (d.share p) all)
              w)
    unfolding exchange_shares
    shares_lem w h =
        then_run-Yields net wire client _ _
          (send_shares_lem curve bignum aes json.aead (λ key. key) cipher net wire client p
            (codes "round3") uuid (d.nonces p) (key_of lib d bignum p) (d.share p)
            (length-key_of lib d bignum params honest p) (honest.nonce_length p) _ all w
            (arrives.round3.sends w h))
          (λ w1 h1.
            then_run-Yields net wire client _ _
              (p2ps-Yields net wire client var t fuel p params.share_count 25 (codes "round3") uuid
                _ w1 h1)
              (λ w2 h2. (w2, opened w2, h2)))
      where
        key_text : ℕ → Text
        key_text i =
            json.aead.to_string
              (sealed curve bignum cipher (key_of lib d bignum p i) (d.nonces i p) (d.share i p))

        same_text :
            (i : ℕ) → pack net wire client var bignum cipher lib json d params uuid i p ≡ key_text i
        same_text i =
            ap
              (λ x. json.aead.to_string (
                sealed curve bignum cipher (padded aes_key_bytes_len (bignum.to_bytes x))
                  (d.nonces i p) (d.share i p)))
              (shared_x_comm lib d laws.shared bignum params honest i p)

        back : 1 + (p - 1) ≡ p
        back = omega arith

        kept : get_elem? (map (d.share p) all) (p - 1) ≡ some (d.share p p)
        kept =
            get_elem?-range (d.share p) 1 params.share_count (p - 1) (omega arith)
            ∙ ap (λ j. some (d.share p j)) back

        read_all : List Text → Run (List curve.Scalar)
        read_all answers =
            open_shares curve bignum aes json.aead (λ key. key) p (map (d.share p) all)
              (map (key_of lib d bignum p) (others p all)) answers 0 all

        opened :
            (w2 : net.World)
            → with_world
                (read_all (
                  map
                    (λ i. pack net wire client var bignum cipher lib json d params uuid i p)
                    (others p all)))
                w2
              ≡ ret (map (λ i. d.share i p) all, w2)
        opened w2 =
            ap (λ f. with_world (read_all (map f (others p all))) w2) (fun_ext same_text)
            ∙ ap (λ r. with_world r w2)
                (open_shares_lem curve bignum aes json.aead (λ key. key) cipher laws.shared
                  laws.numbers laws.packs p (map (d.share p) all) (key_of lib d bignum p)
                  (λ i. d.nonces i p) (λ i. d.share i p) kept
                  (length-key_of lib d bignum params honest p) (λ i. honest.nonce_length i p) all)
