-- ===== src/Eddsa/Signer/Session.antt =====
-- `eph_keygen_t_n_parties` of src/protocols/eddsa/signer.rs: its rounds, one after the other.
use tss_ecdsa_cli.Base.{
  ℕ, suc, ◌==◌, if◌then◌else◌, Text, codes, List, [], ◌∷◌, map, get_elem?, Option, at_index,
  unwrap_option, assert,
}
use tss_ecdsa_cli.Common.{Aead}
use tss_ecdsa_cli.Manager.Store.{Json}
use tss_ecdsa_cli.Cipher.{AesGcm, aes_encrypt}
use tss_ecdsa_cli.Client.Effects.{Io, ◌>>=◌, ◌>>◌, pure, run}
use tss_ecdsa_cli.Client.Web.{Network, Wire}
use tss_ecdsa_cli.Client.{Client, range, sendp2p, poll_for_p2p}
use tss_ecdsa_cli.Curves.{Curve, Bignum}
use tss_ecdsa_cli.Protocols.{is_ok, fold_from_head}
use tss_ecdsa_cli.Protocols.Rounds.{round_answers, exchange_data}
use tss_ecdsa_cli.Ecdsa.Library.{Parameters}
use tss_ecdsa_cli.Eddsa.Library.{Library}
use tss_ecdsa_cli.Eddsa.Signer.{this_party_index}
use tss_ecdsa_cli.Eddsa.Signer.Crates.{SignLibrary, SignCodecs, Announcement}
use tss_ecdsa_cli.Eddsa.Signer.Ephemeral.{
  EncKeys, enc_key_of, open_announcements, open_ephemeral_shares,
}

-- The session that `signup` leads to, with the threshold.
pub record SignSession : Type 0 where
  pub client : Client
  pub party_num_int : ℕ
  pub total_parties : ℕ
  pub uuid : Text
  pub threshold : ℕ

-- What the ephemeral key generation returns beside the party's key.
pub record Ephemeral {curve : Curve} {lib : Library curve} (sl : SignLibrary lib) : Type 0 where
  pub shared_keys_vec : List sl.EphemeralSharedKeys
  pub r_sum : curve.Point
  pub vss_scheme_vec : List lib.VerifiableSs

module _ (net : Network) (wire : Wire) (var : Option Text) (fuel : ℕ) {curve : Curve}
    (bignum : Bignum) (aes : AesGcm) {lib : Library curve} (sl : SignLibrary lib)
    (json : SignCodecs sl) (vss_json : Json lib.VerifiableSs) (aead_json : Json Aead)
    (nonces : ℕ → List ℕ) where
  open net use {World}

  -- The loop that sends the shares; `k` counts the parties.
  unfoldable pub send_ephemeral_shares :
      SignSession → List ℕ → EncKeys → List curve.Scalar → ℕ → List ℕ → Io World (Unit {0})
  unfolding enc_key_of sendp2p
  send_ephemeral_shares p parties enc_keys secret_shares k [] = pure tt
  send_ephemeral_shares p parties enc_keys secret_shares k (i ∷ is) =
      let next = send_ephemeral_shares p parties enc_keys secret_shares (suc k) is in
      if i == p.party_num_int then next else (do
        key_i ← run (enc_key_of parties enc_keys i)
        share ← run (at_index (get_elem? secret_shares k))
        aead_pack_i ←
            run (aes_encrypt aes key_i (nonces i) (bignum.to_bytes (curve.to_bigint share)))
        sent ←
            sendp2p net wire p.client p.party_num_int i (codes "eph_keygen_round3")
              (aead_json.to_string aead_pack_i) p.uuid
        run (assert (is_ok sent))
        next)

  -- Round 1: what the parties announce.
  unfoldable pub exchange_announcements :
      SignSession → sl.EphemeralKey → List ℕ → Io World (List (Announcement sl) × EncKeys)
  unfolding round_answers open_announcements
  exchange_announcements p eph_party_key parties = do
    let broadcast = sl.phase1_broadcast eph_party_key
    let own : Announcement sl = (broadcast.0, broadcast.1, sl.point eph_party_key)
    round1_ans_vec ←
        round_answers net wire var fuel p.client p.party_num_int p.total_parties p.uuid
          (codes "eph_keygen_round1") 25 (json.announcement.to_string own)
    run (
        open_announcements bignum sl json p.party_num_int eph_party_key own parties round1_ans_vec
          [] 0 (range 1 p.total_parties))

  -- Round 3: the shares, each under the key of its two parties.
  unfoldable pub exchange_ephemeral_shares :
      SignSession → List ℕ → EncKeys → List curve.Scalar → Io World (List curve.Scalar)
  unfolding send_ephemeral_shares poll_for_p2p open_ephemeral_shares
  exchange_ephemeral_shares p parties enc_keys secret_shares = do
    send_ephemeral_shares p parties enc_keys secret_shares 0 (range 1 p.total_parties)
    round3_ans_vec ←
        poll_for_p2p net wire p.client var fuel p.party_num_int p.total_parties 25
          (codes "eph_keygen_round3") p.uuid
    run (
        open_ephemeral_shares curve bignum aes aead_json p.party_num_int secret_shares parties
          enc_keys round3_ans_vec 0 (range 1 p.total_parties))

  unfoldable pub eph_keygen_t_n_parties :
      SignSession → lib.Keys → List ℕ → List ℕ → Io World (Ephemeral sl)
  unfolding this_party_index exchange_announcements fold_from_head exchange_data
      exchange_ephemeral_shares
  eph_keygen_t_n_parties p key_i message parties_index_vec = do
    parties ← run (this_party_index p.threshold p.total_parties p.party_num_int parties_index_vec)
    let eph_party_key = sl.create_from_deterministic_secret key_i message parties.1
    let parames : Parameters = record { threshold = p.threshold; share_count = p.total_parties }
    announced ← exchange_announcements p eph_party_key parties.0
    let r_vec = map (λ a. a.2) announced.0
    r_sum ← run (fold_from_head curve.add r_vec)
    distributed ← run (
        unwrap_option (
          sl.phase1_verify_com_phase2_distribute eph_party_key parames (map (λ a. a.1) announced.0)
            r_vec (map (λ a. a.0) announced.0) parties.0))
    vss_scheme_vec ←
        exchange_data net wire var fuel vss_json p.client p.party_num_int p.total_parties p.uuid
          (codes "eph_keygen_round2") 25 distributed.0
    party_shares ← exchange_ephemeral_shares p parties.0 announced.1 distributed.1
    eph_shared_key ← run (
        unwrap_option (
          sl.phase2_verify_vss_construct_keypair eph_party_key parames r_vec party_shares
            vss_scheme_vec parties.1))
    shared_keys_vec ←
        exchange_data net wire var fuel json.shared_keys p.client p.party_num_int p.total_parties
          p.uuid (codes "eph_keygen_round4") 25 eph_shared_key
    pure (record {
      shared_keys_vec = shared_keys_vec;
      r_sum = r_sum;
      vss_scheme_vec = vss_scheme_vec;
    })
