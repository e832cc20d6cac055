-- ===== src/Eddsa/Signer/Generated.antt =====
-- `eph_keygen_t_n_parties` of src/protocols/eddsa/signer.rs where all signers keep to the protocol and
-- all messages arrive.
use tss_ecdsa_cli.Base.{
  ℕ, suc, ◌+◌, ◌-◌, ◌≤◌, ◌≡◌, refl, ap, ◌∙◌, Text, codes, List, [], map, get_elem?, Option, some,
  false, ◌==◌, ret, arith,
}
use tss_ecdsa_cli.Cipher.{AesGcm}
use tss_ecdsa_cli.Cipher.Sealed.{IsAesGcm}
use tss_ecdsa_cli.Client.Web.{Network, Wire}
use tss_ecdsa_cli.Client.{Client, range, client_timeout}
use tss_ecdsa_cli.Curves.{Curve, Bignum}
use tss_ecdsa_cli.Protocols.Gathered.{others}
use tss_ecdsa_cli.Protocols.Numbers.{get_elem?-range}
use tss_ecdsa_cli.Protocols.Agreed.{fold_from_head-map}
use tss_ecdsa_cli.Protocols.Delivers.{
  Yields, then_run-Yields, round_answers_lem, p2ps-Yields, exchange_data_lem,
}
use tss_ecdsa_cli.Protocols.Loops.{IsOther, IsOther-bounds, IsOther-exists, map-map, HasAt-map}
use tss_ecdsa_cli.Protocols.Encrypted.{sealed}
use tss_ecdsa_cli.Eddsa.Library.{Library, Codecs}
use tss_ecdsa_cli.Eddsa.Derived.{Ed25519}
use tss_ecdsa_cli.Eddsa.Signer.Crates.{SignLibrary, SignCodecs}
use tss_ecdsa_cli.Eddsa.Signer.Ephemeral.{EncKeys, enc_key_of}
use tss_ecdsa_cli.Eddsa.Signer.Honest.{
  SignDrawn, IsMember, indices, sent_indices, eph, announcement_of, point_of, ephemeral, key_of,
  length-key_of, ephemeral_key_lem, key_of_comm, key_of_same, AreSigners, AreSignCodecs,
}
use tss_ecdsa_cli.Eddsa.Signer.Arrives.{SignArrives, pack}
use tss_ecdsa_cli.Eddsa.Signer.Opened.{keys_after, keys_after_lem, open_announcements_lem}
use tss_ecdsa_cli.Eddsa.Signer.Shares.{send_ephemeral_shares_lem, open_ephemeral_shares_lem}
use tss_ecdsa_cli.Eddsa.Signer.Indices.{this_party_index_lem}
use tss_ecdsa_cli.Eddsa.Signer.Session.{
  SignSession, exchange_announcements, exchange_ephemeral_shares, eph_keygen_t_n_parties,
}

module _ {curve : Curve} (bignum : Bignum) (ed : Ed25519 curve) {lib : Library curve}
    (sl : SignLibrary lib) (d : SignDrawn sl) (honest : AreSigners bignum ed sl d) (p : ℕ)
    (member : IsMember bignum ed sl d p) where
  -- The keys that party `p` has after the first round.
  abbrev pub enc_keys : EncKeys
  enc_keys =
      keys_after d.ids (key_of bignum ed sl d p) (IsMember bignum ed sl d)
        (λ i. key_of_same bignum ed sl d honest p i) [] (others p (range 1 (d.threshold + 1)))

  pub is_member : (k i : ℕ) → IsOther p (range 1 (d.threshold + 1)) k i → IsMember bignum ed sl d i
  is_member k i e =
      let (low, high) = IsOther-bounds p 1 (d.threshold + 1) k i e in (low, omega arith)

  pub index_at :
      (i : ℕ)
      → IsMember bignum ed sl d i
      → get_elem? (indices bignum ed sl d) (i - 1) ≡ some (d.ids i)
  index_at i (low, high) =
      get_elem?-range d.ids 1 (d.threshold + 1) (i - 1) (omega arith)
      ∙ ap (λ j. some (d.ids j)) back
    where
      back : 1 + (i - 1) ≡ i
      back = omega arith

  -- The key for each other signer is found by its index.
  pub enc_key_of_lem :
      (k i : ℕ)
      → IsOther p (range 1 (d.threshold + 1)) k i
      → enc_key_of (indices bignum ed sl d) enc_keys i ≡ ret (key_of bignum ed sl d p i)
  unfolding enc_key_of
  enc_key_of_lem k i e = rw (index_at i (is_member k i e)) (
      rw
        (keys_after_lem d.ids (key_of bignum ed sl d p) (IsMember bignum ed sl d)
          (λ i. key_of_same bignum ed sl d honest p i) (others p (range 1 (d.threshold + 1))) [] k i
          is_member e)
        refl)

module _ (net : Network) (wire : Wire) (client : Client) (var : Option Text) {curve : Curve}
    (bignum : Bignum) (ed : Ed25519 curve) {aes : AesGcm} (cipher : IsAesGcm aes)
    {lib : Library curve} (sl : SignLibrary lib) (codecs : Codecs lib) (json : SignCodecs sl)
    (d : SignDrawn sl) (uuid : Text) {timeout : ℕ} (t : client_timeout var ≡ ret timeout)
    (fuel p : ℕ) (member : IsMember bignum ed sl d p) (laws : AreSignCodecs bignum codecs json)
    (honest : AreSigners bignum ed sl d) {Stage : ℕ → net.World → Type 0}
    (arrives : SignArrives net wire client bignum ed cipher sl codecs json d uuid p Stage) where
  abbrev pub session : SignSession
  session = record {
    client = client;
    party_num_int = p;
    total_parties = d.threshold + 1;
    uuid = uuid;
    threshold = d.threshold;
  }

  abbrev all : List ℕ
  all = range 1 (d.threshold + 1)

  announcements_lem :
      (w : net.World)
      → Stage 1 w
      → Yields net wire client
          (Stage 2)
          (map (announcement_of bignum ed sl d) all, enc_keys bignum ed sl d honest p member)
          (exchange_announcements net wire var
            (suc fuel)
            bignum
            aes
            sl
            json
            codecs.vss
            codecs.aead
            (d.nonces p)
            session
            (eph bignum ed sl d p)
            (indices bignum ed sl d)
            w)
  unfolding exchange_announcements
  announcements_lem w before =
      then_run-Yields net wire client _ _
        (round_answers_lem net wire client var t fuel p (d.threshold + 1) 25
          (codes "eph_keygen_round1") uuid _ w arrives.round1 before)
        (λ w1 h1. (
          w1,
          rw
              (open_announcements_lem bignum sl json laws.announcements p (eph bignum ed sl d p)
                (announcement_of bignum ed sl d) (indices bignum ed sl d)
                (map (λ i. json.announcement.to_string (announcement_of bignum ed sl d i))
                  (others p all))
                d.ids (key_of bignum ed sl d p) (IsMember bignum ed sl d)
                (λ i. key_of_same bignum ed sl d honest p i)
                (λ i m. ephemeral_key_lem bignum ed sl d honest p i json member m)
                (index_at bignum ed sl d honest p member) [] 0 all
                (λ k i e. (
                  is_member bignum ed sl d honest p member k i e,
                  HasAt-map (λ i. json.announcement.to_string (announcement_of bignum ed sl d i)) p
                      all k i e,
                )))
              refl,
          h1,
        ))

  shares_lem :
      (w : net.World)
      → Stage 3 w
      → Yields net wire client (Stage 4) (map (λ i. d.share i p) all) (
          exchange_ephemeral_shares net wire var
            (suc fuel)
            bignum
            aes
            sl
            json
            codecs.vss
            codecs.aead
            (d.nonces p)
            session
            (indices bignum ed sl d)
            (enc_keys bignum ed sl d honest p member)
            (map (d.share p) all)
            w)
  unfolding exchange_ephemeral_shares
  shares_lem w before =
      then_run-Yields net wire client _ _
        (send_ephemeral_shares_lem curve bignum cipher codecs.aead p (indices bignum ed sl d)
          (enc_keys bignum ed sl d honest p member) (key_of bignum ed sl d p)
          (length-key_of bignum ed sl d honest p) net wire var (suc fuel) sl json codecs.vss
          (d.nonces p) session (d.share p) (d.threshold + 1) refl (honest.nonce_length p) found _ 1
          0 (d.threshold + 1) w (omega arith) (omega arith) (arrives.round3.sends w before))
        (λ w1 h1.
          then_run-Yields net wire client _ _
            (p2ps-Yields net wire client var t fuel p (d.threshold + 1) 25
              (codes "eph_keygen_round3") uuid _ w1 h1)
            (λ w2 h2. (
              w2,
              rw
                  (open_ephemeral_shares_lem curve bignum cipher codecs.aead p
                    (indices bignum ed sl d) (enc_keys bignum ed sl d honest p member)
                    (key_of bignum ed sl d p) (length-key_of bignum ed sl d honest p) laws.shared
                    laws.numbers laws.packs (map (d.share p) all)
                    (map (λ i. pack net wire client bignum ed cipher sl codecs json d uuid i p)
                      (others p all))
                    (λ i. d.share i p) (λ i. d.nonces i p) (λ i. honest.nonce_length i p) kept 0 all
                    sealed_at)
                  refl,
              h2,
            )))
    where
      found :
          (i : ℕ)
          → 1 ≤ i
          → i ≤ d.threshold + 1
          → (i == p) ≡ false
          → enc_key_of (indices bignum ed sl d) (enc_keys bignum ed sl d honest p member) i
            ≡ ret (key_of bignum ed sl d p i)
      found i low high other =
          let (k, e) = IsOther-exists p 1 (d.threshold + 1) i low (omega arith) other in
          enc_key_of_lem bignum ed sl d honest p member k i e

      kept : get_elem? (map (d.share p) all) (p - 1) ≡ some (d.share p p)
      kept =
          let (low, high) = member in
          let back : 1 + (p - 1) ≡ p = omega arith in
          get_elem?-range (d.share p) 1 (d.threshold + 1) (p - 1) (omega arith)
          ∙ ap (λ j. some (d.share p j)) back

      sealed_at :
          (k i : ℕ)
          → IsOther p all k i
          → (enc_key_of (indices bignum ed sl d) (enc_keys bignum ed sl d honest p member) i
              ≡ ret (key_of bignum ed sl d p i))
            × (get_elem?
                  (map
                    (λ i. pack net wire client bignum ed cipher sl codecs json d uuid i p)
                    (others p all))
                  (0 + k)
                ≡ some (
                    codecs.aead.to_string (
                      sealed curve bignum cipher
                        (key_of bignum ed sl d p i)
                        (d.nonces i p)
                        (d.share i p))))
      sealed_at k i e = (
        enc_key_of_lem bignum ed sl d honest p member k i e,
        HasAt-map (λ i. pack net wire client bignum ed cipher sl codecs json d uuid i p) p all k i e
            ∙ ap
                (λ key. some (
                  codecs.aead.to_string
                    (sealed curve bignum cipher key (d.nonces i p) (d.share i p))))
                (key_of_comm bignum ed sl d honest p i laws.shared member
                  (is_member bignum ed sl d honest p member k i e)),
      )

  pub eph_keygen_lem :
      (w : net.World)
      → Stage 1 w
      → Yields net wire client (Stage 5) (ephemeral bignum ed sl d) (
          eph_keygen_t_n_parties net wire var
            (suc fuel)
            bignum
            aes
            sl
            json
            codecs.vss
            codecs.aead
            (d.nonces p)
            session
            (d.keys p)
            d.message
            (sent_indices bignum ed sl d)
            w)
  unfolding eph_keygen_t_n_parties
  eph_keygen_lem w before =
      let (low, high) = member in
      rw
        (this_party_index_lem d.ids honest.some_id honest.small_id d.threshold (d.threshold + 1) p
          honest.fits (omega arith) low high)
        (then_run-Yields net wire client _ _ (announcements_lem w before) (λ w1 h1.
          rw
            (
              map-map (λ a. a.2) (announcement_of bignum ed sl d) all,
              map-map (λ a. a.1) (announcement_of bignum ed sl d) all,
              map-map (λ a. a.0) (announcement_of bignum ed sl d) all,
              fold_from_head-map curve.add (point_of bignum ed sl d) (d.threshold + 1)
                  (omega arith),
              honest.distributes p member,
            )
            (then_run-Yields net wire client _ _
              (exchange_data_lem net wire client var t fuel codecs.vss laws.vsses p
                (d.threshold + 1) 25 (codes "eph_keygen_round2") uuid d.vss w1 arrives.round2 h1)
              (λ w2 h2. then_run-Yields net wire client _ _ (shares_lem w2 h2) (λ w3 h3.
                rw (honest.constructs p member) (
                  then_run-Yields net wire client _ _
                    (exchange_data_lem net wire client var t fuel json.shared_keys laws.shared_keys
                      p (d.threshold + 1) 25 (codes "eph_keygen_round4") uuid d.ephemeral_shared w3
                      arrives.round4 h3)
                    (λ w4 h4. (w4, refl, h4))))))))
