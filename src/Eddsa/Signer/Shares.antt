-- ===== src/Eddsa/Signer/Shares.antt =====
-- The round of the shares of `eph_keygen_t_n_parties` in src/protocols/eddsa/signer.rs where all signers
-- keep to the protocol.
use tss_ecdsa_cli.Base.{
  subst, ℕ, zero, suc, ◌+◌, ◌-◌, ◌≤◌, ◌≡◌, refl, sym, ap, ◌∙◌, Text, codes, List, [], ◌∷◌, map,
  length, get_elem?, Option, some, true, false, Bool-cases, inl, inr, ◌==◌, ret, arith,
}
use tss_ecdsa_cli.Common.{Aead}
use tss_ecdsa_cli.Manager.Store.{Json, IsJson}
use tss_ecdsa_cli.Cipher.{AesGcm}
use tss_ecdsa_cli.Cipher.Sealed.{IsAesGcm}
use tss_ecdsa_cli.Curves.{Curve, IsShared, Bignum, IsBignum}
use tss_ecdsa_cli.Client.Web.{Network, Wire}
use tss_ecdsa_cli.Client.{range}
use tss_ecdsa_cli.Protocols.Numbers.{get_elem?-range}
use tss_ecdsa_cli.Protocols.Gathered.{others, others_own, others_other}
use tss_ecdsa_cli.Protocols.Delivers.{Yields, Sends, then_run-Yields}
use tss_ecdsa_cli.Protocols.Loops.{ForOthers, ForOthers-own, ForOthers-first, ForOthers-next}
use tss_ecdsa_cli.Protocols.Encrypted.{sealed, aes_encrypt-sealed, aes_decrypt-sealed}
use tss_ecdsa_cli.Eddsa.Library.{Library}
use tss_ecdsa_cli.Eddsa.Signer.Crates.{SignLibrary, SignCodecs}
use tss_ecdsa_cli.Eddsa.Signer.Ephemeral.{EncKeys, enc_key_of, open_ephemeral_shares}
use tss_ecdsa_cli.Eddsa.Signer.Session.{SignSession, send_ephemeral_shares}

module _ (curve : Curve) (bignum : Bignum) {aes : AesGcm} (cipher : IsAesGcm aes)
    (aead_json : Json Aead) (p : ℕ) (parties : List ℕ) (enc_keys : EncKeys) (key : ℕ → List ℕ)
    (fits : (i : ℕ) → length (key i) ≡ 32) where
  module _ (shared : IsShared curve) (numbers : IsBignum bignum) (packs : IsJson aead_json)
      (secret_shares : List curve.Scalar) (answers : List Text) (share : ℕ → curve.Scalar)
      (nonce : ℕ → List ℕ) (twelve : (i : ℕ) → length (nonce i) ≡ 12)
      (kept : get_elem? secret_shares (p - 1) ≡ some (share p)) where
    -- An answer is the share of its party, sealed under the key that is found for it.
    abbrev pub Sealed : ℕ → ℕ → Type 0
    Sealed k i =
        (enc_key_of parties enc_keys i ≡ ret (key i))
        × (get_elem? answers k
            ≡ some (aead_json.to_string (sealed curve bignum cipher (key i) (nonce i) (share i))))

    pub open_ephemeral_shares_lem :
        (j : ℕ) (is : List ℕ)
        → ForOthers p Sealed j is
        → open_ephemeral_shares curve bignum aes aead_json p secret_shares parties enc_keys answers
            j is
          ≡ ret (map share is)
    unfolding open_ephemeral_shares
    open_ephemeral_shares_lem j [] h = refl
    open_ephemeral_shares_lem j (i ∷ is) h = elim (Bool-cases (i == p)) [
      | inl own ↦
          rw
            (
              own,
              own_share i own,
              open_ephemeral_shares_lem j is (ForOthers-own p Sealed j i is h own),
            )
            refl
      | inr other ↦
          let (found, answered) = ForOthers-first p Sealed j i is h other in
          rw (other, answered, found)
            (rw (packs.from_str-to_string (sealed curve bignum cipher (key i) (nonce i) (share i)))
              (rw
                (
                  aes_decrypt-sealed curve bignum aes cipher (key i) (nonce i) (share i) (fits i)
                      (twelve i),
                  open_ephemeral_shares_lem (suc j) is (ForOthers-next p Sealed j i is h other),
                  numbers.from_bytes-to_bytes (curve.to_bigint (share i)),
                  shared.scalar_of-to_bigint (share i),
                )
                refl))
    ]
      where
        own_share : (i : ℕ) → (i == p) ≡ true → get_elem? secret_shares (i - 1) ≡ some (share i)
        own_share i h =
            let same : i ≡ p = ground (arith, h) in
            ap (λ i. get_elem? secret_shares (i - 1)) same
            ∙ kept
            ∙ ap (λ i. some (share i)) (sym same)

  module _ (net : Network) (wire : Wire) (var : Option Text) (fuel : ℕ) {lib : Library curve}
      (sl : SignLibrary lib) (json : SignCodecs sl) (vss_json : Json lib.VerifiableSs)
      (nonces : ℕ → List ℕ) (session : SignSession) (share : ℕ → curve.Scalar) (n : ℕ)
      (mine : session.party_num_int ≡ p) (twelve : (i : ℕ) → length (nonces i) ≡ 12)
      (found : (i : ℕ)
        → 1 ≤ i
        → i ≤ n
        → (i == p) ≡ false
        → enc_key_of parties enc_keys i ≡ ret (key i))
      (P : net.World → Type 0) where
    abbrev Left : List ℕ → net.World → Type 0
    Left =
        Sends net wire session.client P p (codes "eph_keygen_round3") session.uuid
          (λ i. aead_json.to_string (sealed curve bignum cipher (key i) (nonces i) (share i)))

    -- A signer seals the share of each other signer under the key that it has with it, and sends it.
    pub send_ephemeral_shares_lem :
        (i k m : ℕ) (w : net.World)
        → i ≡ k + 1
        → k + m ≡ n
        → Left (others p (range i m)) w
        → Yields net wire session.client P tt (
            send_ephemeral_shares net wire var fuel bignum aes sl json vss_json aead_json nonces
              session parties enc_keys
              (map share (range 1 n))
              k
              (range i m)
              w)
    unfolding send_ephemeral_shares
    send_ephemeral_shares_lem i k zero w e c before = (w, refl, before)
    send_ephemeral_shares_lem i k (suc m) w e c before = elim (Bool-cases (i == p)) [
      | inl own ↦ rw mine (
          rw own (
            send_ephemeral_shares_lem (i + 1) (suc k) m w (omega arith) (omega arith)
              (subst (λ js. Left js w) (others_own p i (range (i + 1) m) own) before)))
      | inr other ↦ rw mine (
          rw (other, found i (omega arith) (omega arith) other, share_at)
            (rw
              (aes_encrypt-sealed curve bignum aes cipher (key i) (nonces i) (share i) (fits i)
                (twelve i))
              (then_run-Yields net wire session.client _ _
                (subst (λ js. Left js w) (others_other p i (range (i + 1) m) other) before)
                (λ w1 h1.
                  send_ephemeral_shares_lem (i + 1) (suc k) m w1 (omega arith) (omega arith) h1))))
    ]
      where
        share_at : get_elem? (map share (range 1 n)) k ≡ some (share i)
        share_at =
            get_elem?-range share 1 n k (omega arith) ∙ ap (λ i. some (share i)) (omega arith)
