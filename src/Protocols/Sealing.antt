-- ===== src/Protocols/Sealing.antt =====
-- What the loop of the share round in src/protocols/ecdsa/keygen.rs and src/protocols/eddsa/keygen.rs
-- sends where all parties keep to the protocol.
use tss_ecdsa_cli.Base.{
  ℕ, suc, ◌≡◌, refl, subst, Text, List, [], ◌∷◌, map, true, false, Bool-cases, inl, inr, ◌==◌, ret,
  length, assert,
}
use tss_ecdsa_cli.Common.{Aead}
use tss_ecdsa_cli.Cipher.{AesGcm, aes_encrypt}
use tss_ecdsa_cli.Cipher.Sealed.{IsAesGcm}
use tss_ecdsa_cli.Manager.Store.{Json}
use tss_ecdsa_cli.Client.Effects.{Io, ◌>>=◌ as ◌>>io◌, run}
use tss_ecdsa_cli.Client.Web.{Network, Wire}
use tss_ecdsa_cli.Client.{Client, sendp2p}
use tss_ecdsa_cli.Curves.{Curve, Bignum}
use tss_ecdsa_cli.Protocols.{is_ok}
use tss_ecdsa_cli.Protocols.Gathered.{others, others_own, others_other}
use tss_ecdsa_cli.Protocols.Delivers.{Yields, Sends, then_run-Yields}
use tss_ecdsa_cli.Protocols.Sends.{send_shares}
use tss_ecdsa_cli.Protocols.Short.{send_shares-suc}
use tss_ecdsa_cli.Protocols.Encrypted.{share_bytes, sealed, aes_encrypt-sealed}

module _ (curve : Curve) (bignum : Bignum) (aes : AesGcm) (aead_json : Json Aead) {Key : Type 0}
    (key_bytes : Key → List ℕ) (cipher : IsAesGcm aes) where
  module _ (net : Network) (wire : Wire) (client : Client) (p : ℕ) (round uuid : Text)
      (nonces : ℕ → List ℕ) where
    -- Sending goes on alike where the first share was used already.
    send_shares_share :
        (es : List Key) (s : curve.Scalar) (shares : List curve.Scalar) (k j : ℕ) (is : List ℕ)
        → send_shares curve bignum aes aead_json key_bytes net wire nonces client p round uuid es
            (s ∷ shares)
            (suc k)
            j
            is
          ≡ send_shares curve bignum aes aead_json key_bytes net wire nonces client p round uuid es
              shares k j is
    unfolding send_shares
    send_shares_share es s shares k j [] = refl
    send_shares_share es s shares k j (i ∷ is) = rw (
      send_shares_share es s shares (suc k) j is,
      send_shares_share es s shares (suc k) (suc j) is,
    )

    abbrev send : List Key → List curve.Scalar → List ℕ → Io net.World (Unit {0})
    send es shares is =
        send_shares curve bignum aes aead_json key_bytes net wire nonces client p round uuid es
          shares 0 0 is

    send_own :
        (es : List Key) (s : curve.Scalar) (shares : List curve.Scalar) (i : ℕ) (is : List ℕ)
        → (i == p) ≡ true
        → send es (s ∷ shares) (i ∷ is) ≡ send es shares is
    unfolding send_shares
    send_own es s shares i is same = rw same (send_shares_share es s shares 0 0 is)

    send_other :
        (e : Key) (es : List Key) (s : curve.Scalar) (shares : List curve.Scalar) (i : ℕ)
        (is : List ℕ) (pack : Aead) (w : net.World)
        → (i == p) ≡ false
        → aes_encrypt aes (key_bytes e) (nonces i) (share_bytes curve bignum s) ≡ ret pack
        → send (e ∷ es) (s ∷ shares) (i ∷ is) w
          ≡ (sendp2p net wire client p i round (aead_json.to_string pack) uuid >>io λ sent.
                run (assert (is_ok sent)) >>io λ _. send es shares is)
              w
    unfolding send_shares
    send_other e es s shares i is pack w other sealed_pack = rw (
      other,
      sealed_pack,
      send_shares-suc curve bignum aes aead_json key_bytes net wire client p round uuid nonces e es
          (s ∷ shares) 1 0 is,
      send_shares_share es s shares 0 0 is,
    )

    module _ (key : ℕ → Key) (share : ℕ → curve.Scalar)
        (fits : (i : ℕ) → length (key_bytes (key i)) ≡ 32)
        (twelve : (i : ℕ) → length (nonces i) ≡ 12) (After : net.World → Type 0) where
      abbrev sealed_text : ℕ → Text
      sealed_text i =
          aead_json.to_string (sealed curve bignum cipher (key_bytes (key i)) (nonces i) (share i))

      -- A party seals the share of each other party under the key that it has with it, and sends it.
      pub send_shares_lem :
          (is : List ℕ) (w : net.World)
          → Sends net wire client After p round uuid sealed_text (others p is) w
          → Yields net wire client After tt (send (map key (others p is)) (map share is) is w)
      send_shares_lem [] w h = unfold send_shares in (w, refl, h)
      send_shares_lem (i ∷ is) w h = elim (Bool-cases (i == p)) [
        | inl same ↦
            let rest =
              subst (λ js. Sends net wire client After p round uuid sealed_text js w)
                (others_own p i is same) h in
            rw (others_own p i is same) (
              rw (send_own (map key (others p is)) (share i) (map share is) i is same)
                (send_shares_lem is w rest))
        | inr other ↦
            let first =
              subst (λ js. Sends net wire client After p round uuid sealed_text js w)
                (others_other p i is other) h in
            rw (others_other p i is other) (
              rw
                (send_other (key i) (map key (others p is)) (share i) (map share is) i is _ w other
                  (aes_encrypt-sealed curve bignum aes cipher (key_bytes (key i)) (nonces i)
                    (share i) (fits i) (twelve i)))
                (then_run-Yields net wire client _ _ first (λ w1 h1. send_shares_lem is w1 h1)))
      ]
