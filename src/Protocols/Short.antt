-- ===== src/Protocols/Short.antt =====
-- The loop that sends the shares in src/protocols/ecdsa/keygen.rs, where the bytes of a key are not as
-- many as the cipher wants.
use tss_ecdsa_cli.Base.{
  ℕ, zero, suc, ◌+◌, ◌≤◌, ◌<◌, ◌≡◌, ◌≢◌, Text, List, [], ◌∷◌, map, get_elem?, true, false,
  Bool-cases, inl, inr, ◌==◌, refl, sym, subst, panic, assertion, length, arith, ◌∙◌, ok, some,
}
use native.Mathlib.Decide.{ℕ_discrete}
use tss_ecdsa_cli.Common.{Aead}
use tss_ecdsa_cli.Cipher.{AesGcm, aes_encrypt}
use tss_ecdsa_cli.Cipher.Sealed.{from_slice_short, IsAesGcm}
use tss_ecdsa_cli.Manager.Store.{Json}
use tss_ecdsa_cli.Client.Effects.{Io}
use tss_ecdsa_cli.Client.Web.{Network, Wire}
use tss_ecdsa_cli.Client.{Client, range, sendp2p}
use tss_ecdsa_cli.Curves.{Curve, Bignum}
use tss_ecdsa_cli.Protocols.Gathered.{others, others_own, others_other}
use tss_ecdsa_cli.Protocols.Encrypted.{sealed, aes_encrypt-sealed}
use tss_ecdsa_cli.Protocols.Delivers.{Yields}
use tss_ecdsa_cli.Protocols.Sends.{send_shares}

get_elem?-inside :
    {A : Type 0} (k : ℕ) (xs : List A) → k < length xs → (x : A) × (get_elem? xs k ≡ some x)
get_elem?-inside k [] h = absurd (omega arith)
get_elem?-inside zero (x ∷ xs) h = (x, refl)
get_elem?-inside (suc k) (x ∷ xs) h = get_elem?-inside k xs (omega arith)

pub aes_encrypt-short :
    (aes : AesGcm) (key nonce text : List ℕ)
    → length key ≢ 32
    → aes_encrypt aes key nonce text ≡ panic assertion
unfolding aes_encrypt
aes_encrypt-short aes key nonce text other = rw (from_slice_short 32 key other)

module _ (curve : Curve) (bignum : Bignum) (aes : AesGcm) (aead_json : Json Aead) {Key : Type 0}
    (key_bytes : Key → List ℕ) (net : Network) (wire : Wire) (client : Client) (p : ℕ)
    (round uuid : Text) (nonces : ℕ → List ℕ) where
  abbrev send : List Key → List curve.Scalar → ℕ → ℕ → List ℕ → Io net.World (Unit {0})
  send = send_shares curve bignum aes aead_json key_bytes net wire nonces client p round uuid

  abbrev bytes : curve.Scalar → List ℕ
  bytes share = bignum.to_bytes (curve.to_bigint share)

  -- A key that was used already makes no difference.
  pub send_shares-suc :
      (e : Key) (es : List Key) (shares : List curve.Scalar) (k j : ℕ) (is : List ℕ)
      → send (e ∷ es) shares k (suc j) is ≡ send es shares k j is
  unfolding send_shares
  send_shares-suc e es shares k j [] = refl
  send_shares-suc e es shares k j (i ∷ is) =
      rw (send_shares-suc e es shares (suc k) j is, send_shares-suc e es shares (suc k) (suc j) is)

  send_own :
      (es : List Key) (shares : List curve.Scalar) (k a : ℕ) (is : List ℕ) (w : net.World)
      → (a == p) ≡ true
      → send es shares k 0 (a ∷ is) w ≡ send es shares (suc k) 0 is w
  unfolding send_shares
  send_own es shares k a is w own = rw own refl

  send_short :
      (e : Key) (es : List Key) (shares : List curve.Scalar) (k a : ℕ) (is : List ℕ) (w : net.World)
      → (a == p) ≡ false
      → k < length shares
      → length (key_bytes e) ≢ 32
      → send (e ∷ es) shares k 0 (a ∷ is) w ≡ panic assertion
  unfolding send_shares
  send_short e es shares k a is w off inside short =
      let (share, found) = get_elem?-inside k shares inside in
      rw (off, found, aes_encrypt-short aes (key_bytes e) (nonces a) (bytes share) short) refl

  module _ (cipher : IsAesGcm aes) (twelve : (i : ℕ) → length (nonces i) ≡ 12)
      (Usable : net.World → Type 0)
      (accepts : (j : ℕ) (text : Text) (w : net.World)
        → Usable w
        → Yields net wire client Usable
            (ok tt)
            (sendp2p net wire client p j round text uuid w)) where
    send_next :
        (e : Key) (es : List Key) (shares : List curve.Scalar) (k a : ℕ) (is : List ℕ)
        (w : net.World)
        → (a == p) ≡ false
        → k < length shares
        → length (key_bytes e) ≡ 32
        → Usable w
        → (after : net.World) × (send (e ∷ es) shares k 0 (a ∷ is) w
            ≡ send es shares (suc k) 0 is after)
          × Usable after
    unfolding send_shares
    send_next e es shares k a is w off inside fits usable =
        let (share, found) = get_elem?-inside k shares inside in
        let (after, sent, still) =
          accepts a
            (aead_json.to_string (sealed curve bignum cipher (key_bytes e) (nonces a) share)) w
            usable in
        (
          after,
          rw
              (
                off,
                found,
                aes_encrypt-sealed curve bignum aes cipher (key_bytes e) (nonces a) share fits
                    (twelve a),
                send_shares-suc e es shares (suc k) 0 is,
              )
              (rw sent refl),
          still,
        )

    -- Of the keys of the other parties in the loop, that of `i` is the first that has not 32 bytes.
    pub send_shares_short :
        (key : ℕ → Key) (shares : List curve.Scalar) (i n a k : ℕ) (w : net.World)
        → a ≤ i
        → i < a + n
        → k + n ≤ length shares
        → i ≢ p
        → length (key_bytes (key i)) ≢ 32
        → ((j : ℕ) → a ≤ j → j < i → j ≢ p → length (key_bytes (key j)) ≡ 32)
        → Usable w
        → send (map key (others p (range a n))) shares k 0 (range a n) w ≡ panic assertion
    send_shares_short key shares i zero a k w low high enough other short before usable =
        absurd (omega arith)
    send_shares_short key shares i (suc n) a k w low high enough other short before usable =
        elim (Bool-cases (a == p)) [
          | inl own ↦ rw (others_own p a (range (a + 1) n) own) (
              send_own (map key (others p (range (a + 1) n))) shares k a (range (a + 1) n) w own
              ∙ send_shares_short key shares i n (a + 1) (suc k) w (ground (arith, own))
                  (omega arith) (omega arith) other short
                  (λ j above. before j (omega (arith, above))) usable)
          | inr off ↦ rw (others_other p a (range (a + 1) n) off) (elim (ℕ_discrete a i) [
            | yes same ↦
                send_short (key a) (map key (others p (range (a + 1) n))) shares k a
                  (range (a + 1) n) w off (omega arith)
                  (subst (λ x. length (key_bytes (key x)) ≢ 32) (sym same) short)
            | no differ ↦
                let (after, sent, still) =
                  send_next (key a) (map key (others p (range (a + 1) n))) shares k a
                    (range (a + 1) n) w off (omega arith)
                    (before a (omega arith) (omega arith) (λ e. ground (arith, e, off))) usable in
                sent
                ∙ send_shares_short key shares i n (a + 1) (suc k) after (omega arith) (omega arith)
                    (omega arith) other short (λ j above. before j (omega (arith, above))) still
          ])
        ]
