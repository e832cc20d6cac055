-- ===== src/Protocols/Encrypted.antt =====
-- The share that a party encrypts in src/protocols/ecdsa/keygen.rs and src/protocols/eddsa/keygen.rs,
-- under a key and a nonce of the right lengths.
use tss_ecdsa_cli.Base.{ℕ, ◌≡◌, List, ret, length}
use tss_ecdsa_cli.Common.{Aead}
use tss_ecdsa_cli.Cipher.{AesGcm, aes_encrypt, aes_decrypt}
use tss_ecdsa_cli.Cipher.Sealed.{IsAesGcm, from_slice_lem}
use tss_ecdsa_cli.Curves.{Curve, Bignum}

-- The bytes of a share.
abbrev pub share_bytes : (curve : Curve) → Bignum → curve.Scalar → List ℕ
share_bytes curve bignum share = bignum.to_bytes (curve.to_bigint share)

-- A share under the bytes of the key of its two parties.
unfoldable pub sealed :
    (curve : Curve) → Bignum → {aes : AesGcm} → IsAesGcm aes → List ℕ → List ℕ → curve.Scalar → Aead
sealed curve bignum cipher key nonce share = record {
  ciphertext = (cipher.encrypts key nonce (share_bytes curve bignum share)).0;
  tag = nonce;
}

module _ (curve : Curve) (bignum : Bignum) (aes : AesGcm) (cipher : IsAesGcm aes)
    (key nonce : List ℕ) (share : curve.Scalar) (fits : length key ≡ 32)
    (twelve : length nonce ≡ 12) where
  pub aes_encrypt-sealed :
      aes_encrypt aes key nonce (share_bytes curve bignum share)
      ≡ ret (sealed curve bignum cipher key nonce share)
  unfolding aes_encrypt sealed
  aes_encrypt-sealed = rw (
    from_slice_lem 32 key fits,
    from_slice_lem 12 nonce twelve,
    (cipher.encrypts key nonce (share_bytes curve bignum share)).1,
  )

  pub aes_decrypt-sealed :
      aes_decrypt aes key (sealed curve bignum cipher key nonce share)
      ≡ ret (share_bytes curve bignum share)
  unfolding aes_decrypt sealed
  aes_decrypt-sealed = rw (
    from_slice_lem 32 key fits,
    from_slice_lem 12 nonce twelve,
    cipher.decrypt-encrypt key nonce (share_bytes curve bignum share) _
        (cipher.encrypts key nonce (share_bytes curve bignum share)).1,
  )
