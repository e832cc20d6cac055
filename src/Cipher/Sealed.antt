-- ===== src/Cipher/Sealed.antt =====
-- What `aes_encrypt` and `aes_decrypt` of src/common/mod.rs do with keys of the right length and of
-- another.
use tss_ecdsa_cli.Base.{
  ℕ, ◌≡◌, ◌≢◌, List, some, length, ret, panic, assertion, arith, ◌⊎◌, inl, inr,
}
use native.Mathlib.Decide.{ℕ_discrete}
use tss_ecdsa_cli.Common.{Aead}
use tss_ecdsa_cli.Cipher.{AesGcm, from_slice, aes_encrypt, aes_decrypt}

-- To encrypt succeeds, and what was encrypted is decrypted under the same key and nonce.
pub record IsAesGcm (aes : AesGcm) : Type 0 where
  pub encrypts : (key nonce text : List ℕ) → (c : List ℕ) × (aes.encrypt key nonce text ≡ some c)
  pub decrypt-encrypt :
      (key nonce text c : List ℕ)
      → aes.encrypt key nonce text ≡ some c
      → aes.decrypt key nonce c ≡ some text

pub from_slice_lem : (n : ℕ) (bytes : List ℕ) → length bytes ≡ n → from_slice n bytes ≡ ret bytes
from_slice_lem n bytes h = ground arith

pub from_slice_short :
    (n : ℕ) (bytes : List ℕ) → length bytes ≢ n → from_slice n bytes ≡ panic assertion
from_slice_short n bytes h = ground arith

module _ (aes : AesGcm) where
  -- With a cipher that decrypts what it encrypted, under a nonce of 12 bytes: either the key has 32
  -- bytes, and to encrypt gives a pack that decrypts to the text under the same key; or it has
  -- another length, and both functions panic, whatever the text or the pack.
  pub aes_decrypt-aes_encrypt :
      IsAesGcm aes
      → (key nonce text : List ℕ) → length nonce ≡ 12
      → ((length key ≡ 32)
          × (pack : Aead) × (aes_encrypt aes key nonce text ≡ ret pack)
          × (aes_decrypt aes key pack ≡ ret text))
        ⊎ ((length key ≢ 32)
            × (aes_encrypt aes key nonce text ≡ panic assertion)
            × ((pack : Aead) → aes_decrypt aes key pack ≡ panic assertion))
  unfolding aes_encrypt aes_decrypt
  aes_decrypt-aes_encrypt laws key nonce text twelve = elim (ℕ_discrete (length key) 32) [
    | yes fits ↦
        let (c, e) = laws.encrypts key nonce text in
        inl (
          fits,
          record { ciphertext = c; tag = nonce },
          rw (from_slice_lem 32 key fits, from_slice_lem 12 nonce twelve) (rw e),
          rw (from_slice_lem 32 key fits, from_slice_lem 12 nonce twelve)
              (rw (laws.decrypt-encrypt key nonce text c e)),
        )
    | no other ↦
        inr (other, rw (from_slice_short 32 key other), λ pack. rw (from_slice_short 32 key other))
  ]
