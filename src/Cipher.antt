-- ===== src/Cipher.antt =====
-- `aes_encrypt` and `aes_decrypt` of src/common/mod.rs, over the AES-GCM of the crate `aes_gcm`.
pub mod Sealed
use tss_ecdsa_cli.Base.{ℕ, List, Option, ◌==◌, length, Run, ret, ◌>>=◌, ◌>>◌, unwrap_option, assert}
use tss_ecdsa_cli.Common.{Aead}

-- The cipher under a key, a nonce and a text; to decrypt fails on what was not encrypted so.
pub record AesGcm : Type 0 where
  pub encrypt : List ℕ → List ℕ → List ℕ → Option (List ℕ)
  pub decrypt : List ℕ → List ℕ → List ℕ → Option (List ℕ)

-- `from_slice` of a fixed array of bytes, which asserts the length.
abbrev pub from_slice : ℕ → List ℕ → Run (List ℕ)
from_slice n bytes = do assert (length bytes == n); ret bytes

module _ (aes : AesGcm) where
  -- The nonce is the random one.
  unfoldable pub aes_encrypt : List ℕ → List ℕ → List ℕ → Run Aead
  aes_encrypt key nonce_bytes plaintext = do
    aes_key ← from_slice 32 key
    nonce ← from_slice 12 nonce_bytes
    ciphertext ← unwrap_option (aes.encrypt aes_key nonce plaintext)
    ret (record { ciphertext = ciphertext; tag = nonce })

  unfoldable pub aes_decrypt : List ℕ → Aead → Run (List ℕ)
  aes_decrypt key aead_pack = do
    aes_key ← from_slice 32 key
    nonce ← from_slice 12 aead_pack.tag
    unwrap_option (aes.decrypt aes_key nonce aead_pack.ciphertext)
