-- ===== src/Tests/Protocols.antt =====
-- The theorems about derived keys, proofs, ciphers and gathered values at small numbers.
use tss_ecdsa_cli.Base.{
  ℕ, ◌≡◌, ◌≢◌, ◌⊎◌, refl, Text, codes, List, [], ◌∷◌, ret, panic, assertion, ◌>>=◌, arith, ltb, err,
  ◌+◌, ◌*◌,
}
use tss_ecdsa_cli.Common.{Aead}
use tss_ecdsa_cli.Cipher.{aes_encrypt, aes_decrypt}
use tss_ecdsa_cli.Cipher.Sealed.{aes_decrypt-aes_encrypt}
use tss_ecdsa_cli.HdKeys.{get_hd_key, hd_key, number_of}
use tss_ecdsa_cli.HdKeys.Derived.{get_hd_key_lem, hd_key-append, shift}
use tss_ecdsa_cli.Protocols.{
  invalid_key, verify_dlog_proofs, collect, format_vec_from_reads, decode_all, insert_at,
}
use tss_ecdsa_cli.Protocols.Proofs.{verify_dlog_proofs_lem}
use tss_ecdsa_cli.Protocols.Gathered.{gathers_alike}
use tss_ecdsa_cli.Protocols.Shares.{zeros}
use tss_ecdsa_cli.Tests.Group.{numbers, big, numbers-IsCurve, big-IsCoded, plain, plain-IsAesGcm}
use tss_ecdsa_cli.Tests.Library.{number_json}

-- The child at `0/1` of the key 5 with the chain code 3.
derived : get_hd_key numbers big 5 (codes "0/1") 3 ≡ ret (180, 175)
unfolding get_hd_key
derived = refl

get_hd_key_lem_example : (◌≡◌ {A = ℕ} 180 (5 + 1 * 175)) × (◌≡◌ {A = ℕ} 180 (1 * (5 + 175)))
get_hd_key_lem_example =
    get_hd_key_lem numbers big numbers-IsCurve 5 180 3 (codes "0/1") 5 175 refl derived

hd_key-append_example : hd_key numbers big (0 ∷ 1 ∷ 2 ∷ []) 5 3 ≡ (
    hd_key numbers big (0 ∷ 1 ∷ []) 5 3 >>= λ child.
    hd_key numbers big (2 ∷ []) child.0 (number_of numbers big child.2) >>= λ below.
    ret (shift numbers big child.1 below))
hd_key-append_example = hd_key-append numbers big numbers-IsCurve big-IsCoded 0 (1 ∷ []) 2 [] 5 3

verify_dlog_proofs_lem_example :
    verify_dlog_proofs (λ n. ltb n 5) 3 (4 ∷ 5 ∷ 6 ∷ []) 3 ≡ ret (err invalid_key)
verify_dlog_proofs_lem_example = verify_dlog_proofs_lem (λ n. ltb n 5) 3 3 (4 ∷ 5 ∷ 6 ∷ [])

abbrev two_answers : List Text
two_answers = number_json.to_string 1 ∷ number_json.to_string 3 ∷ []

gathers_alike_example :
    (collect number_json 2 2 two_answers 0 (1 ∷ 2 ∷ 3 ∷ [])
      ≡ (decode_all number_json two_answers >>= insert_at 1 2))
    × (format_vec_from_reads number_json two_answers 2 2 []
        ≡ (decode_all number_json two_answers >>= insert_at 1 2))
gathers_alike_example = gathers_alike number_json 2 2 two_answers (omega arith) (omega arith)

aes_decrypt-aes_encrypt_example :
    ((◌≡◌ {A = ℕ} 31 32)
      × (pack : Aead) × (aes_encrypt plain (zeros 31) (zeros 12) (9 ∷ []) ≡ ret pack)
      × (aes_decrypt plain (zeros 31) pack ≡ ret (9 ∷ [])))
    ⊎ ((◌≢◌ {A = ℕ} 31 32)
        × (aes_encrypt plain (zeros 31) (zeros 12) (9 ∷ []) ≡ panic assertion)
        × ((pack : Aead) → aes_decrypt plain (zeros 31) pack ≡ panic assertion))
aes_decrypt-aes_encrypt_example =
    aes_decrypt-aes_encrypt plain plain-IsAesGcm (zeros 31) (zeros 12) (9 ∷ []) refl
