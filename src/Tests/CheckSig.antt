-- ===== src/Tests/CheckSig.antt =====
-- The bytes of a signature over numbers.
use tss_ecdsa_cli.Base.{
  ℕ, ◌≤◌, ◌<◌, ◌≡◌, ◌⊎◌, inr, refl, List, [], ◌∷◌, length, some, true, ret, panic, explicit, arith,
}
use tss_ecdsa_cli.Curves.{Bignum}
use tss_ecdsa_cli.Protocols.Shares.{zeros}
use tss_ecdsa_cli.Ecdsa.CheckSig.{Secp256k1, verify_bytes, check_sig, check_sig_lem}
use tss_ecdsa_cli.Tests.Group.{numbers, big}

-- A number is one byte.
abbrev short : Bignum
short = record big { to_bytes = λ n. n ∷ [] }

abbrev secp : Secp256k1 numbers
secp = record {
  Message = List ℕ;
  PublicKey = List ℕ;
  Signature = List ℕ;
  parse_message = λ bytes. some bytes;
  parse_public_key = λ bytes. some bytes;
  parse_signature = λ bytes. some bytes;
  verify = λ message signature public_key. true;
  scalar_bytes = λ a. a ∷ [];
  uncompressed = λ p. p ∷ zeros 64;
}

check_sig_lem_example :
    ((length (short.to_bytes 80) ≤ 32)
      × ((bytes raw_pk compact : List ℕ) × (length bytes ≡ 32)
          × (length raw_pk ≡ 65)
          × (length compact ≡ 64)
          × (check_sig short secp 7 8 80 9 ≡ verify_bytes short secp bytes raw_pk (ret compact))))
    ⊎ ((32 < length (short.to_bytes 80)) × (check_sig short secp 7 8 80 9 ≡ panic explicit))
check_sig_lem_example = check_sig_lem short secp (λ a. omega arith) (λ p. inr refl) 7 8 80 9
