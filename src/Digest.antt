-- ===== src/Digest.antt =====
-- `sha256_digest` of src/common/mod.rs, over the hash of `sha2`, and the bytes of a
-- message: what `run_pubkey_or_sign` and `run_signer` in src/protocols sign.
use tss_ecdsa_cli.Base.{
  ℕ, ◌+◌, ◌/◌, ◌%◌, ltb, if◌then◌else◌, Text, List, [], ◌∷◌, ◌++◌, Option, none, some,
}

-- A digit in base 16, a capital letter from ten on.
abbrev pub upper_digit : ℕ → ℕ
upper_digit d = if ltb d 10 then b'0' + d else b'7' + d

-- `format!("{:X}", bytes)`.
unfoldable pub upper_hex : List ℕ → Text
upper_hex [] = []
upper_hex (b ∷ bytes) = upper_digit (b / 16) ∷ upper_digit (b % 16) ∷ upper_hex bytes

unfoldable pub sha256_digest : (List ℕ → List ℕ) → List ℕ → Text
unfolding upper_hex
sha256_digest sha256 input = upper_hex (sha256 input)

-- A byte of UTF-8 after the first: six bits.
abbrev continued : ℕ → ℕ
continued c = 128 + c % 64

-- A code point in UTF-8.
unfoldable pub utf8 : ℕ → List ℕ
utf8 c =
    if ltb c 128
    then c ∷ []
    else if ltb c 2048
    then (192 + c / 64) ∷ continued c ∷ []
    else if ltb c 65536
    then (224 + c / 4096) ∷ continued (c / 64) ∷ continued c ∷ []
    else (240 + c / 262144) ∷ continued (c / 4096) ∷ continued (c / 64) ∷ continued c ∷ []

-- `as_bytes`.
unfoldable pub as_bytes : Text → List ℕ
unfolding utf8
as_bytes [] = []
as_bytes (c ∷ text) = utf8 c ++ as_bytes text

-- `hex::decode(message_str)`, else the bytes of the text.
abbrev message_or : List ℕ → Option (List ℕ) → List ℕ
message_or bytes none = bytes
message_or bytes (some message) = message

unfoldable pub message_bytes : (Text → Option (List ℕ)) → Text → List ℕ
unfolding as_bytes
message_bytes decode message_str = message_or (as_bytes message_str) (decode message_str)
