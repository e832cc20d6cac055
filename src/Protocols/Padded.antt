-- ===== src/Protocols/Padded.antt =====
-- Bytes that src/protocols/eddsa/keygen.rs fills up to the length of a key of the cipher.
use tss_ecdsa_cli.Base.{
  ℕ, zero, suc, ◌+◌, ◌-◌, ◌≤◌, ◌≡◌, List, ◌++◌, length, false, ltb, ret, arith,
}
use tss_ecdsa_cli.Protocols.Shares.{zeros, pad_left}

abbrev pub padded : ℕ → List ℕ → List ℕ
padded len bytes = zeros (len - length bytes) ++ bytes

pub pad_left_lem :
    (len : ℕ) (bytes : List ℕ) → length bytes ≤ len → pad_left len bytes ≡ ret (padded len bytes)
unfolding pad_left
pad_left_lem len bytes fits = let no : ltb len (length bytes) ≡ false = ground arith in rw no

length-zeros : (n : ℕ) (bytes : List ℕ) → length (zeros n ++ bytes) ≡ n + length bytes
length-zeros zero bytes = omega arith
length-zeros (suc n) bytes = omega (arith, length-zeros n bytes)

pub length-padded :
    (len : ℕ) (bytes : List ℕ) → length bytes ≤ len → length (padded len bytes) ≡ len
length-padded len bytes fits = omega (arith, length-zeros (len - length bytes) bytes)
