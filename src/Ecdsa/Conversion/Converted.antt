-- ===== src/Ecdsa/Conversion/Converted.antt =====
-- What src/protocols/ecdsa/curv7_conversion.rs makes of the numbers of a file of an earlier version.
use tss_ecdsa_cli.Base.{
  ℕ, ◌%◌, ◌==◌, ==_iff, ◌≡◌, ◌∙◌, Text, List, ◌∷◌, length, some, false, Bool-cases, inl, inr, ret,
  arith, refl, ◌+◌,
}
use tss_ecdsa_cli.Curves.{Curve, Bignum}
use tss_ecdsa_cli.Ecdsa.Conversion.{Hexadecimal, with_even_length, convert_old_fe}

-- A zero in front changes no number; a text of even length that is a number is one of half as many bytes,
-- big-endian; and a scalar is read from the 32 bytes of its number. Of other bytes nothing is said.
pub record IsHexadecimal {curve : Curve} (bignum : Bignum) (hex : Hexadecimal curve) : Type 0 where
  pub from_hex-zero : (s : Text) → hex.from_hex (b'0' ∷ s) ≡ hex.from_hex s
  pub decodes :
      (s : Text) (n : ℕ)
      → length s % 2 ≡ 0
      → hex.from_hex s ≡ some n
      → (bytes : List ℕ) × (hex.decode s ≡ some bytes)
        × (bignum.from_bytes bytes ≡ n)
        × (length bytes + length bytes ≡ length s)
  pub scalar_from_bytes-to_bigint :
      (a : curve.Scalar) (bytes : List ℕ)
      → length bytes ≡ 32
      → bignum.from_bytes bytes ≡ curve.to_bigint a
      → hex.scalar_from_bytes bytes ≡ some a

module _ {curve : Curve} (bignum : Bignum) (hex : Hexadecimal curve)
    (laws : IsHexadecimal bignum hex) where
  even_length :
      (s : Text) (n : ℕ)
      → hex.from_hex s ≡ some n
      → (length (with_even_length hex s) % 2 ≡ 0) × (hex.from_hex (with_even_length hex s) ≡ some n)
  even_length s n e = elim (Bool-cases (length s % 2 == 0)) [
    | inl even ↦ rw even ((==_iff (length s % 2) 0).0 even, e)
    | inr odd ↦ rw odd (omega (arith, not_zero (length s % 2) odd), laws.from_hex-zero s ∙ e)
  ]
    where
      not_zero : (k : ℕ) → (k == 0) ≡ false → ¬ (k ≡ 0)
      not_zero k h z = ground (arith, ==_iff k 0)

  -- A scalar is read from its number in base 16, where this has 63 or 64 digits.
  pub convert_old_fe_lem :
      (old : Text) (a : curve.Scalar)
      → hex.from_hex old ≡ some (curve.to_bigint a)
      → length (with_even_length hex old) ≡ 64
      → convert_old_fe hex old ≡ ret a
  unfolding convert_old_fe
  convert_old_fe_lem old a e digits =
      let (even, kept) = even_length old (curve.to_bigint a) e in
      let (bytes, decoded, number, count) =
        laws.decodes (with_even_length hex old) (curve.to_bigint a) even kept in
      rw decoded
        (rw (laws.scalar_from_bytes-to_bigint a bytes (omega (arith, count, digits)) number) refl)
