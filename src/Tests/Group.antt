-- ===== src/Tests/Group.antt =====
-- The natural numbers in the place of a curve: points and scalars are numbers, the generator is one.
-- Beside it big-endian numbers of 32 bytes, of which the first holds all, and a cipher that hides
-- nothing.
use tss_ecdsa_cli.Base.{ℕ, ◌+◌, ◌*◌, ◌^◌, ◌≡◌, refl, sym, List, [], ◌∷◌, Option, none, some, arith}
use tss_ecdsa_cli.Cipher.{AesGcm}
use tss_ecdsa_cli.Cipher.Sealed.{IsAesGcm}
use tss_ecdsa_cli.Curves.{Curve, IsCurve, IsShared, Bignum, IsBignum, IsCoded}
use tss_ecdsa_cli.Protocols.Shares.{zeros}

abbrev first : List ℕ → Option ℕ
first [] = none
first (n ∷ bytes) = some n

abbrev pub first_or_zero : List ℕ → ℕ
first_or_zero [] = 0
first_or_zero (n ∷ bytes) = n

abbrev pub numbers : Curve
numbers = record {
  Scalar = ℕ;
  Point = ℕ;
  add = λ p q. p + q;
  mul = λ p a. p * a;
  generator = 1;
  add_scalar = λ a b. a + b;
  mul_scalar = λ a b. a * b;
  zero_scalar = 0;
  scalar_of = λ n. n;
  to_bigint = λ a. a;
  x_coord = λ p. some p;
  y_coord = λ p. some p;
  to_bytes = λ p. p ∷ [];
  from_bytes = first;
}

assoc : (a b c : ℕ) → a + b + c ≡ a + (b + c)
assoc a b c = omega arith

comm : (a b : ℕ) → a + b ≡ b + a
comm a b = omega arith

distributes : (p a b : ℕ) → p * (a + b) ≡ p * a + p * b
distributes p a b = omega arith

swaps : (p a b : ℕ) → p * a * b ≡ p * b * a
swaps p a b = omega arith

pub numbers-IsCurve : IsCurve numbers
numbers-IsCurve = record {
  add_assoc = assoc;
  add_comm = comm;
  add_scalar_assoc = assoc;
  add_scalar_comm = comm;
  mul-add_scalar = distributes;
}

pub numbers-IsShared : IsShared numbers
numbers-IsShared = record { mul_comm = swaps; scalar_of-to_bigint = λ a. refl }

-- An index is a text of one character.
abbrev pub big : Bignum
big = record {
  Index = ℕ;
  from_str_radix = first;
  to_bytes = λ n. n ∷ zeros 31;
  from_bytes = first_or_zero;
  hmac = λ chain pubkey index. (chain + pubkey + index) * 2 ^ 256 + chain;
}

pub big-IsBignum : IsBignum big
big-IsBignum = record { from_bytes-to_bytes = λ n. refl }

pub big-IsCoded : IsCoded numbers big
big-IsCoded = record { from_bytes-to_bytes = λ p. refl }

abbrev pub plain : AesGcm
plain = record { encrypt = λ key nonce text. some text; decrypt = λ key nonce text. some text }

abbrev pub plain-IsAesGcm : IsAesGcm plain
plain-IsAesGcm = record {
  encrypts = λ key nonce text. (text, refl);
  decrypt-encrypt = λ key nonce text c e. sym e;
}
