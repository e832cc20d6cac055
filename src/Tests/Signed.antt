-- ===== src/Tests/Signed.antt =====
-- A signature for a derived key, over the natural numbers in the place of the curve, where numbers
-- become scalars by eighths, so that the eighth of the derivation has an inverse.
use tss_ecdsa_cli.Base.{
  ℕ, zero, suc, ◌*◌, ◌/◌, ◌≡◌, refl, codes, [], ◌∷◌, Option, none, some, ret, arith,
}
use tss_ecdsa_cli.Curves.{Curve, IsCurve}
use tss_ecdsa_cli.Eddsa.Derived.{Ed25519, challenge, signature_at, key_at}
use tss_ecdsa_cli.Eddsa.Signed.{IsEd25519, IsSignature, signature_at_lem}
use tss_ecdsa_cli.Tests.Group.{numbers, numbers-IsCurve, big}

abbrev eighths : Curve
eighths = record numbers { scalar_of = λ n. n / 8 }

eighths-IsCurve : IsCurve eighths
eighths-IsCurve = record {
  add_assoc = numbers-IsCurve.add_assoc;
  add_comm = numbers-IsCurve.add_comm;
  add_scalar_assoc = numbers-IsCurve.add_scalar_assoc;
  add_scalar_comm = numbers-IsCurve.add_scalar_comm;
  mul-add_scalar = numbers-IsCurve.mul-add_scalar;
}

abbrev inverse : ℕ → Option ℕ
inverse zero = none
inverse (suc zero) = some 1
inverse (suc (suc n)) = none

abbrev toy : Ed25519 eighths
toy = record { invert = inverse; sha512 = λ bytes. bytes }

inverse-undoes : (a b x : ℕ) → inverse a ≡ some b → 1 * x * b * a ≡ 1 * x
inverse-undoes zero b x e = cc
inverse-undoes (suc zero) b x e = ground (arith, e)
inverse-undoes (suc (suc n)) b x e = cc

toy-IsEd25519 : IsEd25519 eighths toy
toy-IsEd25519 = record {
  is_curve = eighths-IsCurve;
  add-mul = λ p q a. omega arith;
  mul-mul_scalar = λ p a b. omega arith;
  mul-invert = inverse-undoes;
}

at_path : key_at eighths big toy 5 3 (codes "0/1") ≡ ret (19, 14)
unfolding key_at
at_path = refl

signed : IsSignature eighths big toy toy-IsEd25519 (record { r = 7; s = 57 }) 5 19 (80 ∷ [])
unfolding challenge
signed = refl

-- The signature with `s = 57` of the root 5 becomes one with `s = 197` of the child 19.
signature_at_lem_example :
    IsSignature eighths big toy toy-IsEd25519
      (signature_at eighths big toy (codes "0/1") (record { r = 7; s = 57 }) 19 (80 ∷ []) 14)
      19
      19
      (80 ∷ [])
signature_at_lem_example =
    signature_at_lem eighths big toy toy-IsEd25519 5 19 7 57 5 3 14 (codes "0/1") (80 ∷ []) refl
      at_path signed
