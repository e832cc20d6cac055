-- ===== src/Curves.antt =====
-- What the program uses of the crate `curv`: the points and scalars of an elliptic curve, whole
-- numbers as big-endian bytes, and the HMAC of src/common/hd_keys.rs.
use tss_ecdsa_cli.Base.{ℕ, ◌≡◌, List, Option, some, Text}

pub record Curve : Type 1 where
  pub Scalar : Type 0
  pub Point : Type 0
  pub add : Point → Point → Point
  pub mul : Point → Scalar → Point
  pub generator : Point
  pub add_scalar : Scalar → Scalar → Scalar
  pub mul_scalar : Scalar → Scalar → Scalar
  pub zero_scalar : Scalar
  pub scalar_of : ℕ → Scalar
  pub to_bigint : Scalar → ℕ
  pub x_coord : Point → Option ℕ
  pub y_coord : Point → Option ℕ
  pub to_bytes : Point → List ℕ
  pub from_bytes : List ℕ → Option Point

-- The points are an abelian group on which the scalars, a commutative ring, act.
pub record IsCurve (curve : Curve) : Type 0 where
  pub add_assoc : (p q r : curve.Point) → curve.add (curve.add p q) r ≡ curve.add p (curve.add q r)
  pub add_comm : (p q : curve.Point) → curve.add p q ≡ curve.add q p
  pub add_scalar_assoc :
      (a b c : curve.Scalar)
      → curve.add_scalar (curve.add_scalar a b) c ≡ curve.add_scalar a (curve.add_scalar b c)
  pub add_scalar_comm : (a b : curve.Scalar) → curve.add_scalar a b ≡ curve.add_scalar b a
  pub mul-add_scalar :
      (p : curve.Point) (a b : curve.Scalar)
      → curve.mul p (curve.add_scalar a b) ≡ curve.add (curve.mul p a) (curve.mul p b)

-- A scalar multiple of a multiple is the same in either order, and a scalar is read back from its
-- number: what a shared key between two parties and a share in transit need.
pub record IsShared (curve : Curve) : Type 0 where
  pub mul_comm :
      (p : curve.Point) (a b : curve.Scalar)
      → curve.mul (curve.mul p a) b ≡ curve.mul (curve.mul p b) a
  pub scalar_of-to_bigint : (a : curve.Scalar) → curve.scalar_of (curve.to_bigint a) ≡ a

-- `BigInt::to_bytes`, `BigInt::from_bytes`, an index of a path with its reading in base ten, and the
-- number that `Hmac::<Sha512>` makes of a key, a number and an index.
pub record Bignum : Type 1 where
  pub Index : Type 0
  pub from_str_radix : Text → Option Index
  pub to_bytes : ℕ → List ℕ
  pub from_bytes : List ℕ → ℕ
  pub hmac : ℕ → ℕ → Index → ℕ

-- A compressed point survives as a number.
pub record IsCoded (curve : Curve) (bignum : Bignum) : Type 0 where
  pub from_bytes-to_bytes :
      (p : curve.Point)
      → curve.from_bytes (bignum.to_bytes (bignum.from_bytes (curve.to_bytes p))) ≡ some p

-- A number is read back from its bytes.
pub record IsBignum (bignum : Bignum) : Type 0 where
  pub from_bytes-to_bytes : (n : ℕ) → bignum.from_bytes (bignum.to_bytes n) ≡ n
