-- ===== src/HdKeys.antt =====
-- The derivation of keys along a path, src/common/hd_keys.rs.
pub mod Derived
use tss_ecdsa_cli.Base.{
  ℕ, ◌+◌, ◌-◌, ◌/◌, ◌^◌, ◌≤◌, bit_and, Text, List, [], ◌∷◌, foldl, Option, none, some, Bool, true,
  false, ◌||◌, ◌&&◌, leb, ◌==◌, if◌then◌else◌, Run, ret, panic, bounds, ◌>>=◌, ◌>>◌, unwrap_option,
}
use tss_ecdsa_cli.Curves.{Curve, Bignum}

-- `path.split('/')`: the text before the first slash, and the rest.
abbrev pub split_slash : Text → Text × List Text
split_slash [] = ([], [])
split_slash (c ∷ s) =
    let rest = split_slash s in if c == b'/' then ([], rest.0 ∷ rest.1) else (c ∷ rest.0, rest.1)

-- `char::is_whitespace`.
abbrev pub is_whitespace : ℕ → Bool
is_whitespace c =
    (leb 9 c && leb c 13)
    || (c == 32)
    || (c == 133)
    || (c == 160)
    || (c == 5760)
    || (leb 8192 c && leb c 8202)
    || (c == 8232)
    || (c == 8233)
    || (c == 8239)
    || (c == 8287)
    || (c == 12288)

abbrev pub trim_start : Text → Text
trim_start [] = []
trim_start (c ∷ s) = if is_whitespace c then trim_start s else c ∷ s

abbrev reversed_onto : Text → Text → Text
reversed_onto acc [] = acc
reversed_onto acc (c ∷ s) = reversed_onto (c ∷ acc) s

unfoldable pub trim : Text → Text
trim s = reversed_onto [] (trim_start (reversed_onto [] (trim_start s)))

-- What the commands for public keys return: the coordinates in base 16, and the path.
pub record PublicKey : Type 0 where
  pub x : Text
  pub y : Text
  pub path : Text

module _ (curve : Curve) (bignum : Bignum) where
  open curve use {Scalar, Point, add, mul, generator, add_scalar, scalar_of}

  -- What a derivation carries: the key, the sum of the tweaks, and the chain code.
  abbrev pub Derivation : Type 0
  Derivation = Point × Scalar × Point

  -- `BigInt::from_bytes(&p.to_bytes(true))`.
  abbrev pub number_of : Point → ℕ
  number_of p = bignum.from_bytes (curve.to_bytes p)

  abbrev pub mask : ℕ
  mask = 2 ^ 256 - 1

  -- The two halves of the HMAC, as scalars.
  unfoldable pub tweak : ℕ → Point → bignum.Index → Scalar
  tweak chain pubkey index = scalar_of (bignum.hmac chain (number_of pubkey) index / 2 ^ 256)

  unfoldable pub chain_tweak : ℕ → Point → bignum.Index → Scalar
  chain_tweak chain pubkey index =
      scalar_of (bit_and (bignum.hmac chain (number_of pubkey) index) mask)

  -- The step of the `fold`.
  unfoldable pub derive : Derivation → bignum.Index → Derivation
  unfolding tweak chain_tweak
  derive (pubkey, sum, chain) index =
      let f_l = tweak (number_of chain) pubkey index in
      let f_r = chain_tweak (number_of chain) pubkey index in
      (add pubkey (mul generator f_l), add_scalar f_l sum, mul chain f_r)

  unfoldable pub hd_key : List bignum.Index → Point → ℕ → Run Derivation
  unfolding tweak chain_tweak derive
  hd_key [] pubkey chain_code_bi = panic bounds
  hd_key (first ∷ location_in_hir) pubkey chain_code_bi = do
    let f_l_fe = tweak chain_code_bi pubkey first
    let f_r_fe = chain_tweak chain_code_bi pubkey first
    point ← unwrap_option (curve.from_bytes (bignum.to_bytes chain_code_bi))
    let chain_code = mul point f_r_fe
    let pub_key = add pubkey (mul generator f_l_fe)
    ret (foldl derive (pub_key, f_l_fe, chain_code) location_in_hir)

  -- The indices of a path, each of which must be a number.
  unfoldable pub parse_path : List Text → Run (List bignum.Index)
  unfolding trim
  parse_path [] = ret []
  parse_path (s ∷ ss) = do
    index ← unwrap_option (bignum.from_str_radix (trim s))
    rest ← parse_path ss
    ret (index ∷ rest)

  unfoldable pub get_hd_key : Point → Text → Point → Run (Point × Scalar)
  unfolding parse_path hd_key
  get_hd_key y_sum path chain_code = do
    path_vector ← parse_path ((split_slash path).0 ∷ (split_slash path).1)
    derived ← hd_key path_vector y_sum (number_of chain_code)
    ret (derived.0, derived.1)
