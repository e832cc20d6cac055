-- ===== src/HdKeys/Derived.antt =====
-- What the keys of src/common/hd_keys.rs are: a child key is its parent and a tweak times the
-- generator, and a derivation may stop at any ancestor.
use tss_ecdsa_cli.Base.{
  ℕ, ◌≡◌, refl, sym, ap, ◌∙◌, Text, List, [], ◌∷◌, ◌++◌, foldl, Run, ret, panic, no_fuel, ◌>>=◌,
  unwrap_option, Ensures, Ensures-bind_any, Ensures-ret,
}
use tss_ecdsa_cli.Curves.{Curve, IsCurve, Bignum, IsCoded}
use tss_ecdsa_cli.HdKeys.{
  Derivation, number_of, tweak, chain_tweak, derive, hd_key, parse_path, get_hd_key, split_slash,
}

module _ (curve : Curve) (bignum : Bignum) where
  open curve use {Scalar, Point, add, mul, generator, add_scalar}

  -- The key is `root` and the tweak times the generator.
  abbrev pub IsTweaked : Point → Derivation curve bignum → Type 0
  IsTweaked root d = d.0 ≡ add root (mul generator d.1)

  derive-IsTweaked :
      IsCurve curve
      → (root : Point) (d : Derivation curve bignum) (index : bignum.Index) → IsTweaked root d
      → IsTweaked root (derive curve bignum d index)
  unfolding derive
  derive-IsTweaked laws root d index h =
      let f = tweak curve bignum (number_of curve bignum d.2) d.0 index in
      ap (λ p. add p (mul generator f)) h
      ∙ laws.add_assoc root _ _
      ∙ ap (add root) (sym (laws.mul-add_scalar generator d.1 f))
      ∙ ap (λ s. add root (mul generator s)) (laws.add_scalar_comm d.1 f)

  foldl-IsTweaked :
      IsCurve curve
      → (root : Point) (path : List bignum.Index) (d : Derivation curve bignum) → IsTweaked root d
      → IsTweaked root (foldl (derive curve bignum) d path)
  foldl-IsTweaked laws root [] d h = h
  foldl-IsTweaked laws root (index ∷ path) d h =
      foldl-IsTweaked laws root path (derive curve bignum d index)
        (derive-IsTweaked laws root d index h)

  hd_key-IsTweaked :
      IsCurve curve
      → (path : List bignum.Index) (pubkey : Point) (chain : ℕ)
      → Ensures (IsTweaked pubkey) (hd_key curve bignum path pubkey chain)
  unfolding hd_key
  hd_key-IsTweaked laws [] pubkey chain = tt
  hd_key-IsTweaked laws (first ∷ path) pubkey chain =
      Ensures-bind_any (IsTweaked pubkey) (unwrap_option (curve.from_bytes (bignum.to_bytes chain)))
        _ (λ point e. foldl-IsTweaked laws pubkey path (_, f_l, _) refl)
    where
      f_l : Scalar
      f_l = tweak curve bignum chain pubkey first

  -- The part of a derivation that `get_hd_key` returns.
  key_part-IsTweaked :
      (root : Point) (r : Run (Derivation curve bignum))
      → Ensures (IsTweaked root) r
      → Ensures {A = Point × Scalar}
          (λ r. r.0 ≡ add root (mul generator r.1))
          (r >>= λ derived. ret (derived.0, derived.1))
  key_part-IsTweaked root (ret d) h = h
  key_part-IsTweaked root (panic p) h = h
  key_part-IsTweaked root no_fuel h = h

  pub get_hd_key-IsTweaked :
      IsCurve curve
      → (root : Point) (path : Text) (chain_code : Point)
      → Ensures {A = Point × Scalar}
          (λ r. r.0 ≡ add root (mul generator r.1))
          (get_hd_key curve bignum root path chain_code)
  unfolding get_hd_key
  get_hd_key-IsTweaked laws root path chain_code =
      Ensures-bind_any {B = Point × Scalar} (λ r. r.0 ≡ add root (mul generator r.1))
        (parse_path curve bignum ((split_slash path).0 ∷ (split_slash path).1)) _
        (λ indices e. key_part-IsTweaked root _ (hd_key-IsTweaked laws indices root _))

  -- On a lawful curve, a derivation along a path that returns a child key and a tweak, for a root
  -- whose secret is `x`: the child is the root and the tweak times the generator, and so its secret
  -- is `x` and the tweak.
  pub get_hd_key_lem :
      IsCurve curve
      → (root child chain_code : Point) (path : Text) (x f_l : Scalar) → root ≡ mul generator x
      → get_hd_key curve bignum root path chain_code ≡ ret (child, f_l)
      → (child ≡ add root (mul generator f_l)) × (child ≡ mul generator (add_scalar x f_l))
  get_hd_key_lem laws root child chain_code path x f_l secret e =
      let tweaked =
        Ensures-ret {A = Point × Scalar} (λ r. r.0 ≡ add root (mul generator r.1)) _ (child, f_l) e
          (get_hd_key-IsTweaked laws root path chain_code) in
      (
        tweaked,
        tweaked
            ∙ ap (λ p. add p (mul generator f_l)) secret
            ∙ sym (laws.mul-add_scalar generator x f_l),
      )

  -- More tweak added to a derivation.
  abbrev pub shift : Scalar → Derivation curve bignum → Derivation curve bignum
  shift f d = (d.0, add_scalar d.1 f, d.2)

  foldl-derive-shift :
      IsCurve curve
      → (path : List bignum.Index) (f : Scalar) (d : Derivation curve bignum)
      → foldl (derive curve bignum) (shift f d) path ≡ shift f (foldl (derive curve bignum) d path)
  unfolding derive
  foldl-derive-shift laws [] f d = refl
  foldl-derive-shift laws (index ∷ path) f d =
      let below = derive curve bignum d index in
      let f_l = tweak curve bignum (number_of curve bignum d.2) d.0 index in
      ap (λ s. foldl (derive curve bignum) (below.0, s, below.2) path)
        (sym (laws.add_scalar_assoc f_l d.1 f))
      ∙ foldl-derive-shift laws path f below

  foldl-derive_append :
      (p q : List bignum.Index) (d : Derivation curve bignum)
      → foldl (derive curve bignum) d (p ++ q)
        ≡ foldl (derive curve bignum) (foldl (derive curve bignum) d p) q
  foldl-derive_append [] q d = refl
  foldl-derive_append (i ∷ p) q d = foldl-derive_append p q (derive curve bignum d i)

  -- A derivation is its first step, which starts at the chain code, and the `fold` of the others.
  hd_key_cons :
      IsCurve curve
      → IsCoded curve bignum
      → (i : bignum.Index) (path : List bignum.Index) (d : Derivation curve bignum)
      → (hd_key curve bignum (i ∷ path) d.0 (number_of curve bignum d.2) >>= λ below.
          ret (shift d.1 below))
        ≡ ret (foldl (derive curve bignum) d (i ∷ path))
  unfolding hd_key derive
  hd_key_cons laws coded i path d =
      rw (coded.from_bytes-to_bytes d.2) (ap ret (sym (foldl-derive-shift laws path d.1 _)))

  -- On a lawful curve whose points are read back from their bytes, a derivation along two paths,
  -- each with an index at least, one after the other, is the derivation of the second from the
  -- child of the first, with the child's chain code; the tweaks add up, and either fails where the
  -- other does.
  pub hd_key-append :
      IsCurve curve
      → IsCoded curve bignum
      → (i : bignum.Index) (p : List bignum.Index) (j : bignum.Index) (q : List bignum.Index)
        (pubkey : Point) (chain : ℕ)
      → hd_key curve bignum (i ∷ p ++ j ∷ q) pubkey chain ≡ (
          hd_key curve bignum (i ∷ p) pubkey chain >>= λ child.
          hd_key curve bignum (j ∷ q) child.0 (number_of curve bignum child.2) >>= λ below.
          ret (shift child.1 below))
  unfolding hd_key
  hd_key-append laws coded i p j q pubkey chain =
      from_chain (unwrap_option (curve.from_bytes (bignum.to_bytes chain)))
    where
      f_l : Scalar
      f_l = tweak curve bignum chain pubkey i

      start : Point → Derivation curve bignum
      start point =
          (add pubkey (mul generator f_l), f_l, mul point (chain_tweak curve bignum chain pubkey i))

      from_chain :
          (m : Run Point)
          → (m >>= λ point. ret (foldl (derive curve bignum) (start point) (p ++ j ∷ q))) ≡ (
              (m >>= λ point. ret (foldl (derive curve bignum) (start point) p)) >>= λ child.
              hd_key curve bignum (j ∷ q) child.0 (number_of curve bignum child.2) >>= λ below.
              ret (shift child.1 below))
      from_chain (ret point) =
          ap ret (foldl-derive_append p (j ∷ q) (start point))
          ∙ sym (hd_key_cons laws coded j q (foldl (derive curve bignum) (start point) p))
      from_chain (panic e) = refl
      from_chain no_fuel = refl
