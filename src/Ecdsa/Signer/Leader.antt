-- ===== src/Ecdsa/Signer/Leader.antt =====
-- The commitments of the leader for a key at a path, in `sign` of src/protocols/ecdsa/signer.rs.
use tss_ecdsa_cli.Base.{
  ℕ, suc, ◌+◌, ◌≡◌, ◌≤◌, ◌==◌, foldl, get_elem?, ◌>>=◌, at_index, refl, ap, ◌∙◌, sym, List, [], ◌∷◌,
  length, false, Text, Ensures-ret, Run, ret, panic, no_fuel, arith,
}
use tss_ecdsa_cli.Client.{range}
use tss_ecdsa_cli.Curves.{Curve, IsCurve, Bignum}
use tss_ecdsa_cli.Protocols.{fold_from_head}
use tss_ecdsa_cli.HdKeys.{get_hd_key}
use tss_ecdsa_cli.HdKeys.Derived.{get_hd_key-IsTweaked}
use tss_ecdsa_cli.Ecdsa.Library.{Library}
use tss_ecdsa_cli.Ecdsa.Signer.Crates.{SignLibrary}
use tss_ecdsa_cli.Ecdsa.Signer.{com_vec_new, update_leader}

module _ {curve : Curve} {lib : Library curve} (sl : SignLibrary lib) where
  open curve use {Scalar, Point, add, mul, generator}

  -- Past the first commitment, those of the leader follow as they are.
  com_vec_new_past :
      (c : Point) (cs : List Point) (i : ℕ)
      → 1 ≤ i
      → com_vec_new sl c cs (range i (length cs)) ≡ ret cs
  unfolding com_vec_new
  com_vec_new_past c [] i h = refl
  com_vec_new_past c (d ∷ cs) i h = rw (later, com_vec_new_past c cs (i + 1) (omega arith))
    where
      later : (i == 0) ≡ false
      later = ground arith

  -- The schemes with the tweak in the first commitment of the leader.
  abbrev pub tweaked : Scalar → lib.VerifiableSs → Point → List Point → lib.VerifiableSs
  tweaked f leader c cs = sl.verifiable_ss (sl.parameters leader) (add c (mul generator f) ∷ cs)

  pub update_leader_lem :
      (f : Scalar) (leader second : lib.VerifiableSs) (rest : List lib.VerifiableSs) (c : Point)
      (cs : List Point)
      → sl.commitments leader ≡ c ∷ cs
      → length (sl.commitments second) ≡ suc (length cs)
      → update_leader sl f (leader ∷ second ∷ rest) ≡ ret (tweaked f leader c cs ∷ second ∷ rest)
  unfolding update_leader com_vec_new
  update_leader_lem f leader second rest c cs e n =
      rw (e, n, com_vec_new_past (add c (mul generator f)) cs 1 (omega arith))

  -- The public key that the schemes commit to: the sum of their first commitments.
  unfoldable pub secret_commitments : List lib.VerifiableSs → Run (List Point)
  secret_commitments [] = ret []
  secret_commitments (vss ∷ rest) = do
    commitment ← at_index (get_elem? (sl.commitments vss) 0)
    commitments ← secret_commitments rest
    ret (commitment ∷ commitments)

  unfoldable pub committed_key : List lib.VerifiableSs → Run Point
  unfolding secret_commitments fold_from_head
  committed_key vss_scheme_vec = do
    commitments ← secret_commitments vss_scheme_vec
    fold_from_head add commitments

  foldl-add :
      IsCurve curve
      → (ps : List Point) (c t : Point) → foldl add (add c t) ps ≡ add (foldl add c ps) t
  foldl-add laws [] c t = refl
  foldl-add laws (p ∷ ps) c t =
      ap (λ q. foldl add q ps)
        (laws.add_assoc c t p ∙ ap (add c) (laws.add_comm t p) ∙ sym (laws.add_assoc c p t))
      ∙ foldl-add laws ps (add c p) t

  -- The key grows by what the first commitment of the first scheme grows by.
  committed_key-first :
      IsCurve curve
      → (vss vss' : lib.VerifiableSs) (rest : List lib.VerifiableSs) (c t : Point) (cs : List Point)
      → sl.commitments vss ≡ c ∷ cs
      → sl.commitments vss' ≡ add c t ∷ cs
      → committed_key (vss' ∷ rest) ≡ (committed_key (vss ∷ rest) >>= λ y. ret (add y t))
  unfolding committed_key secret_commitments fold_from_head
  committed_key-first laws vss vss' rest c t cs e e' = rw (e, e') (sum (secret_commitments rest))
    where
      sum :
          (r : Run (List Point))
          → (r >>= (λ cs. ret (add c t ∷ cs)) >>= fold_from_head add)
            ≡ (r >>= (λ cs. ret (c ∷ cs)) >>= fold_from_head add >>= λ y. ret (add y t))
      sum (ret ps) = ap ret (foldl-add laws ps c t)
      sum (panic p) = refl
      sum no_fuel = refl

  module _ (bignum : Bignum) where
    -- On a lawful curve, if a scheme has the commitments that it was built with, the leader has as
    -- many commitments as the second scheme, the first commitments of all add up to the public key,
    -- and a derivation along a path makes a child of that key with a tweak, then `update_leader`
    -- with the tweak returns, and the first commitments of the schemes that it returns add up to
    -- the child.
    pub update_leader-key :
        IsCurve curve
        → ((params : sl.ShamirSecretSharing) (cs : List Point)
            → sl.commitments (sl.verifiable_ss params cs) ≡ cs)
        → (leader second : lib.VerifiableSs) (rest : List lib.VerifiableSs) (c : Point)
          (cs : List Point) (y child chain_code : Point) (path : Text) (f_l : Scalar)
        → sl.commitments leader ≡ c ∷ cs
        → length (sl.commitments second) ≡ suc (length cs)
        → committed_key (leader ∷ second ∷ rest) ≡ ret y
        → get_hd_key curve bignum y path chain_code ≡ ret (child, f_l)
        → (update_leader sl f_l (leader ∷ second ∷ rest) >>= committed_key) ≡ ret child
    update_leader-key laws fields leader second rest c cs y child chain_code path f_l e n key
          derived =
        ap (λ r. r >>= committed_key) (update_leader_lem f_l leader second rest c cs e n)
        ∙ committed_key-first laws leader (tweaked f_l leader c cs) (second ∷ rest) c
            (mul generator f_l) cs e (fields _ _)
        ∙ ap (λ r. r >>= λ y. ret (add y (mul generator f_l))) key
        ∙ ap ret (
            sym (
              Ensures-ret {A = Point × Scalar} (λ r. r.0 ≡ add y (mul generator r.1)) _ (child, f_l)
                derived (get_hd_key-IsTweaked curve bignum laws y path chain_code)))
