-- ===== src/Protocols/Proofs.antt =====
-- What the checks of the proofs of discrete logarithms in src/protocols/mod.rs accept.
use tss_ecdsa_cli.Base.{
  ℕ, zero, suc, ◌≡◌, refl, List, [], ◌∷◌, length, Bool, true, false, ◌==◌, ◌&&◌, if◌then◌else◌,
  Bool-cases, inl, inr, ret, panic, assertion, ok, err, arith,
}
use tss_ecdsa_cli.Protocols.{invalid_key, all_verified, verify_dlog_proofs}

module _ {Proof : Type 0} (verify : Proof → Bool) where
  abbrev pub every : List Proof → Bool
  every [] = true
  every (p ∷ ps) = verify p && every ps

  all_verified-suc :
      (p : Proof) (ps : List Proof) (i k : ℕ)
      → all_verified verify (p ∷ ps) (suc i) k ≡ all_verified verify ps i k
  unfolding all_verified
  all_verified-suc p ps i zero = refl
  all_verified-suc p ps i (suc k) = rw (all_verified-suc p ps (suc i) k) refl

  all_verified-every : (ps : List Proof) → all_verified verify ps 0 (length ps) ≡ ret (every ps)
  unfolding all_verified
  all_verified-every [] = refl
  all_verified-every (p ∷ ps) =
      rw (all_verified-suc p ps 0 (length ps), all_verified-every ps) (checked (verify p))
    where
      checked : (b : Bool) → (if b then ret (every ps) else ret false) ≡ ret (b && every ps)
      checked true = refl
      checked false = refl

  -- The check accepts exactly if there are as many public shares and as many proofs as parties and
  -- every proof verifies; a proof that does not is an error, and another number of either is a
  -- failed assertion.
  pub verify_dlog_proofs_lem :
      (share_count y_vec_len : ℕ) (proofs : List Proof)
      → verify_dlog_proofs verify share_count proofs y_vec_len ≡ (
          if (y_vec_len == share_count) && (length proofs == share_count)
          then ret (if every proofs then ok tt else err invalid_key)
          else panic assertion)
  unfolding verify_dlog_proofs
  verify_dlog_proofs_lem share_count y_vec_len proofs =
      elim (Bool-cases (y_vec_len == share_count)) [
        | inl same ↦ rw same (elim (Bool-cases (length proofs == share_count)) [
          | inl same' ↦ rw same' (rw (one same same', all_verified-every proofs))
          | inr other ↦ rw other
        ])
        | inr other ↦ rw other
      ]
    where
      one :
          (y_vec_len == share_count) ≡ true
          → (length proofs == share_count) ≡ true
          → y_vec_len ≡ length proofs
      one same same' = ground arith
