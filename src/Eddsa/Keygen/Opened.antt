-- ===== src/Eddsa/Keygen/Opened.antt =====
-- The loop after round 2 of `run_keygen` in src/protocols/eddsa/keygen.rs where all parties keep to the protocol.
use tss_ecdsa_cli.Base.{
  ℕ, zero, suc, ◌+◌, ◌≡◌, refl, ap, ◌∙◌, Text, List, [], ◌∷◌, map, some, true, false, Bool-cases,
  inl, inr, ◌==◌, ret, ◌>>=◌, arith,
}
use tss_ecdsa_cli.Manager.Store.{IsJson}
use tss_ecdsa_cli.Client.{range}
use tss_ecdsa_cli.Curves.{Curve, Bignum}
use tss_ecdsa_cli.Protocols.Gathered.{others, others_own, others_other}
use tss_ecdsa_cli.Eddsa.Library.{Library, Codecs}
use tss_ecdsa_cli.Eddsa.Keygen.{
  Opened, with_own, with_other, shared_key, open_decommitments, parties_points,
}

module _ {curve : Curve} (bignum : Bignum) (lib : Library curve) (json : Codecs lib) where
  open_decommitments-suc :
      (p : ℕ) (keys : lib.Keys) (own : lib.KeyGenDecommitMessage1) (m : Text) (ms : List Text)
      (j : ℕ) (is : List ℕ)
      → open_decommitments bignum lib json p keys own (m ∷ ms) (suc j) is
        ≡ open_decommitments bignum lib json p keys own ms j is
  unfolding open_decommitments
  open_decommitments-suc p keys own m ms j [] = refl
  open_decommitments-suc p keys own m ms j (i ∷ is) = rw (
    open_decommitments-suc p keys own m ms j is,
    open_decommitments-suc p keys own m ms (suc j) is,
  )

  open_own :
      (p : ℕ) (keys : lib.Keys) (own : lib.KeyGenDecommitMessage1) (ms : List Text) (i : ℕ)
      (is : List ℕ)
      → (i == p) ≡ true
      → open_decommitments bignum lib json p keys own ms 0 (i ∷ is) ≡ (
          open_decommitments bignum lib json p keys own ms 0 is >>= λ rest.
          ret (with_own bignum lib json own rest))
  unfolding open_decommitments
  open_own p keys own ms i is h = rw h

  open_other :
      (p : ℕ) (keys : lib.Keys) (own decom : lib.KeyGenDecommitMessage1) (key : List ℕ) (m : Text)
      (ms : List Text) (i : ℕ) (is : List ℕ)
      → (i == p) ≡ false
      → json.decommit_message.from_str m ≡ some decom
      → shared_key bignum lib json keys decom ≡ ret key
      → open_decommitments bignum lib json p keys own (m ∷ ms) 0 (i ∷ is) ≡ (
          open_decommitments bignum lib json p keys own ms 0 is >>= λ rest.
          ret (with_other bignum lib json decom key rest))
  unfolding open_decommitments
  open_other p keys own decom key m ms i is h read found =
      rw (h, open_decommitments-suc p keys own m ms 0 is) (rw (read) (rw found))

  module _ (written : IsJson json.decommit_message) (p : ℕ) (keys : lib.Keys)
      (decom : ℕ → lib.KeyGenDecommitMessage1) (key : ℕ → List ℕ)
      (found : (i : ℕ) → shared_key bignum lib json keys (decom i) ≡ ret (key i)) where
    abbrev decom_text : ℕ → Text
    decom_text i = json.decommit_message.to_string (decom i)

    abbrev opened_of : List ℕ → Opened bignum lib json
    opened_of is = (
      map (λ i. lib.y_i (decom i)) is,
      map (λ i. lib.blind_factor (decom i)) is,
      map key (others p is),
    )

    pub open_decommitments_lem :
        (is : List ℕ)
        → open_decommitments bignum lib json p keys (decom p) (map decom_text (others p is)) 0 is
          ≡ ret (
            map (λ i. lib.y_i (decom i)) is,
            map (λ i. lib.blind_factor (decom i)) is,
            map key (others p is),
          )
    open_decommitments_lem [] = unfold open_decommitments in refl
    open_decommitments_lem (i ∷ is) = elim (Bool-cases (i == p)) [
      | inl same ↦ rw (others_own p i is same) (
          open_own p keys (decom p) (map decom_text (others p is)) i is same
          ∙ rw (open_decommitments_lem is) (
              ap (λ j. ret (with_own bignum lib json (decom j) (opened_of is)))
                (same_number i same)))
      | inr other ↦ rw (others_other p i is other) (
          open_other p keys (decom p) (decom i) (key i) (decom_text i)
            (map decom_text (others p is)) i is other (written.from_str-to_string (decom i))
            (found i)
          ∙ rw (open_decommitments_lem is))
    ]
      where
        same_number : (i : ℕ) → (i == p) ≡ true → p ≡ i
        same_number i h = ground (arith, h)

map_shift : (i n : ℕ) → map (λ j. j + 1) (range i n) ≡ range (i + 1) n
map_shift i zero = refl
map_shift i (suc n) = rw (map_shift (i + 1) n)

pub parties_points_lem : (n : ℕ) → parties_points n ≡ range 1 n
unfolding parties_points
parties_points_lem n = map_shift 0 n
