-- ===== src/Ecdsa/Keygen/Opened.antt =====
-- The loops of `run_keygen` in src/protocols/ecdsa/keygen.rs where all parties keep to the protocol.
use tss_ecdsa_cli.Base.{
  ℕ, zero, suc, ◌+◌, ◌≡◌, refl, ap, ◌∙◌, Text, List, [], ◌∷◌, map, length, some, true, false,
  Bool-cases, inl, inr, ◌==◌, ret, ◌>>=◌, arith,
}
use tss_ecdsa_cli.Manager.Store.{IsJson}
use tss_ecdsa_cli.Client.{range}
use tss_ecdsa_cli.Curves.{Curve}
use tss_ecdsa_cli.Protocols.Gathered.{others, others_own, others_other}
use tss_ecdsa_cli.Ecdsa.Library.{Library, Codecs}
use tss_ecdsa_cli.Ecdsa.Keygen.{Opened, with_own, with_other, open_decommitments, encryption_keys}

module _ {curve : Curve} (lib : Library curve) (json : Codecs lib) where
  open_decommitments-suc :
      (p : ℕ) (keys : lib.Keys) (own : lib.KeyGenDecommitMessage1) (m : Text) (ms : List Text)
      (j : ℕ) (is : List ℕ)
      → open_decommitments lib json p keys own (m ∷ ms) (suc j) is
        ≡ open_decommitments lib json p keys own ms j is
  unfolding open_decommitments
  open_decommitments-suc p keys own m ms j [] = refl
  open_decommitments-suc p keys own m ms j (i ∷ is) = rw (
    open_decommitments-suc p keys own m ms j is,
    open_decommitments-suc p keys own m ms (suc j) is,
  )

  open_own :
      (p : ℕ) (keys : lib.Keys) (own : lib.KeyGenDecommitMessage1) (ms : List Text) (i : ℕ)
      (is : List ℕ)
      → (i == p) ≡ true
      → open_decommitments lib json p keys own ms 0 (i ∷ is) ≡ (
          open_decommitments lib json p keys own ms 0 is >>= λ rest.
          ret (with_own lib json own rest))
  unfolding open_decommitments
  open_own p keys own ms i is h = rw h

  open_other :
      (p : ℕ) (keys : lib.Keys) (own decom : lib.KeyGenDecommitMessage1) (key : ℕ) (m : Text)
      (ms : List Text) (i : ℕ) (is : List ℕ)
      → (i == p) ≡ false
      → json.decommit_message.from_str m ≡ some decom
      → curve.x_coord (curve.mul (lib.y_i decom) (lib.u_i keys)) ≡ some key
      → open_decommitments lib json p keys own (m ∷ ms) 0 (i ∷ is) ≡ (
          open_decommitments lib json p keys own ms 0 is >>= λ rest.
          ret (with_other lib json decom key rest))
  unfolding open_decommitments
  open_other p keys own decom key m ms i is h read found =
      rw (h, open_decommitments-suc p keys own m ms 0 is) (rw (read) (rw found))

  module _ (written : IsJson json.decommit_message) (p : ℕ) (keys : lib.Keys)
      (decom : ℕ → lib.KeyGenDecommitMessage1) (key : ℕ → ℕ)
      (found : (i : ℕ)
        → curve.x_coord (curve.mul (lib.y_i (decom i)) (lib.u_i keys)) ≡ some (key i)) where
    abbrev decom_text : ℕ → Text
    decom_text i = json.decommit_message.to_string (decom i)

    abbrev opened_of : List ℕ → Opened lib json
    opened_of is = (map (λ i. lib.y_i (decom i)) is, map decom is, map key (others p is))

    pub open_decommitments_lem :
        (is : List ℕ)
        → open_decommitments lib json p keys (decom p) (map decom_text (others p is)) 0 is
          ≡ ret (map (λ i. lib.y_i (decom i)) is, map decom is, map key (others p is))
    open_decommitments_lem [] = unfold open_decommitments in refl
    open_decommitments_lem (i ∷ is) = elim (Bool-cases (i == p)) [
      | inl same ↦ rw (others_own p i is same) (
          open_own p keys (decom p) (map decom_text (others p is)) i is same
          ∙ rw (open_decommitments_lem is)
              (ap (λ j. ret (with_own lib json (decom j) (opened_of is))) (same_number i same)))
      | inr other ↦ rw (others_other p i is other) (
          open_other p keys (decom p) (decom i) (key i) (decom_text i)
            (map decom_text (others p is)) i is other (written.from_str-to_string (decom i))
            (found i)
          ∙ rw (open_decommitments_lem is))
    ]
      where
        same_number : (i : ℕ) → (i == p) ≡ true → p ≡ i
        same_number i h = ground (arith, h)

  encryption_keys-suc :
      (m : lib.KeyGenBroadcastMessage1) (ms : List lib.KeyGenBroadcastMessage1) (i k : ℕ)
      → encryption_keys lib json (m ∷ ms) (range (suc i) k)
        ≡ encryption_keys lib json ms (range i k)
  unfolding encryption_keys
  encryption_keys-suc m ms i zero = refl
  encryption_keys-suc m ms i (suc k) = rw (next i) (rw (encryption_keys-suc m ms (i + 1) k))
    where
      next : (i : ℕ) → suc i + 1 ≡ suc (i + 1)
      next i = omega arith

  pub encryption_keys_lem :
      (ms : List lib.KeyGenBroadcastMessage1)
      → encryption_keys lib json ms (range 0 (length ms)) ≡ ret (map lib.e ms)
  encryption_keys_lem [] = unfold encryption_keys in refl
  encryption_keys_lem (m ∷ ms) = first m ms (encryption_keys_lem ms)
    where
      first :
          (m : lib.KeyGenBroadcastMessage1) (ms : List lib.KeyGenBroadcastMessage1)
          → encryption_keys lib json ms (range 0 (length ms)) ≡ ret (map lib.e ms)
          → encryption_keys lib json (m ∷ ms) (range 0 (suc (length ms))) ≡ ret (map lib.e (m ∷ ms))
      first m ms ih = unfold encryption_keys in rw (encryption_keys-suc m ms 0 (length ms)) (rw ih)
