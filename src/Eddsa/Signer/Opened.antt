-- ===== src/Eddsa/Signer/Opened.antt =====
-- The loops of `eph_keygen_t_n_parties` in src/protocols/eddsa/signer.rs where all signers keep to the
-- protocol.
use tss_ecdsa_cli.Base.{
  ℕ, zero, suc, ◌-◌, ◌≡◌, refl, sym, ap, Text, List, [], ◌∷◌, map, get_elem?, Option, some, true,
  Bool-cases, inl, inr, ◌==◌, ret, arith, subst,
}
use tss_ecdsa_cli.Manager.Store.{IsJson}
use tss_ecdsa_cli.Curves.{Curve, Bignum}
use tss_ecdsa_cli.Protocols.Gathered.{others, others_own, others_other}
use tss_ecdsa_cli.Protocols.Loops.{ForOthers, ForOthers-own, ForOthers-first, ForOthers-next}
use tss_ecdsa_cli.Eddsa.Library.{Library}
use tss_ecdsa_cli.Eddsa.Signer.Crates.{SignLibrary, SignCodecs, Announcement}
use tss_ecdsa_cli.Eddsa.Signer.Ephemeral.{
  EncKeys, insert_key, get_key, ephemeral_key, open_announcements,
}

-- The keys that a signer has with the others, by their indices.
module _ (ids : ℕ → ℕ) (key : ℕ → List ℕ) (Member : ℕ → Type 0)
    (same_key : (i j : ℕ) → Member i → Member j → ids i ≡ ids j → key i ≡ key j) where
  abbrev pub keys_after : EncKeys → List ℕ → EncKeys
  keys_after enc_keys [] = enc_keys
  keys_after enc_keys (i ∷ is) = keys_after (insert_key (ids i) (key i) enc_keys) is

  abbrev pub Stored : EncKeys → ℕ → Type 0
  Stored enc_keys i = get_key (ids i) enc_keys ≡ some (key i)

  inserted : (enc_keys : EncKeys) (i : ℕ) → Stored (insert_key (ids i) (key i) enc_keys) i
  unfolding get_key
  inserted enc_keys i = rw same refl
    where
      same : (ids i == ids i) ≡ true
      same = ground arith

  kept_by_insert :
      (enc_keys : EncKeys) (i o : ℕ)
      → Member i
      → Member o
      → Stored enc_keys i
      → Stored (insert_key (ids o) (key o) enc_keys) i
  unfolding get_key
  kept_by_insert enc_keys i o m m' h = elim (Bool-cases (ids i == ids o)) [
    | inl same ↦ rw same (ap some (sym (same_key i o m m' (number same))))
    | inr other ↦ rw other h
  ]
    where
      number : (ids i == ids o) ≡ true → ids i ≡ ids o
      number h = ground (arith, h)

  AreMembers : List ℕ → Type 0
  AreMembers is = (k o : ℕ) → get_elem? is k ≡ some o → Member o

  stays :
      (is : List ℕ) (enc_keys : EncKeys) (i : ℕ)
      → Member i
      → AreMembers is
      → Stored enc_keys i
      → Stored (keys_after enc_keys is) i
  unfolding AreMembers
  stays [] enc_keys i m ms h = h
  stays (o ∷ is) enc_keys i m ms h =
      stays is (insert_key (ids o) (key o) enc_keys) i m (λ k. ms (suc k))
        (kept_by_insert enc_keys i o m (ms 0 o refl) h)

  -- The key of each of the others is found by its index.
  pub keys_after_lem :
      (is : List ℕ) (enc_keys : EncKeys) (k i : ℕ)
      → ((k o : ℕ) → get_elem? is k ≡ some o → Member o)
      → get_elem? is k ≡ some i
      → Stored (keys_after enc_keys is) i
  unfolding AreMembers
  keys_after_lem [] enc_keys k i ms e = cc
  keys_after_lem (o ∷ is) enc_keys zero i ms e =
      stays is (insert_key (ids o) (key o) enc_keys) i (ms 0 i e) (λ k. ms (suc k))
        (subst (λ j. Stored (insert_key (ids o) (key o) enc_keys) j) (same o i e)
          (inserted enc_keys o))
    where
      same : (o i : ℕ) → ◌≡◌ {A = Option ℕ} (some o) (some i) → o ≡ i
      same o i e = ground arith
  keys_after_lem (o ∷ is) enc_keys (suc k) i ms e =
      keys_after_lem is (insert_key (ids o) (key o) enc_keys) k i (λ k. ms (suc k)) e

module _ {curve : Curve} (bignum : Bignum) {lib : Library curve} (sl : SignLibrary lib)
    (json : SignCodecs sl) (laws : IsJson json.announcement) (p : ℕ) (eph : sl.EphemeralKey)
    (announcement : ℕ → Announcement sl) (parties : List ℕ) (answers : List Text) (ids : ℕ → ℕ)
    (key : ℕ → List ℕ) (Member : ℕ → Type 0)
    (same_key : (i j : ℕ) → Member i → Member j → ids i ≡ ids j → key i ≡ key j)
    (shares_key : (i : ℕ)
      → Member i
      → ephemeral_key bignum sl json eph ((announcement i).2) ≡ ret (key i))
    (has_index : (i : ℕ) → Member i → get_elem? parties (i - 1) ≡ some (ids i)) where
  -- An answer of a member.
  abbrev pub Announced : ℕ → ℕ → Type 0
  Announced k i =
      Member i × (get_elem? answers k ≡ some (json.announcement.to_string (announcement i)))

  pub open_announcements_lem :
      (enc_keys : EncKeys) (j : ℕ) (is : List ℕ)
      → ForOthers p Announced j is
      → open_announcements bignum sl json p eph (announcement p) parties answers enc_keys j is
        ≡ ret (map announcement is, keys_after ids key Member same_key enc_keys (others p is))
  unfolding open_announcements
  open_announcements_lem enc_keys j [] h = refl
  open_announcements_lem enc_keys j (i ∷ is) h = elim (Bool-cases (i == p)) [
    | inl own ↦ rw (others_own p i is own) (
        rw (own, open_announcements_lem enc_keys j is (ForOthers-own p Announced j i is h own))
          (ap
            (λ q. ret (
              announcement q ∷ map announcement is,
              keys_after ids key Member same_key enc_keys (others p is),
            ))
            (number own)))
    | inr other ↦
        let (member, answered) = ForOthers-first p Announced j i is h other in
        rw (others_other p i is other) (
          rw (other, answered)
            (rw (laws.from_str-to_string (announcement i)) (
              rw (shares_key i member, has_index i member)
                (rw
                  (open_announcements_lem (insert_key (ids i) (key i) enc_keys) (suc j) is
                    (ForOthers-next p Announced j i is h other))
                  refl))))
  ]
    where
      number : (i == p) ≡ true → p ≡ i
      number h = ground (arith, h)
