-- ===== src/Protocols/Opened.antt =====
-- What the loop of the share round in src/protocols/ecdsa/keygen.rs and src/protocols/eddsa/keygen.rs
-- opens where all parties keep to the protocol.
use tss_ecdsa_cli.Base.{
  ℕ, suc, ◌-◌, ◌≡◌, refl, ◌∙◌, Text, List, [], ◌∷◌, map, get_elem?, some, true, false, Bool-cases,
  inl, inr, ◌==◌, ret, ◌>>=◌, length, arith, subst,
}
use tss_ecdsa_cli.Common.{Aead}
use tss_ecdsa_cli.Cipher.{AesGcm}
use tss_ecdsa_cli.Cipher.Sealed.{IsAesGcm}
use tss_ecdsa_cli.Manager.Store.{Json, IsJson}
use tss_ecdsa_cli.Curves.{Curve, IsShared, Bignum, IsBignum}
use tss_ecdsa_cli.Protocols.Gathered.{others, others_own, others_other}
use tss_ecdsa_cli.Protocols.Shares.{open_share, open_shares}
use tss_ecdsa_cli.Protocols.Encrypted.{sealed, aes_decrypt-sealed}

module _ (curve : Curve) (bignum : Bignum) (aes : AesGcm) (aead_json : Json Aead) {Key : Type 0}
    (key_bytes : Key → List ℕ) (cipher : IsAesGcm aes) where
  open_share-sealed :
      IsShared curve
      → IsBignum bignum
      → IsJson aead_json
      → (key : Key) (nonce : List ℕ) (share : curve.Scalar) → length (key_bytes key) ≡ 32
      → length nonce ≡ 12
      → open_share curve bignum aes aead_json key_bytes key
          (aead_json.to_string (sealed curve bignum cipher (key_bytes key) nonce share))
        ≡ ret share
  unfolding open_share
  open_share-sealed shared numbers packs key nonce share fits twelve = rw (
    packs.from_str-to_string (sealed curve bignum cipher (key_bytes key) nonce share),
    aes_decrypt-sealed curve bignum aes cipher (key_bytes key) nonce share fits twelve,
    numbers.from_bytes-to_bytes (curve.to_bigint share),
    shared.scalar_of-to_bigint share,
  )

  -- An answer and a key that were used already make no difference.
  open_shares-suc :
      (p : ℕ) (own : List curve.Scalar) (e : Key) (es : List Key) (m : Text) (ms : List Text)
      (j : ℕ) (is : List ℕ)
      → open_shares curve bignum aes aead_json key_bytes p own (e ∷ es) (m ∷ ms) (suc j) is
        ≡ open_shares curve bignum aes aead_json key_bytes p own es ms j is
  unfolding open_shares
  open_shares-suc p own e es m ms j [] = refl
  open_shares-suc p own e es m ms j (i ∷ is) =
      rw (open_shares-suc p own e es m ms j is, open_shares-suc p own e es m ms (suc j) is)

  open_shares_own :
      (p : ℕ) (own : List curve.Scalar) (keys : List Key) (answers : List Text) (i : ℕ)
      (is : List ℕ) (share : curve.Scalar)
      → (i == p) ≡ true
      → get_elem? own (i - 1) ≡ some share
      → open_shares curve bignum aes aead_json key_bytes p own keys answers 0 (i ∷ is) ≡ (
          open_shares curve bignum aes aead_json key_bytes p own keys answers 0 is >>= λ rest.
          ret (share ∷ rest))
  unfolding open_shares
  open_shares_own p own keys answers i is share h e = rw (h, e)

  open_shares_other :
      (p : ℕ) (own : List curve.Scalar) (key : Key) (keys : List Key) (m : Text)
      (answers : List Text) (i : ℕ) (is : List ℕ) (share : curve.Scalar)
      → (i == p) ≡ false
      → open_share curve bignum aes aead_json key_bytes key m ≡ ret share
      → open_shares curve bignum aes aead_json key_bytes p own (key ∷ keys) (m ∷ answers) 0 (i ∷ is)
        ≡ (open_shares curve bignum aes aead_json key_bytes p own keys answers 0 is >>= λ rest.
            ret (share ∷ rest))
  unfolding open_shares
  open_shares_other p own key keys m answers i is share h e =
      rw (h, open_shares-suc p own key keys m answers 0 is) (rw e)

  -- The parties' keys and shares: `key i` is what party `p` shares with party `i`, `share i` the share
  -- that party `i` has sent it, and `nonce i` the nonce under which it did.
  module _ (shared : IsShared curve) (numbers : IsBignum bignum) (packs : IsJson aead_json) (p : ℕ)
      (own : List curve.Scalar) (key : ℕ → Key) (nonce : ℕ → List ℕ) (share : ℕ → curve.Scalar)
      (kept : get_elem? own (p - 1) ≡ some (share p))
      (fits : (i : ℕ) → length (key_bytes (key i)) ≡ 32)
      (twelve : (i : ℕ) → length (nonce i) ≡ 12) where
    abbrev pub pack_text : ℕ → Text
    pack_text i =
        aead_json.to_string (sealed curve bignum cipher (key_bytes (key i)) (nonce i) (share i))

    -- A party opens the shares that the others sealed for it, and puts its own in its place.
    pub open_shares_lem :
        (is : List ℕ)
        → open_shares curve bignum aes aead_json key_bytes p own
            (map key (others p is))
            (map pack_text (others p is))
            0
            is
          ≡ ret (map share is)
    open_shares_lem [] = unfold open_shares in refl
    open_shares_lem (i ∷ is) = elim (Bool-cases (i == p)) [
      | inl same ↦ rw (others_own p i is same) (
          open_shares_own p own (map key (others p is)) (map pack_text (others p is)) i is (share i)
            same (kept_at i same)
          ∙ rw (open_shares_lem is))
      | inr other ↦ rw (others_other p i is other) (
          open_shares_other p own (key i) (map key (others p is)) (pack_text i)
            (map pack_text (others p is)) i is (share i) other
            (open_share-sealed shared numbers packs (key i) (nonce i) (share i) (fits i) (twelve i))
          ∙ rw (open_shares_lem is))
    ]
      where
        same_number : (i : ℕ) → (i == p) ≡ true → p ≡ i
        same_number i h = ground (arith, h)

        kept_at : (i : ℕ) → (i == p) ≡ true → get_elem? own (i - 1) ≡ some (share i)
        kept_at i h = subst (λ j. get_elem? own (j - 1) ≡ some (share j)) (same_number i h) kept
