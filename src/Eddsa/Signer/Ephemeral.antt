-- ===== src/Eddsa/Signer/Ephemeral.antt =====
-- The steps of `eph_keygen_t_n_parties` of src/protocols/eddsa/signer.rs between its rounds.
use tss_ecdsa_cli.Base.{
  ℕ, suc, ◌-◌, ◌==◌, if◌then◌else◌, Text, List, [], ◌∷◌, get_elem?, Option, none, some, Run, ret,
  ◌>>=◌, at_index, unwrap_option,
}
use tss_ecdsa_cli.Common.{Aead}
use tss_ecdsa_cli.Cipher.{AesGcm, aes_decrypt}
use tss_ecdsa_cli.Manager.Store.{Json}
use tss_ecdsa_cli.Curves.{Curve, Bignum}
use tss_ecdsa_cli.Protocols.Shares.{pad_left}
use tss_ecdsa_cli.Eddsa.Library.{Library}
use tss_ecdsa_cli.Eddsa.Keygen.{aes_key_bytes_len}
use tss_ecdsa_cli.Eddsa.Signer.Crates.{SignLibrary, SignCodecs, Announcement}

-- `HashMap<u16, Vec<u8>>`: what was inserted last stands first.
abbrev pub EncKeys : Type 0
EncKeys = List (ℕ × List ℕ)

abbrev pub insert_key : ℕ → List ℕ → EncKeys → EncKeys
insert_key index key enc_keys = (index, key) ∷ enc_keys

unfoldable pub get_key : ℕ → EncKeys → Option (List ℕ)
get_key index [] = none
get_key index (entry ∷ enc_keys) = if index == entry.0 then some entry.1 else get_key index enc_keys

-- The key of the cipher for the signer with number `i`, by its index.
unfoldable pub enc_key_of : List ℕ → EncKeys → ℕ → Run (List ℕ)
unfolding get_key
enc_key_of parties enc_keys i = do
  index ← at_index (get_elem? parties (i - 1))
  unwrap_option (get_key index enc_keys)

module _ {curve : Curve} (bignum : Bignum) {lib : Library curve} (sl : SignLibrary lib)
    (json : SignCodecs sl) where
  -- The bytes of the key shared with the party of a point, zeros on the left.
  unfoldable pub ephemeral_key : sl.EphemeralKey → curve.Point → Run (List ℕ)
  unfolding pad_left
  ephemeral_key eph_party_key r_i_j = do
    key_bn ← unwrap_option (curve.x_coord (curve.mul r_i_j (sl.scalar eph_party_key)))
    pad_left aes_key_bytes_len (bignum.to_bytes key_bn)

  -- The loop after round 1: what all announced, and the keys shared with the others.
  unfoldable pub open_announcements :
      ℕ
      → sl.EphemeralKey
      → Announcement sl
      → List ℕ
      → List Text
      → EncKeys
      → ℕ
      → List ℕ
      → Run (List (Announcement sl) × EncKeys)
  unfolding ephemeral_key
  open_announcements party_num eph_party_key own parties answers enc_keys j [] = ret ([], enc_keys)
  open_announcements party_num eph_party_key own parties answers enc_keys j (i ∷ is) =
      if i == party_num
      then (do
        rest ← open_announcements party_num eph_party_key own parties answers enc_keys j is
        ret (own ∷ rest.0, rest.1))
      else (do
        answer ← at_index (get_elem? answers j)
        announced ← unwrap_option (json.announcement.from_str answer)
        key ← ephemeral_key eph_party_key announced.2
        index ← at_index (get_elem? parties (i - 1))
        rest ←
            open_announcements party_num eph_party_key own parties answers
              (insert_key index key enc_keys) (suc j) is
        ret (announced ∷ rest.0, rest.1))

-- The loop after round 3.
module _ (curve : Curve) (bignum : Bignum) (aes : AesGcm) (aead_json : Json Aead) where
  unfoldable pub open_ephemeral_shares :
      ℕ → List curve.Scalar → List ℕ → EncKeys → List Text → ℕ → List ℕ → Run (List curve.Scalar)
  unfolding enc_key_of
  open_ephemeral_shares party_num secret_shares parties enc_keys answers j [] = ret []
  open_ephemeral_shares party_num secret_shares parties enc_keys answers j (i ∷ is) =
      if i == party_num
      then (do
        share ← at_index (get_elem? secret_shares (i - 1))
        rest ← open_ephemeral_shares party_num secret_shares parties enc_keys answers j is
        ret (share ∷ rest))
      else (do
        answer ← at_index (get_elem? answers j)
        aead_pack ← unwrap_option (aead_json.from_str answer)
        key_i ← enc_key_of parties enc_keys i
        out ← aes_decrypt aes key_i aead_pack
        rest ← open_ephemeral_shares party_num secret_shares parties enc_keys answers (suc j) is
        ret (curve.scalar_of (bignum.from_bytes out) ∷ rest))
