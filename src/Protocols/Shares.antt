-- ===== src/Protocols/Shares.antt =====
-- The shares that a party has from the others, and the bytes of a key: parts of `run_keygen` in
-- src/protocols/ecdsa/keygen.rs and src/protocols/eddsa/keygen.rs.
use tss_ecdsa_cli.Base.{
  ℕ, zero, suc, ◌-◌, ◌==◌, ltb, if◌then◌else◌, Text, List, [], ◌∷◌, ◌++◌, get_elem?, Run, ret,
  panic, explicit, ◌>>=◌, at_index, unwrap_option, length,
}
use tss_ecdsa_cli.Common.{Aead}
use tss_ecdsa_cli.Cipher.{AesGcm, aes_decrypt}
use tss_ecdsa_cli.Manager.Store.{Json}
use tss_ecdsa_cli.Curves.{Curve, Bignum}

abbrev pub zeros : ℕ → List ℕ
zeros zero = []
zeros (suc n) = 0 ∷ zeros n

-- `vec![0u8; len - bytes.len()]` and the bytes after it. A vector of a negative length is a panic:
-- of the subtraction in a debug build, of the allocation in a release build.
unfoldable pub pad_left : ℕ → List ℕ → Run (List ℕ)
pad_left len bytes =
    if ltb len (length bytes) then panic explicit else ret (zeros (len - length bytes) ++ bytes)

module _ (curve : Curve) (bignum : Bignum) (aes : AesGcm) (aead_json : Json Aead) {Key : Type 0}
    (key_bytes : Key → List ℕ) where
  -- One share from an answer.
  unfoldable pub open_share : Key → Text → Run curve.Scalar
  open_share key answer = do
    aead_pack ← unwrap_option (aead_json.from_str answer)
    out ← aes_decrypt aes (key_bytes key) aead_pack
    ret (curve.scalar_of (bignum.from_bytes out))

  -- The loop that puts the party's own share among those of the others.
  unfoldable pub open_shares :
      ℕ → List curve.Scalar → List Key → List Text → ℕ → List ℕ → Run (List curve.Scalar)
  unfolding open_share
  open_shares party_num secret_shares enc_keys answers j [] = ret []
  open_shares party_num secret_shares enc_keys answers j (i ∷ is) =
      if i == party_num
      then (do
        share ← at_index (get_elem? secret_shares (i - 1))
        rest ← open_shares party_num secret_shares enc_keys answers j is
        ret (share ∷ rest))
      else (do
        answer ← at_index (get_elem? answers j)
        key_i ← at_index (get_elem? enc_keys j)
        share ← open_share key_i answer
        rest ← open_shares party_num secret_shares enc_keys answers (suc j) is
        ret (share ∷ rest))
