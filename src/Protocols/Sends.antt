-- ===== src/Protocols/Sends.antt =====
-- The round in which the parties send one another encrypted shares: the sending loop of `run_keygen`
-- in src/protocols/ecdsa/keygen.rs and src/protocols/eddsa/keygen.rs, one text in both files but for
-- the bytes of a key.
use tss_ecdsa_cli.Base.{
  ℕ, suc, ◌==◌, if◌then◌else◌, Text, List, [], ◌∷◌, get_elem?, at_index, assert,
}
use tss_ecdsa_cli.Common.{Aead}
use tss_ecdsa_cli.Cipher.{AesGcm, aes_encrypt}
use tss_ecdsa_cli.Manager.Store.{Json}
use tss_ecdsa_cli.Client.Effects.{Io, ◌>>=◌, ◌>>◌, pure, run}
use tss_ecdsa_cli.Client.Web.{Network, Wire}
use tss_ecdsa_cli.Client.{Client, sendp2p}
use tss_ecdsa_cli.Curves.{Curve, Bignum}
use tss_ecdsa_cli.Protocols.{is_ok}

module _ (curve : Curve) (bignum : Bignum) (aes : AesGcm) (aead_json : Json Aead) {Key : Type 0}
    (key_bytes : Key → List ℕ) where
  module _ (net : Network) (wire : Wire) (nonces : ℕ → List ℕ) where
    -- `k` counts all parties, and `j` the others.
    unfoldable pub send_shares :
        Client
        → ℕ
        → Text
        → Text
        → List Key
        → List curve.Scalar
        → ℕ
        → ℕ
        → List ℕ
        → Io net.World (Unit {0})
    send_shares client party_num round uuid enc_keys secret_shares k j [] = pure tt
    send_shares client party_num round uuid enc_keys secret_shares k j (i ∷ is) =
        let same = send_shares client party_num round uuid enc_keys secret_shares (suc k) j is in
        let next =
          send_shares client party_num round uuid enc_keys secret_shares (suc k) (suc j) is in
        if i == party_num then same else (do
          key_i ← run (at_index (get_elem? enc_keys j))
          share ← run (at_index (get_elem? secret_shares k))
          aead_pack_i ← run (
              aes_encrypt aes (key_bytes key_i) (nonces i)
                (bignum.to_bytes (curve.to_bigint share)))
          sent ← sendp2p net wire client party_num i round (aead_json.to_string aead_pack_i) uuid
          run (assert (is_ok sent))
          next)
