-- ===== src/Ecdsa/Keygen/Short.antt =====
-- The share round of src/protocols/ecdsa/keygen.rs where a key that two parties share has not the
-- bytes that the cipher wants: the x coordinate of their point begins with a zero byte.
use tss_ecdsa_cli.Base.{
  ℕ, ◌≤◌, ◌<◌, ◌≡◌, ◌≢◌, refl, Text, List, map, Option, length, arith, codes, panic, assertion, ok,
}
use tss_ecdsa_cli.Cipher.{AesGcm, aes_encrypt}
use tss_ecdsa_cli.Cipher.Sealed.{IsAesGcm}
use tss_ecdsa_cli.Client.Web.{Network, Wire}
use tss_ecdsa_cli.Client.{range, sendp2p}
use tss_ecdsa_cli.Curves.{Curve, Bignum}
use tss_ecdsa_cli.Protocols.Gathered.{others}
use tss_ecdsa_cli.Protocols.Delivers.{Yields}
use tss_ecdsa_cli.Protocols.Short.{send_shares_short, aes_encrypt-short}
use tss_ecdsa_cli.Ecdsa.Library.{Library, Codecs}
use tss_ecdsa_cli.Ecdsa.Keygen.Session.{Party, exchange_shares}

-- If, of the x coordinates that a party shares with the others of the key generation, that of `i`
-- is the first that has not 32 bytes, the cipher keeps its documented behaviour, the nonces have 12
-- bytes, there is a share for each party and the manager accepts what the party sends, then
-- `aes_encrypt` under the key with `i` panics by an assertion, and so does the party's share round,
-- whatever the others send.
pub exchange_shares_short :
    (net : Network) (wire : Wire) (var : Option Text) (fuel : ℕ) {curve : Curve} (bignum : Bignum)
    (aes : AesGcm) (lib : Library curve) (json : Codecs lib) (p : Party lib) (nonces : ℕ → List ℕ)
    (x : ℕ → ℕ) (shares : List curve.Scalar) (i : ℕ) {Usable : net.World → Type 0} (w : net.World)
    → IsAesGcm aes
    → ((j : ℕ) → length (nonces j) ≡ 12)
    → ((j : ℕ) (text : Text) (w : net.World)
        → Usable w
        → Yields net wire p.client Usable
            (ok tt)
            (sendp2p net wire p.client p.party_num_int j (codes "round3") text p.uuid w))
    → 1 ≤ i
    → i ≤ p.parties
    → i ≢ p.party_num_int
    → p.parties ≤ length shares
    → length (bignum.to_bytes (x i)) ≢ 32
    → ((j : ℕ) → 1 ≤ j → j < i → j ≢ p.party_num_int → length (bignum.to_bytes (x j)) ≡ 32)
    → Usable w
    → ((text : List ℕ) → aes_encrypt aes (bignum.to_bytes (x i)) (nonces i) text ≡ panic assertion)
      × (exchange_shares net wire var fuel bignum aes lib json p nonces
            (map x (others p.party_num_int (range 1 p.parties)))
            shares
            w
          ≡ panic assertion)
unfolding exchange_shares
exchange_shares_short net wire var fuel {curve} bignum aes lib json p nonces x shares i {Usable} w
      cipher twelve accepts low high other enough short before usable =
    (
      λ text. aes_encrypt-short aes (bignum.to_bytes (x i)) (nonces i) text short,
      rw
          (send_shares_short curve bignum aes json.aead bignum.to_bytes net wire p.client
            p.party_num_int (codes "round3") p.uuid nonces cipher twelve Usable accepts x shares i
            p.parties 1 0 w low (omega arith) (omega arith) other short before usable)
          refl,
    )
