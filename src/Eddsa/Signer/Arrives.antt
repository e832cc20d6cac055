-- ===== src/Eddsa/Signer/Arrives.antt =====
-- What it is that all messages of a session of src/protocols/eddsa/signer.rs arrive.
use tss_ecdsa_cli.Base.{ℕ, ◌+◌, Text, codes}
use tss_ecdsa_cli.Cipher.{AesGcm}
use tss_ecdsa_cli.Cipher.Sealed.{IsAesGcm}
use tss_ecdsa_cli.Room.{sub_u16}
use tss_ecdsa_cli.Client.Web.{Network, Wire}
use tss_ecdsa_cli.Client.{Client}
use tss_ecdsa_cli.Curves.{Curve, Bignum}
use tss_ecdsa_cli.Protocols.Delivers.{Delivers, Swaps}
use tss_ecdsa_cli.Protocols.Encrypted.{sealed}
use tss_ecdsa_cli.Eddsa.Library.{Library, Codecs}
use tss_ecdsa_cli.Eddsa.Derived.{Ed25519}
use tss_ecdsa_cli.Eddsa.Signer.Crates.{SignLibrary, SignCodecs}
use tss_ecdsa_cli.Eddsa.Signer.Honest.{SignDrawn, announcement_of, key_of, local_sig}

module _ (net : Network) (wire : Wire) (client : Client) {curve : Curve} (bignum : Bignum)
    (ed : Ed25519 curve) {aes : AesGcm} (cipher : IsAesGcm aes) {lib : Library curve}
    (sl : SignLibrary lib) (codecs : Codecs lib) (json : SignCodecs sl) (d : SignDrawn sl)
    (uuid : Text) where
  -- The share of party `i` for party `p`, as it travels.
  abbrev pub pack : ℕ → ℕ → Text
  pack i p =
      codecs.aead.to_string
        (sealed curve bignum cipher (key_of bignum ed sl d i p) (d.nonces i p) (d.share i p))

  -- Round by round, the messages of party `p` are accepted and those of the others are there when `p`
  -- asks for them; in the worlds of stage `k`, `k` rounds are over.
  pub record SignArrives (p : ℕ) (Stage : ℕ → net.World → Type 0) : Type 0 where
    pub round0 :
        Delivers net wire client
          (Stage 0)
          (Stage 1)
          p
          (d.threshold + 1)
          25
          (codes "round0")
          uuid
          (λ i. json.index.to_string (sub_u16 (d.ids i) 1))
    pub round1 :
        Delivers net wire client
          (Stage 1)
          (Stage 2)
          p
          (d.threshold + 1)
          25
          (codes "eph_keygen_round1")
          uuid
          (λ i. json.announcement.to_string (announcement_of bignum ed sl d i))
    pub round2 :
        Delivers net wire client
          (Stage 2)
          (Stage 3)
          p
          (d.threshold + 1)
          25
          (codes "eph_keygen_round2")
          uuid
          (λ i. codecs.vss.to_string (d.vss i))
    pub round3 :
        Swaps net wire client
          (Stage 3)
          (Stage 4)
          p
          (d.threshold + 1)
          25
          (codes "eph_keygen_round3")
          uuid
          pack
    pub round4 :
        Delivers net wire client
          (Stage 4)
          (Stage 5)
          p
          (d.threshold + 1)
          25
          (codes "eph_keygen_round4")
          uuid
          (λ i. json.shared_keys.to_string (d.ephemeral_shared i))
    pub local_sigs :
        Delivers net wire client
          (Stage 5)
          (Stage 6)
          p
          (d.threshold + 1)
          25
          (codes "round1_local_sig")
          uuid
          (λ i. json.local_sig.to_string (local_sig bignum ed sl d i))
