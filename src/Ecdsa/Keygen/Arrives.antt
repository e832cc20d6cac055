-- ===== src/Ecdsa/Keygen/Arrives.antt =====
-- What it is that all messages of a key generation of src/protocols/ecdsa/keygen.rs arrive.
use tss_ecdsa_cli.Base.{ℕ, Text, codes, Option}
use tss_ecdsa_cli.Cipher.{AesGcm}
use tss_ecdsa_cli.Cipher.Sealed.{IsAesGcm}
use tss_ecdsa_cli.Client.Web.{Network, Wire}
use tss_ecdsa_cli.Client.{Client}
use tss_ecdsa_cli.Curves.{Curve, Bignum}
use tss_ecdsa_cli.Protocols.Delivers.{Delivers, Swaps}
use tss_ecdsa_cli.Protocols.Encrypted.{sealed}
use tss_ecdsa_cli.Ecdsa.Library.{Library, Codecs, Parameters}
use tss_ecdsa_cli.Ecdsa.Keygen.Honest.{Drawn, message_of, decom_of}

module _ (net : Network) (wire : Wire) (client : Client) (var : Option Text) {curve : Curve}
    (bignum : Bignum) {aes : AesGcm} (cipher : IsAesGcm aes) (lib : Library curve)
    (json : Codecs lib) (d : Drawn lib) (params : Parameters) (uuid : Text) where
  -- The share of party `i` for party `p`, as it travels.
  abbrev pub pack : ℕ → ℕ → Text
  pack i p =
      json.aead.to_string
        (sealed curve bignum cipher (bignum.to_bytes (d.shared_x i p)) (d.nonces i p) (d.share i p))

  -- Round by round, the messages of party `p` are accepted and those of the others are there when `p`
  -- asks for them; in the worlds of stage `k`, `k` rounds are over.
  pub record Arrives (p : ℕ) (Stage : ℕ → net.World → Type 0) : Type 0 where
    pub chain_proofs :
        Delivers net wire client
          (Stage 0)
          (Stage 1)
          p
          params.share_count
          25
          (codes "round0_chain_code")
          uuid
          (λ i. json.dlog_proof.to_string (lib.prove (d.chain_code i)))
    pub chain_codes :
        Delivers net wire client
          (Stage 1)
          (Stage 2)
          p
          params.share_count
          25
          (codes "round1_chain_code")
          uuid
          (λ i. json.scalar.to_string (d.chain_code i))
    pub round1 :
        Delivers net wire client
          (Stage 2)
          (Stage 3)
          p
          params.share_count
          25
          (codes "round1")
          uuid
          (λ i. json.broadcast_message.to_string (message_of lib d i))
    pub round2 :
        Delivers net wire client
          (Stage 3)
          (Stage 4)
          p
          params.share_count
          25
          (codes "round2")
          uuid
          (λ i. json.decommit_message.to_string (decom_of lib d i))
    pub round3 :
        Swaps net wire client (Stage 4) (Stage 5) p params.share_count 25 (codes "round3") uuid pack
    pub round4 :
        Delivers net wire client
          (Stage 5)
          (Stage 6)
          p
          params.share_count
          25
          (codes "round4")
          uuid
          (λ i. json.vss.to_string (d.vss i))
    pub round5 :
        Delivers net wire client
          (Stage 6)
          (Stage 7)
          p
          params.share_count
          25
          (codes "round5")
          uuid
          (λ i. json.dlog_proof.to_string (d.proof i))
