-- ===== src/Ecdsa/Signer/Arrives.antt =====
-- What it is that all messages of a session of src/protocols/ecdsa/signer.rs arrive.
use tss_ecdsa_cli.Base.{ℕ, Text, codes}
use tss_ecdsa_cli.Client.Web.{Network, Wire}
use tss_ecdsa_cli.Client.{Client}
use tss_ecdsa_cli.Curves.{Curve, Bignum}
use tss_ecdsa_cli.Protocols.Delivers.{Delivers, Swaps}
use tss_ecdsa_cli.Ecdsa.Library.{Library}
use tss_ecdsa_cli.Ecdsa.Signer.Crates.{SignLibrary, SignCodecs}
use tss_ecdsa_cli.Ecdsa.Signer.Honest.{
  SignDrawn, commitment_of, decommit_of, m_a_of, delta_of, com_of, opening_of,
}

module _ (net : Network) (wire : Wire) (client : Client) {curve : Curve} (bignum : Bignum)
    {lib : Library curve} (sl : SignLibrary lib) (json : SignCodecs sl) (d : SignDrawn sl)
    (uuid : Text) where
  -- What party `i` answers to party `p`, as it travels.
  abbrev pub answer_text : ℕ → ℕ → Text
  answer_text i p = json.round2.to_string ((d.gamma i p).0, (d.w i p).0)

  -- Round by round, the messages of party `p` are accepted and those of the others are there when `p`
  -- asks for them; in the worlds of stage `k`, `k` rounds are over.
  pub record SignArrives (p : ℕ) (Stage : ℕ → net.World → Type 0) : Type 0 where
    pub round0 :
        Delivers net wire client
          (Stage 0)
          (Stage 1)
          p
          d.n
          25
          (codes "round0")
          uuid
          (λ i. json.index.to_string (d.ids i))
    pub round1 :
        Delivers net wire client
          (Stage 1)
          (Stage 2)
          p
          d.n
          25
          (codes "round1")
          uuid
          (λ i. json.round1.to_string (commitment_of bignum sl d i, m_a_of bignum sl d i))
    pub round2 :
        Swaps net wire client (Stage 2) (Stage 3) p d.n 25 (codes "round2") uuid answer_text
    pub round3 :
        Delivers net wire client
          (Stage 3)
          (Stage 4)
          p
          d.n
          25
          (codes "round3")
          uuid
          (λ i. json.scalar.to_string (delta_of bignum sl d i))
    pub round4 :
        Delivers net wire client
          (Stage 4)
          (Stage 5)
          p
          d.n
          25
          (codes "round4")
          uuid
          (λ i. json.round4.to_string (decommit_of bignum sl d i))
    pub round5 :
        Delivers net wire client
          (Stage 5)
          (Stage 6)
          p
          d.n
          25
          (codes "round5")
          uuid
          (λ i. json.round5.to_string (com_of bignum sl d i))
    pub round6 :
        Delivers net wire client
          (Stage 6)
          (Stage 7)
          p
          d.n
          25
          (codes "round6")
          uuid
          (λ i. json.round6.to_string (opening_of bignum sl d i))
    pub round7 :
        Delivers net wire client
          (Stage 7)
          (Stage 8)
          p
          d.n
          25
          (codes "round7")
          uuid
          (λ i. json.round7.to_string ((d.phase5c i).0))
    pub round8 :
        Delivers net wire client
          (Stage 8)
          (Stage 9)
          p
          d.n
          25
          (codes "round8")
          uuid
          (λ i. json.round8.to_string ((d.phase5c i).1))
    pub round9 :
        Delivers net wire client
          (Stage 9)
          (Stage 10)
          p
          d.n
          25
          (codes "round9")
          uuid
          (λ i. json.scalar.to_string (d.s_i i))
