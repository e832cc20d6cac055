-- ===== src/Ecdsa/Signer/Crates.antt =====
-- What src/protocols/ecdsa/signer.rs uses of the crates `multi-party-ecdsa` (`gg_2018::party_i` and
-- `utilities::mta`), `curv` and `paillier` beyond what the key generation does.
use tss_ecdsa_cli.Base.{ℕ, List, Option, Bool}
use tss_ecdsa_cli.Manager.Store.{Json}
use tss_ecdsa_cli.Curves.{Curve}
use tss_ecdsa_cli.Ecdsa.Library.{Library}

-- `create`, `a`, `b`, `phase1_broadcast`, `phase5a_broadcast_5b_zkproof` and `phase5c` draw at random:
-- their values here are the ones that they give. Of tuples, the parts that the program drops are left
-- out; `same_point` is the equality of points.
pub record SignLibrary {curve : Curve} (lib : Library curve) : Type 1 where
  pub ShamirSecretSharing : Type 0
  pub DecryptionKey : Type 0
  pub PartyPrivate : Type 0
  pub SignKeys : Type 0
  pub MessageA : Type 0
  pub MessageB : Type 0
  pub SignBroadcastPhase1 : Type 0
  pub SignDecommitPhase1 : Type 0
  pub LocalSignature : Type 0
  pub Phase5Com1 : Type 0
  pub Phase5ADecom1 : Type 0
  pub HomoElGamalProof : Type 0
  pub Phase5Com2 : Type 0
  pub Phase5DDecom2 : Type 0
  pub SignatureRecid : Type 0
  pub parameters : lib.VerifiableSs → ShamirSecretSharing
  pub commitments : lib.VerifiableSs → List curve.Point
  pub verifiable_ss : ShamirSecretSharing → List curve.Point → lib.VerifiableSs
  pub dk : lib.Keys → DecryptionKey
  pub ek : lib.Keys → lib.EncryptionKey
  pub same_point : curve.Point → curve.Point → Bool
  pub set_private : lib.Keys → lib.SharedKeys → PartyPrivate
  pub update_private_key : PartyPrivate → curve.Scalar → curve.Scalar → PartyPrivate
  pub create : PartyPrivate → lib.VerifiableSs → ℕ → List ℕ → SignKeys
  pub k_i : SignKeys → curve.Scalar
  pub gamma_i : SignKeys → curve.Scalar
  pub w_i : SignKeys → curve.Scalar
  pub phase1_broadcast : SignKeys → SignBroadcastPhase1 × SignDecommitPhase1
  pub a : curve.Scalar → lib.EncryptionKey → MessageA
  pub b : curve.Scalar → lib.EncryptionKey → MessageA → Option (MessageB × curve.Scalar)
  pub b_proof : MessageB → lib.DlogProof
  pub pk : lib.DlogProof → curve.Point
  pub verify_proofs_get_alpha : MessageB → DecryptionKey → curve.Scalar → Option curve.Scalar
  pub get_commitments_to_xi : List lib.VerifiableSs → List curve.Point
  pub update_commitments_to_xi : curve.Point → lib.VerifiableSs → ℕ → List ℕ → curve.Point
  pub phase2_delta_i : SignKeys → List curve.Scalar → List curve.Scalar → curve.Scalar
  pub phase2_sigma_i : SignKeys → List curve.Scalar → List curve.Scalar → curve.Scalar
  pub phase3_reconstruct_delta : List curve.Scalar → curve.Scalar
  pub phase4 :
      curve.Scalar
      → List lib.DlogProof
      → List SignDecommitPhase1
      → List SignBroadcastPhase1
      → Option curve.Point
  pub g_gamma_i : SignDecommitPhase1 → curve.Point
  pub phase5_local_sig :
      curve.Scalar → ℕ → curve.Point → curve.Scalar → curve.Point → LocalSignature
  pub phase5a_broadcast_5b_zkproof :
      LocalSignature → Phase5Com1 × Phase5ADecom1 × HomoElGamalProof × lib.DlogProof
  pub v_i : Phase5ADecom1 → curve.Point
  pub phase5c :
      LocalSignature
      → List Phase5ADecom1
      → List Phase5Com1
      → List HomoElGamalProof
      → List lib.DlogProof
      → curve.Point
      → curve.Point
      → Option (Phase5Com2 × Phase5DDecom2)
  pub phase5d :
      LocalSignature
      → List Phase5DDecom2
      → List Phase5Com2
      → List Phase5ADecom1
      → Option curve.Scalar
  pub output_signature : LocalSignature → List curve.Scalar → Option SignatureRecid
  pub verify : SignatureRecid → curve.Point → ℕ → Bool
  pub r : SignatureRecid → curve.Scalar
  pub s : SignatureRecid → curve.Scalar
  pub recid : SignatureRecid → ℕ

module _ {curve : Curve} {lib : Library curve} (sl : SignLibrary lib) where
  -- What the parties send in round 6.
  abbrev pub Opening : Type 0
  Opening = sl.Phase5ADecom1 × sl.HomoElGamalProof × lib.DlogProof

  -- `serde_json` at the types of the messages.
  pub record SignCodecs : Type 0 where
    pub index : Json ℕ
    pub scalar : Json curve.Scalar
    pub round1 : Json (sl.SignBroadcastPhase1 × sl.MessageA)
    pub round2 : Json (sl.MessageB × sl.MessageB)
    pub round4 : Json sl.SignDecommitPhase1
    pub round5 : Json sl.Phase5Com1
    pub round6 : Json Opening
    pub round7 : Json sl.Phase5Com2
    pub round8 : Json sl.Phase5DDecom2
