-- ===== src/Eddsa/Library.antt =====
-- What src/protocols/eddsa uses of the crates `multi-party-eddsa` (`thresholdsig`) and `curv`: their
-- types, and the steps of the key generation, each a function that may fail.
use tss_ecdsa_cli.Base.{ℕ, List, Option, Bool}
use tss_ecdsa_cli.Common.{Aead}
use tss_ecdsa_cli.Manager.Store.{Json}
use tss_ecdsa_cli.Curves.{Curve}
use tss_ecdsa_cli.Ecdsa.Library.{Parameters}

-- `phase1_create`, `phase1_broadcast` and `prove` draw at random: their values here are the ones that
-- they give. `private_key` is the field of `keypair.expanded_private_key`.
pub record Library (curve : Curve) : Type 1 where
  pub Keys : Type 0
  pub KeyGenBroadcastMessage1 : Type 0
  pub KeyGenDecommitMessage1 : Type 0
  pub BlindFactor : Type 0
  pub VerifiableSs : Type 0
  pub SharedKeys : Type 0
  pub DlogProof : Type 0
  pub phase1_create : ℕ → Keys
  pub private_key : Keys → curve.Scalar
  pub phase1_broadcast : Keys → KeyGenBroadcastMessage1 × KeyGenDecommitMessage1
  pub y_i : KeyGenDecommitMessage1 → curve.Point
  pub blind_factor : KeyGenDecommitMessage1 → BlindFactor
  pub phase1_verify_com_phase2_distribute :
      Keys
      → Parameters
      → List BlindFactor
      → List curve.Point
      → List KeyGenBroadcastMessage1
      → List ℕ
      → Option (VerifiableSs × List curve.Scalar)
  pub phase2_verify_vss_construct_keypair :
      Keys
      → Parameters
      → List curve.Point
      → List curve.Scalar
      → List VerifiableSs
      → ℕ
      → Option SharedKeys
  pub x_i : SharedKeys → curve.Scalar
  pub prove : curve.Scalar → DlogProof
  pub verify : DlogProof → Bool

-- The tuple in a file of keys.
abbrev pub Stored : {curve : Curve} → Library curve → Type 0
Stored {curve} lib =
    lib.Keys × curve.Scalar × lib.SharedKeys × ℕ × List lib.VerifiableSs × curve.Point

-- `serde_json` at the types of the messages.
pub record Codecs {curve : Curve} (lib : Library curve) : Type 0 where
  pub scalar : Json curve.Scalar
  pub aead : Json Aead
  pub broadcast_message : Json lib.KeyGenBroadcastMessage1
  pub decommit_message : Json lib.KeyGenDecommitMessage1
  pub vss : Json lib.VerifiableSs
  pub dlog_proof : Json lib.DlogProof
  pub stored : Json (Stored lib)
