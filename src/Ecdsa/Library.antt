-- ===== src/Ecdsa/Library.antt =====
-- What src/protocols/ecdsa uses of the crates `multi-party-ecdsa` (`gg_2018::party_i`), `curv` and
-- `paillier`: their types, and the steps of the key generation, each a function that may fail.
use tss_ecdsa_cli.Base.{ℕ, List, Option, Bool}
use tss_ecdsa_cli.Common.{Aead}
use tss_ecdsa_cli.Manager.Store.{Json}
use tss_ecdsa_cli.Curves.{Curve}

-- `Parameters`, also that of `multi-party-eddsa`.
pub record Parameters : Type 0 where
  pub threshold : ℕ
  pub share_count : ℕ

-- `create` is random: its value here is the one that it gives.
pub record Library (curve : Curve) : Type 1 where
  pub Keys : Type 0
  pub KeyGenBroadcastMessage1 : Type 0
  pub KeyGenDecommitMessage1 : Type 0
  pub VerifiableSs : Type 0
  pub SharedKeys : Type 0
  pub DlogProof : Type 0
  pub EncryptionKey : Type 0
  pub create : ℕ → Keys
  pub u_i : Keys → curve.Scalar
  pub phase1_broadcast_phase3_proof_of_correct_key :
      Keys → KeyGenBroadcastMessage1 × KeyGenDecommitMessage1
  pub e : KeyGenBroadcastMessage1 → EncryptionKey
  pub y_i : KeyGenDecommitMessage1 → curve.Point
  pub phase1_verify_com_phase3_verify_correct_key_phase2_distribute :
      Keys
      → Parameters
      → List KeyGenDecommitMessage1
      → List KeyGenBroadcastMessage1
      → Option (VerifiableSs × List curve.Scalar × ℕ)
  pub phase2_verify_vss_construct_keypair_phase3_pok_dlog :
      Keys
      → Parameters
      → List curve.Point
      → List curve.Scalar
      → List VerifiableSs
      → ℕ
      → Option (SharedKeys × DlogProof)
  pub verify_dlog_proofs : Parameters → List DlogProof → List curve.Point → Bool
  pub prove : curve.Scalar → DlogProof
  pub verify : DlogProof → Bool

-- The tuple in a file of keys.
abbrev pub Stored : {curve : Curve} → Library curve → Type 0
Stored {curve} lib =
    lib.Keys
    × curve.Scalar
    × lib.SharedKeys
    × ℕ
    × List lib.VerifiableSs
    × List lib.EncryptionKey
    × curve.Point

-- `serde_json` at the types of the messages.
pub record Codecs {curve : Curve} (lib : Library curve) : Type 0 where
  pub scalar : Json curve.Scalar
  pub aead : Json Aead
  pub broadcast_message : Json lib.KeyGenBroadcastMessage1
  pub decommit_message : Json lib.KeyGenDecommitMessage1
  pub vss : Json lib.VerifiableSs
  pub dlog_proof : Json lib.DlogProof
  pub stored : Json (Stored lib)
