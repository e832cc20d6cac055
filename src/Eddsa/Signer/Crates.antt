-- ===== src/Eddsa/Signer/Crates.antt =====
-- What src/protocols/eddsa/signer.rs uses of the crates `multi-party-eddsa` (`thresholdsig`) and `curv`
-- beyond what the key generation does.
use tss_ecdsa_cli.Base.{ℕ, List, Option, Bool}
use tss_ecdsa_cli.Manager.Store.{Json}
use tss_ecdsa_cli.Curves.{Curve}
use tss_ecdsa_cli.Ecdsa.Library.{Parameters}
use tss_ecdsa_cli.Eddsa.Library.{Library}
use tss_ecdsa_cli.Eddsa.Derived.{Signature}

-- `phase1_broadcast` draws at random: its value here is the one that it gives. `point` and `scalar` are the
-- fields `R_i` and `r_i`, `with_y` sets the field `y`, and `uncompressed` is `to_bytes(false)`.
pub record SignLibrary {curve : Curve} (lib : Library curve) : Type 1 where
  pub EphemeralKey : Type 0
  pub EphemeralSharedKeys : Type 0
  pub LocalSig : Type 0
  pub VssSum : Type 0
  pub create_from_deterministic_secret : lib.Keys → List ℕ → ℕ → EphemeralKey
  pub point : EphemeralKey → curve.Point
  pub scalar : EphemeralKey → curve.Scalar
  pub phase1_broadcast : EphemeralKey → lib.KeyGenBroadcastMessage1 × lib.BlindFactor
  pub phase1_verify_com_phase2_distribute :
      EphemeralKey
      → Parameters
      → List lib.BlindFactor
      → List curve.Point
      → List lib.KeyGenBroadcastMessage1
      → List ℕ
      → Option (lib.VerifiableSs × List curve.Scalar)
  pub phase2_verify_vss_construct_keypair :
      EphemeralKey
      → Parameters
      → List curve.Point
      → List curve.Scalar
      → List lib.VerifiableSs
      → ℕ
      → Option EphemeralSharedKeys
  pub with_y : lib.SharedKeys → curve.Point → lib.SharedKeys
  pub compute : List ℕ → EphemeralSharedKeys → lib.SharedKeys → LocalSig
  pub verify_local_sigs :
      List LocalSig → List ℕ → List lib.VerifiableSs → List lib.VerifiableSs → Option VssSum
  pub generate : VssSum → List LocalSig → List ℕ → curve.Point → Signature curve
  pub verify : Signature curve → List ℕ → curve.Point → Bool
  pub uncompressed : curve.Point → List ℕ
  pub scalar_bytes : curve.Scalar → List ℕ

module _ {curve : Curve} {lib : Library curve} (sl : SignLibrary lib) where
  -- What the parties send in the first round of the ephemeral key generation.
  abbrev pub Announcement : Type 0
  Announcement = lib.KeyGenBroadcastMessage1 × lib.BlindFactor × curve.Point

  -- `serde_json` at the types of the messages.
  pub record SignCodecs : Type 0 where
    pub index : Json ℕ
    pub announcement : Json Announcement
    pub shared_keys : Json sl.EphemeralSharedKeys
    pub local_sig : Json sl.LocalSig
