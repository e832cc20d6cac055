-- ===== src/Ecdsa/Keygen/Honest.antt =====
-- Parties that keep to the protocol of src/protocols/ecdsa/keygen.rs: what they draw, and what the
-- libraries make of it.
use tss_ecdsa_cli.Base.{ℕ, ◌≡◌, sym, ap, ◌∙◌, List, map, length, Option, some, true, arith}
use tss_ecdsa_cli.Manager.Store.{IsJson}
use tss_ecdsa_cli.Client.{range}
use tss_ecdsa_cli.Curves.{Curve, IsShared, Bignum, IsBignum}
use tss_ecdsa_cli.Ecdsa.Library.{Library, Codecs, Parameters}

-- What the parties draw: keys, parts of the chain code and nonces; and what the library makes of them.
pub record Drawn {curve : Curve} (lib : Library curve) : Type 0 where
  pub keys : ℕ → lib.Keys
  pub chain_code : ℕ → curve.Scalar
  pub nonces : ℕ → ℕ → List ℕ
  pub vss : ℕ → lib.VerifiableSs
  pub share : ℕ → ℕ → curve.Scalar
  pub index : ℕ → ℕ
  pub shared_keys : ℕ → lib.SharedKeys
  pub proof : ℕ → lib.DlogProof
  -- The x coordinate of the point that two parties share.
  pub shared_x : ℕ → ℕ → ℕ

module _ {curve : Curve} (lib : Library curve) (d : Drawn lib) where
  abbrev pub message_of : ℕ → lib.KeyGenBroadcastMessage1
  message_of i = (lib.phase1_broadcast_phase3_proof_of_correct_key (d.keys i)).0

  abbrev pub decom_of : ℕ → lib.KeyGenDecommitMessage1
  decom_of i = (lib.phase1_broadcast_phase3_proof_of_correct_key (d.keys i)).1

  abbrev pub point_of : ℕ → curve.Point
  point_of i = lib.y_i (decom_of i)

  -- That the parties keep to the protocol, in the words of the library: it accepts what all of them
  -- sent, and `share p i` is what it gives party `p` for party `i`.
  pub record IsHonest (bignum : Bignum) (params : Parameters) : Type 0 where
    pub proves : (i : ℕ) → lib.verify (lib.prove (d.chain_code i)) ≡ true
    pub own_point : (i : ℕ) → point_of i ≡ curve.mul curve.generator (lib.u_i (d.keys i))
    pub distributes :
        (p : ℕ)
        → lib.phase1_verify_com_phase3_verify_correct_key_phase2_distribute
            (d.keys p)
            params
            (map decom_of (range 1 params.share_count))
            (map message_of (range 1 params.share_count))
          ≡ some (d.vss p, map (d.share p) (range 1 params.share_count), d.index p)
    pub constructs :
        (p : ℕ)
        → lib.phase2_verify_vss_construct_keypair_phase3_pok_dlog
            (d.keys p)
            params
            (map point_of (range 1 params.share_count))
            (map (λ i. d.share i p) (range 1 params.share_count))
            (map d.vss (range 1 params.share_count))
            p
          ≡ some (d.shared_keys p, d.proof p)
    pub proofs_verify :
        lib.verify_dlog_proofs params
          (map d.proof (range 1 params.share_count))
          (map point_of (range 1 params.share_count))
        ≡ true
    pub has_x :
        (p i : ℕ)
        → curve.x_coord (curve.mul (point_of i) (lib.u_i (d.keys p))) ≡ some (d.shared_x p i)
    -- The cipher's keys have their length, and so have its nonces.
    pub key_length : (p i : ℕ) → length (bignum.to_bytes (d.shared_x p i)) ≡ 32
    pub nonce_length : (p i : ℕ) → length (d.nonces p i) ≡ 12

  -- The two parties of a share have one key for it.
  pub shared_x_comm :
      IsShared curve
      → (bignum : Bignum) (params : Parameters) → IsHonest bignum params
      → (p i : ℕ) → d.shared_x p i ≡ d.shared_x i p
  shared_x_comm laws bignum params h p i =
      some_eq (sym (h.has_x p i) ∙ ap curve.x_coord same ∙ h.has_x i p)
    where
      same :
          curve.mul (point_of i) (lib.u_i (d.keys p)) ≡ curve.mul (point_of p) (lib.u_i (d.keys i))
      same =
          ap (λ q. curve.mul q (lib.u_i (d.keys p))) (h.own_point i)
          ∙ laws.mul_comm curve.generator (lib.u_i (d.keys i)) (lib.u_i (d.keys p))
          ∙ ap (λ q. curve.mul q (lib.u_i (d.keys i))) (sym (h.own_point p))

      some_eq : {a b : ℕ} → ◌≡◌ {A = Option ℕ} (some a) (some b) → a ≡ b
      some_eq e = ground arith

-- What `serde_json` and the libraries are relied on for.
pub record AreLawful {curve : Curve} (bignum : Bignum) {lib : Library curve} (json : Codecs lib)
    : Type 0 where
  pub shared : IsShared curve
  pub numbers : IsBignum bignum
  pub scalars : IsJson json.scalar
  pub packs : IsJson json.aead
  pub messages : IsJson json.broadcast_message
  pub decommitments : IsJson json.decommit_message
  pub vsses : IsJson json.vss
  pub proofs : IsJson json.dlog_proof
