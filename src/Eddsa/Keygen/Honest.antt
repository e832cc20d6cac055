-- ===== src/Eddsa/Keygen/Honest.antt =====
-- Parties that keep to the protocol of src/protocols/eddsa/keygen.rs: what they draw, and what the
-- libraries make of it.
use tss_ecdsa_cli.Base.{
  ℕ, ◌≤◌, ret, ◌≡◌, sym, ap, ◌∙◌, List, map, length, Option, some, true, arith,
}
use tss_ecdsa_cli.Manager.Store.{IsJson}
use tss_ecdsa_cli.Client.{range}
use tss_ecdsa_cli.Curves.{Curve, IsShared, Bignum, IsBignum}
use tss_ecdsa_cli.Protocols.Padded.{padded, pad_left_lem, length-padded}
use tss_ecdsa_cli.Ecdsa.Library.{Parameters}
use tss_ecdsa_cli.Eddsa.Library.{Library, Codecs}
use tss_ecdsa_cli.Eddsa.Keygen.{aes_key_bytes_len, shared_key}

-- What the parties draw: keys, parts of the chain code and nonces; and what the library makes of them.
pub record Drawn {curve : Curve} (lib : Library curve) : Type 0 where
  pub keys : ℕ → lib.Keys
  pub chain_code : ℕ → curve.Scalar
  pub nonces : ℕ → ℕ → List ℕ
  pub vss : ℕ → lib.VerifiableSs
  pub share : ℕ → ℕ → curve.Scalar
  pub shared_keys : ℕ → lib.SharedKeys
  -- The x coordinate of the point that two parties share.
  pub shared_x : ℕ → ℕ → ℕ

module _ {curve : Curve} (lib : Library curve) (d : Drawn lib) where
  abbrev pub message_of : ℕ → lib.KeyGenBroadcastMessage1
  message_of i = (lib.phase1_broadcast (d.keys i)).0

  abbrev pub decom_of : ℕ → lib.KeyGenDecommitMessage1
  decom_of i = (lib.phase1_broadcast (d.keys i)).1

  abbrev pub point_of : ℕ → curve.Point
  point_of i = lib.y_i (decom_of i)

  abbrev pub proof_of : ℕ → lib.DlogProof
  proof_of i = lib.prove (lib.x_i (d.shared_keys i))

  -- That the parties keep to the protocol, in the words of the library: it accepts what all of them
  -- sent, and `share p i` is what it gives party `p` for party `i`.
  pub record IsHonest (bignum : Bignum) (params : Parameters) : Type 0 where
    pub proves : (a : curve.Scalar) → lib.verify (lib.prove a) ≡ true
    pub own_point : (i : ℕ) → point_of i ≡ curve.mul curve.generator (lib.private_key (d.keys i))
    pub distributes :
        (p : ℕ)
        → lib.phase1_verify_com_phase2_distribute
            (d.keys p)
            params
            (map (λ i. lib.blind_factor (decom_of i)) (range 1 params.share_count))
            (map point_of (range 1 params.share_count))
            (map message_of (range 1 params.share_count))
            (range 1 params.share_count)
          ≡ some (d.vss p, map (d.share p) (range 1 params.share_count))
    pub constructs :
        (p : ℕ)
        → lib.phase2_verify_vss_construct_keypair
            (d.keys p)
            params
            (map point_of (range 1 params.share_count))
            (map (λ i. d.share i p) (range 1 params.share_count))
            (map d.vss (range 1 params.share_count))
            p
          ≡ some (d.shared_keys p)
    pub has_x :
        (p i : ℕ)
        → curve.x_coord (curve.mul (point_of i) (lib.private_key (d.keys p)))
          ≡ some (d.shared_x p i)
    -- The bytes of a coordinate fit into a key, and the nonces have their length.
    pub key_length : (p i : ℕ) → length (bignum.to_bytes (d.shared_x p i)) ≤ aes_key_bytes_len
    pub nonce_length : (p i : ℕ) → length (d.nonces p i) ≡ 12

  -- The two parties of a share have one key for it.
  pub shared_x_comm :
      IsShared curve
      → (bignum : Bignum) (params : Parameters) → IsHonest bignum params
      → (p i : ℕ) → d.shared_x p i ≡ d.shared_x i p
  shared_x_comm laws bignum params h p i =
      some_eq (sym (h.has_x p i) ∙ ap curve.x_coord same ∙ h.has_x i p)
    where
      same :
          curve.mul (point_of i) (lib.private_key (d.keys p))
          ≡ curve.mul (point_of p) (lib.private_key (d.keys i))
      same =
          ap (λ q. curve.mul q (lib.private_key (d.keys p))) (h.own_point i)
          ∙ laws.mul_comm curve.generator (lib.private_key (d.keys i)) (lib.private_key (d.keys p))
          ∙ ap (λ q. curve.mul q (lib.private_key (d.keys i))) (sym (h.own_point p))

      some_eq : {a b : ℕ} → ◌≡◌ {A = Option ℕ} (some a) (some b) → a ≡ b
      some_eq e = ground arith

  -- The bytes of the key that two parties share.
  abbrev pub key_of : Bignum → ℕ → ℕ → List ℕ
  key_of bignum p i = padded aes_key_bytes_len (bignum.to_bytes (d.shared_x p i))

  module _ (bignum : Bignum) (params : Parameters) (h : IsHonest bignum params) (p i : ℕ) where
    pub length-key_of : length (key_of bignum p i) ≡ 32
    length-key_of =
        length-padded aes_key_bytes_len (bignum.to_bytes (d.shared_x p i)) (h.key_length p i)

    pub shared_key_lem :
        (json : Codecs lib)
        → shared_key bignum lib json (d.keys p) (decom_of i) ≡ ret (key_of bignum p i)
    unfolding shared_key
    shared_key_lem json = rw (
      h.has_x p i,
      pad_left_lem aes_key_bytes_len (bignum.to_bytes (d.shared_x p i)) (h.key_length p i),
    )

-- What `serde_json` and the libraries are relied on for.
pub record AreLawful {curve : Curve} (bignum : Bignum) {lib : Library curve} (json : Codecs lib)
    : Type 0 where
  pub shared : IsShared curve
  pub numbers : IsBignum bignum
  pub scalars : IsJson json.scalar
  pub packs : IsJson json.aead
  pub messages : IsJson json.broadcast_message
  pub decommitments : IsJson json.decommit_message
  pub vsses : IsJson json.vss
  pub proofs : IsJson json.dlog_proof
