-- ===== src/Eddsa/Signer/Honest.antt =====
-- Signers that keep to the protocol of src/protocols/eddsa/signer.rs: what they have and draw, and what
-- the libraries make of it.
use tss_ecdsa_cli.Base.{
  ℕ, ◌+◌, ◌^◌, ◌≤◌, ◌<◌, ◌≡◌, sym, ap, ◌∙◌, Text, List, map, length, Option, some, true, ret, arith,
}
use tss_ecdsa_cli.Manager.Store.{IsJson}
use tss_ecdsa_cli.Room.{sub_u16}
use tss_ecdsa_cli.Client.{range}
use tss_ecdsa_cli.Curves.{Curve, IsShared, Bignum, IsBignum}
use tss_ecdsa_cli.Protocols.Agreed.{total}
use tss_ecdsa_cli.Protocols.Padded.{padded, pad_left_lem, length-padded}
use tss_ecdsa_cli.Ecdsa.Library.{Parameters}
use tss_ecdsa_cli.Eddsa.Library.{Library, Codecs}
use tss_ecdsa_cli.Eddsa.Keygen.{aes_key_bytes_len}
use tss_ecdsa_cli.Eddsa.Derived.{Ed25519, Signature, signature_at}
use tss_ecdsa_cli.Eddsa.Signer.Crates.{SignLibrary, SignCodecs, Announcement}
use tss_ecdsa_cli.Eddsa.Signer.Ephemeral.{ephemeral_key}
use tss_ecdsa_cli.Eddsa.Signer.Session.{Ephemeral}
use tss_ecdsa_cli.Eddsa.Signer.Signature.{Keyholder, shared_keys_at}

-- The signers by their numbers in the session, one more than the threshold: the index of each in the
-- group and its secrets, and what it draws; `share p i` is what party `p` makes for party `i`.
pub record SignDrawn {curve : Curve} {lib : Library curve} (sl : SignLibrary lib) : Type 0 where
  pub threshold : ℕ
  pub message : List ℕ
  pub path : Text
  pub y : curve.Point
  pub f_l_new : curve.Scalar
  pub vss_scheme_vec : List lib.VerifiableSs
  pub ids : ℕ → ℕ
  pub keys : ℕ → lib.Keys
  pub shared_keys : ℕ → lib.SharedKeys
  pub nonces : ℕ → ℕ → List ℕ
  pub vss : ℕ → lib.VerifiableSs
  pub share : ℕ → ℕ → curve.Scalar
  pub ephemeral_shared : ℕ → sl.EphemeralSharedKeys
  pub vss_sum : sl.VssSum
  -- The x coordinate of the point that two parties share.
  pub shared_x : ℕ → ℕ → ℕ

module _ {curve : Curve} (bignum : Bignum) (ed : Ed25519 curve) {lib : Library curve}
    (sl : SignLibrary lib) (d : SignDrawn sl) where
  abbrev pub n : ℕ
  n = d.threshold + 1

  -- The number of a signer of the session.
  abbrev pub IsMember : ℕ → Type 0
  IsMember i = (1 ≤ i) × (i ≤ n)

  abbrev pub params : Parameters
  params = record { threshold = d.threshold; share_count = n }

  abbrev pub indices : List ℕ
  indices = map d.ids (range 1 n)

  -- The indices from 0, as they are sent.
  abbrev pub sent_indices : List ℕ
  sent_indices = map (λ i. sub_u16 (d.ids i) 1) (range 1 n)

  abbrev pub holder_of : ℕ → Keyholder lib
  holder_of p = record {
    party_keys = d.keys p;
    shared_keys = d.shared_keys p;
    party_id = d.ids p;
    vss_scheme_vec = d.vss_scheme_vec;
    y = d.y;
    f_l_new = d.f_l_new;
    path = d.path;
  }

  abbrev pub eph : ℕ → sl.EphemeralKey
  eph p = sl.create_from_deterministic_secret (d.keys p) d.message (d.ids p)

  abbrev pub commitment_of : ℕ → lib.KeyGenBroadcastMessage1
  commitment_of p = (sl.phase1_broadcast (eph p)).0

  abbrev pub blind_of : ℕ → lib.BlindFactor
  blind_of p = (sl.phase1_broadcast (eph p)).1

  abbrev pub point_of : ℕ → curve.Point
  point_of p = sl.point (eph p)

  abbrev pub announcement_of : ℕ → Announcement sl
  announcement_of p = (commitment_of p, blind_of p, point_of p)

  abbrev pub r_sum : curve.Point
  r_sum = total curve.add point_of n

  -- What all signers have after the ephemeral key generation.
  abbrev pub ephemeral : Ephemeral sl
  ephemeral = record {
    shared_keys_vec = map d.ephemeral_shared (range 1 n);
    r_sum = r_sum;
    vss_scheme_vec = map d.vss (range 1 n);
  }

  abbrev pub local_sig : ℕ → sl.LocalSig
  local_sig p =
      sl.compute d.message (d.ephemeral_shared p)
        (shared_keys_at bignum ed sl d.path (d.shared_keys p) d.y)

  -- What all signers return.
  abbrev pub signature : Signature curve
  signature =
      signature_at curve bignum ed d.path
        (sl.generate d.vss_sum (map local_sig (range 1 n)) sent_indices r_sum) d.y d.message
        d.f_l_new

  -- That the signers keep to the protocol: the key that a signer shares with another goes by the index
  -- of the other, and the libraries accept what they sent and the signature.
  pub record AreSigners : Type 0 where
    pub fits : d.threshold + 1 < 2 ^ 16
    pub some_id : (i : ℕ) → 1 ≤ d.ids i
    pub small_id : (i : ℕ) → d.ids i < 2 ^ 16
    pub same_x :
        (p i j : ℕ) → IsMember i → IsMember j → d.ids i ≡ d.ids j → d.shared_x p i ≡ d.shared_x p j
    pub own_point :
        (i : ℕ) → IsMember i → point_of i ≡ curve.mul curve.generator (sl.scalar (eph i))
    pub has_x :
        (p i : ℕ)
        → IsMember p
        → IsMember i
        → curve.x_coord (curve.mul (point_of i) (sl.scalar (eph p))) ≡ some (d.shared_x p i)
    -- The bytes of a coordinate fit into a key, and the nonces have their length.
    pub key_length : (p i : ℕ) → length (bignum.to_bytes (d.shared_x p i)) ≤ aes_key_bytes_len
    pub nonce_length : (p i : ℕ) → length (d.nonces p i) ≡ 12
    pub distributes :
        (p : ℕ)
        → IsMember p
        → sl.phase1_verify_com_phase2_distribute
            (eph p)
            params
            (map blind_of (range 1 n))
            (map point_of (range 1 n))
            (map commitment_of (range 1 n))
            indices
          ≡ some (d.vss p, map (d.share p) (range 1 n))
    pub constructs :
        (p : ℕ)
        → IsMember p
        → sl.phase2_verify_vss_construct_keypair
            (eph p)
            params
            (map point_of (range 1 n))
            (map (λ i. d.share i p) (range 1 n))
            (map d.vss (range 1 n))
            (d.ids p)
          ≡ some (d.ephemeral_shared p)
    pub local_sigs_verify :
        sl.verify_local_sigs
          (map local_sig (range 1 n))
          sent_indices
          d.vss_scheme_vec
          (map d.vss (range 1 n))
        ≡ some d.vss_sum
    pub verifies : sl.verify signature d.message d.y ≡ true

  -- The bytes of the key that two signers share.
  abbrev pub key_of : ℕ → ℕ → List ℕ
  key_of p i = padded aes_key_bytes_len (bignum.to_bytes (d.shared_x p i))

  module _ (h : AreSigners) (p i : ℕ) where
    pub length-key_of : length (key_of p i) ≡ 32
    length-key_of =
        length-padded aes_key_bytes_len (bignum.to_bytes (d.shared_x p i)) (h.key_length p i)

    pub ephemeral_key_lem :
        (json : SignCodecs sl)
        → IsMember p
        → IsMember i
        → ephemeral_key bignum sl json (eph p) (point_of i) ≡ ret (key_of p i)
    unfolding ephemeral_key
    ephemeral_key_lem json m m' = rw (
      h.has_x p i m m',
      pad_left_lem aes_key_bytes_len (bignum.to_bytes (d.shared_x p i)) (h.key_length p i),
    )

    pub key_of_same :
        (j : ℕ) → IsMember i → IsMember j → d.ids i ≡ d.ids j → key_of p i ≡ key_of p j
    key_of_same j m m' e =
        ap (λ x. padded aes_key_bytes_len (bignum.to_bytes x)) (h.same_x p i j m m' e)

    -- The two parties of a share have one key for it.
    pub key_of_comm : IsShared curve → IsMember p → IsMember i → key_of i p ≡ key_of p i
    key_of_comm laws m m' =
        ap (λ x. padded aes_key_bytes_len (bignum.to_bytes x))
          (some_eq (sym (h.has_x i p m' m) ∙ ap curve.x_coord same ∙ h.has_x p i m m'))
      where
        same :
            curve.mul (point_of p) (sl.scalar (eph i)) ≡ curve.mul (point_of i) (sl.scalar (eph p))
        same =
            ap (λ q. curve.mul q (sl.scalar (eph i))) (h.own_point p m)
            ∙ laws.mul_comm curve.generator (sl.scalar (eph p)) (sl.scalar (eph i))
            ∙ ap (λ q. curve.mul q (sl.scalar (eph p))) (sym (h.own_point i m'))

        some_eq : {a b : ℕ} → ◌≡◌ {A = Option ℕ} (some a) (some b) → a ≡ b
        some_eq e = ground arith

-- What `serde_json` and the libraries are relied on for.
pub record AreSignCodecs {curve : Curve} (bignum : Bignum) {lib : Library curve}
    {sl : SignLibrary lib} (codecs : Codecs lib) (json : SignCodecs sl) : Type 0 where
  pub shared : IsShared curve
  pub numbers : IsBignum bignum
  pub indices : IsJson json.index
  pub announcements : IsJson json.announcement
  pub vsses : IsJson codecs.vss
  pub packs : IsJson codecs.aead
  pub shared_keys : IsJson json.shared_keys
  pub local_sigs : IsJson json.local_sig
