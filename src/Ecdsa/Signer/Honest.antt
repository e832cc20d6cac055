-- ===== src/Ecdsa/Signer/Honest.antt =====
-- Signers that keep to the protocol of src/protocols/ecdsa/signer.rs: what they have and draw, and
-- what the libraries make of it.
use tss_ecdsa_cli.Base.{
  ℕ, suc, ◌≤◌, ◌≡◌, refl, List, ◌∷◌, map, length, get_elem?, some, Bool, true, false, ret, ◌+◌, ◌<◌,
  ◌^◌,
}
use tss_ecdsa_cli.Manager.Store.{IsJson}
use tss_ecdsa_cli.Room.{sub_u16}
use tss_ecdsa_cli.Client.{range}
use tss_ecdsa_cli.Curves.{Curve, Bignum}
use tss_ecdsa_cli.Protocols.Gathered.{others}
use tss_ecdsa_cli.Ecdsa.Library.{Library}
use tss_ecdsa_cli.Ecdsa.Signer.Crates.{SignLibrary, SignCodecs, Opening}
use tss_ecdsa_cli.Ecdsa.Signer.{at_path, update_private}
use tss_ecdsa_cli.Ecdsa.Signer.Leader.{tweaked, update_leader_lem}
use tss_ecdsa_cli.Ecdsa.Signer.Session.{Signer}
use tss_ecdsa_cli.Ecdsa.Signer.Signature.{message_bn}

-- `n` signers, so few that `n + 1` is a `u16`, by their numbers in the session: the index of each in the group and its secrets, the
-- schemes and the private key that it signs with, and what it answers and reads in round 2; what all
-- signers share.
pub record SignDrawn {curve : Curve} {lib : Library curve} (sl : SignLibrary lib) : Type 0 where
  pub n : ℕ
  pub few : n + 1 < 2 ^ 16
  pub message : List ℕ
  pub y_sum : curve.Point
  pub f_l_new : curve.Scalar
  pub sign_at_path : Bool
  pub vss_scheme_vec : List lib.VerifiableSs
  pub paillier_key_vector : List lib.EncryptionKey
  pub ids : ℕ → ℕ
  pub keys : ℕ → lib.Keys
  pub shared_keys : ℕ → lib.SharedKeys
  pub schemes : List lib.VerifiableSs
  pub private : ℕ → sl.PartyPrivate
  pub scheme : ℕ → lib.VerifiableSs
  pub encryption_key : ℕ → lib.EncryptionKey
  pub xi_com : ℕ → curve.Point
  -- What party `p` answers to `i`, for `gamma_i` and for `w_i`, and what it reads of the answer of `i`.
  pub gamma : ℕ → ℕ → sl.MessageB × curve.Scalar
  pub w : ℕ → ℕ → sl.MessageB × curve.Scalar
  pub alpha : ℕ → ℕ → curve.Scalar
  pub miu : ℕ → ℕ → curve.Scalar
  -- The point of the others, and the point of the signature.
  pub others_point : ℕ → curve.Point
  pub point : curve.Point
  pub phase5c : ℕ → sl.Phase5Com2 × sl.Phase5DDecom2
  pub s_i : ℕ → curve.Scalar
  pub signature : sl.SignatureRecid
  pub x : ℕ
  pub y : ℕ

module _ {curve : Curve} (bignum : Bignum) {lib : Library curve} (sl : SignLibrary lib)
    (d : SignDrawn sl) where
  abbrev pub all : List ℕ
  all = range 1 d.n

  abbrev pub others_of : ℕ → List ℕ
  others_of p = others p all

  -- The signer's index from 0.
  abbrev pub index_of : ℕ → ℕ
  index_of p = sub_u16 (d.ids p) 1

  abbrev pub signer_of : ℕ → Signer lib
  signer_of p = record {
    party_keys = d.keys p;
    shared_keys = d.shared_keys p;
    party_id = d.ids p;
    vss_scheme_vec = d.vss_scheme_vec;
    paillier_key_vector = d.paillier_key_vector;
    y_sum = d.y_sum;
    message = d.message;
    f_l_new = d.f_l_new;
    sign_at_path = d.sign_at_path;
  }

  abbrev pub sign_keys : ℕ → sl.SignKeys
  sign_keys p = sl.create (d.private p) (d.scheme p) (index_of p) (map index_of all)

  abbrev pub commitment_of : ℕ → sl.SignBroadcastPhase1
  commitment_of p = (sl.phase1_broadcast (sign_keys p)).0

  abbrev pub decommit_of : ℕ → sl.SignDecommitPhase1
  decommit_of p = (sl.phase1_broadcast (sign_keys p)).1

  abbrev pub m_a_of : ℕ → sl.MessageA
  m_a_of p = sl.a (sl.k_i (sign_keys p)) (sl.ek (d.keys p))

  abbrev pub delta_of : ℕ → curve.Scalar
  delta_of p =
      sl.phase2_delta_i (sign_keys p) (map (d.alpha p) (others_of p))
        (map (λ i. (d.gamma p i).1) (others_of p))

  abbrev pub sigma_of : ℕ → curve.Scalar
  sigma_of p =
      sl.phase2_sigma_i (sign_keys p) (map (d.miu p) (others_of p))
        (map (λ i. (d.w p i).1) (others_of p))

  abbrev pub delta_inv : curve.Scalar
  delta_inv = sl.phase3_reconstruct_delta (map delta_of all)

  abbrev pub local_sig : ℕ → sl.LocalSignature
  local_sig p =
      sl.phase5_local_sig (sl.k_i (sign_keys p)) (message_bn bignum d.message) d.point (sigma_of p)
        d.y_sum

  abbrev pub com_of : ℕ → sl.Phase5Com1
  com_of p = (sl.phase5a_broadcast_5b_zkproof (local_sig p)).0

  abbrev pub opening_of : ℕ → Opening sl
  opening_of p =
      let (com', decom, elgamal, dlog) = sl.phase5a_broadcast_5b_zkproof (local_sig p) in
      (decom, elgamal, dlog)

  -- What the libraries make of what party `p` has and reads: each lookup by the index of a signer
  -- finds what belongs to it, the libraries accept what the others sent, and come to the point and to
  -- the signature that all signers share, which the public key verifies.
  pub record IsAccepted (p : ℕ) : Type 0 where
    pub own_scheme :
        (i : ℕ) → 1 ≤ i → i ≤ d.n → get_elem? d.schemes (index_of i) ≡ some (d.scheme i)
    pub own_key :
        (i : ℕ)
        → 1 ≤ i
        → i ≤ d.n
        → get_elem? d.paillier_key_vector (index_of i) ≡ some (d.encryption_key i)
    pub own_xi_com :
        (i : ℕ)
        → 1 ≤ i
        → i ≤ d.n
        → get_elem? (sl.get_commitments_to_xi d.schemes) (index_of i) ≡ some (d.xi_com i)
    pub gamma_answers :
        (i : ℕ)
        → 1 ≤ i
        → i ≤ d.n
        → sl.b (sl.gamma_i (sign_keys p)) (d.encryption_key i) (m_a_of i) ≡ some (d.gamma p i)
    pub w_answers :
        (i : ℕ)
        → 1 ≤ i
        → i ≤ d.n
        → sl.b (sl.w_i (sign_keys p)) (d.encryption_key i) (m_a_of i) ≡ some (d.w p i)
    pub alphas :
        (i : ℕ)
        → 1 ≤ i
        → i ≤ d.n
        → sl.verify_proofs_get_alpha (d.gamma i p).0 (sl.dk (d.keys p)) (sl.k_i (sign_keys p))
          ≡ some (d.alpha p i)
    pub mius :
        (i : ℕ)
        → 1 ≤ i
        → i ≤ d.n
        → sl.verify_proofs_get_alpha (d.w i p).0 (sl.dk (d.keys p)) (sl.k_i (sign_keys p))
          ≡ some (d.miu p i)
    pub w_points :
        (i : ℕ)
        → 1 ≤ i
        → i ≤ d.n
        → sl.same_point
            (sl.pk (sl.b_proof (d.w i p).0))
            (sl.update_commitments_to_xi (d.xi_com i) (d.scheme i) (index_of i) (map index_of all))
          ≡ true
    pub has_point :
        sl.phase4 delta_inv
          (map (λ i. sl.b_proof (d.gamma i p).0) (others_of p))
          (map decommit_of (others_of p))
          (map commitment_of (others_of p))
        ≡ some (d.others_point p)
    pub one_point :
        curve.add (d.others_point p) (curve.mul (sl.g_gamma_i (decommit_of p)) delta_inv) ≡ d.point
    pub commits :
        sl.phase5c
          (local_sig p)
          (map (λ i. (opening_of i).0) (others_of p))
          (map com_of (others_of p))
          (map (λ i. (opening_of i).1) (others_of p))
          (map (λ i. (opening_of i).2) (others_of p))
          (sl.v_i (opening_of p).0)
          d.point
        ≡ some (d.phase5c p)
    pub opens :
        sl.phase5d
          (local_sig p)
          (map (λ i. (d.phase5c i).1) all)
          (map (λ i. (d.phase5c i).0) all)
          (map (λ i. (opening_of i).0) all)
        ≡ some (d.s_i p)
    pub one_signature :
        sl.output_signature (local_sig p) (map d.s_i (others_of p)) ≡ some d.signature
    pub verifies : sl.verify d.signature d.y_sum (message_bn bignum d.message) ≡ true
    pub has_x : curve.x_coord d.y_sum ≡ some d.x
    pub has_y : curve.y_coord d.y_sum ≡ some d.y

  -- The schemes and the private key that party `p` signs with: for a key at a path, with the tweak in
  -- the first commitment of the leader, whose scheme has as many commitments as the second one.
  unfoldable pub AreUpdated : Bool → ℕ → Type 0
  AreUpdated false p =
      (d.schemes ≡ d.vss_scheme_vec) × (d.private p ≡ sl.set_private (d.keys p) (d.shared_keys p))
  AreUpdated true p =
      (leader second : lib.VerifiableSs) × (rest : List lib.VerifiableSs) × (c : curve.Point)
      × (cs : List curve.Point) × (d.vss_scheme_vec ≡ leader ∷ second ∷ rest)
      × (sl.commitments leader ≡ c ∷ cs)
      × (length (sl.commitments second) ≡ suc (length cs))
      × (d.schemes ≡ tweaked sl d.f_l_new leader c cs ∷ second ∷ rest)
      × (d.private p ≡ update_private sl p d.f_l_new (sl.set_private (d.keys p) (d.shared_keys p)))

  pub at_path_lem :
      (p : ℕ)
      → AreUpdated d.sign_at_path p
      → at_path sl d.sign_at_path p d.f_l_new d.vss_scheme_vec
          (sl.set_private (d.keys p) (d.shared_keys p))
        ≡ ret (d.schemes, d.private p)
  unfolding at_path AreUpdated
  at_path_lem p = go d.sign_at_path
    where
      go :
          (b : Bool)
          → AreUpdated b p
          → at_path sl b p d.f_l_new d.vss_scheme_vec (sl.set_private (d.keys p) (d.shared_keys p))
            ≡ ret (d.schemes, d.private p)
      go false (schemes, private) = rw (schemes, private) refl
      go true (leader, second, rest, c, cs, vss, e, n, schemes, private) =
          rw (vss, update_leader_lem sl d.f_l_new leader second rest c cs e n, schemes, private)
            refl

-- What `serde_json` is relied on for.
pub record AreSignCodecs {curve : Curve} {lib : Library curve} {sl : SignLibrary lib}
    (json : SignCodecs sl) : Type 0 where
  pub indices : IsJson json.index
  pub scalars : IsJson json.scalar
  pub round1 : IsJson json.round1
  pub round2 : IsJson json.round2
  pub round4 : IsJson json.round4
  pub round5 : IsJson json.round5
  pub round6 : IsJson json.round6
  pub round7 : IsJson json.round7
  pub round8 : IsJson json.round8
