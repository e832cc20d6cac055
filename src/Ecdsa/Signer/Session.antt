-- ===== src/Ecdsa/Signer/Session.antt =====
-- The session of `sign` in src/protocols/ecdsa/signer.rs: its rounds, one after the other.
use tss_ecdsa_cli.Base.{
  ℕ, ◌+◌, ◌==◌, Bool, if◌then◌else◌, Text, codes, List, [], ◌∷◌, map, length, get_elem?, Option,
  at_index, unwrap_option, assert,
}
use tss_ecdsa_cli.Manager.Store.{Json}
use tss_ecdsa_cli.Client.Effects.{Io, ◌>>=◌, ◌>>◌, pure, run}
use tss_ecdsa_cli.Client.Web.{Network, Wire}
use tss_ecdsa_cli.Client.{Client, range, sendp2p, poll_for_p2p}
use tss_ecdsa_cli.Curves.{Curve}
use tss_ecdsa_cli.Protocols.{format_vec_from_reads, is_ok}
use tss_ecdsa_cli.Protocols.Rounds.{round_answers}
use tss_ecdsa_cli.Protocols.Others.{remove_at, parts}
use tss_ecdsa_cli.Ecdsa.Library.{Library}
use tss_ecdsa_cli.Ecdsa.Signer.Crates.{SignLibrary, SignCodecs}
use tss_ecdsa_cli.Ecdsa.Signer.{
  signers_of, open_round1, open_round2, Answer, answer_messages, check_answers, previous, through,
}

-- The session that `signup` leads to.
pub record Signing : Type 0 where
  pub client : Client
  pub party_num_int : ℕ
  pub total_parties : ℕ
  pub uuid : Text

-- What a file of keys and the command line give the signer.
pub record Signer {curve : Curve} (lib : Library curve) : Type 0 where
  pub party_keys : lib.Keys
  pub shared_keys : lib.SharedKeys
  pub party_id : ℕ
  pub vss_scheme_vec : List lib.VerifiableSs
  pub paillier_key_vector : List lib.EncryptionKey
  pub y_sum : curve.Point
  pub message : List ℕ
  pub f_l_new : curve.Scalar
  pub sign_at_path : Bool

module _ {curve : Curve} {lib : Library curve} (sl : SignLibrary lib) where
  -- What a signer has after round 2.
  pub record Shared : Type 0 where
    pub decommit : sl.SignDecommitPhase1
    pub bc1_vec : List sl.SignBroadcastPhase1
    pub m_b_gamma_rec_vec : List sl.MessageB
    pub delta_i : curve.Scalar
    pub sigma : curve.Scalar

module _ (net : Network) (wire : Wire) (var : Option Text) (fuel : ℕ) {curve : Curve}
    {lib : Library curve} (sl : SignLibrary lib) (json : SignCodecs sl) where
  open net use {World}
  open curve use {Scalar, Point, add, mul}

  -- A round whose answers `format_vec_from_reads` gathers.
  unfoldable pub exchange_reads : {T : Type 0} → Json T → Signing → Text → T → Io World (List T)
  unfolding round_answers format_vec_from_reads
  exchange_reads json p round value = do
    ans_vec ←
        round_answers net wire var fuel p.client p.party_num_int p.total_parties p.uuid round 25
          (json.to_string value)
    run (format_vec_from_reads json ans_vec p.party_num_int value [])

  -- Round 0: the indices of the signers.
  unfoldable pub exchange_ids : Signing → ℕ → Io World (List ℕ)
  unfolding round_answers signers_of
  exchange_ids p party_id = do
    round0_ans_vec ←
        round_answers net wire var fuel p.client p.party_num_int p.total_parties p.uuid
          (codes "round0") 25 (json.index.to_string party_id)
    run (signers_of json.index p.party_num_int party_id round0_ans_vec p.total_parties)

  -- The loop that sends the answers of round 2.
  unfoldable pub send_answers : Signing → List (Answer sl) → ℕ → List ℕ → Io World (Unit {0})
  unfolding sendp2p
  send_answers p answers j [] = pure tt
  send_answers p answers j (i ∷ is) =
      let same = send_answers p answers j is in
      let next = send_answers p answers (j + 1) is in
      if i == p.party_num_int then same else (do
        answer ← run (at_index (get_elem? answers j))
        sent ←
            sendp2p net wire p.client p.party_num_int i (codes "round2")
              (json.round2.to_string (answer.0.0, answer.1.0)) p.uuid
        run (assert (is_ok sent))
        next)

  -- Rounds 1 and 2: the commitments, and the conversion of products to sums.
  unfoldable pub exchange_products :
      Signing → Signer lib → List lib.VerifiableSs → List ℕ → sl.SignKeys → Io World (Shared sl)
  unfolding round_answers open_round1 answer_messages send_answers poll_for_p2p open_round2
      check_answers previous through
  exchange_products p signer vss_scheme_vec signers_vec sign_keys = do
    let broadcast1 = sl.phase1_broadcast sign_keys
    let m_a_k = sl.a (sl.k_i sign_keys) (sl.ek signer.party_keys)
    round1_ans_vec ←
        round_answers net wire var fuel p.client p.party_num_int p.total_parties p.uuid
          (codes "round1") 25 (json.round1.to_string (broadcast1.0, m_a_k))
    opened ← run (
        open_round1 sl json p.party_num_int broadcast1.0 round1_ans_vec 0 (through p.total_parties))
    run (assert (length signers_vec == length opened.0))
    answers ← run (
        answer_messages sl p.party_num_int sign_keys signer.paillier_key_vector signers_vec opened.1
          (through p.total_parties))
    send_answers p answers 0 (through p.total_parties)
    round2_ans_vec ←
        poll_for_p2p net wire p.client var fuel p.party_num_int p.total_parties 25 (codes "round2")
          p.uuid
    received ← run (open_round2 sl json round2_ans_vec (range 0 (previous p.total_parties)))
    alphas ← run (
        check_answers sl p.party_num_int (sl.dk signer.party_keys) sign_keys vss_scheme_vec
          signers_vec received (through p.total_parties))
    pure (record {
      decommit = broadcast1.1;
      bc1_vec = opened.0;
      m_b_gamma_rec_vec = map (λ m. m.0) received;
      delta_i = sl.phase2_delta_i sign_keys (map (λ a. a.0) alphas) (map (λ a. a.0.1) answers);
      sigma = sl.phase2_sigma_i sign_keys (map (λ a. a.1) alphas) (map (λ a. a.1.1) answers);
    })

  -- Rounds 3 and 4: the inverse of the sum of the products, and the point `R`.
  unfoldable pub exchange_point : Signing → Shared sl → Io World Point
  unfolding exchange_reads remove_at previous
  exchange_point p shared = do
    delta_vec ← exchange_reads json.scalar p (codes "round3") shared.delta_i
    let delta_inv = sl.phase3_reconstruct_delta delta_vec
    decommit_vec ← exchange_reads json.round4 p (codes "round4") shared.decommit
    decomm ← run (remove_at (previous p.party_num_int) decommit_vec)
    bc1 ← run (remove_at (previous p.party_num_int) shared.bc1_vec)
    r ← run (
        unwrap_option
          (sl.phase4 delta_inv (map sl.b_proof shared.m_b_gamma_rec_vec) decomm.1 bc1.1))
    pure (add r (mul (sl.g_gamma_i decomm.0) delta_inv))

  -- Rounds 5 to 8, phase 5 of the protocol: the party's part of the signature.
  unfoldable pub exchange_phase5 : Signing → sl.LocalSignature → Point → Io World Scalar
  unfolding exchange_reads remove_at parts previous
  exchange_phase5 p local_sig r = do
    let (phase5_com, phase_5a_decom, helgamal_proof, dlog_proof_rho) =
        sl.phase5a_broadcast_5b_zkproof local_sig
    commit5a_vec ← exchange_reads json.round5 p (codes "round5") phase5_com
    openings ←
        exchange_reads json.round6 p (codes "round6")
          (phase_5a_decom, helgamal_proof, dlog_proof_rho)
    others ← run (remove_at (previous p.party_num_int) openings)
    commits ← run (remove_at (previous p.party_num_int) commit5a_vec)
    decomm_vec ← run (parts (λ o. o.0) others.1 (range 0 (previous p.total_parties)))
    elgamal_vec ← run (parts (λ o. o.1) others.1 (range 0 (previous p.total_parties)))
    dlog_vec ← run (parts (λ o. o.2) others.1 (range 0 (previous p.total_parties)))
    phase5c ← run (
        unwrap_option (
          sl.phase5c local_sig decomm_vec commits.1 elgamal_vec dlog_vec (sl.v_i phase_5a_decom) r))
    commit5c_vec ← exchange_reads json.round7 p (codes "round7") phase5c.0
    decommit5d_vec ← exchange_reads json.round8 p (codes "round8") phase5c.1
    decomm_vec_includes_i ← run (parts (λ o. o.0) openings (range 0 p.total_parties))
    run (unwrap_option (sl.phase5d local_sig decommit5d_vec commit5c_vec decomm_vec_includes_i))
