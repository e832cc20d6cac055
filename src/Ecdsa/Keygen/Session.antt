-- ===== src/Ecdsa/Keygen/Session.antt =====
-- The session of `run_keygen` in src/protocols/ecdsa/keygen.rs: its rounds, one after the other.
use tss_ecdsa_cli.Base.{
  ℕ, ◌-◌, Text, codes, to_text, parse_u16, List, Option, get_elem?, at_index, unwrap_option,
}
use tss_ecdsa_cli.Cipher.{AesGcm}
use tss_ecdsa_cli.Client.Effects.{Io, ◌>>=◌, ◌>>◌, pure, run}
use tss_ecdsa_cli.Client.Web.{Network, Wire}
use tss_ecdsa_cli.Client.{Client, new, range, keygen_signup, poll_for_p2p}
use tss_ecdsa_cli.Curves.{Curve, Bignum}
use tss_ecdsa_cli.Files.{Files, write}
use tss_ecdsa_cli.Protocols.{decode_all, insert_at, fold_from_head, unwrap_result, accepted}
use tss_ecdsa_cli.Protocols.Rounds.{round_answers, exchange_data, generate_shared_chain_code}
use tss_ecdsa_cli.Protocols.Shares.{open_shares}
use tss_ecdsa_cli.Protocols.Sends.{send_shares}
use tss_ecdsa_cli.Ecdsa.{curve_name}
use tss_ecdsa_cli.Ecdsa.Library.{Library, Codecs, Parameters, Stored}
use tss_ecdsa_cli.Ecdsa.Keygen.{Opened, open_decommitments, encryption_keys}

-- The two numbers of `params`.
unfoldable pub parameter : List Text → ℕ → {W : Type 0} → Io W ℕ
parameter params i = do
  text ← run (at_index (get_elem? params i))
  run (unwrap_option (parse_u16 text))

-- What a party draws at random: its part of the chain code, and the nonces of round 3.
pub record Random (curve : Curve) : Type 0 where
  pub chain_code_i : curve.Scalar
  pub nonces : ℕ → List ℕ

-- What a session fixes: the client, the party's number, its keys and the UUID of the session.
pub record Party {curve : Curve} (lib : Library curve) : Type 0 where
  pub client : Client
  pub party_num_int : ℕ
  pub parties : ℕ
  pub uuid : Text
  pub party_keys : lib.Keys

module _ (net : Network) (wire : Wire) (var : Option Text) (fuel : ℕ) {curve : Curve}
    (bignum : Bignum) (aes : AesGcm) (lib : Library curve) (json : Codecs lib) where
  open net use {World}

  -- Round 1: the commitments of all parties.
  unfoldable pub exchange_commitments :
      Party lib → lib.KeyGenBroadcastMessage1 → Io World (List lib.KeyGenBroadcastMessage1)
  unfolding round_answers decode_all insert_at
  exchange_commitments p bc_i = do
    round1_ans_vec ←
        round_answers net wire var fuel p.client p.party_num_int p.parties p.uuid (codes "round1")
          25 (json.broadcast_message.to_string bc_i)
    bc1_vec ← run (decode_all json.broadcast_message round1_ans_vec)
    run (insert_at (p.party_num_int - 1) bc_i bc1_vec)

  -- Round 2: what the parties had committed to.
  unfoldable pub exchange_decommitments :
      Party lib → lib.KeyGenDecommitMessage1 → Io World (Opened lib json)
  unfolding round_answers open_decommitments
  exchange_decommitments p decom_i = do
    round2_ans_vec ←
        round_answers net wire var fuel p.client p.party_num_int p.parties p.uuid (codes "round2")
          25 (json.decommit_message.to_string decom_i)
    run (
        open_decommitments lib json p.party_num_int p.party_keys decom_i round2_ans_vec 0
          (range 1 p.parties))

  -- Round 3: the shares, each under the key of its two parties.
  unfoldable pub exchange_shares :
      Party lib → (ℕ → List ℕ) → List ℕ → List curve.Scalar → Io World (List curve.Scalar)
  unfolding send_shares open_shares poll_for_p2p
  exchange_shares p nonces enc_keys secret_shares = do
    send_shares curve bignum aes json.aead bignum.to_bytes net wire nonces p.client p.party_num_int
        (codes "round3") p.uuid enc_keys secret_shares 0 0 (range 1 p.parties)
    round3_ans_vec ←
        poll_for_p2p net wire p.client var fuel p.party_num_int p.parties 25 (codes "round3") p.uuid
    run (
        open_shares curve bignum aes json.aead bignum.to_bytes p.party_num_int secret_shares
          enc_keys round3_ans_vec 0 (range 1 p.parties))

  -- `run_keygen` from the signup on, up to the tuple that is written.
  unfoldable pub generate_keys : Party lib → Parameters → Random curve → Io World (Stored lib)
  unfolding exchange_commitments exchange_decommitments exchange_shares exchange_data
      generate_shared_chain_code fold_from_head encryption_keys
  generate_keys p params random = do
    chain_code ←
        generate_shared_chain_code net wire var fuel curve json.scalar json.dlog_proof lib.verify
          random.chain_code_i (lib.prove random.chain_code_i) p.client p.party_num_int p.parties
          p.uuid 25 params.share_count
    let first = lib.phase1_broadcast_phase3_proof_of_correct_key p.party_keys
    bc1_vec ← exchange_commitments p first.0
    opened ← exchange_decommitments p first.1
    y_sum ← run (fold_from_head curve.add opened.0)
    distributed ← run (
        unwrap_option (
          lib.phase1_verify_com_phase3_verify_correct_key_phase2_distribute p.party_keys params
            opened.1 bc1_vec))
    party_shares ← exchange_shares p random.nonces opened.2 distributed.1
    vss_scheme_vec ←
        exchange_data net wire var fuel json.vss p.client p.party_num_int p.parties p.uuid
          (codes "round4") 25 distributed.0
    constructed ← run (
        unwrap_option (
          lib.phase2_verify_vss_construct_keypair_phase3_pok_dlog p.party_keys params opened.0
            party_shares vss_scheme_vec p.party_num_int))
    dlog_proof_vec ←
        exchange_data net wire var fuel json.dlog_proof p.client p.party_num_int p.parties p.uuid
          (codes "round5") 25 constructed.1
    run (accepted (lib.verify_dlog_proofs params dlog_proof_vec opened.0))
    paillier_key_vec ← run (encryption_keys lib json bc1_vec (range 0 p.parties))
    pure (
      p.party_keys, chain_code, constructed.0, p.party_num_int, vss_scheme_vec, paillier_key_vec,
      y_sum,
    )

  unfoldable pub run_keygen :
      Files World → Text → Text → List Text → Random curve → Io World (Unit {0})
  unfolding parameter generate_keys keygen_signup
  run_keygen files addr keysfile_path params random = do
    threshold ← parameter params 0
    parties ← parameter params 1
    let client = new addr
    signup ←
        keygen_signup net wire client
          (record { parties = to_text parties; threshold = to_text threshold }) curve_name
    party_signup ← run (unwrap_result signup)
    keygen ←
        generate_keys
          (record {
            client = client;
            party_num_int = party_signup.number;
            parties = parties;
            uuid = party_signup.uuid;
            party_keys = lib.create party_signup.number;
          })
          (record { threshold = threshold; share_count = parties }) random
    write files keysfile_path (json.stored.to_string keygen)
