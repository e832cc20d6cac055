-- ===== src/Eddsa/Keygen/Session.antt =====
-- The session of `run_keygen` in src/protocols/eddsa/keygen.rs: its rounds, one after the other.
use tss_ecdsa_cli.Base.{ℕ, ◌-◌, Text, codes, to_text, length, List, Option, unwrap_option}
use tss_ecdsa_cli.Cipher.{AesGcm}
use tss_ecdsa_cli.Client.Effects.{Io, ◌>>=◌, ◌>>◌, pure, run}
use tss_ecdsa_cli.Client.Web.{Network, Wire}
use tss_ecdsa_cli.Client.{Client, new, range, keygen_signup, poll_for_p2p}
use tss_ecdsa_cli.Curves.{Curve, Bignum}
use tss_ecdsa_cli.Files.{Files, write}
use tss_ecdsa_cli.Protocols.{
  decode_all, insert_at, fold_from_head, unwrap_result, verify_dlog_proofs,
}
use tss_ecdsa_cli.Protocols.Rounds.{round_answers, exchange_data, generate_shared_chain_code}
use tss_ecdsa_cli.Protocols.Shares.{open_shares}
use tss_ecdsa_cli.Protocols.Sends.{send_shares}
use tss_ecdsa_cli.Ecdsa.Library.{Parameters}
use tss_ecdsa_cli.Ecdsa.Keygen.Session.{parameter, Random}
use tss_ecdsa_cli.Eddsa.{curve_name}
use tss_ecdsa_cli.Eddsa.Library.{Library, Codecs, Stored}
use tss_ecdsa_cli.Eddsa.Keygen.{Opened, open_decommitments, parties_points}

-- What a session fixes: the client, the party's number, its keys and the UUID of the session.
pub record Party {curve : Curve} (lib : Library curve) : Type 0 where
  pub client : Client
  pub party_num_int : ℕ
  pub parties : ℕ
  pub uuid : Text
  pub party_keys : lib.Keys

module _ (net : Network) (wire : Wire) (var : Option Text) (fuel : ℕ) {curve : Curve}
    (bignum : Bignum) (aes : AesGcm) (lib : Library curve) (json : Codecs lib) where
  open net use {World}

  -- Round 1: the commitments of all parties.
  unfoldable pub exchange_commitments :
      Party lib → lib.KeyGenBroadcastMessage1 → Io World (List lib.KeyGenBroadcastMessage1)
  unfolding round_answers decode_all insert_at
  exchange_commitments p bc_i = do
    round1_ans_vec ←
        round_answers net wire var fuel p.client p.party_num_int p.parties p.uuid (codes "round1")
          25 (json.broadcast_message.to_string bc_i)
    bc1_vec ← run (decode_all json.broadcast_message round1_ans_vec)
    run (insert_at (p.party_num_int - 1) bc_i bc1_vec)

  -- Round 2: what the parties had committed to.
  unfoldable pub exchange_decommitments :
      Party lib → lib.KeyGenDecommitMessage1 → Io World (Opened bignum lib json)
  unfolding round_answers open_decommitments
  exchange_decommitments p decom_i = do
    round2_ans_vec ←
        round_answers net wire var fuel p.client p.party_num_int p.parties p.uuid (codes "round2")
          25 (json.decommit_message.to_string decom_i)
    run (
        open_decommitments bignum lib json p.party_num_int p.party_keys decom_i round2_ans_vec 0
          (range 1 p.parties))

  -- Round 3: the shares, each under the key of its two parties.
  unfoldable pub exchange_shares :
      Party lib → (ℕ → List ℕ) → List (List ℕ) → List curve.Scalar → Io World (List curve.Scalar)
  unfolding send_shares open_shares poll_for_p2p
  exchange_shares p nonces enc_keys secret_shares = do
    send_shares curve bignum aes json.aead (λ key. key) net wire nonces p.client p.party_num_int
        (codes "round3") p.uuid enc_keys secret_shares 0 0 (range 1 p.parties)
    round3_ans_vec ←
        poll_for_p2p net wire p.client var fuel p.party_num_int p.parties 25 (codes "round3") p.uuid
    run (
        open_shares curve bignum aes json.aead (λ key. key) p.party_num_int secret_shares enc_keys
          round3_ans_vec 0 (range 1 p.parties))

  -- `run_keygen` from `phase1_broadcast` on, up to the tuple that is written.
  unfoldable pub generate_keys : Party lib → Parameters → Random curve → Io World (Stored lib)
  unfolding exchange_commitments exchange_decommitments exchange_shares exchange_data
      generate_shared_chain_code fold_from_head parties_points verify_dlog_proofs
  generate_keys p params random = do
    let first = lib.phase1_broadcast p.party_keys
    chain_code ←
        generate_shared_chain_code net wire var fuel curve json.scalar json.dlog_proof lib.verify
          random.chain_code_i (lib.prove random.chain_code_i) p.client p.party_num_int p.parties
          p.uuid 25 params.share_count
    bc1_vec ← exchange_commitments p first.0
    opened ← exchange_decommitments p first.1
    y_sum ← run (fold_from_head curve.add opened.0)
    distributed ← run (
        unwrap_option (
          lib.phase1_verify_com_phase2_distribute p.party_keys params opened.1 opened.0 bc1_vec
            (parties_points p.parties)))
    party_shares ← exchange_shares p random.nonces opened.2 distributed.1
    vss_scheme_vec ←
        exchange_data net wire var fuel json.vss p.client p.party_num_int p.parties p.uuid
          (codes "round4") 25 distributed.0
    shared_keys ← run (
        unwrap_option (
          lib.phase2_verify_vss_construct_keypair p.party_keys params opened.0 party_shares
            vss_scheme_vec p.party_num_int))
    dlog_proof_vec ←
        exchange_data net wire var fuel json.dlog_proof p.client p.party_num_int p.parties p.uuid
          (codes "round5") 25 (lib.prove (lib.x_i shared_keys))
    verified ←
        run (verify_dlog_proofs lib.verify params.share_count dlog_proof_vec (length opened.0))
    run (unwrap_result verified)
    pure (p.party_keys, chain_code, shared_keys, p.party_num_int, vss_scheme_vec, y_sum)

  unfoldable pub run_keygen :
      Files World → Text → Text → List Text → Random curve → Io World (Unit {0})
  unfolding parameter generate_keys keygen_signup
  run_keygen files addr keys_file_path params random = do
    threshold ← parameter params 0
    parties ← parameter params 1
    let client = new addr
    signup ←
        keygen_signup net wire client
          (record { parties = to_text parties; threshold = to_text threshold }) curve_name
    party_signup ← run (unwrap_result signup)
    keygen ←
        generate_keys
          (record {
            client = client;
            party_num_int = party_signup.number;
            parties = parties;
            uuid = party_signup.uuid;
            party_keys = lib.phase1_create party_signup.number;
          })
          (record { threshold = threshold; share_count = parties }) random
    write files keys_file_path (json.stored.to_string keygen)
