-- ===== src/Protocols/Rounds.antt =====
-- `exchange_data` of src/protocols/eddsa/signer.rs and `generate_shared_chain_code` of
-- src/protocols/mod.rs.
use tss_ecdsa_cli.Base.{ℕ, Text, codes, List, Option, Bool, assert}
use tss_ecdsa_cli.Manager.Store.{Json}
use tss_ecdsa_cli.Client.Effects.{Io, ◌>>=◌, ◌>>◌, run}
use tss_ecdsa_cli.Client.Web.{Network, Wire}
use tss_ecdsa_cli.Client.{Client, range, broadcast, poll_for_broadcasts}
use tss_ecdsa_cli.Curves.{Curve}
use tss_ecdsa_cli.Protocols.{collect, verify_dlog_proofs, unwrap_result, is_ok, fold_from_head}

-- The variable is TSS_CLI_POLL_TIMEOUT, and the fuel is for each poll.
module _ (net : Network) (wire : Wire) (var : Option Text) (fuel : ℕ) where
  open net use {World}

  -- The broadcast of a round and the poll for those of the others, which every round has.
  unfoldable pub round_answers : Client → ℕ → ℕ → Text → Text → ℕ → Text → Io World (List Text)
  unfolding broadcast poll_for_broadcasts
  round_answers client party_num n uuid round delay message = do
    sent ← broadcast net wire client party_num round message uuid
    run (assert (is_ok sent))
    poll_for_broadcasts net wire client var fuel party_num n delay round uuid

  unfoldable pub exchange_data :
      {T : Type 0} → Json T → Client → ℕ → ℕ → Text → Text → ℕ → T → Io World (List T)
  unfolding round_answers collect
  exchange_data json client party_num n uuid round delay data' = do
    round_ans_vec ← round_answers client party_num n uuid round delay (json.to_string data')
    run (collect json party_num data' round_ans_vec 0 (range 1 n))

  -- The random scalar and its proof are arguments.
  unfoldable pub generate_shared_chain_code :
      (curve : Curve) {Proof : Type 0}
      → Json curve.Scalar
      → Json Proof
      → (Proof → Bool)
      → curve.Scalar
      → Proof
      → Client
      → ℕ
      → ℕ
      → Text
      → ℕ
      → ℕ
      → Io World curve.Scalar
  unfolding exchange_data verify_dlog_proofs fold_from_head
  generate_shared_chain_code curve scalar_json proof_json verify chain_code_i dlog_proof client
        party_num_int parties_num uuid delay share_count =
      do
        dlog_proof_vec ←
            exchange_data proof_json client party_num_int parties_num uuid
              (codes "round0_chain_code") delay dlog_proof
        verified ← run (verify_dlog_proofs verify share_count dlog_proof_vec parties_num)
        run (unwrap_result verified)
        chain_codes ←
            exchange_data scalar_json client party_num_int parties_num uuid
              (codes "round1_chain_code") delay chain_code_i
        run (fold_from_head curve.add_scalar chain_codes)
