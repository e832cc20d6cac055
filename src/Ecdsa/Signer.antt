-- ===== src/Ecdsa/Signer.antt =====
-- `sign` of src/protocols/ecdsa/signer.rs, over the cryptographic libraries and the transport: its
-- steps between the rounds.
pub mod Crates
pub mod Session
pub mod Signature
pub mod Leader
pub mod Honest
pub mod Arrives
pub mod Opened
pub mod Rounds
pub mod Products
pub mod Phases
pub mod Agreement
use tss_ecdsa_cli.Base.{
  ℕ, suc, ◌+◌, ◌-◌, ◌==◌, if◌then◌else◌, Text, List, [], ◌∷◌, map, length, get_elem?, Option, none,
  some, Bool, Run, ret, ◌>>=◌, ◌>>◌, at_index, unwrap_option, assert,
}
use tss_ecdsa_cli.Manager.Store.{Json}
use tss_ecdsa_cli.Room.{add_u16, sub_u16}
use tss_ecdsa_cli.Client.{range}
use tss_ecdsa_cli.Curves.{Curve}
use tss_ecdsa_cli.Protocols.{collect}
use tss_ecdsa_cli.Protocols.Others.{for_others, for_each}
use tss_ecdsa_cli.Ecdsa.Library.{Library}
use Crates.{SignLibrary, SignCodecs}

-- `k - 1` of `u16`.
unfoldable pub previous : ℕ → ℕ
previous k = sub_u16 k 1

-- `1..n + 1` of `u16`, which is empty where `n + 1` wraps to 0.
unfoldable pub through : ℕ → List ℕ
through n = range 1 (add_u16 n 1 - 1)

-- `signers_vec`: the party numbers of round 0, less one.
unfoldable pub signers_of : Json ℕ → ℕ → ℕ → List Text → ℕ → Run (List ℕ)
unfolding collect
signers_of json party_num_int party_id round0_ans_vec total_parties = do
  ids ← collect json party_num_int party_id round0_ans_vec 0 (range 1 total_parties)
  ret (map (λ i. sub_u16 i 1) ids)

-- `Iterator::next`.
abbrev pub next : {A : Type 0} → List A → Option (A × List A)
next [] = none
next (a ∷ rest) = some (a, rest)

module _ {curve : Curve} {lib : Library curve} (sl : SignLibrary lib) where
  open curve use {Scalar, Point, add, mul, generator, zero_scalar}

  -- The `map` that makes `com_vec_new`: the new commitment at 0, else the next of the others.
  unfoldable pub com_vec_new : Point → List Point → List ℕ → Run (List Point)
  com_vec_new com_zero_new com_iter_unchanged [] = ret []
  com_vec_new com_zero_new com_iter_unchanged (i ∷ is) =
      if i == 0
      then (do rest ← com_vec_new com_zero_new com_iter_unchanged is; ret (com_zero_new ∷ rest))
      else (do
        unchanged ← unwrap_option (next com_iter_unchanged)
        rest ← com_vec_new com_zero_new unchanged.1 is
        ret (unchanged.0 ∷ rest))

  -- `vss_scheme_vec` with the commitments of the leader for the key at the path.
  unfoldable pub update_leader : Scalar → List lib.VerifiableSs → Run (List lib.VerifiableSs)
  unfolding com_vec_new
  update_leader f_l_new vss_scheme_vec = do
    leader ← at_index (get_elem? vss_scheme_vec 0)
    com_zero ← at_index (get_elem? (sl.commitments leader) 0)
    com_iter_unchanged ← unwrap_option (next (sl.commitments leader))
    second ← at_index (get_elem? vss_scheme_vec 1)
    commitments ←
        com_vec_new (add com_zero (mul generator f_l_new)) com_iter_unchanged.1
          (range 0 (length (sl.commitments second)))
    others ← unwrap_option (next vss_scheme_vec)
    ret (sl.verifiable_ss (sl.parameters leader) commitments ∷ others.1)

  -- `private` for the key at the path.
  unfoldable pub update_private : ℕ → Scalar → sl.PartyPrivate → sl.PartyPrivate
  update_private party_num_int f_l_new private =
      if party_num_int == 1
      then sl.update_private_key private f_l_new f_l_new
      else sl.update_private_key private zero_scalar f_l_new

  -- The commitments and the private key for the key at the path.
  unfoldable pub at_path :
      Bool
      → ℕ
      → Scalar
      → List lib.VerifiableSs
      → sl.PartyPrivate
      → Run (List lib.VerifiableSs × sl.PartyPrivate)
  unfolding update_leader update_private
  at_path sign_at_path party_num_int f_l_new vss_scheme_vec private =
      if sign_at_path
      then (do
        updated ← update_leader f_l_new vss_scheme_vec
        ret (updated, update_private party_num_int f_l_new private))
      else ret (vss_scheme_vec, private)

  unfoldable pub create_sign_keys :
      ℕ → sl.PartyPrivate → List lib.VerifiableSs → List ℕ → Run sl.SignKeys
  unfolding previous
  create_sign_keys party_num_int private vss_scheme_vec signers_vec = do
    own ← at_index (get_elem? signers_vec (previous party_num_int))
    vss ← at_index (get_elem? vss_scheme_vec own)
    ret (sl.create private vss own signers_vec)

  -- The loop after round 1: the broadcasts of all, the party's own included, and the messages of the
  -- others.
  abbrev pub Round1 : Type 0
  Round1 = List sl.SignBroadcastPhase1 × List sl.MessageA

  abbrev pub with_own : sl.SignBroadcastPhase1 → Round1 → Round1
  with_own bc_i (bcs, ms) = (bc_i ∷ bcs, ms)

  abbrev pub with_other : sl.SignBroadcastPhase1 × sl.MessageA → Round1 → Round1
  with_other (bc1_j, m_a_j) (bcs, ms) = (bc1_j ∷ bcs, m_a_j ∷ ms)

  module _ (json : SignCodecs sl) where
    unfoldable pub open_round1 : ℕ → sl.SignBroadcastPhase1 → List Text → ℕ → List ℕ → Run Round1
    open_round1 party_num bc_i answers j [] = ret ([], [])
    open_round1 party_num bc_i answers j (i ∷ is) =
        if i == party_num
        then (do rest ← open_round1 party_num bc_i answers j is; ret (with_own bc_i rest))
        else (do
          answer ← at_index (get_elem? answers j)
          message ← unwrap_option (json.round1.from_str answer)
          rest ← open_round1 party_num bc_i answers (suc j) is
          ret (with_other message rest))

    -- The loop after round 2.
    unfoldable pub open_round2 : List Text → List ℕ → Run (List (sl.MessageB × sl.MessageB))
    unfolding for_each
    open_round2 answers is =
        for_each
          (λ i. do
            answer ← at_index (get_elem? answers i)
            unwrap_option (json.round2.from_str answer))
          is

  -- What the party answers to the message of each other party: for `gamma_i` and for `w_i`, a message
  -- and a scalar that it keeps.
  abbrev pub Answer : Type 0
  Answer = (sl.MessageB × Scalar) × (sl.MessageB × Scalar)

  unfoldable pub answer_messages :
      ℕ
      → sl.SignKeys
      → List lib.EncryptionKey
      → List ℕ
      → List sl.MessageA
      → List ℕ
      → Run (List Answer)
  unfolding for_others
  answer_messages party_num sign_keys paillier_key_vector signers_vec m_a_vec is =
      for_others
        (λ i j. do
          signer ← at_index (get_elem? signers_vec (i - 1))
          key ← at_index (get_elem? paillier_key_vector signer)
          m_a ← at_index (get_elem? m_a_vec j)
          gamma ← unwrap_option (sl.b (sl.gamma_i sign_keys) key m_a)
          w ← unwrap_option (sl.b (sl.w_i sign_keys) key m_a)
          ret (gamma, w))
        party_num 0 is

  -- The loop that checks what the others have answered: `alpha_ij_gamma` and `alpha_ij_wi`.
  unfoldable pub check_answers :
      ℕ
      → sl.DecryptionKey
      → sl.SignKeys
      → List lib.VerifiableSs
      → List ℕ
      → List (sl.MessageB × sl.MessageB)
      → List ℕ
      → Run (List (Scalar × Scalar))
  unfolding for_others
  check_answers party_num dk sign_keys vss_scheme_vec signers_vec received is =
      for_others
        (λ i j. do
          m_b ← at_index (get_elem? received j)
          alpha_gamma ← unwrap_option (sl.verify_proofs_get_alpha m_b.0 dk (sl.k_i sign_keys))
          alpha_wi ← unwrap_option (sl.verify_proofs_get_alpha m_b.1 dk (sl.k_i sign_keys))
          signer ← at_index (get_elem? signers_vec (i - 1))
          xi_com ← at_index (get_elem? (sl.get_commitments_to_xi vss_scheme_vec) signer)
          vss ← at_index (get_elem? vss_scheme_vec signer)
          assert (
              sl.same_point (sl.pk (sl.b_proof m_b.1))
                (sl.update_commitments_to_xi xi_com vss signer signers_vec))
          ret (alpha_gamma, alpha_wi))
        party_num 0 is
