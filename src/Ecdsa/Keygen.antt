-- ===== src/Ecdsa/Keygen.antt =====
-- `run_keygen` of src/protocols/ecdsa/keygen.rs, over the cryptographic libraries and the transport.
pub mod Session
pub mod Opened
pub mod Honest
pub mod Arrives
pub mod Rounds
pub mod Agreement
pub mod Short
use tss_ecdsa_cli.Base.{
  ℕ, suc, ◌-◌, ◌==◌, if◌then◌else◌, Text, codes, to_text, parse_u16, List, [], ◌∷◌, map, get_elem?,
  Option, Run, ret, ◌>>=◌, at_index, unwrap_option, assert,
}
use tss_ecdsa_cli.Cipher.{AesGcm}
use tss_ecdsa_cli.Client.Effects.{Io, run}
use tss_ecdsa_cli.Client.Web.{Network, Wire}
use tss_ecdsa_cli.Curves.{Curve, Bignum}
use tss_ecdsa_cli.Ecdsa.Library.{Library, Codecs, Parameters}

module _ {curve : Curve} (lib : Library curve) (json : Codecs lib) where
  -- What a party has after round 2: the points and the decommitments of all, and the shared keys with
  -- the others.
  abbrev pub Opened : Type 0
  Opened = List curve.Point × List lib.KeyGenDecommitMessage1 × List ℕ

  abbrev pub with_own : lib.KeyGenDecommitMessage1 → Opened → Opened
  with_own decom_i (points, decoms, keys) = (lib.y_i decom_i ∷ points, decom_i ∷ decoms, keys)

  abbrev pub with_other : lib.KeyGenDecommitMessage1 → ℕ → Opened → Opened
  with_other decom_j key (points, decoms, keys) =
      (lib.y_i decom_j ∷ points, decom_j ∷ decoms, key ∷ keys)

  -- The loop after round 2.
  unfoldable pub open_decommitments :
      ℕ → lib.Keys → lib.KeyGenDecommitMessage1 → List Text → ℕ → List ℕ → Run Opened
  open_decommitments party_num party_keys decom_i answers j [] = ret ([], [], [])
  open_decommitments party_num party_keys decom_i answers j (i ∷ is) =
      if i == party_num
      then (do
        rest ← open_decommitments party_num party_keys decom_i answers j is
        ret (with_own decom_i rest))
      else (do
        answer ← at_index (get_elem? answers j)
        decom_j ← unwrap_option (json.decommit_message.from_str answer)
        key ← unwrap_option (curve.x_coord (curve.mul (lib.y_i decom_j) (lib.u_i party_keys)))
        rest ← open_decommitments party_num party_keys decom_i answers (suc j) is
        ret (with_other decom_j key rest))

  -- `(0..PARTIES).map(|i| bc1_vec[i as usize].e.clone())`.
  unfoldable pub encryption_keys :
      List lib.KeyGenBroadcastMessage1 → List ℕ → Run (List lib.EncryptionKey)
  encryption_keys bc1_vec [] = ret []
  encryption_keys bc1_vec (i ∷ is) = do
    message ← at_index (get_elem? bc1_vec i)
    rest ← encryption_keys bc1_vec is
    ret (lib.e message ∷ rest)
