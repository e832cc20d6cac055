-- ===== src/Eddsa/Keygen.antt =====
-- `run_keygen` of src/protocols/eddsa/keygen.rs, over the cryptographic libraries and the transport.
pub mod Session
pub mod Opened
pub mod Honest
pub mod Arrives
pub mod Rounds
pub mod Agreement
use tss_ecdsa_cli.Base.{
  ℕ, suc, ◌+◌, ◌==◌, if◌then◌else◌, Text, List, [], ◌∷◌, map, get_elem?, Run, ret, ◌>>=◌, at_index,
  unwrap_option,
}
use tss_ecdsa_cli.Client.{range}
use tss_ecdsa_cli.Curves.{Curve, Bignum}
use tss_ecdsa_cli.Protocols.Shares.{pad_left}
use tss_ecdsa_cli.Eddsa.Library.{Library, Codecs}

abbrev pub aes_key_bytes_len : ℕ
aes_key_bytes_len = 32

module _ {curve : Curve} (bignum : Bignum) (lib : Library curve) (json : Codecs lib) where
  -- What a party has after round 2: the points and the blind factors of all, and the bytes of the
  -- keys shared with the others.
  abbrev pub Opened : Type 0
  Opened = List curve.Point × List lib.BlindFactor × List (List ℕ)

  abbrev pub with_own : lib.KeyGenDecommitMessage1 → Opened → Opened
  with_own decom_i (points, blinds, keys) =
      (lib.y_i decom_i ∷ points, lib.blind_factor decom_i ∷ blinds, keys)

  abbrev pub with_other : lib.KeyGenDecommitMessage1 → List ℕ → Opened → Opened
  with_other decom_j key (points, blinds, keys) =
      (lib.y_i decom_j ∷ points, lib.blind_factor decom_j ∷ blinds, key ∷ keys)

  -- The bytes of the key shared with the party of a decommitment, zeros on the left.
  unfoldable pub shared_key : lib.Keys → lib.KeyGenDecommitMessage1 → Run (List ℕ)
  unfolding pad_left
  shared_key party_keys decom_j = do
    key_bn ←
        unwrap_option (curve.x_coord (curve.mul (lib.y_i decom_j) (lib.private_key party_keys)))
    pad_left aes_key_bytes_len (bignum.to_bytes key_bn)

  -- The loop after round 2.
  unfoldable pub open_decommitments :
      ℕ → lib.Keys → lib.KeyGenDecommitMessage1 → List Text → ℕ → List ℕ → Run Opened
  unfolding shared_key
  open_decommitments party_num party_keys decom_i answers j [] = ret ([], [], [])
  open_decommitments party_num party_keys decom_i answers j (i ∷ is) =
      if i == party_num
      then (do
        rest ← open_decommitments party_num party_keys decom_i answers j is
        ret (with_own decom_i rest))
      else (do
        answer ← at_index (get_elem? answers j)
        decom_j ← unwrap_option (json.decommit_message.from_str answer)
        key ← shared_key party_keys decom_j
        rest ← open_decommitments party_num party_keys decom_i answers (suc j) is
        ret (with_other decom_j key rest))

-- `(0..PARTIES).map(|i| i + 1).collect()`.
unfoldable pub parties_points : ℕ → List ℕ
parties_points parties = map (λ i. i + 1) (range 0 parties)
