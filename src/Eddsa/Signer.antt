-- ===== src/Eddsa/Signer.antt =====
-- The beginning of a session of signers in src/protocols/eddsa/signer.rs: round 0 of `run_signer`, and
-- what `eph_keygen_t_n_parties` makes of its answers.
pub mod Indices
pub mod Crates
pub mod Ephemeral
pub mod Session
pub mod Signature
pub mod Honest
pub mod Arrives
pub mod Opened
pub mod Shares
pub mod Generated
pub mod Agreement
use tss_ecdsa_cli.Base.{
  ℕ, ◌+◌, ◌-◌, ◌%◌, ◌^◌, ltb, leb, Text, codes, List, [], ◌∷◌, map, length, get_elem?, Option, Run,
  ret, ◌>>=◌, ◌>>◌, at_index, assert,
}
use tss_ecdsa_cli.Manager.Store.{Json}
use tss_ecdsa_cli.Room.{add_u16, sub_u16}
use tss_ecdsa_cli.Client.Effects.{Io, ◌>>=◌ as ◌>>io◌, run}
use tss_ecdsa_cli.Client.Web.{Network, Wire}
use tss_ecdsa_cli.Client.{Client}
use tss_ecdsa_cli.Protocols.Rounds.{exchange_data}

-- The first lines of `eph_keygen_t_n_parties`: the indices of the signers, and the party's own.
unfoldable pub this_party_index : ℕ → ℕ → ℕ → List ℕ → Run (List ℕ × ℕ)
this_party_index t n party_num_int parties = do
  let indices = map (λ i. add_u16 i 1) parties
  assert (ltb t (length indices % 2 ^ 16))
  assert (leb (length indices % 2 ^ 16) n)
  own ← at_index (get_elem? indices (party_num_int - 1))
  ret (indices, own)

module _ (net : Network) (wire : Wire) (var : Option Text) (fuel : ℕ) where
  -- Round 0 collects the indices of as many signers as the threshold and one; after it the session
  -- goes on with all that have joined.
  unfoldable pub signer_indices : Json ℕ → Client → ℕ → ℕ → Text → ℕ → ℕ → Io net.World (List ℕ × ℕ)
  unfolding exchange_data this_party_index
  signer_indices json client party_num_int threshold uuid party_id total_parties =
      exchange_data net wire var fuel json client party_num_int (add_u16 threshold 1) uuid
        (codes "round0") 25 (sub_u16 party_id 1)
      >>io λ parties_index_vec.
          run (this_party_index threshold total_parties party_num_int parties_index_vec)
