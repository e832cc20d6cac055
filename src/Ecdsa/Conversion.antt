-- ===== src/Ecdsa/Conversion.antt =====
-- The conversion of key files of earlier versions, src/protocols/ecdsa/curv7_conversion.rs.
pub mod Converted
pub mod Printed
use tss_ecdsa_cli.Base.{
  ℕ, ◌%◌, ◌==◌, Text, List, [], ◌∷◌, length, if◌then◌else◌, Option, Run, ret, ◌>>=◌, unwrap_option,
}
use tss_ecdsa_cli.Manager.Store.{Json}
use tss_ecdsa_cli.Client.Effects.{Io, ◌>>=◌ as ◌>>io◌, run}
use tss_ecdsa_cli.Curves.{Curve}
use tss_ecdsa_cli.Files.{Files, read_to_string, write}
use tss_ecdsa_cli.Ecdsa.Library.{Library, Codecs, Stored}

-- Texts in base 16: `BigInt::from_hex`, `hex::decode`; and `Point::from_coords`, `Scalar::from_bytes`.
pub record Hexadecimal (curve : Curve) : Type 0 where
  pub from_hex : Text → Option ℕ
  pub decode : Text → Option (List ℕ)
  pub from_coords : ℕ → ℕ → Option curve.Point
  pub scalar_from_bytes : List ℕ → Option curve.Scalar

pub record OldGe : Type 0 where
  pub x : Text
  pub y : Text

-- The structs of the libraries that the conversion builds, by their fields.
pub record Structs {curve : Curve} (lib : Library curve) : Type 1 where
  pub DecryptionKey : Type 0
  pub ShamirSecretSharing : Type 0
  pub keys : curve.Scalar → curve.Point → DecryptionKey → lib.EncryptionKey → ℕ → lib.Keys
  pub shared_keys : curve.Point → curve.Scalar → lib.SharedKeys
  pub verifiable_ss : ShamirSecretSharing → List curve.Point → lib.VerifiableSs

module _ {curve : Curve} (hex : Hexadecimal curve) where
  unfoldable pub convert_old_ge : OldGe → Run curve.Point
  convert_old_ge old = do
    old_x ← unwrap_option (hex.from_hex old.x)
    old_y ← unwrap_option (hex.from_hex old.y)
    unwrap_option (hex.from_coords old_x old_y)

  abbrev pub with_even_length : Text → Text
  with_even_length old = if length old % 2 == 0 then old else b'0' ∷ old

  unfoldable pub convert_old_fe : Text → Run curve.Scalar
  convert_old_fe old = do
    old_bytes ← unwrap_option (hex.decode (with_even_length old))
    unwrap_option (hex.scalar_from_bytes old_bytes)

  unfoldable pub convert_all : {A B : Type 0} → (A → Run B) → List A → Run (List B)
  convert_all f [] = ret []
  convert_all f (a ∷ rest) = do b ← f a; bs ← convert_all f rest; ret (b ∷ bs)

  module _ {lib : Library curve} (structs : Structs lib) where
    pub record OldKeys : Type 0 where
      pub u_i : Text
      pub y_i : OldGe
      pub dk : structs.DecryptionKey
      pub ek : lib.EncryptionKey
      pub party_index : ℕ

    pub record OldSharedKeys : Type 0 where
      pub y : OldGe
      pub x_i : Text

    pub record OldVerifiableSs : Type 0 where
      pub parameters : structs.ShamirSecretSharing
      pub commitments : List OldGe

    -- The tuple in a file of an earlier version.
    abbrev pub OldStored : Type 0
    OldStored = OldKeys × OldSharedKeys × ℕ × List OldVerifiableSs × List lib.EncryptionKey × OldGe

    unfoldable pub convert_old_vss : OldVerifiableSs → Run lib.VerifiableSs
    unfolding convert_old_ge convert_all
    convert_old_vss vss = do
      commitments ← convert_all convert_old_ge vss.commitments
      ret (structs.verifiable_ss vss.parameters commitments)

    -- What `convert_store_file` makes of the tuple that it has read.
    unfoldable pub convert_store : OldStored → Run (Stored lib)
    unfolding convert_old_vss convert_old_ge convert_old_fe convert_all
    convert_store
          (
            old_party_keys, old_shared_keys, party_id, old_vss_scheme_vec, paillier_key_vector,
            old_y_sum,
          ) =
        do
          u_i ← convert_old_fe old_party_keys.u_i
          y_i ← convert_old_ge old_party_keys.y_i
          y ← convert_old_ge old_shared_keys.y
          x_i ← convert_old_fe old_shared_keys.x_i
          public_key ← convert_old_ge old_y_sum
          vss_scheme_vector ← convert_all convert_old_vss old_vss_scheme_vec
          ret (
            structs.keys u_i y_i old_party_keys.dk old_party_keys.ek old_party_keys.party_index,
            curve.scalar_of 1,
            structs.shared_keys y x_i,
            party_id,
            vss_scheme_vector,
            paillier_key_vector,
            public_key,
          )

    unfoldable pub convert_store_file :
        {W : Type 0} → Json OldStored → Codecs lib → Files W → Text → Text → Io W (Unit {0})
    unfolding convert_store
    convert_store_file old_json json files keys_file_path destination_path =
        read_to_string files keys_file_path >>io λ data'.
        run (unwrap_option (old_json.from_str data')) >>io λ old.
        run (convert_store old) >>io λ converted.
        write files destination_path (json.stored.to_string converted)
