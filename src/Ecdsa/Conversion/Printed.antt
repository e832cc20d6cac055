-- ===== src/Ecdsa/Conversion/Printed.antt =====
-- A file of an earlier version whose numbers are printed in base 16, as
-- src/protocols/ecdsa/curv7_conversion.rs converts it.
use tss_ecdsa_cli.Base.{ℕ, ◌≡◌, refl, Text, List, [], ◌∷◌, map, length, some, ret, Run}
use tss_ecdsa_cli.Manager.Store.{Json}
use tss_ecdsa_cli.Curves.{Curve, Bignum}
use tss_ecdsa_cli.Files.{Files, read_to_string, write}
use tss_ecdsa_cli.Ecdsa.Library.{Library, Codecs, Stored}
use tss_ecdsa_cli.Ecdsa.Conversion.{
  Hexadecimal, OldGe, Structs, convert_old_ge, convert_old_fe, convert_all, OldVerifiableSs,
  OldStored, with_even_length, convert_old_vss, convert_store, convert_store_file,
}
use tss_ecdsa_cli.Ecdsa.Conversion.Converted.{IsHexadecimal, convert_old_fe_lem}

-- How the earlier version printed: a number in base 16, without zeros in front, a scalar by its
-- number and a point by its coordinates.
pub record Printing (curve : Curve) : Type 0 where
  pub to_hex : ℕ → Text
  pub coords : curve.Point → ℕ × ℕ

pub record IsPrinting {curve : Curve} (hex : Hexadecimal curve) (printing : Printing curve)
    : Type 0 where
  pub from_hex-to_hex : (n : ℕ) → hex.from_hex (printing.to_hex n) ≡ some n
  pub from_coords-coords :
      (p : curve.Point) → hex.from_coords (printing.coords p).0 (printing.coords p).1 ≡ some p

module _ {curve : Curve} (bignum : Bignum) (hex : Hexadecimal curve)
    (laws : IsHexadecimal bignum hex) (printing : Printing curve)
    (printed : IsPrinting hex printing) {lib : Library curve} (structs : Structs lib) where
  open curve use {Scalar, Point}

  -- What stands in a file, as values.
  pub record Values : Type 0 where
    pub u_i : Scalar
    pub y_i : Point
    pub dk : structs.DecryptionKey
    pub ek : lib.EncryptionKey
    pub party_index : ℕ
    pub y : Point
    pub x_i : Scalar
    pub party_id : ℕ
    pub vss : List (structs.ShamirSecretSharing × List Point)
    pub paillier : List lib.EncryptionKey
    pub y_sum : Point

  abbrev pub print_fe : Scalar → Text
  print_fe a = printing.to_hex (curve.to_bigint a)

  abbrev pub print_ge : Point → OldGe
  print_ge p = record {
    x = printing.to_hex (printing.coords p).0;
    y = printing.to_hex (printing.coords p).1;
  }

  abbrev pub print_vss : structs.ShamirSecretSharing × List Point → OldVerifiableSs hex structs
  print_vss v = record { parameters = v.0; commitments = map print_ge v.1 }

  abbrev pub print_store : Values → OldStored hex structs
  print_store v = (
    record {
      u_i = print_fe v.u_i;
      y_i = print_ge v.y_i;
      dk = v.dk;
      ek = v.ek;
      party_index = v.party_index;
    },
    record { y = print_ge v.y; x_i = print_fe v.x_i },
    v.party_id,
    map print_vss v.vss,
    v.paillier,
    print_ge v.y_sum,
  )

  -- The file of this version with the same values, and the chain code 1.
  abbrev pub store_of : Values → Stored lib
  store_of v = (
    structs.keys v.u_i v.y_i v.dk v.ek v.party_index,
    curve.scalar_of 1,
    structs.shared_keys v.y v.x_i,
    v.party_id,
    map (λ w. structs.verifiable_ss w.0 w.1) v.vss,
    v.paillier,
    v.y_sum,
  )

  -- The number of a scalar has 63 or 64 digits.
  abbrev pub IsWide : Scalar → Type 0
  IsWide a = length (with_even_length hex (print_fe a)) ≡ 64

  fe-printed : (a : Scalar) → IsWide a → convert_old_fe hex (print_fe a) ≡ ret a
  fe-printed a wide =
      convert_old_fe_lem bignum hex laws (print_fe a) a
        (printed.from_hex-to_hex (curve.to_bigint a)) wide

  ge-printed : (p : Point) → convert_old_ge hex (print_ge p) ≡ ret p
  unfolding convert_old_ge
  ge-printed p = rw (
    printed.from_hex-to_hex (printing.coords p).0,
    printed.from_hex-to_hex (printing.coords p).1,
    printed.from_coords-coords p,
  )

  all-printed :
      {A B C : Type 0} (f : A → Run B) (print : C → A) (value : C → B)
      → ((c : C) → f (print c) ≡ ret (value c))
      → (cs : List C) → convert_all hex f (map print cs) ≡ ret (map value cs)
  unfolding convert_all
  all-printed f print value h [] = refl
  all-printed f print value h (c ∷ cs) = rw (h c) (rw (all-printed f print value h cs))

  vss-printed :
      (v : structs.ShamirSecretSharing × List Point)
      → convert_old_vss hex structs (print_vss v) ≡ ret (structs.verifiable_ss v.0 v.1)
  unfolding convert_old_vss
  vss-printed v = rw (all-printed (convert_old_ge hex) print_ge (λ p. p) ge-printed v.1, map_id v.1)
    where
      map_id : (ps : List Point) → map (λ p. p) ps ≡ ps
      map_id [] = refl
      map_id (p ∷ ps) = rw (map_id ps)

  convert_store_lem :
      (v : Values)
      → IsWide v.u_i
      → IsWide v.x_i
      → convert_store hex structs (print_store v) ≡ ret (store_of v)
  unfolding convert_store
  convert_store_lem v wide_u wide_x = rw (
    fe-printed v.u_i wide_u,
    ge-printed v.y_i,
    ge-printed v.y,
    fe-printed v.x_i wide_x,
    ge-printed v.y_sum,
    all-printed (convert_old_vss hex structs) print_vss (λ w. structs.verifiable_ss w.0 w.1)
        vss-printed v.vss,
  )

  -- If hexadecimal texts are read as documented, and a file of an earlier version, which can be
  -- read, holds numbers that are printed without zeros in front, scalars by their numbers and
  -- points by their coordinates, and the numbers of the two scalars have 63 or 64 digits, then
  -- `convert_store_file` comes to its end and has written, where it can, the file of this version
  -- with the same values and the chain code 1; also where a number has an odd count of digits.
  pub convert_store_file_lem :
      {W : Type 0} (old_json : Json (OldStored hex structs)) (json : Codecs lib) (files : Files W)
      (from to text : Text) (v : Values) (w w' : W)
      → IsWide v.u_i
      → IsWide v.x_i
      → files.read_file from w ≡ some text
      → old_json.from_str text ≡ some (print_store v)
      → files.write_file to (json.stored.to_string (store_of v)) w ≡ some w'
      → convert_store_file hex structs old_json json files from to w ≡ ret (tt, w')
  unfolding convert_store_file
  convert_store_file_lem old_json json files from to text v w w' wide_u wide_x reads parses writes =
      rw (reads, read_to_string)
        (rw parses (rw (convert_store_lem v wide_u wide_x) (rw (writes, write) refl)))
