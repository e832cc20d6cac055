-- ===== src/Ecdsa/Pubkey/Backward.antt =====
-- Public keys of a converted file: what the comment on the chain code in
-- src/protocols/ecdsa/curv7_conversion.rs wants of the derivation in src/protocols/ecdsa/mod.rs.
use tss_ecdsa_cli.Base.{◌≡◌, refl, Text, is_empty, [], some, false, unwrap_option}
use tss_ecdsa_cli.Manager.Store.{Json, IsJson}
use tss_ecdsa_cli.Client.Effects.{◌>>=◌ as ◌>>io◌, pure, run}
use tss_ecdsa_cli.Curves.{Curve, Bignum}
use tss_ecdsa_cli.Files.{Files, read_to_string}
use tss_ecdsa_cli.HdKeys.{get_hd_key}
use tss_ecdsa_cli.Ecdsa.Library.{Library, Codecs}
use tss_ecdsa_cli.Ecdsa.Conversion.{Hexadecimal, Structs, OldStored, convert_store_file}
use tss_ecdsa_cli.Ecdsa.Conversion.Converted.{IsHexadecimal}
use tss_ecdsa_cli.Ecdsa.Conversion.Printed.{
  IsWide, Printing, IsPrinting, Values, print_store, store_of, convert_store_file_lem,
}
use tss_ecdsa_cli.Ecdsa.Pubkey.{pubkey_action}

module _ {curve : Curve} (bignum : Bignum) (hex : Hexadecimal curve)
    (laws : IsHexadecimal bignum hex) (printing : Printing curve)
    (printed : IsPrinting hex printing) {lib : Library curve} (structs : Structs lib) where
  -- If hexadecimal texts are read as documented, the generator times one is the generator, the
  -- tuple of a file of keys is read back as it was written, and a file of an earlier version holds
  -- numbers that are printed without zeros in front, scalars by their numbers and points by their
  -- coordinates, the numbers of the two scalars having 63 or 64 digits, and is converted to a file
  -- that is then read: the public key that the action `pubkey` tells for a path that is not empty,
  -- with no other chain code given, is the one that is derived with the generator as the chain
  -- code, as in earlier versions; the action fails where that derivation does.
  pub pubkey_action-convert_store_file :
      {W : Type 0} (old_json : Json (OldStored hex structs)) (json : Codecs lib) (files : Files W)
      (from to text path : Text) (v : Values bignum hex laws printing printed structs) (w w' : W)
      → IsWide bignum hex laws printing printed structs v.u_i
      → IsWide bignum hex laws printing printed structs v.x_i
      → curve.mul curve.generator (curve.scalar_of 1) ≡ curve.generator
      → IsJson json.stored
      → files.read_file from w ≡ some text
      → old_json.from_str text ≡ some (print_store bignum hex laws printing printed structs v)
      → files.write_file to
          (json.stored.to_string (store_of bignum hex laws printing printed structs v))
          w
        ≡ some w'
      → files.read_file to w'
        ≡ some (json.stored.to_string (store_of bignum hex laws printing printed structs v))
      → is_empty path ≡ false
      → (convert_store_file hex structs old_json json files from to >>io λ _.
            pubkey_action bignum hex json printing.to_hex files to path [])
          w
        ≡ (run (get_hd_key curve bignum v.y_sum path curve.generator) >>io λ key.
              run (unwrap_option (curve.x_coord key.0)) >>io λ x.
              run (unwrap_option (curve.y_coord key.0)) >>io λ y.
              pure (record { x = printing.to_hex x; y = printing.to_hex y; path = path }))
            w'
  unfolding pubkey_action
  pubkey_action-convert_store_file old_json json files from to text path v w w' wide_u wide_x unit
        stored reads parses writes rereads deep =
      rw
        (convert_store_file_lem bignum hex laws printing printed structs old_json json files from to
          text v w w' wide_u wide_x reads parses writes)
        (rw (rereads, read_to_string)
          (rw (stored.from_str-to_string (store_of bignum hex laws printing printed structs v))
            (rw (deep, unit) refl)))
