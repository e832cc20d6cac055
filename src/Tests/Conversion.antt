-- ===== src/Tests/Conversion.antt =====
-- The conversion of a file of an earlier version, over numbers in the place of a curve, with a digit
-- for every number as the notation.
use tss_ecdsa_cli.Base.{
  ℕ, zero, suc, ◌∙◌, ◌+◌, ◌-◌, ◌%◌, ◌==◌, ◌≡◌, refl, Text, codes, List, [], ◌∷◌, length,
  if◌then◌else◌, Option, none, some, ret, arith, text_eq, unwrap_option,
}
use tss_ecdsa_cli.Manager.Store.{Json, IsJson}
use tss_ecdsa_cli.Client.Effects.{◌>>=◌ as ◌>>io◌, pure, run}
use tss_ecdsa_cli.HdKeys.{get_hd_key}
use tss_ecdsa_cli.Ecdsa.Library.{Codecs, Stored}
use tss_ecdsa_cli.Ecdsa.Pubkey.{pubkey_action}
use tss_ecdsa_cli.Ecdsa.Pubkey.Backward.{pubkey_action-convert_store_file}
use tss_ecdsa_cli.Tests.Codec.{put_text, get_text, get_text-put_text}
use tss_ecdsa_cli.Files.{Files}
use tss_ecdsa_cli.Ecdsa.Conversion.{Hexadecimal, Structs, OldStored, convert_store_file}
use tss_ecdsa_cli.Ecdsa.Conversion.Converted.{IsHexadecimal}
use tss_ecdsa_cli.Ecdsa.Conversion.Printed.{
  Printing, IsPrinting, Values, print_store, store_of, convert_store_file_lem,
}
use tss_ecdsa_cli.Tests.Group.{numbers, big}
use tss_ecdsa_cli.Tests.Library.{toy, toy_json}

abbrev digit : ℕ → Text → Option ℕ
digit c [] = some (c - 49)
digit c (d ∷ s) = none

abbrev from_digits : Text → Option ℕ
from_digits [] = none
from_digits (c ∷ s) = if c == 48 then from_digits s else digit c s

-- Half as many zeros.
abbrev halves : Text → List ℕ
halves [] = []
halves (c ∷ []) = []
halves (c ∷ d ∷ s) = 0 ∷ halves s

length-halves : (s : Text) → length s % 2 ≡ 0 → length (halves s) + length (halves s) ≡ length s
length-halves [] even = refl
length-halves (c ∷ []) even = absurd (omega (arith, even))
length-halves (c ∷ d ∷ s) even = omega (arith, length-halves s (omega (arith, even)))

abbrev with_number : Option ℕ → List ℕ → Option (List ℕ)
with_number none bytes = none
with_number (some n) [] = none
with_number (some n) (b ∷ bytes) = some (n ∷ bytes)

abbrev digits : Hexadecimal numbers
digits = record {
  from_hex = from_digits;
  decode = λ s. if length s % 2 == 0 then with_number (from_digits s) (halves s) else none;
  from_coords = λ x y. some x;
  scalar_from_bytes = λ bytes. if length bytes == 32 then some (big.from_bytes bytes) else none;
}

digits_decode :
    (s : Text) (n : ℕ)
    → length s % 2 ≡ 0
    → from_digits s ≡ some n
    → (bytes : List ℕ) × (digits.decode s ≡ some bytes)
      × (big.from_bytes bytes ≡ n)
      × (length bytes + length bytes ≡ length s)
digits_decode [] n even e = absurd (ground (arith, e))
digits_decode (c ∷ []) n even e = absurd (omega (arith, even))
digits_decode (c ∷ d ∷ s) n even e =
    (n ∷ halves s, rw (even, e) refl, refl, length-halves (c ∷ d ∷ s) even)

digits-IsHexadecimal : IsHexadecimal big digits
digits-IsHexadecimal = record {
  from_hex-zero = λ s. refl;
  decodes = digits_decode;
  scalar_from_bytes-to_bigint = λ a bytes width number. rw (width, number) refl;
}

abbrev noughts : ℕ → Text → Text
noughts zero s = s
noughts (suc k) s = 48 ∷ noughts k s

-- A number has 63 digits.
abbrev printing : Printing numbers
printing = record { to_hex = λ n. noughts 62 ((n + 49) ∷ []); coords = λ p. (p, p) }

from_digits-noughts : (k : ℕ) (s : Text) → from_digits (noughts k s) ≡ from_digits s
from_digits-noughts zero s = refl
from_digits-noughts (suc k) s = from_digits-noughts k s

printing-IsPrinting : IsPrinting digits printing
printing-IsPrinting = record {
  from_hex-to_hex = λ n. from_digits-noughts 62 ((n + 49) ∷ []) ∙ from_digits-digit n;
  from_coords-coords = λ p. refl;
}
  where
    from_digits-digit : (n : ℕ) → from_digits ((n + 49) ∷ []) ≡ some n
    from_digits-digit n = ground arith

abbrev structs : Structs toy
structs = record {
  DecryptionKey = ℕ;
  ShamirSecretSharing = ℕ;
  keys = λ u y dk ek index. u;
  shared_keys = λ y x. x;
  verifiable_ss = λ parameters commitments. parameters;
}

abbrev values : Values big digits digits-IsHexadecimal printing printing-IsPrinting structs
values = record {
  u_i = 7;
  y_i = 7;
  dk = 3;
  ek = 5;
  party_index = 2;
  y = 21;
  x_i = 11;
  party_id = 2;
  vss = (1, 7 ∷ 14 ∷ []) ∷ [];
  paillier = 5 ∷ [];
  y_sum = 21;
}

abbrev old_json : Json (OldStored digits structs)
old_json = record {
  to_string = λ s. codes "old";
  from_str = λ s.
      if text_eq s (codes "old")
      then some
          (print_store big digits digits-IsHexadecimal printing printing-IsPrinting structs values)
      else none;
}

abbrev disk : Files Text
disk = record { read_file = λ path w. some w; write_file = λ path text w. some text }

-- The file has the chain code 1, the shared key 11, the number 2 of the party and the public key 21.
convert_store_file_lem_example :
    convert_store_file digits structs old_json toy_json disk (codes "a") (codes "b") (codes "old")
    ≡ ret (tt, 1 ∷ 11 ∷ 2 ∷ 21 ∷ [])
convert_store_file_lem_example =
    convert_store_file_lem big digits digits-IsHexadecimal printing printing-IsPrinting structs
      old_json toy_json disk (codes "a") (codes "b") (codes "old") values (codes "old")
      (1 ∷ 11 ∷ 2 ∷ 21 ∷ []) refl refl refl (unfold text_eq in refl) refl

abbrev with_lists : ℕ → ℕ → ℕ → ℕ → ℕ → Option (Text × Text) → Option (Stored toy)
with_lists k c s n y none = none
with_lists k c s n y (some (vss, eks)) = some (k, c, s, n, vss, eks, y)

abbrev stored_of : Text → Option (Stored toy)
stored_of (k ∷ c ∷ s ∷ n ∷ y ∷ lists) = with_lists k c s n y (get_text lists)
stored_of _ = none

abbrev codecs : Codecs toy
codecs = record toy_json {
  stored = record {
    to_string = λ s. s.0 ∷ s.1 ∷ s.2 ∷ s.3 ∷ s.6 ∷ put_text s.4 s.5;
    from_str = stored_of;
  };
}

codecs-IsJson : IsJson codecs.stored
codecs-IsJson = record { from_str-to_string = λ s. rw (get_text-put_text s.4 s.5) }

pubkey_action-convert_store_file_example :
    (convert_store_file digits structs old_json codecs disk (codes "a") (codes "b") >>io λ _.
    pubkey_action big digits codecs printing.to_hex disk (codes "b") (codes "0") [])
      (codes "old")
    ≡ (run (get_hd_key numbers big 21 (codes "0") 1) >>io λ key.
          run (unwrap_option (numbers.x_coord key.0)) >>io λ x.
          run (unwrap_option (numbers.y_coord key.0)) >>io λ y.
          pure (record { x = printing.to_hex x; y = printing.to_hex y; path = codes "0" }))
        (codecs.stored.to_string
          (store_of big digits digits-IsHexadecimal printing printing-IsPrinting structs values))
pubkey_action-convert_store_file_example =
    pubkey_action-convert_store_file big digits digits-IsHexadecimal printing printing-IsPrinting
      structs old_json codecs disk (codes "a") (codes "b") (codes "old") (codes "0") values
      (codes "old")
      (codecs.stored.to_string
        (store_of big digits digits-IsHexadecimal printing printing-IsPrinting structs values))
      refl refl refl codecs-IsJson refl (unfold text_eq in refl) refl refl refl
