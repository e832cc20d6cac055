-- ===== src/Tests/EddsaSigning.antt =====
-- A session of the signers of src/protocols/eddsa/signer.rs: three that have the index 8 and send the
-- number 7, over libraries whose values are numbers.
use tss_ecdsa_cli.Base.{
  ℕ, ◌+◌, ◌≡◌, refl, Text, codes, List, [], ◌∷◌, Option, none, some, ret, ok, arith, parse_u64,
  parse_u16, text_eq, to_text, ◌==◌,
}
use tss_ecdsa_cli.Files.{Files}
use tss_ecdsa_cli.Digest.{sha256_digest, message_bytes}
use tss_ecdsa_cli.Client.Signup.{signup}
use tss_ecdsa_cli.Protocols.Delivers.{Yields}
use tss_ecdsa_cli.Protocols.Encrypted.{sealed}
use tss_ecdsa_cli.Protocols.Shares.{zeros}
use tss_ecdsa_cli.Eddsa.Library.{Codecs}
use tss_ecdsa_cli.Eddsa.Derived.{Ed25519, challenge, signature_at, key_at}
use tss_ecdsa_cli.Eddsa.Signer.Crates.{SignLibrary, SignCodecs}
use tss_ecdsa_cli.Eddsa.Signer.Honest.{SignDrawn, AreSigners, AreSignCodecs}
use tss_ecdsa_cli.Eddsa.Signer.Arrives.{SignArrives}
use tss_ecdsa_cli.Eddsa.Signer.Agreement.{run_signer_lem}
use tss_ecdsa_cli.Eddsa.Signer.Signature.{run_signer}
use tss_ecdsa_cli.Tests.Codec.{put_text, get_text}
use tss_ecdsa_cli.Tests.Web.{wire, get_reply, put_reply, put_place, get_place}
use tss_ecdsa_cli.Tests.Served.{party}
use tss_ecdsa_cli.Tests.Group.{numbers, numbers-IsShared, big, big-IsBignum, plain, plain-IsAesGcm}
use tss_ecdsa_cli.Tests.Mailbox.{mailbox, Anytime, mailbox-Swaps, mailbox-Delivers}
use tss_ecdsa_cli.Tests.Library.{number_json, number_json-IsJson, aead_json-IsJson, seven_text}
use tss_ecdsa_cli.Tests.SignLibrary.{sum}
use tss_ecdsa_cli.Tests.Keygen.{thirty, Stages}
use tss_ecdsa_cli.Tests.Eddsa.{toy, toy_json}

abbrev ed : Ed25519 numbers
ed = record { invert = λ a. some 1; sha512 = λ bytes. bytes }

abbrev toy_signer : SignLibrary toy
toy_signer = record {
  EphemeralKey = ℕ;
  EphemeralSharedKeys = ℕ;
  LocalSig = ℕ;
  VssSum = ℕ;
  create_from_deterministic_secret = λ k m i. k;
  point = λ k. k;
  scalar = λ k. k;
  phase1_broadcast = λ k. (0, 0);
  phase1_verify_com_phase2_distribute = λ k params blinds points messages parties. some (k, points);
  phase2_verify_vss_construct_keypair = λ k params points shares vsses p. some k;
  with_y = λ s y. s + y;
  compute = λ m e s. e;
  verify_local_sigs = λ sigs parties vsses ephs. some (sum sigs);
  generate = λ s sigs parties r. record { r = r; s = s };
  verify = λ s m y. y == 1440;
  uncompressed = λ p. p ∷ [];
  scalar_bytes = λ s. s ∷ [];
}

-- The third number first.
abbrev triple_of : Text → Option (ℕ × ℕ × ℕ)
triple_of [] = none
triple_of (h ∷ []) = none
triple_of (h ∷ c ∷ []) = none
triple_of (h ∷ c ∷ a ∷ []) = none
triple_of (h ∷ c ∷ a ∷ b ∷ s) = some (a, b, c)

abbrev toy_sign_json : SignCodecs toy_signer
toy_sign_json = record {
  index = number_json;
  announcement = record { to_string = λ p. 32 ∷ p.2 ∷ p.0 ∷ p.1 ∷ zeros 41; from_str = triple_of };
  shared_keys = number_json;
  local_sig = number_json;
}

abbrev with_file : Codecs toy
with_file = record toy_json {
  stored = record { to_string = λ s. []; from_str = λ s. some (7, 3, 21, 8, 7 ∷ [], 5) };
}

toy_sign_json-AreSignCodecs : AreSignCodecs big with_file toy_sign_json
toy_sign_json-AreSignCodecs = record {
  shared = numbers-IsShared;
  numbers = big-IsBignum;
  indices = number_json-IsJson;
  announcements = record { from_str-to_string = λ p. refl };
  vsses = number_json-IsJson;
  packs = aead_json-IsJson;
  shared_keys = number_json-IsJson;
  local_sigs = number_json-IsJson;
}

abbrev seven_signers : SignDrawn toy_signer
seven_signers = record {
  threshold = 2;
  message = b'P' ∷ [];
  path = codes "0/1";
  y = 1440;
  f_l_new = 175;
  vss_scheme_vec = 7 ∷ [];
  ids = λ i. 8;
  keys = λ i. 7;
  shared_keys = λ i. 21;
  nonces = λ p i. zeros 12;
  vss = λ i. 7;
  share = λ p i. 7;
  ephemeral_shared = λ i. 7;
  vss_sum = 21;
  shared_x = λ p i. 49;
}

seven_signers-AreSigners : AreSigners big ed toy_signer seven_signers
seven_signers-AreSigners = record {
  fits = omega arith;
  some_id = λ i. omega arith;
  small_id = λ i. omega arith;
  same_x = λ p i j m m' e. refl;
  own_point = λ i m. refl;
  has_x = λ p i m m'. refl;
  key_length = λ p i. omega arith;
  nonce_length = λ p i. refl;
  distributes = λ p m. refl;
  constructs = λ p m. refl;
  local_sigs_verify = refl;
  verifies = refl;
}

all_arrive :
    SignArrives
      (mailbox seven_text)
      wire
      party
      big
      ed
      plain-IsAesGcm
      toy_signer
      with_file
      toy_sign_json
      seven_signers
      (codes "id")
      2
      Stages
unfolding sealed put_text
all_arrive = record {
  round0 = mailbox-Delivers seven_text 2 3 25 (codes "round0") (codes "id");
  round1 = mailbox-Delivers seven_text 2 3 25 (codes "eph_keygen_round1") (codes "id");
  round2 = mailbox-Delivers seven_text 2 3 25 (codes "eph_keygen_round2") (codes "id");
  round3 = mailbox-Swaps seven_text 2 3 25 (codes "eph_keygen_round3") (codes "id");
  round4 = mailbox-Delivers seven_text 2 3 25 (codes "eph_keygen_round4") (codes "id");
  local_sigs = mailbox-Delivers seven_text 2 3 25 (codes "round1_local_sig") (codes "id");
}

joined :
    signup
      (mailbox seven_text)
      wire
      party
      none
      1
      (codes "signupsign")
      (record { threshold = to_text 2; parties = to_text 3 })
      (sha256_digest (λ m. m) (b'P' ∷ []))
      8
      (codes "EdDSA")
      100
    ≡ ret (ok (record { number = 2; uuid = codes "id" }, 3), 100)
unfolding signup text_eq parse_u16 parse_u64 get_reply put_reply put_place get_place put_text
    get_text to_text
joined = refl

abbrev keys_file : Files ℕ
keys_file = record { read_file = λ path w. some []; write_file = λ path text w. none }

path_key : key_at numbers big ed 5 3 (codes "0/1") ≡ ret (1440, 175)
unfolding key_at
path_key = refl

abbrev no_hex : Text → Option (List ℕ)
no_hex s = none

message_is : message_bytes no_hex (codes "P") ≡ b'P' ∷ []
unfolding message_bytes
message_is = refl

signature_value :
    signature_at numbers big ed (codes "0/1") (record { r = 21; s = 21 }) 1440 (b'P' ∷ []) 175
    ≡ record { r = 21; s = 14021 }
unfolding signature_at challenge
signature_value = refl

-- Signer 2 of three.
run_signer_lem_example :
    Yields
      (mailbox seven_text)
      wire
      party
      Anytime
      (
        signature_at numbers big ed (codes "0/1") (record { r = 21; s = 21 }) 1440 (b'P' ∷ []) 175,
        1440,
      )
      (run_signer big ed toy_signer
        (mailbox seven_text)
        wire
        (record { poll = none; signup = none })
        1
        plain
        with_file
        toy_sign_json
        (λ i. zeros 12)
        no_hex
        (λ m. m)
        keys_file
        (codes "m")
        (codes "keys")
        (record { threshold = to_text 2; parties = to_text 3 })
        (codes "P")
        (codes "0/1")
        100)
run_signer_lem_example =
    run_signer_lem (mailbox seven_text) wire party (record { poll = none; signup = none }) big ed
      plain-IsAesGcm toy_signer with_file toy_sign_json seven_signers (codes "id") thirty 0 2
      (omega arith, omega arith) toy_sign_json-AreSignCodecs seven_signers-AreSigners all_arrive
      no_hex (λ m. m) keys_file (codes "keys") [] (codes "P") (to_text 3) 3 5 100 100 message_is
      refl refl path_key joined tt
