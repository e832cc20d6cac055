-- ===== src/Tests/Eddsa.antt =====
-- A key generation of src/protocols/eddsa/keygen.rs of three parties that all draw the number 7, over
-- a library whose values are numbers.
use tss_ecdsa_cli.Base.{
  ℕ, ◌+◌, ◌≡◌, refl, codes, [], ◌∷◌, foldl, none, some, ret, ok, arith, text_eq, to_text, ◌==◌,
}
use tss_ecdsa_cli.Client.{keygen_signup}
use tss_ecdsa_cli.Protocols.Delivers.{Yields}
use tss_ecdsa_cli.Protocols.Encrypted.{sealed}
use tss_ecdsa_cli.Protocols.Shares.{zeros}
use tss_ecdsa_cli.Eddsa.Library.{Library, Codecs}
use tss_ecdsa_cli.Eddsa.Keygen.Honest.{Drawn, IsHonest, AreLawful}
use tss_ecdsa_cli.Eddsa.Keygen.Arrives.{Arrives}
use tss_ecdsa_cli.Eddsa.Keygen.Agreement.{run_keygen_writes}
use tss_ecdsa_cli.Eddsa.Keygen.Session.{run_keygen}
use tss_ecdsa_cli.Tests.Codec.{put_text, put_signup, get_signup}
use tss_ecdsa_cli.Tests.Web.{wire, get_reply, put_reply}
use tss_ecdsa_cli.Tests.Served.{party}
use tss_ecdsa_cli.Tests.Group.{numbers, numbers-IsShared, big, big-IsBignum, plain, plain-IsAesGcm}
use tss_ecdsa_cli.Tests.Mailbox.{mailbox, mailbox-Swaps, mailbox-Delivers}
use tss_ecdsa_cli.Tests.Library.{
  number_json, number_json-IsJson, aead_json, aead_json-IsJson, seven_text, two_of_three,
}
use tss_ecdsa_cli.Tests.Keygen.{thirty, disk, Stages}

abbrev pub toy : Library numbers
toy = record {
  Keys = ℕ;
  KeyGenBroadcastMessage1 = ℕ;
  KeyGenDecommitMessage1 = ℕ;
  BlindFactor = ℕ;
  VerifiableSs = ℕ;
  SharedKeys = ℕ;
  DlogProof = ℕ;
  phase1_create = λ i. 7;
  private_key = λ k. k;
  phase1_broadcast = λ k. (k, k);
  y_i = λ m. m;
  blind_factor = λ m. m;
  phase1_verify_com_phase2_distribute = λ k params blinds points messages parties. some (k, points);
  phase2_verify_vss_construct_keypair =
      λ k params points shares vsses p. some (foldl (λ a b. a + b) 0 shares);
  x_i = λ s. s;
  prove = λ a. 7;
  verify = λ a. a == 7;
}

abbrev pub toy_json : Codecs toy
toy_json = record {
  scalar = number_json;
  aead = aead_json;
  broadcast_message = number_json;
  decommit_message = number_json;
  vss = number_json;
  dlog_proof = number_json;
  stored = record { to_string = λ s. s.1 ∷ s.2 ∷ s.3 ∷ s.5 ∷ []; from_str = λ s. none };
}

abbrev sevens : Drawn toy
sevens = record {
  keys = λ i. 7;
  chain_code = λ i. 7;
  nonces = λ p i. zeros 12;
  vss = λ i. 7;
  share = λ p i. 7;
  shared_keys = λ i. 21;
  shared_x = λ p i. 49;
}

sevens-IsHonest : IsHonest toy sevens big two_of_three
sevens-IsHonest = record {
  proves = λ i. refl;
  own_point = λ i. refl;
  distributes = λ p. refl;
  constructs = λ p. refl;
  has_x = λ p i. refl;
  key_length = λ p i. omega arith;
  nonce_length = λ p i. refl;
}

toy-AreLawful : AreLawful big toy_json
toy-AreLawful = record {
  shared = numbers-IsShared;
  numbers = big-IsBignum;
  scalars = number_json-IsJson;
  packs = aead_json-IsJson;
  messages = number_json-IsJson;
  decommitments = number_json-IsJson;
  vsses = number_json-IsJson;
  proofs = number_json-IsJson;
}

all_arrive :
    Arrives
      (mailbox seven_text)
      wire
      party
      none
      big
      plain-IsAesGcm
      toy
      toy_json
      sevens
      two_of_three
      (codes "id")
      2
      Stages
unfolding sealed put_text
all_arrive = record {
  chain_proofs = mailbox-Delivers seven_text 2 3 25 (codes "round0_chain_code") (codes "id");
  chain_codes = mailbox-Delivers seven_text 2 3 25 (codes "round1_chain_code") (codes "id");
  round1 = mailbox-Delivers seven_text 2 3 25 (codes "round1") (codes "id");
  round2 = mailbox-Delivers seven_text 2 3 25 (codes "round2") (codes "id");
  round3 = mailbox-Swaps seven_text 2 3 25 (codes "round3") (codes "id");
  round4 = mailbox-Delivers seven_text 2 3 25 (codes "round4") (codes "id");
  round5 = mailbox-Delivers seven_text 2 3 25 (codes "round5") (codes "id");
}

signed_up :
    keygen_signup
      (mailbox seven_text)
      wire
      party
      (record { parties = to_text 3; threshold = to_text 1 })
      (codes "EdDSA")
      100
    ≡ ret (ok (record { number = 2; uuid = codes "id" }), 100)
unfolding keygen_signup text_eq get_reply put_reply put_signup get_signup
signed_up = refl

-- Party 2 of three: the file has the chain code 21, the number of the party, and the key 21.
run_keygen_writes_example :
    Yields
      (mailbox seven_text)
      wire
      party
      (λ after.
        (end : ℕ) × Unit {0}
        × (disk.write_file (codes "keys") (21 ∷ 21 ∷ 2 ∷ 21 ∷ []) end ≡ some after))
      tt
      (run_keygen
        (mailbox seven_text)
        wire
        none
        1
        big
        plain
        toy
        toy_json
        disk
        (codes "m")
        (codes "keys")
        (to_text 1 ∷ to_text 3 ∷ [])
        (record { chain_code_i = 7; nonces = λ i. zeros 12 })
        100)
run_keygen_writes_example =
    run_keygen_writes (mailbox seven_text) wire party none big plain-IsAesGcm toy toy_json sevens
      two_of_three (codes "id") toy-AreLawful sevens-IsHonest thirty 0 2 (omega arith) (omega arith)
      all_arrive disk (codes "keys") 100 100 (omega arith) (omega arith) refl signed_up tt
      (λ end h. (end, refl))
