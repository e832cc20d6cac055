-- ===== src/Tests/Library.antt =====
-- The steps of the library of src/protocols/ecdsa/keygen.rs over numbers, for parties that all draw
-- the number 7, and codecs in which such a number and a sealed share are one text.
use tss_ecdsa_cli.Base.{ℕ, ◌+◌, refl, Text, [], ◌∷◌, foldl, Option, none, some, true, ◌==◌}
use tss_ecdsa_cli.Common.{Aead}
use tss_ecdsa_cli.Manager.Store.{Json, IsJson}
use tss_ecdsa_cli.Protocols.Shares.{zeros}
use tss_ecdsa_cli.Ecdsa.Library.{Library, Codecs, Parameters}
use tss_ecdsa_cli.Ecdsa.Keygen.Honest.{Drawn, IsHonest, AreLawful}
use tss_ecdsa_cli.Tests.Codec.{put_text, get_text, get_text-put_text}
use tss_ecdsa_cli.Tests.Group.{numbers, numbers-IsShared, big, big-IsBignum}

abbrev second : Text → Option ℕ
second [] = none
second (a ∷ []) = none
second (a ∷ n ∷ s) = some n

abbrev pub number_json : Json ℕ
number_json = record { to_string = λ n. 32 ∷ n ∷ zeros 43; from_str = second }

pub number_json-IsJson : IsJson number_json
number_json-IsJson = record { from_str-to_string = λ n. refl }

abbrev pub seven_text : Text
seven_text = 32 ∷ 7 ∷ zeros 43

abbrev to_aead : Option (Text × Text) → Option Aead
to_aead none = none
to_aead (some (ciphertext, tag)) = some (record { ciphertext = ciphertext; tag = tag })

abbrev pub aead_json : Json Aead
aead_json = record {
  to_string = λ a. put_text a.ciphertext a.tag;
  from_str = λ s. to_aead (get_text s);
}

pub aead_json-IsJson : IsJson aead_json
aead_json-IsJson = record { from_str-to_string = λ a. rw (get_text-put_text a.ciphertext a.tag) }

abbrev pub toy : Library numbers
toy = record {
  Keys = ℕ;
  KeyGenBroadcastMessage1 = ℕ;
  KeyGenDecommitMessage1 = ℕ;
  VerifiableSs = ℕ;
  SharedKeys = ℕ;
  DlogProof = ℕ;
  EncryptionKey = ℕ;
  create = λ i. 7;
  u_i = λ k. k;
  phase1_broadcast_phase3_proof_of_correct_key = λ k. (k, k);
  e = λ m. m;
  y_i = λ m. m;
  phase1_verify_com_phase3_verify_correct_key_phase2_distribute =
      λ k params decoms messages. some (k, decoms, 0);
  phase2_verify_vss_construct_keypair_phase3_pok_dlog =
      λ k params points shares vsses p. some (foldl (λ a b. a + b) 0 shares, k);
  verify_dlog_proofs = λ params proofs points. true;
  prove = λ a. a;
  verify = λ a. a == 7;
}

abbrev pub toy_json : Codecs toy
toy_json = record {
  scalar = number_json;
  aead = aead_json;
  broadcast_message = number_json;
  decommit_message = number_json;
  vss = number_json;
  dlog_proof = number_json;
  stored = record { to_string = λ s. s.1 ∷ s.2 ∷ s.3 ∷ s.6 ∷ []; from_str = λ s. none };
}

abbrev pub sevens : Drawn toy
sevens = record {
  keys = λ i. 7;
  chain_code = λ i. 7;
  nonces = λ p i. zeros 12;
  vss = λ i. 7;
  share = λ p i. 7;
  index = λ i. 0;
  shared_keys = λ i. 21;
  proof = λ i. 7;
  shared_x = λ p i. 49;
}

abbrev pub two_of_three : Parameters
two_of_three = record { threshold = 1; share_count = 3 }

pub sevens-IsHonest : IsHonest toy sevens big two_of_three
sevens-IsHonest = record {
  proves = λ i. refl;
  own_point = λ i. refl;
  distributes = λ p. refl;
  constructs = λ p. refl;
  proofs_verify = refl;
  has_x = λ p i. refl;
  key_length = λ p i. refl;
  nonce_length = λ p i. refl;
}

pub toy-AreLawful : AreLawful big toy_json
toy-AreLawful = record {
  shared = numbers-IsShared;
  numbers = big-IsBignum;
  scalars = number_json-IsJson;
  packs = aead_json-IsJson;
  messages = number_json-IsJson;
  decommitments = number_json-IsJson;
  vsses = number_json-IsJson;
  proofs = number_json-IsJson;
}
