-- ===== src/Tests/SignLibrary.antt =====
-- The steps of the library of src/protocols/ecdsa/signer.rs over numbers, for signers that all have the
-- index 7 and send the number 7, and codecs in which their messages are one text.
use tss_ecdsa_cli.Base.{
  ℕ, ◌+◌, ◌*◌, refl, Text, List, [], ◌∷◌, map, foldl, Option, none, some, true, ◌==◌, arith,
}
use tss_ecdsa_cli.Manager.Store.{Json}
use tss_ecdsa_cli.Protocols.Shares.{zeros}
use tss_ecdsa_cli.Ecdsa.Library.{Library}
use tss_ecdsa_cli.Ecdsa.Signer.Crates.{SignLibrary, SignCodecs}
use tss_ecdsa_cli.Ecdsa.Signer.{update_private}
use tss_ecdsa_cli.Ecdsa.Signer.Honest.{SignDrawn, IsAccepted, AreUpdated, AreSignCodecs}
use tss_ecdsa_cli.Tests.Group.{numbers, big, first_or_zero}
use tss_ecdsa_cli.Tests.Library.{toy, number_json, number_json-IsJson}

abbrev pub sum : List ℕ → ℕ
sum = foldl (λ a b. a + b) 0

-- Schemes are their commitments.
abbrev pub listed : Library numbers
listed = record toy {
  VerifiableSs = List ℕ;
  phase1_verify_com_phase3_verify_correct_key_phase2_distribute =
      λ k params decoms messages. some ([], decoms, 0);
  phase2_verify_vss_construct_keypair_phase3_pok_dlog =
      λ k params points shares vsses p. some (0, k);
}

abbrev pub toy_signer : SignLibrary listed
toy_signer = record {
  ShamirSecretSharing = ℕ;
  DecryptionKey = ℕ;
  PartyPrivate = ℕ;
  SignKeys = ℕ;
  MessageA = ℕ;
  MessageB = ℕ;
  SignBroadcastPhase1 = ℕ;
  SignDecommitPhase1 = ℕ;
  LocalSignature = ℕ;
  Phase5Com1 = ℕ;
  Phase5ADecom1 = ℕ;
  HomoElGamalProof = ℕ;
  Phase5Com2 = ℕ;
  Phase5DDecom2 = ℕ;
  SignatureRecid = ℕ;
  parameters = λ v. 0;
  commitments = λ v. v;
  verifiable_ss = λ params commitments. commitments;
  dk = λ k. k;
  ek = λ k. k;
  same_point = λ p q. p == q;
  set_private = λ k s. k + s;
  update_private_key = λ p u x. p + x;
  create = λ p vss i is. 7;
  k_i = λ k. k;
  gamma_i = λ k. k;
  w_i = λ k. 0;
  phase1_broadcast = λ k. (k, k);
  a = λ k ek. 0;
  b = λ s ek m. some (s, s + ek + m);
  b_proof = λ m. m;
  pk = λ p. p;
  verify_proofs_get_alpha = λ m dk k. some (m + dk);
  get_commitments_to_xi = map first_or_zero;
  update_commitments_to_xi = λ xi vss i is. 0;
  phase2_delta_i = λ k alphas betas. k;
  phase2_sigma_i = λ k mius nis. sum mius + sum nis;
  phase3_reconstruct_delta = sum;
  phase4 = λ inv proofs decoms coms. some (sum decoms);
  g_gamma_i = λ d. d;
  phase5_local_sig = λ k m r sigma y. k;
  phase5a_broadcast_5b_zkproof = λ l. (l, l, 0, 0);
  v_i = λ d. d;
  phase5c = λ l decoms coms proofs dlogs v r. some (l, l);
  phase5d = λ l decoms coms opened. some l;
  output_signature = λ l ss. some (l + sum ss);
  verify = λ s y m. s == 21;
  r = λ s. s;
  s = λ s. s + 1;
  recid = λ s. 0;
}

-- A second and a third number after the first.
abbrev pair_of : Text → Option (ℕ × ℕ)
pair_of [] = none
pair_of (h ∷ []) = none
pair_of (h ∷ a ∷ []) = none
pair_of (h ∷ a ∷ b ∷ s) = some (a, b)

abbrev triple_of : Text → Option (ℕ × ℕ × ℕ)
triple_of [] = none
triple_of (h ∷ []) = none
triple_of (h ∷ a ∷ []) = none
triple_of (h ∷ a ∷ b ∷ []) = none
triple_of (h ∷ a ∷ b ∷ c ∷ s) = some (a, b, c)

abbrev pair_json : Json (ℕ × ℕ)
pair_json = record { to_string = λ p. 32 ∷ p.0 ∷ p.1 ∷ zeros 42; from_str = pair_of }

abbrev triple_json : Json (ℕ × ℕ × ℕ)
triple_json = record { to_string = λ p. 32 ∷ p.0 ∷ p.1 ∷ p.2 ∷ zeros 41; from_str = triple_of }

abbrev pub toy_sign_json : SignCodecs toy_signer
toy_sign_json = record {
  index = number_json;
  scalar = number_json;
  round1 = pair_json;
  round2 = pair_json;
  round4 = number_json;
  round5 = number_json;
  round6 = triple_json;
  round7 = number_json;
  round8 = number_json;
}

pub toy_sign_json-AreSignCodecs : AreSignCodecs toy_sign_json
toy_sign_json-AreSignCodecs = record {
  indices = number_json-IsJson;
  scalars = number_json-IsJson;
  round1 = record { from_str-to_string = λ p. refl };
  round2 = record { from_str-to_string = λ p. refl };
  round4 = number_json-IsJson;
  round5 = number_json-IsJson;
  round6 = record { from_str-to_string = λ p. refl };
  round7 = number_json-IsJson;
  round8 = number_json-IsJson;
}

abbrev five_times : {A : Type 0} → A → List A
five_times a = a ∷ a ∷ a ∷ a ∷ a ∷ []

abbrev scheme_of : ℕ → List ℕ
scheme_of c = c ∷ 7 ∷ []

-- Three signers of a message for a key at a path, with the tweak 5.
abbrev pub seven_signers : SignDrawn toy_signer
seven_signers = record {
  n = 3;
  few = omega arith;
  message = 200 ∷ [];
  y_sum = 54;
  f_l_new = 5;
  sign_at_path = true;
  vss_scheme_vec = scheme_of 7 ∷ scheme_of 7 ∷ five_times (scheme_of 7);
  paillier_key_vector = 7 ∷ 7 ∷ five_times 7;
  ids = λ i. 7;
  keys = λ i. 7;
  shared_keys = λ i. 21;
  schemes = scheme_of 12 ∷ scheme_of 7 ∷ five_times (scheme_of 7);
  private = λ i. 33;
  scheme = λ i. scheme_of 7;
  encryption_key = λ i. 7;
  xi_com = λ i. 7;
  gamma = λ p i. (7, 14);
  w = λ p i. (0, 7);
  alpha = λ p i. 14;
  miu = λ p i. 7;
  others_point = λ i. 14;
  point = 14 + 7 * 21;
  phase5c = λ i. (7, 7);
  s_i = λ i. 7;
  signature = 21;
  x = 54;
  y = 54;
}

pub seven_signers-IsAccepted : IsAccepted big toy_signer seven_signers 2
seven_signers-IsAccepted = record {
  own_scheme = λ i low high. refl;
  own_key = λ i low high. refl;
  own_xi_com = λ i low high. refl;
  gamma_answers = λ i low high. refl;
  w_answers = λ i low high. refl;
  alphas = λ i low high. refl;
  mius = λ i low high. refl;
  w_points = λ i low high. refl;
  has_point = refl;
  one_point = refl;
  commits = refl;
  opens = refl;
  one_signature = refl;
  verifies = refl;
  has_x = refl;
  has_y = refl;
}

pub seven_signers-AreUpdated : AreUpdated big toy_signer seven_signers true 2
unfolding AreUpdated update_private
seven_signers-AreUpdated =
    (scheme_of 7, scheme_of 7, five_times (scheme_of 7), 7, 7 ∷ [], refl, refl, refl, refl, refl)
