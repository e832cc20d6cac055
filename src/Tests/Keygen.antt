-- ===== src/Tests/Keygen.antt =====
-- The theorems about rounds and key generations at three parties that all draw the number 7.
use tss_ecdsa_cli.Base.{
  ℕ, ◌≡◌, refl, codes, [], ◌∷◌, none, some, ret, ok, arith, parse_u64, text_eq, to_text, zero, suc,
  ◌≤◌, ◌<◌, ◌≢◌, ◌==◌, if◌then◌else◌, length, panic, assertion, List,
}
use tss_ecdsa_cli.Files.{Files}
use tss_ecdsa_cli.Client.{client_timeout, keygen_signup}
use tss_ecdsa_cli.Protocols.Delivers.{Yields}
use tss_ecdsa_cli.Protocols.Agreed.{generate_shared_chain_code_lem}
use tss_ecdsa_cli.Protocols.Rounds.{generate_shared_chain_code}
use tss_ecdsa_cli.Protocols.Encrypted.{sealed}
use tss_ecdsa_cli.Protocols.Shares.{zeros}
use tss_ecdsa_cli.Ecdsa.Keygen.Arrives.{Arrives}
use tss_ecdsa_cli.Ecdsa.Keygen.Agreement.{run_keygen_lem}
use tss_ecdsa_cli.Ecdsa.Keygen.Session.{run_keygen, exchange_shares}
use tss_ecdsa_cli.Cipher.{aes_encrypt}
use tss_ecdsa_cli.Ecdsa.Keygen.Short.{exchange_shares_short}
use tss_ecdsa_cli.Curves.{Bignum}
use tss_ecdsa_cli.Tests.Codec.{put_text, put_signup, get_signup}
use tss_ecdsa_cli.Tests.Web.{wire, get_reply, put_reply}
use tss_ecdsa_cli.Tests.Served.{party}
use tss_ecdsa_cli.Tests.Group.{numbers, big, plain, plain-IsAesGcm}
use tss_ecdsa_cli.Tests.Mailbox.{mailbox_accepts, mailbox, Anytime, mailbox-Swaps, mailbox-Delivers}
use tss_ecdsa_cli.Tests.Library.{
  number_json, number_json-IsJson, seven_text, toy, toy_json, sevens, two_of_three, sevens-IsHonest,
  toy-AreLawful,
}

pub thirty : client_timeout none ≡ ret 30
unfolding client_timeout parse_u64
thirty = refl

generate_shared_chain_code_lem_example : Yields (mailbox seven_text) wire party Anytime 21 (
    generate_shared_chain_code
      (mailbox seven_text)
      wire
      none
      1
      numbers
      number_json
      number_json
      toy.verify
      7
      7
      party
      2
      3
      (codes "id")
      25
      3
      100)
generate_shared_chain_code_lem_example =
    generate_shared_chain_code_lem (mailbox seven_text) wire party none thirty 0 numbers number_json
      number_json toy.verify (λ i. 7) (λ i. 7) 2 3 25 (codes "id") 100 number_json-IsJson
      number_json-IsJson (omega arith) (λ i. refl)
      (mailbox-Delivers seven_text 2 3 25 (codes "round0_chain_code") (codes "id"))
      (mailbox-Delivers seven_text 2 3 25 (codes "round1_chain_code") (codes "id")) tt

abbrev pub disk : Files ℕ
disk = record { read_file = λ path w. none; write_file = λ path text w. some w }

abbrev pub Stages : ℕ → ℕ → Type 0
Stages k = Anytime

all_arrive :
    Arrives
      (mailbox seven_text)
      wire
      party
      none
      big
      plain-IsAesGcm
      toy
      toy_json
      sevens
      two_of_three
      (codes "id")
      2
      Stages
unfolding sealed put_text
all_arrive = record {
  chain_proofs = mailbox-Delivers seven_text 2 3 25 (codes "round0_chain_code") (codes "id");
  chain_codes = mailbox-Delivers seven_text 2 3 25 (codes "round1_chain_code") (codes "id");
  round1 = mailbox-Delivers seven_text 2 3 25 (codes "round1") (codes "id");
  round2 = mailbox-Delivers seven_text 2 3 25 (codes "round2") (codes "id");
  round3 = mailbox-Swaps seven_text 2 3 25 (codes "round3") (codes "id");
  round4 = mailbox-Delivers seven_text 2 3 25 (codes "round4") (codes "id");
  round5 = mailbox-Delivers seven_text 2 3 25 (codes "round5") (codes "id");
}

signed_up :
    keygen_signup
      (mailbox seven_text)
      wire
      party
      (record { parties = to_text 3; threshold = to_text 1 })
      (codes "ECDSA")
      100
    ≡ ret (ok (record { number = 2; uuid = codes "id" }), 100)
unfolding keygen_signup text_eq get_reply put_reply put_signup get_signup
signed_up = refl

-- Party 2 of three: the file has the chain code 21, the number of the party, and the key 21.
run_keygen_lem_example :
    Yields
      (mailbox seven_text)
      wire
      party
      (λ after.
        (end : ℕ) × Unit {0}
        × (disk.write_file (codes "keys") (21 ∷ 21 ∷ 2 ∷ 21 ∷ []) end ≡ some after))
      tt
      (run_keygen
        (mailbox seven_text)
        wire
        none
        1
        big
        plain
        toy
        toy_json
        disk
        (codes "m")
        (codes "keys")
        (to_text 1 ∷ to_text 3 ∷ [])
        (record { chain_code_i = 7; nonces = λ i. zeros 12 })
        100)
run_keygen_lem_example =
    run_keygen_lem (mailbox seven_text) wire party none big plain-IsAesGcm toy toy_json sevens
      two_of_three (codes "id") toy-AreLawful sevens-IsHonest thirty 0 2 (omega arith) (omega arith)
      all_arrive disk (codes "keys") 100 100 (omega arith) (omega arith) refl signed_up tt
      (λ end h. (end, refl))

-- A bignum of which 49 has one byte.
abbrev short : Bignum
short = record big { to_bytes = λ n. if n == 49 then n ∷ [] else n ∷ zeros 31 }

-- The keys with the parties 1 and 3 are 50 and 49.
abbrev shared_with : ℕ → ℕ
shared_with j = if j == 1 then 50 else 49

long_before : (j : ℕ) → 1 ≤ j → j < 3 → j ≢ 2 → length (short.to_bytes (shared_with j)) ≡ 32
long_before zero low high other = absurd (omega arith)
long_before (suc zero) low high other = refl
long_before (suc (suc j)) low high other = absurd (omega arith)

exchange_shares_short_example :
    ((text : List ℕ) → aes_encrypt plain (49 ∷ []) (zeros 12) text ≡ panic assertion)
    × (exchange_shares
          (mailbox seven_text)
          wire
          none
          1
          short
          plain
          toy
          toy_json
          (record {
            client = party;
            party_num_int = 2;
            parties = 3;
            uuid = codes "id";
            party_keys = 7;
          })
          (λ i. zeros 12)
          (50 ∷ 49 ∷ [])
          (7 ∷ 7 ∷ 7 ∷ [])
          100
        ≡ panic assertion)
exchange_shares_short_example =
    exchange_shares_short (mailbox seven_text) wire none 1 short plain toy toy_json
      (record { client = party; party_num_int = 2; parties = 3; uuid = codes "id"; party_keys = 7 })
      (λ i. zeros 12) shared_with (7 ∷ 7 ∷ 7 ∷ []) 3 {Usable = Anytime} 100 plain-IsAesGcm
      (λ j. refl) (mailbox_accepts seven_text 2 (codes "round3") (codes "id")) (omega arith)
      (omega arith) (omega arith) (omega arith) (omega arith) long_before tt
