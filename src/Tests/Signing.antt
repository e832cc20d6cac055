-- ===== src/Tests/Signing.antt =====
-- A session of the signers of src/protocols/ecdsa/signer.rs: three that all send the number 7.
use tss_ecdsa_cli.Base.{
  ◌≡◌, refl, codes, [], ◌∷◌, none, ret, ok, ◌>>=◌, arith, parse_u64, parse_u16, text_eq, to_text,
}
use tss_ecdsa_cli.Digest.{sha256_digest}
use tss_ecdsa_cli.Client.Signup.{signup}
use tss_ecdsa_cli.HdKeys.{get_hd_key}
use tss_ecdsa_cli.Protocols.Delivers.{Yields}
use tss_ecdsa_cli.Protocols.{fold_from_head}
use tss_ecdsa_cli.Ecdsa.Signer.{update_leader}
use tss_ecdsa_cli.Ecdsa.Signer.Leader.{update_leader-key, committed_key, secret_commitments}
use tss_ecdsa_cli.Ecdsa.Signer.Arrives.{SignArrives}
use tss_ecdsa_cli.Ecdsa.Signer.Agreement.{sign_lem}
use tss_ecdsa_cli.Ecdsa.Signer.Honest.{signer_of}
use tss_ecdsa_cli.Ecdsa.Signer.Signature.{sign}
use tss_ecdsa_cli.Tests.Codec.{put_text, get_text}
use tss_ecdsa_cli.Tests.Web.{wire, get_reply, put_reply, put_place, get_place}
use tss_ecdsa_cli.Tests.Served.{party}
use tss_ecdsa_cli.Tests.Group.{numbers, numbers-IsCurve, big}
use tss_ecdsa_cli.Tests.Mailbox.{mailbox, Anytime, mailbox-Swaps, mailbox-Delivers}
use tss_ecdsa_cli.Tests.Library.{seven_text}
use tss_ecdsa_cli.Tests.Keygen.{thirty, Stages}
use tss_ecdsa_cli.Tests.SignLibrary.{
  toy_signer, toy_sign_json, toy_sign_json-AreSignCodecs, seven_signers, seven_signers-IsAccepted,
  seven_signers-AreUpdated,
}

all_signed :
    SignArrives
      (mailbox seven_text)
      wire
      party
      big
      toy_signer
      toy_sign_json
      seven_signers
      (codes "id")
      2
      Stages
all_signed = record {
  round0 = mailbox-Delivers seven_text 2 3 25 (codes "round0") (codes "id");
  round1 = mailbox-Delivers seven_text 2 3 25 (codes "round1") (codes "id");
  round2 = mailbox-Swaps seven_text 2 3 25 (codes "round2") (codes "id");
  round3 = mailbox-Delivers seven_text 2 3 25 (codes "round3") (codes "id");
  round4 = mailbox-Delivers seven_text 2 3 25 (codes "round4") (codes "id");
  round5 = mailbox-Delivers seven_text 2 3 25 (codes "round5") (codes "id");
  round6 = mailbox-Delivers seven_text 2 3 25 (codes "round6") (codes "id");
  round7 = mailbox-Delivers seven_text 2 3 25 (codes "round7") (codes "id");
  round8 = mailbox-Delivers seven_text 2 3 25 (codes "round8") (codes "id");
  round9 = mailbox-Delivers seven_text 2 3 25 (codes "round9") (codes "id");
}

joined :
    signup
      (mailbox seven_text)
      wire
      party
      none
      1
      (codes "signupsign")
      (record { threshold = to_text 2; parties = to_text 3 })
      (sha256_digest (λ m. m) (200 ∷ []))
      7
      (codes "ECDSA")
      100
    ≡ ret (ok (record { number = 2; uuid = codes "id" }, 3), 100)
unfolding signup text_eq parse_u16 parse_u64 get_reply put_reply put_place get_place put_text
    get_text to_text
joined = refl

-- Signer 2 of three.
sign_lem_example :
    Yields
      (mailbox seven_text)
      wire
      party
      Anytime
      (record {
        r = to_text 21;
        s = to_text 22;
        recid = 0;
        x = to_text 54;
        y = to_text 54;
        msg_int = 200;
      })
      (sign big to_text toy_signer
        (mailbox seven_text)
        wire
        (record { poll = none; signup = none })
        1
        toy_sign_json
        (λ m. m)
        (codes "m")
        (record { threshold = to_text 2; parties = to_text 3 })
        (signer_of big toy_signer seven_signers 2)
        100)
sign_lem_example =
    sign_lem (mailbox seven_text) wire party (record { poll = none; signup = none }) big to_text
      toy_signer toy_sign_json seven_signers (codes "id") thirty 0 2 (omega arith) (omega arith)
      toy_sign_json-AreSignCodecs seven_signers-IsAccepted seven_signers-AreUpdated all_signed
      (λ m. m) (record { threshold = to_text 2; parties = to_text 3 }) 100 100 joined tt

-- The key 5 of two parties, and its child at the path 0/1.
derived_five : get_hd_key numbers big 5 (codes "0/1") 3 ≡ ret (180, 175)
unfolding get_hd_key
derived_five = refl

committed_five : committed_key toy_signer ((3 ∷ 7 ∷ []) ∷ (2 ∷ 8 ∷ []) ∷ []) ≡ ret 5
unfolding committed_key secret_commitments fold_from_head
committed_five = refl

update_leader-key_example :
    (update_leader toy_signer 175 ((3 ∷ 7 ∷ []) ∷ (2 ∷ 8 ∷ []) ∷ []) >>= committed_key toy_signer)
    ≡ ret 180
update_leader-key_example =
    update_leader-key toy_signer big numbers-IsCurve (λ params cs. refl) (3 ∷ 7 ∷ []) (2 ∷ 8 ∷ [])
      [] 3 (7 ∷ []) 5 180 3 (codes "0/1") 175 refl refl committed_five derived_five
