-- ===== src/Tests/Requests.antt =====
-- The theorems about histories, failures and key generations at concrete requests.
use tss_ecdsa_cli.Base.{
  ℕ, text_eq, ◌≡◌, refl, ◌≢◌, codes, List, [], ◌∷◌, true, false, ret, panic, unwrap, ok, err, arith,
  parse_u16,
}
use tss_ecdsa_cli.Common.{SigningPartySignup, Index, Entry, Params}
use tss_ecdsa_cli.Manager.Store.{TtlHashMap}
use tss_ecdsa_cli.Manager.Requests.{Request, gets, signs, run, end_of}
use tss_ecdsa_cli.Manager.Rooms.{RoomsValid, run-RoomsValid}
use tss_ecdsa_cli.Manager.Failures.{signup_sign_unchanged, set_poisons}
use tss_ecdsa_cli.Manager.Keygen.{keygen_batch, replies}
use tss_ecdsa_cli.Room.{new, is_full, has_member}
use tss_ecdsa_cli.Room.Members.{lookup}
use tss_ecdsa_cli.Manager.{decide, Env, Manager, signup_sign, set, get, sign_key, replaced_error}
use tss_ecdsa_cli.Tests.Store.{timed_store, timed_store-IsTtlHashMap, empty_db}
use tss_ecdsa_cli.Tests.Codec.{
  get_room, room_json, room_json-IsJson, signup_json, signup_json-IsJson,
}
use tss_ecdsa_cli.Tests.Rooms.{env_at, asks}

abbrev store : TtlHashMap
store = timed_store 300

abbrev idle : Manager store
idle = record { db = empty_db; poisoned = false }

empty_db-RoomsValid : (now : ℕ) → RoomsValid store room_json signup_json now empty_db
empty_db-RoomsValid now = record { valid_room = λ later request v h e. absurd (cc e) }

abbrev two_arrivals : List (Env × Request)
two_arrivals =
    (env_at 1000 (codes "four"), signs (asks 4 []))
    ∷ (env_at 1001 (codes "nine"), signs (asks 9 []))
    ∷ (env_at 1001 [], gets (record { key = codes "1-round0-room" }))
    ∷ []

run-RoomsValid_example :
    RoomsValid store room_json signup_json
      (end_of 1000 two_arrivals)
      (run store room_json signup_json two_arrivals idle).db
run-RoomsValid_example =
    run-RoomsValid store room_json signup_json 300 (timed_store-IsTtlHashMap 300) room_json-IsJson
      1000 two_arrivals idle (omega arith) (empty_db-RoomsValid 1000)

poll_unknown :
    (signup_sign store room_json (env_at 1000 []) (asks 4 (codes "four")) idle).0
    ≡ ret (err replaced_error)
unfolding signup_sign decide text_eq new is_full has_member lookup
poll_unknown = refl

not_accepted :
    (s : SigningPartySignup)
    → (signup_sign store room_json (env_at 1000 []) (asks 4 (codes "four")) idle).0 ≢ ret (ok s)
not_accepted s e = absurd (cc poll_unknown)

-- A poll of a party that the manager does not know.
signup_sign_unchanged_example :
    (signup_sign store room_json (env_at 1000 []) (asks 4 (codes "four")) idle).1.db ≡ empty_db
signup_sign_unchanged_example =
    signup_sign_unchanged store room_json (env_at 1000 []) (asks 4 (codes "four")) idle not_accepted

abbrev garbage : Entry
garbage = record { key = sign_key (asks 4 []); value = [] }

set_poisons_example :
    let after =
      signup_sign store room_json
        (env_at 1001 (codes "four"))
        (asks 4 [])
        (set store (env_at 1000 []) garbage idle).1 in
    (after.0 ≡ panic unwrap)
    × (after.1.poisoned ≡ true)
    × ((e : Env) (index : Index) → get store e index after.1 ≡ (panic unwrap, after.1))
unfolding get_room
set_poisons_example =
    set_poisons store room_json 300 (timed_store-IsTtlHashMap 300) (env_at 1000 [])
      (env_at 1001 (codes "four")) garbage (asks 4 []) idle refl refl refl (omega arith)
      (omega arith)

abbrev two_parties : Params
two_parties = record { parties = codes "2"; threshold = codes "1" }

keygen_batch_example :
    replies store signup_json two_parties
      (codes "ECDSA")
      (env_at 10 [] ∷ env_at 12 [] ∷ env_at 14 [] ∷ [])
      idle
    ≡ ret (ok (record { number = 1; uuid = codes "room" }))
      ∷ ret (ok (record { number = 2; uuid = codes "room" }))
      ∷ ret (ok (record { number = 1; uuid = codes "renewed" }))
      ∷ []
unfolding parse_u16
keygen_batch_example =
    keygen_batch store signup_json 300 (timed_store-IsTtlHashMap 300) signup_json-IsJson two_parties
      (codes "ECDSA") 2 refl (env_at 10 []) (env_at 14 []) (env_at 12 [] ∷ []) idle refl refl
      (omega arith) (omega arith) (omega arith)
