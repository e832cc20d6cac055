-- ===== src/Tests/Client.antt =====
-- The theorems about the messages of the clients at concrete parties and rounds.
use tss_ecdsa_cli.Base.{
  ℕ, ◌≡◌, ◌≢◌, refl, sym, to_text, Text, codes, List, [], ◌∷◌, none, false, text_eq, parse_u16,
  no_fuel, ret, ok, arith, parse_u64, IsDigit, All,
}
use tss_ecdsa_cli.Common.{Entry}
use tss_ecdsa_cli.Room.{new, is_full, add_party}
use tss_ecdsa_cli.Room.Members.{lookup, contains_key}
use tss_ecdsa_cli.Manager.{Env, set, decide, signup_sign, signup_keygen, sign_key, keygen_key}
use tss_ecdsa_cli.Manager.Requests.{Request, signs, keygens, run, step}
use tss_ecdsa_cli.Manager.Surviving.{TimelySparing, run-get}
use tss_ecdsa_cli.Client.Keys.{
  broadcast_key, p2p_key, broadcast_key-injective, p2p_key-injective, broadcast_key-ne-p2p_key,
  messages_spare_signups,
}
use tss_ecdsa_cli.Client.Waiting.{polls_end}
use tss_ecdsa_cli.Client.Delivered.{Between, broadcast-poll, sendp2p-poll, after_set}
use tss_ecdsa_cli.Client.{
  broadcast, sendp2p, poll_broadcast, poll_p2p, poll_for_broadcasts, poll_for_p2p, client_timeout,
}
use tss_ecdsa_cli.Tests.Store.{timed_store, timed_store-IsTtlHashMap, empty_db}
use tss_ecdsa_cli.Tests.Codec.{get_text, put_text, room_json, signup_json}
use tss_ecdsa_cli.Tests.Rooms.{env_at, asks}
use tss_ecdsa_cli.Tests.Web.{wire, get_entry, put_entry, set_reply-IsJson, get_reply-IsJson}
use tss_ecdsa_cli.Tests.Served.{Site, site_network, party, site_network-Serves}
use tss_ecdsa_cli.Tests.Mailbox.{mailbox, mailbox-IsTimed}

dashless : All (λ c. c ≢ b'-') (codes "round1")
dashless = omega arith

named : ¬ All IsDigit (codes "round1")
named h = absurd (omega arith)

broadcast_key-injective_example :
    (◌≡◌ {A = ℕ} 2 2) × (codes "round1" ≡ codes "round1") × (codes "id" ≡ codes "id")
broadcast_key-injective_example =
    broadcast_key-injective 2 2 (codes "round1") (codes "round1") (codes "id") (codes "id") dashless
      dashless refl

p2p_key-injective_example :
    (◌≡◌ {A = ℕ} 2 2)
    × (◌≡◌ {A = ℕ} 3 3)
    × (codes "round1" ≡ codes "round1")
    × (codes "id" ≡ codes "id")
p2p_key-injective_example =
    p2p_key-injective 2 2 3 3 (codes "round1") (codes "round1") (codes "id") (codes "id") dashless
      dashless refl

broadcast_key-ne-p2p_key_example :
    broadcast_key 1 (codes "round1") (codes "id") ≢ p2p_key 1 2 (codes "round1") (codes "id")
broadcast_key-ne-p2p_key_example =
    broadcast_key-ne-p2p_key 1 1 2 (codes "round1") (codes "round1") (codes "id") (codes "id")
      dashless named

messages_spare_signups_example :
    (broadcast_key 1 (codes "round1") (codes "id") ≢ sign_key (asks 4 []))
    × (broadcast_key 1 (codes "round1") (codes "id") ≢ keygen_key (codes "ECDSA"))
    × (p2p_key 1 2 (codes "round1") (codes "id") ≢ sign_key (asks 4 []))
    × (p2p_key 1 2 (codes "round1") (codes "id") ≢ keygen_key (codes "ECDSA"))
messages_spare_signups_example =
    messages_spare_signups 1 2 (codes "round1") (codes "id") (asks 4 []) (codes "ECDSA")

thirty : client_timeout none ≡ ret 30
unfolding client_timeout parse_u64
thirty = refl

polls_end_example :
    (poll_for_broadcasts (mailbox []) wire party none 31001 1 3 25 (codes "round1") (codes "id") 7
      ≢ no_fuel)
    × (poll_for_p2p (mailbox []) wire party none 31001 1 3 25 (codes "round1") (codes "id") 7
        ≢ no_fuel)
polls_end_example =
    polls_end (mailbox []) (mailbox-IsTimed []) wire party none 30 31001 1 3 25 (codes "round1")
      (codes "id") 7 thirty (omega arith) (omega arith)

abbrev idle : Site
idle = record { millis = 5000; manager = record { db = empty_db; poisoned = false } }

abbrev message : Text
message = codes "hello"

-- Requests of others, at the eighth second.
abbrev others_requests : List (Env × Request)
others_requests =
    (env_at 8 (codes "four"), signs (asks 4 []))
    ∷ (env_at 8 [], keygens (record { parties = codes "2"; threshold = codes "1" }) (codes "ECDSA"))
    ∷ []

-- The world in which the request of the poll arrives, and the one in which the poll starts.
abbrev arrival : Entry → Site
arrival entry = record {
  millis = 9000;
  manager =
      run (timed_store 300) room_json signup_json others_requests
        (after_set site_network-Serves 300 (timed_store-IsTtlHashMap 300) set_reply-IsJson
          get_reply-IsJson entry idle).manager;
}

abbrev polling : Entry → Site
polling entry = record (arrival entry) { millis = 8975 }

abbrev broadcast_sent : Entry
broadcast_sent = record { key = broadcast_key 1 (codes "round1") (codes "id"); value = message }

abbrev p2p_sent : Entry
p2p_sent = record { key = p2p_key 1 2 (codes "round1") (codes "id"); value = message }

spared : TimelySparing broadcast_sent.key 5 others_requests
spared = (
  omega arith,
  λ e. messages_spare_signups_example.0 (sym e),
  (omega arith, λ e. messages_spare_signups_example.1 (sym e), tt),
)

spared_p2p : TimelySparing p2p_sent.key 5 others_requests
spared_p2p = (
  omega arith,
  λ e. messages_spare_signups_example.2 (sym e),
  (omega arith, λ e. messages_spare_signups_example.3 (sym e), tt),
)

run-get_example :
    (timed_store 300).get 9 broadcast_sent.key
      (run (timed_store 300) room_json signup_json others_requests idle.manager).db
    ≡ (timed_store 300).get 9 broadcast_sent.key idle.manager.db
run-get_example =
    run-get (timed_store 300) room_json signup_json 300 (timed_store-IsTtlHashMap 300)
      broadcast_sent.key 5 others_requests idle.manager 9 spared (omega arith)

abbrev OnTheWay : Entry → Type 0
OnTheWay entry =
    Between site_network-Serves 300 (timed_store-IsTtlHashMap 300) set_reply-IsJson get_reply-IsJson
      entry idle (arrival entry) others_requests

broadcast-OnTheWay : OnTheWay broadcast_sent
unfolding run step set signup_sign decide text_eq new is_full lookup parse_u16 signup_keygen to_text
    get_entry put_entry get_text put_text broadcast_key contains_key add_party
broadcast-OnTheWay = record {
  usable = refl;
  still_usable = refl;
  history_run = refl;
  timely = spared;
  not_before = omega arith;
  after_history = omega arith;
  alive = omega arith;
}

p2p-OnTheWay : OnTheWay p2p_sent
unfolding run step set signup_sign decide text_eq new is_full lookup parse_u16 signup_keygen to_text
    get_entry put_entry get_text put_text p2p_key contains_key add_party
p2p-OnTheWay = record {
  usable = refl;
  still_usable = refl;
  history_run = refl;
  timely = spared_p2p;
  not_before = omega arith;
  after_history = omega arith;
  alive = omega arith;
}

broadcast-poll_example :
    (broadcast site_network wire party 1 (codes "round1") message (codes "id") idle
      ≡ ret (
        ok tt,
        (site_network.request (codes "m/set") (wire.entry.to_string broadcast_sent) idle).1,
      ))
    × (poll_broadcast site_network wire party 1 25 30 8975
          (broadcast_key 1 (codes "round1") (codes "id"))
          (polling broadcast_sent)
        ≡ ret (
          message,
          (site_network.request (codes "m/get") broadcast_sent.key (arrival broadcast_sent)).1,
        ))
broadcast-poll_example =
    broadcast-poll site_network-Serves 300 (timed_store-IsTtlHashMap 300) set_reply-IsJson
      get_reply-IsJson 1 (codes "round1") message (codes "id") idle (polling broadcast_sent)
      others_requests 0 25 30 8975 broadcast-OnTheWay

sendp2p-poll_example :
    (sendp2p site_network wire party 1 2 (codes "round1") message (codes "id") idle
      ≡ ret (ok tt, (site_network.request (codes "m/set") (wire.entry.to_string p2p_sent) idle).1))
    × (poll_p2p site_network wire party 1 25 30 8975
          (p2p_key 1 2 (codes "round1") (codes "id"))
          (polling p2p_sent)
        ≡ ret (message, (site_network.request (codes "m/get") p2p_sent.key (arrival p2p_sent)).1))
sendp2p-poll_example =
    sendp2p-poll site_network-Serves 300 (timed_store-IsTtlHashMap 300) set_reply-IsJson
      get_reply-IsJson 1 2 (codes "round1") message (codes "id") idle (polling p2p_sent)
      others_requests 0 25 30 8975 p2p-OnTheWay
