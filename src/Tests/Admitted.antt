-- ===== src/Tests/Admitted.antt =====
-- Party 9 of a room of two waits for the manager to tell the UUID of the room.
use tss_ecdsa_cli.Base.{◌≤◌, ◌≡◌, refl, codes, [], false, ret, text_eq, arith}
use tss_ecdsa_cli.Room.Members.{lookup, modify}
use tss_ecdsa_cli.Room.{pinged, sub_u64}
use tss_ecdsa_cli.Manager.{sign_key}
use tss_ecdsa_cli.Manager.Polling.{Poll, present_count}
use tss_ecdsa_cli.Client.Signup.{Waiting, wait_for_room}
use tss_ecdsa_cli.Client.Admitted.{Admits, wait_for_room_ends, told_in}
use tss_ecdsa_cli.Tests.Codec.{put_text, get_text, room_json, room_json-IsJson}
use tss_ecdsa_cli.Tests.Rooms.{env_at, asks, live_room, default_timeout}
use tss_ecdsa_cli.Tests.Store.{timed_store, timed_store-IsTtlHashMap, empty_db}
use tss_ecdsa_cli.Tests.Served.{Site, site_network, site_network-Serves, party}
use tss_ecdsa_cli.Tests.Web.{wire, put_body, get_body, sign_reply-IsJson}

-- A second before the last ping but one runs out.
abbrev site : Site
site = record {
  millis = 1000000;
  manager = record {
    db =
        (timed_store 300).insert 1000 (sign_key (asks 9 (codes "nine")))
          (room_json.to_string live_room) empty_db;
    poisoned = false;
  };
}

abbrev waiting : Waiting
waiting = record {
  party_signup = record { number = 2; uuid = [] };
  last_total_joined = 1;
  now = 999000;
}

polls :
    Poll
      (env_at 1000 (codes "party"))
      (asks 9 (codes "nine"))
      live_room
      2
      (record { party_id = codes "nine"; party_order = 2; last_ping = 1000 })
unfolding lookup
polls = record {
  is_open = refl;
  asks_again = refl;
  timeout = default_timeout 1000;
  member = refl;
  own_uuid = refl;
  small = omega arith;
}

all_present : 2 ≤ present_count (env_at 1000 (codes "party")) (asks 9 (codes "nine")) live_room 2
unfolding pinged sub_u64 modify
all_present = omega arith

admits :
    Admits
      (timed_store 300)
      room_json
      (env_at 1000 (codes "party"))
      (asks 9 (codes "nine"))
      live_room
      2
      (record { party_id = codes "nine"; party_order = 2; last_ping = 1000 })
      site.manager
admits = record {
  text = room_json.to_string live_room;
  usable = refl;
  found =
      (timed_store-IsTtlHashMap 300).get-insert_self empty_db (sign_key (asks 9 (codes "nine")))
        (room_json.to_string live_room) 1000 1000 (omega arith) (omega arith);
  read = room_json-IsJson.from_str-to_string live_room;
  poll = polls;
  enough = all_present;
}

clock :
    999000
    ≤ site_network.system_clock (
        told_in site_network-Serves sign_reply-IsJson
          (asks 9 (codes "nine"))
          live_room
          2
          (record { party_id = codes "nine"; party_order = 2; last_ping = 1000 })
          site)
unfolding text_eq get_body put_body get_text put_text
clock = omega arith

-- The order 2, the UUID of the room and the count 2.
wait_for_room_ends_example :
    wait_for_room site_network wire party 2
      (codes "signupsign")
      (asks 9 (codes "nine"))
      30
      waiting
      site
    ≡ ret (
      (
        record { number = 2; uuid = codes "room" },
        present_count (env_at 1000 (codes "party")) (asks 9 (codes "nine")) live_room 2,
      ),
      told_in site_network-Serves sign_reply-IsJson
          (asks 9 (codes "nine"))
          live_room
          2
          (record { party_id = codes "nine"; party_order = 2; last_ping = 1000 })
          site,
    )
wait_for_room_ends_example =
    wait_for_room_ends site_network-Serves sign_reply-IsJson (asks 9 (codes "nine")) live_room 2
      (record { party_id = codes "nine"; party_order = 2; last_ping = 1000 }) site admits refl 0 30
      waiting refl clock
