-- ===== src/Tests/Rooms.antt =====
-- The theorems about signing rooms and signups at concrete requests.
use tss_ecdsa_cli.Base.{
  ℕ, ◌+◌, ap, ◌≡◌, refl, ◌≢◌, inl, ◌⊎◌, ◌≤◌, ◌<◌, Text, codes, List, [], ◌∷◌, none, ret, arith,
  parse_u64, length,
}
use tss_ecdsa_cli.Common.{PartySignupRequestBody, SigningPartySignup, SigningPartyInfo}
use tss_ecdsa_cli.Room.Members.{lookup}
use tss_ecdsa_cli.Room.{SigningRoom, Clock, signup_timeout, signup_stage, sub_u64, pinged}
use tss_ecdsa_cli.Manager.Joining.{
  Arrival, joins_room, overfills_room, refuses_first_request, signup_for, with_member,
}
use tss_ecdsa_cli.Manager.Replacing.{locks_out_replaced}
use tss_ecdsa_cli.Manager.Polling.{Poll, poll_lem, told, closed, present_count}
use tss_ecdsa_cli.Manager.Refines.{Refines, decide_keeps_promises}
use tss_ecdsa_cli.Manager.{
  Env, Decision, decide, stored, refused, full_error, active_error, replaced_error,
}

abbrev pub clock_at : ℕ → Clock
clock_at now = record { now = now; timeout_var = none }

pub default_timeout : (now : ℕ) → signup_timeout (clock_at now) ≡ ret 2
unfolding signup_timeout parse_u64
default_timeout now = refl

abbrev pub env_at : ℕ → Text → Env
env_at now uuid = record {
  clock = clock_at now;
  instant = now;
  new_uuid = codes "room";
  renewed_uuid = codes "renewed";
  party_uuid = uuid;
}

-- A request of a party for a room of two.
abbrev pub asks : ℕ → Text → PartySignupRequestBody
asks n uuid = record {
  threshold = 1;
  room_id = codes "F00D";
  party_number = n;
  party_uuid = uuid;
  curve_name = codes "ECDSA";
}

abbrev pub member : ℕ → ℕ → Text → ℕ → ℕ × SigningPartyInfo
member n order uuid ping = (n, record { party_id = uuid; party_order = order; last_ping = ping })

abbrev room_of : List (ℕ × SigningPartyInfo) → SigningRoom
room_of members = record {
  room_id = codes "F00D";
  room_uuid = codes "room";
  room_size = 2;
  member_info = members;
  last_stage = signup_stage;
}

-- Party 4 alone, and parties 4 and 9, of which the first has not been heard of since 990.
abbrev one_member : SigningRoom
one_member = room_of (member 4 1 (codes "four") 1000 ∷ [])

abbrev stale_room : SigningRoom
stale_room = room_of (member 4 1 (codes "four") 990 ∷ member 9 2 (codes "nine") 1000 ∷ [])

abbrev pub live_room : SigningRoom
live_room = room_of (member 4 1 (codes "four") 999 ∷ member 9 2 (codes "nine") 1000 ∷ [])

arrives :
    {env : Env} {request : PartySignupRequestBody} {room : SigningRoom}
    → room.last_stage ≡ signup_stage
    → request.party_uuid ≡ []
    → Arrival env request room
arrives o e = record { is_open = o; first_request = rw e }

joins_room_example :
    (decide (env_at 1000 (codes "nine")) (asks 9 []) one_member
      ≡ ret (
          stored
            (signup_for (env_at 1000 (codes "nine")) one_member)
            (with_member (env_at 1000 (codes "nine")) (asks 9 []) one_member)))
    × ((signup_for (env_at 1000 (codes "nine")) one_member).party_order
        ≡ length one_member.member_info + 1)
    × ((signup_for (env_at 1000 (codes "nine")) one_member).party_order ≤ one_member.room_size)
unfolding lookup
joins_room_example =
    joins_room {env = env_at 1000 (codes "nine")} {request = asks 9 []} {room = one_member}
      (arrives refl refl) refl (omega arith) (omega arith)

overfills_room_example :
    (decide (env_at 1000 (codes "five")) (asks 5 []) stale_room
      ≡ ret (
          stored
            (signup_for (env_at 1000 (codes "five")) stale_room)
            (with_member (env_at 1000 (codes "five")) (asks 5 []) stale_room)))
    × (2 < (signup_for (env_at 1000 (codes "five")) stale_room).party_order)
unfolding lookup sub_u64
overfills_room_example =
    overfills_room {env = env_at 1000 (codes "five")} {request = asks 5 []} {room = stale_room} 2
      (arrives refl refl) (default_timeout 1000) refl (omega arith) (omega arith) refl

refuses_first_request_example :
    (decide (env_at 1000 (codes "five")) (asks 5 []) live_room ≡ ret (refused full_error))
    ⊎ (decide (env_at 1000 (codes "five")) (asks 5 []) live_room ≡ ret (refused active_error))
unfolding sub_u64
refuses_first_request_example =
    refuses_first_request {env = env_at 1000 (codes "five")} {request = asks 5 []}
      {room = live_room} 2 (arrives refl refl) (default_timeout 1000) (inl (omega arith, refl))

abbrev first_letter : Text → ℕ
first_letter [] = 0
first_letter (c ∷ s) = c

letters_differ : ◌≢◌ {A = ℕ} b'f' b'a'
letters_differ = omega arith

names_differ : codes "four" ≢ codes "again"
names_differ e = letters_differ (ap first_letter e)

locks_out_replaced_example :
    (s : SigningPartySignup) × (next : SigningRoom) × (decide
        (env_at 1000 (codes "again"))
        (asks 4 [])
        stale_room
      ≡ ret (stored s next))
    × (s.party_order ≡ 1)
    × (s.party_uuid ≡ codes "again")
    × (decide (env_at 1001 []) (asks 4 (codes "four")) next ≡ ret (refused replaced_error))
unfolding lookup sub_u64
locks_out_replaced_example =
    locks_out_replaced (env_at 1000 (codes "again")) (env_at 1001 []) (asks 4 [])
      (asks 4 (codes "four")) stale_room 2 2 (member 4 1 (codes "four") 990).1 (arrives refl refl)
      (default_timeout 1000) refl refl (default_timeout 1001) refl refl names_differ

abbrev polls_live :
    Poll (env_at 1000 []) (asks 4 (codes "four")) live_room 2 (member 4 1 (codes "four") 999).1
unfolding lookup signup_timeout parse_u64
polls_live = record {
  is_open = refl;
  asks_again = refl;
  timeout = refl;
  member = refl;
  own_uuid = refl;
  small = omega arith;
}

poll_lem_example :
    ((2 ≤ present_count (env_at 1000 []) (asks 4 (codes "four")) live_room 2)
      × (decide (env_at 1000 []) (asks 4 (codes "four")) live_room
          ≡ ret (
              stored
                (told
                  (member 4 1 (codes "four") 999).1
                  (codes "room")
                  (present_count (env_at 1000 []) (asks 4 (codes "four")) live_room 2))
                (closed (pinged (clock_at 1000) 4 live_room)))))
    ⊎ ((present_count (env_at 1000 []) (asks 4 (codes "four")) live_room 2 < 2)
        × (decide (env_at 1000 []) (asks 4 (codes "four")) live_room
            ≡ ret (
                stored
                  (told
                    (member 4 1 (codes "four") 999).1
                    []
                    (present_count (env_at 1000 []) (asks 4 (codes "four")) live_room 2))
                  (pinged (clock_at 1000) 4 live_room))))
poll_lem_example = poll_lem 2 (member 4 1 (codes "four") 999).1 polls_live

decide_keeps_promises_example :
    (d : Decision) × (decide (env_at 1000 (codes "nine")) (asks 9 []) one_member ≡ ret d)
    × Refines (asks 9 []) one_member d
decide_keeps_promises_example =
    decide_keeps_promises (env_at 1000 (codes "nine")) (asks 9 []) 2 one_member
      (default_timeout 1000) (omega arith)
