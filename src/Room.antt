-- ===== src/Room.antt =====
-- `SigningRoom` of src/common/signing_room.rs. A method that changes the room returns the new room;
-- one that can panic returns a `Run`. The time is read once per request.
pub mod Members
pub mod Activity
pub mod Valid
use tss_ecdsa_cli.Base.{
  ℕ, ◌+◌, ◌-◌, ◌%◌, ◌^◌, Text, codes, text_eq, parse_u64, List, [], Option, none, some, Bool, true,
  false, not, ltb, leb, if◌then◌else◌, length, filter_by, Run, ret, panic, unwrap, ◌>>=◌,
  unwrap_option, ◌≡◌, refl, ◌&&◌,
}
use tss_ecdsa_cli.Common.{SigningPartySignup, SigningPartyInfo}
use Members.{MemberMap, lookup, insert, modify, values, all, filter}

pub record SigningRoom : Type 0 where
  pub room_id : Text
  pub room_uuid : Text
  pub room_size : ℕ
  pub member_info : MemberMap
  pub last_stage : Text

-- What the methods read of their surroundings: the seconds since the Unix epoch, and the value of
-- TSS_MANAGER_SIGNUP_TIMEOUT where it is set.
pub record Clock : Type 0 where
  pub now : ℕ
  pub timeout_var : Option Text

abbrev pub signup_timeout_default : Text
signup_timeout_default = codes "2"

abbrev pub signup_stage : Text
signup_stage = codes "signup"

abbrev pub terminated_stage : Text
terminated_stage = codes "terminated"

-- The last argument is the value that `Uuid::new_v4` gives.
unfoldable pub new : Text → ℕ → Text → SigningRoom
new room_id size uuid = record {
  room_id = room_id;
  room_uuid = uuid;
  room_size = size;
  member_info = [];
  last_stage = signup_stage;
}

unfoldable pub new_sign_party : ℕ → Text → SigningPartySignup
new_sign_party party_order uuid = record {
  party_order = party_order;
  party_uuid = uuid;
  room_uuid = [];
  total_joined = 0;
}

unfoldable pub is_full : SigningRoom → Bool
is_full room = leb room.room_size (length room.member_info)

-- `u64` subtraction as a release build computes it.
unfoldable pub sub_u64 : ℕ → ℕ → ℕ
sub_u64 a b = (a + 2 ^ 64 - b) % 2 ^ 64

-- `u16` addition as a release build computes it.
abbrev pub add_u16 : ℕ → ℕ → ℕ
add_u16 a b = (a + b) % 2 ^ 16

-- `u16` subtraction as a release build computes it.
abbrev pub sub_u16 : ℕ → ℕ → ℕ
sub_u16 a b = (a + 2 ^ 16 - b) % 2 ^ 16

-- `u16::try_from(n).unwrap()`.
unfoldable pub to_u16 : ℕ → Run ℕ
to_u16 n = if ltb n (2 ^ 16) then ret n else panic unwrap

abbrev var_or : Option Text → Text → Text
var_or none d = d
var_or (some s) d = s

-- The parse of the environment variable in `is_timeout`.
unfoldable pub signup_timeout : Clock → Run ℕ
signup_timeout c = unwrap_option (parse_u64 (var_or c.timeout_var signup_timeout_default))

unfoldable pub is_timeout : Clock → SigningPartyInfo → Run Bool
unfolding sub_u64
is_timeout c party = do
  timeout ← signup_timeout c
  ret (ltb party.last_ping (sub_u64 c.now timeout))

abbrev pub joined : Clock → SigningPartySignup → SigningPartyInfo
joined c s = record { party_id = s.party_uuid; party_order = s.party_order; last_ping = c.now }

unfoldable pub add_party : Clock → Text → ℕ → SigningRoom → Run (SigningPartySignup × SigningRoom)
unfolding new_sign_party to_u16
add_party c uuid party_number room = do
  count ← to_u16 (length room.member_info)
  let party_signup = new_sign_party (add_u16 count 1) uuid
  ret (
    party_signup,
    record room { member_info = insert party_number (joined c party_signup) room.member_info },
  )

unfoldable pub replace_party :
    Clock → Text → ℕ → SigningRoom → Run (SigningPartySignup × SigningRoom)
unfolding new_sign_party
replace_party c uuid party_number room = do
  old_party ← unwrap_option (lookup party_number room.member_info)
  let party_signup = new_sign_party old_party.party_order uuid
  ret (
    party_signup,
    record room { member_info = modify party_number (λ _. joined c party_signup) room.member_info },
  )

is_live : Clock → SigningPartyInfo → Run Bool
unfolding is_timeout
is_live c party = do timed_out ← is_timeout c party; ret (not timed_out)

unfoldable pub are_all_members_active : Clock → SigningRoom → Run Bool
unfolding is_live
are_all_members_active c room = all (is_live c) (values room.member_info)

unfoldable pub are_all_members_inactive : Clock → SigningRoom → Run Bool
unfolding is_full
are_all_members_inactive c room =
    if is_full room then all (is_timeout c) (values room.member_info) else ret false

unfoldable pub is_member_active : Clock → ℕ → SigningRoom → Run Bool
unfolding is_live
is_member_active c party_number room = do
  party_data ← unwrap_option (lookup party_number room.member_info)
  is_live c party_data

unfoldable pub active_members : Clock → SigningRoom → Run MemberMap
unfolding is_live
active_members c room = filter (λ e. is_live c e.1) room.member_info

unfoldable pub close_signup_window : Clock → SigningRoom → Run SigningRoom
unfolding is_full
close_signup_window c room = do
  active ← active_members c room
  ret (
      if is_full room && leb room.room_size (length active)
      then record room { last_stage = terminated_stage }
      else room)

unfoldable pub has_member : ℕ → Text → SigningRoom → Bool
has_member party_number party_uuid room = elim (lookup party_number room.member_info) [
  | none ↦ false
  | some info ↦ text_eq info.party_id party_uuid
]

unfoldable pub get_signup_info : Clock → ℕ → SigningRoom → Run SigningPartySignup
unfolding to_u16
get_signup_info c party_number room = do
  member_info ← unwrap_option (lookup party_number room.member_info)
  active ← active_members c room
  total_joined ← to_u16 (length active)
  ret (record {
    party_order = member_info.party_order;
    party_uuid = member_info.party_id;
    room_uuid = if text_eq room.last_stage signup_stage then [] else room.room_uuid;
    total_joined = total_joined;
  })

-- The room after `update_ping` has written the time of the ping, and before it looks at the window.
unfoldable pub pinged : Clock → ℕ → SigningRoom → SigningRoom
pinged c party_number room = record room {
  member_info = modify party_number (λ i. record i { last_ping = c.now }) room.member_info;
}

-- The `if` of `update_ping`.
unfoldable pub close_if_all_active : Clock → SigningRoom → Run SigningRoom
unfolding is_full
close_if_all_active c room =
    if is_full room
    then (do
      active ← active_members c room
      if leb room.room_size (length active) then close_signup_window c room else ret room)
    else ret room

unfoldable pub update_ping : Clock → ℕ → SigningRoom → Run (SigningPartySignup × SigningRoom)
unfolding pinged
update_ping c party_number room = do
  _ ← unwrap_option (lookup party_number room.member_info)
  closed ← close_if_all_active c (pinged c party_number room)
  info ← get_signup_info c party_number closed
  ret (info, closed)
