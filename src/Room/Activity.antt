-- ===== src/Room/Activity.antt =====
-- Who is active in a room: the tests of src/common/signing_room.rs with the panics gone, for a
-- timeout `t` that the environment variable gives.
use tss_ecdsa_cli.Base.{
  ℕ, ◌+◌, ◌≤◌, ◌<◌, ◌≡◌, Bool, true, not, ltb, leb, lt→ltb, if◌then◌else◌, length, some, text_eq,
  Text, ret, arith, filter_by, [], ◌&&◌, ◌^◌, ◌↔◌,
}
use tss_ecdsa_cli.Common.{SigningPartyInfo}
use tss_ecdsa_cli.Room.Members.{lookup, values, all_pass, all-all_pass, filter-filter_by}
use tss_ecdsa_cli.Room.{
  SigningRoom, Clock, signup_timeout, signup_stage, terminated_stage, is_full, sub_u64, to_u16,
  is_timeout, is_live, are_all_members_active, are_all_members_inactive, is_member_active,
  active_members, get_signup_info, close_signup_window, close_if_all_active, has_member,
}

-- The last ping lies before the instant from which pings count.
abbrev pub timed_out : Clock → ℕ → SigningPartyInfo → Bool
timed_out c t party = ltb party.last_ping (sub_u64 c.now t)

abbrev pub active : Clock → ℕ → SigningPartyInfo → Bool
active c t party = not (timed_out c t party)

-- The UUID of a member's request is compared with the one that it was given.
pub has_member_lem :
    (n : ℕ) (uuid : Text) (room : SigningRoom) (i : SigningPartyInfo)
    → lookup n room.member_info ≡ some i
    → has_member n uuid room ≡ text_eq i.party_id uuid
unfolding has_member
has_member_lem n uuid room i h = rw (h, has_member)

-- How many members are active.
abbrev pub active_count : Clock → ℕ → SigningRoom → ℕ
active_count c t room = length (filter_by (λ e. active c t e.1) room.member_info)

-- On a clock past the timeout, a party is active exactly if its ping is at most `t` seconds old.
pub active_iff :
    (c : Clock) (t : ℕ) (party : SigningPartyInfo)
    → t ≤ c.now
    → c.now < 2 ^ 64
    → (active c t party ≡ true) ↔ (c.now ≤ party.last_ping + t)
unfolding sub_u64
active_iff c t party h k = ground arith

module _ (c : Clock) (t : ℕ) (timeout : signup_timeout c ≡ ret t) where
  is_timeout_lem : (party : SigningPartyInfo) → is_timeout c party ≡ ret (timed_out c t party)
  unfolding is_timeout
  is_timeout_lem party = rw timeout

  is_live_lem : (party : SigningPartyInfo) → is_live c party ≡ ret (active c t party)
  unfolding is_live
  is_live_lem party = rw (is_timeout_lem party)

  pub are_all_members_active_lem :
      (room : SigningRoom)
      → are_all_members_active c room ≡ ret (all_pass (active c t) (values room.member_info))
  unfolding are_all_members_active
  are_all_members_active_lem room =
      all-all_pass (is_live c) (active c t) is_live_lem (values room.member_info)

  pub are_all_members_inactive_lem :
      (room : SigningRoom)
      → are_all_members_inactive c room
        ≡ ret (is_full room && all_pass (timed_out c t) (values room.member_info))
  unfolding are_all_members_inactive
  are_all_members_inactive_lem room =
      ground (
        arith,
        all-all_pass (is_timeout c) (timed_out c t) is_timeout_lem (values room.member_info),
      )

  pub is_member_active_lem :
      (n : ℕ) (room : SigningRoom) (i : SigningPartyInfo)
      → lookup n room.member_info ≡ some i
      → is_member_active c n room ≡ ret (active c t i)
  unfolding is_member_active
  is_member_active_lem n room i h = rw h (is_live_lem i)

  pub active_members_lem :
      (room : SigningRoom)
      → active_members c room ≡ ret (filter_by (λ e. active c t e.1) room.member_info)
  unfolding active_members
  active_members_lem room =
      filter-filter_by (λ e. is_live c e.1) (λ e. active c t e.1) (λ e. is_live_lem e.1)
        room.member_info

  pub get_signup_info_lem :
      (n : ℕ) (room : SigningRoom) (i : SigningPartyInfo)
      → lookup n room.member_info ≡ some i
      → active_count c t room < 2 ^ 16
      → get_signup_info c n room
        ≡ ret (record {
          party_order = i.party_order;
          party_uuid = i.party_id;
          room_uuid = if text_eq room.last_stage signup_stage then [] else room.room_uuid;
          total_joined = active_count c t room;
        })
  unfolding get_signup_info to_u16
  get_signup_info_lem n room i h k =
      rw (h, active_members_lem room, lt→ltb (active_count c t room) (2 ^ 16) k)

  -- The window closes exactly if the room is full and enough members are active.
  pub close_if_all_active_lem :
      (room : SigningRoom)
      → close_if_all_active c room
        ≡ ret (
            if is_full room && leb room.room_size (active_count c t room)
            then record room { last_stage = terminated_stage }
            else room)
  unfolding close_if_all_active close_signup_window
  close_if_all_active_lem room = ground (arith, active_members_lem room)
