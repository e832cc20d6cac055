-- ===== src/Manager/Polling.antt =====
-- A member of a signing room of src/common/manager.rs that asks again: the loop of `signup`.
use tss_ecdsa_cli.Base.{
  ℕ, ◌≤◌, ◌<◌, ◌^◌, ◌≡◌, ◌⊎◌, ◌∙◌, Text, [], some, true, false, length, arith, ret, ◌>>=◌,
  >>=_assoc, text_eq, text_eq_iff, leb, leb→le, le→leb, if◌then◌else◌, Bool-cases, inl, inr, ◌&&◌,
  length-filter_by-le,
}
use tss_ecdsa_cli.Common.{PartySignupRequestBody, SigningPartySignup, SigningPartyInfo}
use tss_ecdsa_cli.Room.Members.{lookup, lookup-modify_self, length-modify}
use tss_ecdsa_cli.Room.Activity.{
  active, has_member_lem, active_count, are_all_members_active_lem, close_if_all_active_lem,
  get_signup_info_lem,
}
use tss_ecdsa_cli.Room.{
  SigningRoom, signup_stage, terminated_stage, signup_timeout, is_full, pinged, has_member,
  update_ping, close_if_all_active, get_signup_info,
}
use tss_ecdsa_cli.Manager.Joining.{decide_open}
use tss_ecdsa_cli.Manager.{Env, stored, to_stored, sign_up, enroll, decide, is_new}

-- A request of the member `i`, under its UUID, to a room whose window is open.
pub record Poll (env : Env) (request : PartySignupRequestBody) (room : SigningRoom) (t : ℕ)
    (i : SigningPartyInfo) : Type 0 where
  pub is_open : room.last_stage ≡ signup_stage
  pub asks_again : is_new request ≡ false
  pub timeout : signup_timeout env.clock ≡ ret t
  pub member : lookup request.party_number room.member_info ≡ some i
  pub own_uuid : i.party_id ≡ request.party_uuid
  pub small : length room.member_info < 2 ^ 16

-- The members that are active once the ping is noted.
abbrev pub present_count : Env → PartySignupRequestBody → SigningRoom → ℕ → ℕ
present_count env request room t =
    active_count env.clock t (pinged env.clock request.party_number room)

abbrev pub told : SigningPartyInfo → Text → ℕ → SigningPartySignup
told i room_uuid total = record {
  party_order = i.party_order;
  party_uuid = i.party_id;
  room_uuid = room_uuid;
  total_joined = total;
}

abbrev pub closed : SigningRoom → SigningRoom
closed room = record room { last_stage = terminated_stage }

module _ {env : Env} {request : PartySignupRequestBody} {room : SigningRoom} (t : ℕ)
    (i : SigningPartyInfo) (p : Poll env request room t i) where
  abbrev after : SigningRoom
  after = pinged env.clock request.party_number room

  member_after :
      lookup request.party_number after.member_info ≡ some (record i { last_ping = env.clock.now })
  unfolding pinged
  member_after = lookup-modify_self request.party_number _ room.member_info i p.member

  count-le : present_count env request room t ≤ length room.member_info
  unfolding pinged
  count-le = le_of_length (length-filter_by-le (λ e. active env.clock t e.1) after.member_info) (
      length-modify request.party_number (λ j. record j { last_ping = env.clock.now })
        room.member_info)
    where
      le_of_length : {a b c : ℕ} → a ≤ b → b ≡ c → a ≤ c
      le_of_length h e = omega arith

  known : has_member request.party_number request.party_uuid room ≡ true
  known =
      has_member_lem request.party_number request.party_uuid room i p.member
      ∙ (text_eq_iff i.party_id request.party_uuid).1 p.own_uuid

  decide_poll :
      decide env request room
      ≡ (update_ping env.clock request.party_number room >>= λ r. ret (to_stored r))
  decide_poll = decide_open env request room p.is_open ∙ enrolled
    where
      enrolled :
          enroll env request room
          ≡ (update_ping env.clock request.party_number room >>= λ r. ret (to_stored r))
      enrolled =
          unfold enroll sign_up in
          rw (p.asks_again, known)
            (ground (arith, are_all_members_active_lem env.clock t p.timeout room))

  updated : (update_ping env.clock request.party_number room >>= λ r. ret (to_stored r)) ≡ (
      close_if_all_active env.clock after >>= λ next.
      get_signup_info env.clock request.party_number next >>= λ info. ret (stored info next))
  unfolding update_ping
  updated = rw p.member (simp >>=_assoc)

  closing :
      close_if_all_active env.clock after
      ≡ ret (
          if is_full after && leb after.room_size (active_count env.clock t after)
          then closed after
          else after)
  closing = close_if_all_active_lem env.clock t p.timeout after

  full_after : room.room_size ≤ present_count env request room t → is_full after ≡ true
  unfolding is_full pinged
  full_after enough =
      le→leb room.room_size (length after.member_info) (within count-le-after enough)
    where
      count-le-after : present_count env request room t ≤ length after.member_info
      count-le-after = length-filter_by-le (λ e. active env.clock t e.1) after.member_info

      within : {a b c : ℕ} → a ≤ b → c ≤ a → c ≤ b
      within h k = omega arith

  closes :
      room.room_size ≤ present_count env request room t
      → close_if_all_active env.clock after ≡ ret (closed after)
  closes enough = closing ∙ rw (full_after enough) (unfold pinged in rw (le→leb _ _ enough))

  stays :
      present_count env request room t < room.room_size
      → close_if_all_active env.clock after ≡ ret after
  stays few =
      let no : leb room.room_size (present_count env request room t) ≡ false = ground arith in
      closing ∙ unfold pinged in rw no (ground arith)

  info_closed :
      get_signup_info env.clock request.party_number (closed after)
      ≡ ret (told i room.room_uuid (present_count env request room t))
  unfolding pinged text_eq
  info_closed =
      get_signup_info_lem env.clock t p.timeout request.party_number (closed after)
        (record i { last_ping = env.clock.now }) member_after (omega (arith, count-le, p.small))

  info_open :
      get_signup_info env.clock request.party_number after
      ≡ ret (told i [] (present_count env request room t))
  unfolding pinged
  info_open =
      get_signup_info_lem env.clock t p.timeout request.party_number after
        (record i { last_ping = env.clock.now }) member_after (omega (arith, count-le, p.small))
      ∙ rw ((text_eq_iff room.last_stage signup_stage).1 p.is_open)

  -- A request of a member, under its UUID, to a room whose window is open and that has fewer than 2
  -- ^ 16 members, where the timeout can be read: the ping is noted. If as many members as the room
  -- is for are then active, the window is closed and the room's UUID told; otherwise the window
  -- stays open and no UUID is told. Either way the number of active members is told.
  pub poll_lem :
      ((room.room_size ≤ present_count env request room t)
        × (decide env request room
            ≡ ret
                (stored (told i room.room_uuid (present_count env request room t)) (closed after))))
      ⊎ ((present_count env request room t < room.room_size)
          × (decide env request room
              ≡ ret (stored (told i [] (present_count env request room t)) after)))
  poll_lem = elim (Bool-cases (leb room.room_size (present_count env request room t))) [
    | inl enough ↦
        inl
          (leb→le _ _ enough, decide_poll ∙ updated ∙ rw (closes (leb→le _ _ enough), info_closed))
    | inr few ↦ inr (ground arith, decide_poll ∙ updated ∙ rw (stays (ground arith), info_open))
  ]
