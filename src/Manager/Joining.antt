-- ===== src/Manager/Joining.antt =====
-- A party that is new to a signing room of src/common/manager.rs: the first request of `signup`.
use tss_ecdsa_cli.Base.{
  ℕ, ◌+◌, ◌≤◌, ◌<◌, ◌^◌, ◌≡◌, refl, [], ◌∷◌, ◌++◌, none, some, true, false, length, arith, ret,
  ◌>>=◌, text_eq_refl, ltb, lt→ltb, le→leb, if◌then◌else◌, Bool-cases, ltb→lt, if_both, inl, inr,
  ◌⊎◌, ◌%◌, ◌∙◌,
}
use tss_ecdsa_cli.Common.{PartySignupRequestBody, SigningPartySignup, SigningPartyInfo}
use tss_ecdsa_cli.Room.Members.{lookup, insert_absent, contains_key, values, all_pass}
use tss_ecdsa_cli.Room.Activity.{active, are_all_members_active_lem, is_member_active_lem}
use tss_ecdsa_cli.Room.{
  SigningRoom, signup_stage, signup_timeout, is_full, add_party, joined, add_u16, replace_party,
}
use tss_ecdsa_cli.Manager.{
  Env, stored, refused, to_stored, sign_up, enroll, decide, is_new, full_error, active_error,
}

-- The first request of a party, to a room whose window is open.
pub record Arrival (env : Env) (request : PartySignupRequestBody) (room : SigningRoom)
    : Type 0 where
  pub is_open : room.last_stage ≡ signup_stage
  pub first_request : is_new request ≡ true

-- What a new member is told.
abbrev pub signup_for : Env → SigningRoom → SigningPartySignup
signup_for env room = record {
  party_order = add_u16 (length room.member_info) 1;
  party_uuid = env.party_uuid;
  room_uuid = [];
  total_joined = 0;
}

-- The room with the new member.
abbrev pub with_member : Env → PartySignupRequestBody → SigningRoom → SigningRoom
with_member env request room = record room {
  member_info =
      room.member_info ++ (request.party_number, joined env.clock (signup_for env room)) ∷ [];
}

pub decide_open :
    (env : Env) (request : PartySignupRequestBody) (room : SigningRoom)
    → room.last_stage ≡ signup_stage
    → decide env request room ≡ enroll env request room
unfolding decide
decide_open env request room is_open = rw (is_open, text_eq_refl signup_stage)

module _ {env : Env} {request : PartySignupRequestBody} {room : SigningRoom} where
  sign_up_absent :
      Arrival env request room
      → lookup request.party_number room.member_info ≡ none
      → length room.member_info < 2 ^ 16
      → sign_up env request room ≡ ret (stored (signup_for env room) (with_member env request room))
  unfolding sign_up contains_key add_party
  sign_up_absent a absent small = rw (
    a.first_request,
    absent,
    lt→ltb (length room.member_info) (2 ^ 16) small,
    insert_absent request.party_number (joined env.clock (signup_for env room)) room.member_info
        absent,
  )

  pub sign_up_present :
      (t : ℕ) (i : SigningPartyInfo)
      → Arrival env request room
      → signup_timeout env.clock ≡ ret t
      → lookup request.party_number room.member_info ≡ some i
      → sign_up env request room ≡ (
          if active env.clock t i
          then ret (refused active_error)
          else replace_party env.clock env.party_uuid request.party_number room >>= λ r.
              ret (to_stored r))
  unfolding sign_up contains_key
  sign_up_present t i a timeout present = rw (
    a.first_request,
    present,
    is_member_active_lem env.clock t timeout request.party_number room i present,
  )

  pub enroll_with_room :
      Arrival env request room
      → length room.member_info < room.room_size
      → enroll env request room ≡ sign_up env request room
  unfolding enroll is_full
  enroll_with_room a roomy = ground arith

  pub enroll_full :
      (t : ℕ)
      → Arrival env request room
      → signup_timeout env.clock ≡ ret t
      → room.room_size ≤ length room.member_info
      → enroll env request room ≡ (
          if all_pass (active env.clock t) (values room.member_info)
          then ret (refused full_error)
          else sign_up env request room)
  unfolding enroll is_full
  enroll_full t a timeout full =
      rw
        (
          le→leb room.room_size (length room.member_info) full,
          are_all_members_active_lem env.clock t timeout room,
          a.first_request,
        )
        (ground arith)

  -- A room whose window is open and that has fewer members than it is for, which is below 2 ^ 16,
  -- takes in a party that makes its first request and that it does not know: the party gets the
  -- next order, which is at most the size of the room.
  pub joins_room :
      Arrival env request room
      → lookup request.party_number room.member_info ≡ none
      → length room.member_info < room.room_size
      → room.room_size < 2 ^ 16
      → (decide env request room
          ≡ ret (stored (signup_for env room) (with_member env request room)))
        × ((signup_for env room).party_order ≡ length room.member_info + 1)
        × ((signup_for env room).party_order ≤ room.room_size)
  joins_room a absent roomy bounded =
      let order : (length room.member_info + 1) % 2 ^ 16 ≡ length room.member_info + 1 =
        omega arith in
      (
        decide_open env request room a.is_open
            ∙ enroll_with_room a roomy
            ∙ sign_up_absent a absent (omega arith),
        order,
        rw order (omega arith),
      )

  -- A room whose window is open, with as many members as it is for or more, and one of them
  -- inactive, takes in a party that makes its first request and that it does not know, beside the
  -- inactive one: the order that the party gets lies above the size of the room.
  pub overfills_room :
      (t : ℕ)
      → Arrival env request room
      → signup_timeout env.clock ≡ ret t
      → lookup request.party_number room.member_info ≡ none
      → room.room_size ≤ length room.member_info
      → length room.member_info + 1 < 2 ^ 16
      → all_pass (active env.clock t) (values room.member_info) ≡ false
      → (decide env request room
          ≡ ret (stored (signup_for env room) (with_member env request room)))
        × (room.room_size < (signup_for env room).party_order)
  overfills_room t a timeout absent full small inactive =
      let order : (length room.member_info + 1) % 2 ^ 16 ≡ length room.member_info + 1 =
        omega arith in
      (
        decide_open env request room a.is_open
            ∙ enroll_full t a timeout full
            ∙ rw inactive (sign_up_absent a absent (omega arith)),
        rw order (omega arith),
      )

  -- A room whose window is open, that has as many members as it is for or more, all of them active,
  -- turns a first request down, whoever makes it; and so does a room in which the party of that
  -- number is active.
  pub refuses_first_request :
      (t : ℕ)
      → Arrival env request room
      → signup_timeout env.clock ≡ ret t
      → ((room.room_size ≤ length room.member_info)
          × (all_pass (active env.clock t) (values room.member_info) ≡ true))
        ⊎ ((i : SigningPartyInfo) × (lookup request.party_number room.member_info ≡ some i)
            × (active env.clock t i ≡ true))
      → (decide env request room ≡ ret (refused full_error))
        ⊎ (decide env request room ≡ ret (refused active_error))
  refuses_first_request t a timeout (inl (full, all_active)) =
      inl (decide_open env request room a.is_open ∙ enroll_full t a timeout full ∙ rw all_active)
  refuses_first_request t a timeout (inr (i, present, live)) =
      rw (decide_open env request room a.is_open)
        (elim (Bool-cases (ltb (length room.member_info) room.room_size)) [
          | inl roomy ↦ inr (
              enroll_with_room a (ltb→lt _ _ roomy)
              ∙ sign_up_present t i a timeout present
              ∙ rw live)
          | inr full ↦ rw (enroll_full t a timeout (ground arith)) (
              if_both (λ d. (d ≡ ret (refused full_error)) ⊎ (d ≡ ret (refused active_error)))
                (all_pass (active env.clock t) (values room.member_info)) (inl refl)
                (inr (sign_up_present t i a timeout present ∙ rw live)))
        ])
