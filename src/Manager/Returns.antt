-- ===== src/Manager/Returns.antt =====
-- `signup_sign` of src/common/manager.rs does not panic where the timeout can be read and the room is small.
use tss_ecdsa_cli.Base.{
  ℕ, ◌<◌, ◌^◌, ◌≡◌, refl, Text, some, Option-cases, true, false, not, ◌&&◌, length, lt→ltb,
  if◌then◌else◌, if_cases, if_both, inl, inr, Run, ret, ◌>>=◌, text_eq, arith, length-filter_by-le,
}
use tss_ecdsa_cli.Common.{PartySignupRequestBody, SigningPartyInfo}
use tss_ecdsa_cli.Room.Members.{lookup, contains_key, lookup-modify_self, length-modify}
use tss_ecdsa_cli.Room.Activity.{
  active, are_all_members_active_lem, are_all_members_inactive_lem, is_member_active_lem,
  get_signup_info_lem, close_if_all_active_lem,
}
use tss_ecdsa_cli.Room.{
  SigningRoom, signup_stage, signup_timeout, new, is_full, add_u16, to_u16, add_party,
  replace_party, pinged, update_ping, has_member, get_signup_info, are_all_members_active,
  is_member_active, are_all_members_inactive,
}
use tss_ecdsa_cli.Manager.{Env, sign_up, enroll, decide, is_new}

-- The code comes to a value.
abbrev pub Returns : {A : Type 0} → Run A → Type 0
Returns {A} m = (a : A) × (m ≡ ret a)

Returns-bind :
    {A B : Type 0} (m : Run A) (f : A → Run B)
    → Returns m
    → ((a : A) → Returns (f a))
    → Returns (m >>= f)
Returns-bind m f (a, e) h = rw e (h a)

found_of :
    (n : ℕ) (room : SigningRoom)
    → contains_key n room.member_info ≡ true
    → (i : SigningPartyInfo) × (lookup n room.member_info ≡ some i)
unfolding contains_key
found_of n room h = elim (Option-cases (lookup n room.member_info)) [
  | inl absent ↦ absurd (ground (arith, h, absent))
  | inr found ↦ found
]

member_of :
    (n : ℕ) (u : Text) (room : SigningRoom)
    → has_member n u room ≡ true
    → (i : SigningPartyInfo) × (lookup n room.member_info ≡ some i)
unfolding has_member
member_of n u room h = elim (Option-cases (lookup n room.member_info)) [
  | inl absent ↦ absurd (ground (arith, h, absent))
  | inr found ↦ found
]

-- A small room that the party is in.
abbrev Fits : ℕ → SigningRoom → Type 0
Fits n room =
    ((i : SigningPartyInfo) × (lookup n room.member_info ≡ some i))
    × (length room.member_info < 2 ^ 16)

module _ (env : Env) (t : ℕ) (timeout : signup_timeout env.clock ≡ ret t) where
  get_signup_info-Returns :
      (n : ℕ) (room : SigningRoom) → Fits n room → Returns (get_signup_info env.clock n room)
  get_signup_info-Returns n room ((i, found), small) =
      let fewer = length-filter_by-le (λ e. active env.clock t e.1) room.member_info in
      (_, get_signup_info_lem env.clock t timeout n room i found (omega (arith, fewer)))

  pinged-Fits : (n : ℕ) (room : SigningRoom) → Fits n room → Fits n (pinged env.clock n room)
  unfolding pinged
  pinged-Fits n room ((i, found), small) = (
    (_, lookup-modify_self n _ room.member_info i found),
    small_by (length-modify n _ room.member_info) small,
  )
    where
      small_by : {a b : ℕ} → a ≡ b → b < 2 ^ 16 → a < 2 ^ 16
      small_by e h = omega arith

  update_ping-Returns :
      (n : ℕ) (room : SigningRoom) → Fits n room → Returns (update_ping env.clock n room)
  unfolding update_ping
  update_ping-Returns n room ((i, found), small) =
      let fits = pinged-Fits n room ((i, found), small) in
      rw (found, close_if_all_active_lem env.clock t timeout (pinged env.clock n room))
        (Returns-bind (get_signup_info env.clock n _) _
          (get_signup_info-Returns n _ (if_both (Fits n) _ fits fits)) λ info. (_, refl))

  sign_up-Returns :
      (request : PartySignupRequestBody) (room : SigningRoom)
      → length room.member_info < 2 ^ 16
      → Returns (sign_up env request room)
  unfolding sign_up
  sign_up-Returns request room small =
      if_cases Returns (not (is_new request))
        (λ _.
          if_cases Returns (not (has_member request.party_number request.party_uuid room))
            (λ _. (_, refl))
            (λ known.
              Returns-bind (update_ping env.clock request.party_number room) _
                (update_ping-Returns request.party_number room (
                  member_of request.party_number request.party_uuid room (ground (arith, known)),
                  small,
                ))
                λ r. (_, refl)))
        (λ _.
          if_cases Returns (contains_key request.party_number room.member_info)
            (λ key.
              let (i, found) = found_of request.party_number room key in
              Returns-bind (is_member_active env.clock request.party_number room) _
                (_, is_member_active_lem env.clock t timeout request.party_number room i found)
                λ is_active.
                  if_both Returns is_active (_, refl)
                    (Returns-bind (replace_party env.clock env.party_uuid request.party_number room)
                      _ (unfold replace_party in rw found (_, refl)) λ r. (_, refl)))
            (λ _. unfold add_party to_u16 in rw (lt→ltb _ _ small) (_, refl)))

  enroll-Returns :
      (request : PartySignupRequestBody) (room : SigningRoom)
      → length room.member_info < 2 ^ 16
      → Returns (enroll env request room)
  unfolding enroll
  enroll-Returns request room small =
      Returns-bind (if is_full room then are_all_members_active env.clock room else ret false) _
        (if_both Returns (is_full room) (_, are_all_members_active_lem env.clock t timeout room)
          (_, refl))
        λ crowded.
          if_both Returns (crowded && is_new request) (_, refl) (sign_up-Returns request room small)

  pub decide-Returns :
      (request : PartySignupRequestBody) (room : SigningRoom)
      → length room.member_info < 2 ^ 16
      → Returns (decide env request room)
  unfolding decide
  decide-Returns request room small =
      if_both Returns (not (text_eq room.last_stage signup_stage))
        (if_cases Returns (has_member request.party_number request.party_uuid room)
          (λ known.
            Returns-bind (get_signup_info env.clock request.party_number room) _
              (get_signup_info-Returns request.party_number room
                (member_of request.party_number request.party_uuid room known, small))
              λ info. (_, refl))
          (λ _.
            Returns-bind (are_all_members_inactive env.clock room) _
              (_, are_all_members_inactive_lem env.clock t timeout room)
              λ inactive.
                if_both Returns inactive
                  (enroll-Returns request
                    (new request.room_id (add_u16 request.threshold 1) env.renewed_uuid)
                    none_joined)
                  (_, refl)))
        (enroll-Returns request room small)
    where
      none_joined :
          length (new request.room_id (add_u16 request.threshold 1) env.renewed_uuid).member_info
          < 2 ^ 16
      none_joined = unfold new in omega arith
