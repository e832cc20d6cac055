-- ===== src/Manager/Valid.antt =====
-- `signup_sign` of src/common/manager.rs keeps the invariant of the room that it writes.
use tss_ecdsa_cli.Base.{
  ℕ, ◌≡◌, none, false, not, ◌&&◌, if◌then◌else◌, Run, ret, ◌>>=◌, Ensures, Ensures-bind,
  Ensures-bind_any, if_both, if_cases, text_eq, arith,
}
use tss_ecdsa_cli.Common.{PartySignupRequestBody, SigningPartySignup}
use tss_ecdsa_cli.Room.Members.{lookup, contains_key}
use tss_ecdsa_cli.Room.{
  SigningRoom, is_full, are_all_members_active, are_all_members_inactive, is_member_active,
  has_member, update_ping, add_party, replace_party, get_signup_info, signup_stage, add_u16,
}
use tss_ecdsa_cli.Room.Valid.{
  IsValid, new-IsValid, add_party-IsValid, replace_party-IsValid, update_ping-IsValid,
}
use tss_ecdsa_cli.Manager.{
  Env, Decision, answered, stored, refused, to_stored, sign_up, enroll, decide, is_new,
}

-- The room that a decision writes is valid.
abbrev pub WritesValid : Decision → Type 0
WritesValid (answered s) = Unit {0}
WritesValid (stored s room) = IsValid room
WritesValid (refused e) = Unit {0}

pub absent_of :
    (n : ℕ) (room : SigningRoom)
    → contains_key n room.member_info ≡ false
    → lookup n room.member_info ≡ none
unfolding contains_key
absent_of n room h = ground arith

module _ (env : Env) (request : PartySignupRequestBody) where
  stored-IsValid :
      (m : Run (SigningPartySignup × SigningRoom))
      → Ensures (λ r. IsValid r.1) m
      → Ensures WritesValid (m >>= λ r. ret (to_stored r))
  stored-IsValid m h = Ensures-bind (λ r. IsValid r.1) WritesValid m _ h λ r v. v

  sign_up-IsValid :
      (room : SigningRoom) → IsValid room → Ensures WritesValid (sign_up env request room)
  unfolding sign_up
  sign_up-IsValid room v =
      if_both (Ensures WritesValid) (not (is_new request))
        (if_both (Ensures WritesValid)
          (not (has_member request.party_number request.party_uuid room)) tt
          (stored-IsValid (update_ping env.clock request.party_number room)
            (update_ping-IsValid env.clock request.party_number room v)))
        (if_cases (Ensures WritesValid) (contains_key request.party_number room.member_info)
          (λ _.
            Ensures-bind_any WritesValid (is_member_active env.clock request.party_number room) _
              λ active _. if_both (Ensures WritesValid) active tt (
                stored-IsValid (replace_party env.clock env.party_uuid request.party_number room)
                  (replace_party-IsValid env.clock env.party_uuid request.party_number room v)))
          (λ absent. stored-IsValid (add_party env.clock env.party_uuid request.party_number room) (
            add_party-IsValid env.clock env.party_uuid request.party_number room
              (absent_of request.party_number room absent) v)))

  enroll-IsValid :
      (room : SigningRoom) → IsValid room → Ensures WritesValid (enroll env request room)
  unfolding enroll
  enroll-IsValid room v =
      Ensures-bind_any WritesValid
        (if is_full room then are_all_members_active env.clock room else ret false) _
        λ crowded _.
          if_both (Ensures WritesValid) (crowded && is_new request) tt (sign_up-IsValid room v)

  pub decide-IsValid :
      (room : SigningRoom) → IsValid room → Ensures WritesValid (decide env request room)
  unfolding decide
  decide-IsValid room v =
      if_both (Ensures WritesValid) (not (text_eq room.last_stage signup_stage))
        (if_both (Ensures WritesValid) (has_member request.party_number request.party_uuid room)
          (Ensures-bind_any WritesValid (get_signup_info env.clock request.party_number room) _
            λ _ _. tt)
          (Ensures-bind_any WritesValid (are_all_members_inactive env.clock room) _ λ inactive _.
            if_both (Ensures WritesValid) inactive
              (enroll-IsValid _
                (new-IsValid request.room_id (add_u16 request.threshold 1) env.renewed_uuid))
              tt))
        (enroll-IsValid room v)
