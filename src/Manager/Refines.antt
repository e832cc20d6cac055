-- ===== src/Manager/Refines.antt =====
-- `signup_sign` of src/common/manager.rs keeps the promises of the desk.
use tss_ecdsa_cli.Base.{
  ◌≡◌, refl, Text, Bool, true, false, not, ◌&&◌, leb→le, leb, Bool-cases, inl, inr, if◌then◌else◌,
  Run, ret, ◌>>=◌, Ensures, Ensures-bind, Ensures-bind_any, Ensures-ret, ◌<◌, ◌^◌, if_both,
  if_cases, text_eq, arith, ℕ, length, ◌≤◌,
}
use tss_ecdsa_cli.Common.{PartySignupRequestBody, SigningPartySignup}
use tss_ecdsa_cli.Room.Members.{lookup, contains_key}
use tss_ecdsa_cli.Room.{
  SigningRoom, signup_stage, signup_timeout, new, is_full, add_party, replace_party, update_ping,
  has_member, get_signup_info, are_all_members_active, are_all_members_inactive, is_member_active,
  add_u16,
}
use tss_ecdsa_cli.Manager.{
  Env, Decision, answered, stored, refused, to_stored, sign_up, enroll, decide, is_new,
}
use tss_ecdsa_cli.Manager.Valid.{absent_of}
use tss_ecdsa_cli.Manager.Returns.{decide-Returns}
use tss_ecdsa_cli.Manager.Places.{
  Places, get_signup_info-Tells, add_party-Places, replace_party-Places, update_ping-Places,
  Ensures-imp,
}
use tss_ecdsa_cli.Manager.Seats.{has_member-seat, contains_key-seat}
use tss_ecdsa_cli.Manager.Desk.{
  view, seat_of, IsVacant, reopens, Tells, Refusal, full, active, lost, shut, anew,
}

-- What a decision promises to the party that asked.
abbrev pub Refines : PartySignupRequestBody → SigningRoom → Decision → Type 0
Refines request room (answered s) = Tells s (view room) request.party_number
Refines request room (stored s next) = Places room request.party_number (s, next)
Refines request room (refused e) = Refusal (view room) request.party_number request.party_uuid e

-- The same for a room that is open: the decision is not an answer without a write.
abbrev Enrolls : PartySignupRequestBody → SigningRoom → Decision → Type 0
Enrolls request room (answered s) = ⊥
Enrolls request room (stored s next) = Places room request.party_number (s, next)
Enrolls request room (refused e) = Refusal (view room) request.party_number request.party_uuid e

-- A new room has no members.
new-IsVacant : (room_id : Text) (size : ℕ) (uuid : Text) → IsVacant (view (new room_id size uuid))
unfolding new view seat_of lookup text_eq
new-IsVacant room_id size uuid = record { is_open = refl; count = refl; seat = λ j. refl }

Enrolls-Refines :
    (request : PartySignupRequestBody) (room : SigningRoom) (d : Decision)
    → Enrolls request room d
    → Refines request room d
Enrolls-Refines request room (answered _) h = elim h [ ]
Enrolls-Refines request room (stored s next) h = h
Enrolls-Refines request room (refused e) h = h

Enrolls-reopens :
    (request : PartySignupRequestBody) (room vacant : SigningRoom) (d : Decision)
    → text_eq room.last_stage signup_stage ≡ false
    → IsVacant (view vacant)
    → Enrolls request vacant d
    → Refines request room d
unfolding view
Enrolls-reopens request room vacant (answered _) closed v h = elim h [ ]
Enrolls-reopens request room vacant (stored s next) closed v h = (reopens closed v h.0, h.1)
Enrolls-reopens request room vacant (refused e) closed v h = anew closed v h

and_left : (a b : Bool) → (a && b) ≡ true → a ≡ true
and_left a b h = ground arith

and_right : (a b : Bool) → (a && b) ≡ true → b ≡ true
and_right a b h = ground arith

module _ (env : Env) (request : PartySignupRequestBody) where
  stored-Enrolls :
      (room : SigningRoom) (m : Run (SigningPartySignup × SigningRoom))
      → Ensures (Places room request.party_number) m
      → Ensures (Enrolls request room) (m >>= λ r. ret (to_stored r))
  stored-Enrolls room m h =
      Ensures-bind (Places room request.party_number) (Enrolls request room) m _ h λ r v. v

  sign_up-Enrolls :
      (room : SigningRoom)
      → text_eq room.last_stage signup_stage ≡ true
      → Ensures (Enrolls request room) (sign_up env request room)
  unfolding sign_up contains_key
  sign_up-Enrolls room is_open =
      if_cases (Ensures (Enrolls request room)) (not (is_new request))
        (λ again.
          if_cases (Ensures (Enrolls request room))
            (not (has_member request.party_number request.party_uuid room))
            (λ unknown. lost (ground (arith, again)) (
              has_member-seat request.party_number request.party_uuid room
                (ground (arith, unknown))))
            (λ _.
              stored-Enrolls room (update_ping env.clock request.party_number room)
                (update_ping-Places env.clock request.party_number room)))
        (λ first.
          if_cases (Ensures (Enrolls request room))
            (contains_key request.party_number room.member_info)
            (λ key.
              Ensures-bind_any (Enrolls request room)
                (is_member_active env.clock request.party_number room) _
                λ is_active _.
                  if_both (Ensures (Enrolls request room)) is_active
                    (let held = contains_key-seat request.party_number room key in
                      active held.0 (ground (arith, first)) held.1)
                    (stored-Enrolls room
                      (replace_party env.clock env.party_uuid request.party_number room)
                      (replace_party-Places env.clock request.party_number env.party_uuid room
                        is_open)))
            (λ absent.
              stored-Enrolls room (add_party env.clock env.party_uuid request.party_number room) (
                add_party-Places env.clock request.party_number env.party_uuid room is_open
                  (absent_of request.party_number room absent))))

  crowded_full :
      (room : SigningRoom)
      → {crowded : Bool}
      → (if is_full room then are_all_members_active env.clock room else ret false) ≡ ret crowded
      → crowded ≡ true
      → (view room).size ≤ (view room).count
  unfolding is_full view
  crowded_full room {crowded} h b =
      elim (Bool-cases (leb room.room_size (length room.member_info))) [
        | inl fits ↦ leb→le _ _ fits
        | inr room_left ↦ absurd (ground (arith, h, b, room_left))
      ]

  enroll-Enrolls :
      (room : SigningRoom)
      → text_eq room.last_stage signup_stage ≡ true
      → Ensures (Enrolls request room) (enroll env request room)
  unfolding enroll
  enroll-Enrolls room is_open =
      Ensures-bind_any (Enrolls request room)
        (if is_full room then are_all_members_active env.clock room else ret false) _
        λ crowded h.
          if_cases (Ensures (Enrolls request room)) (crowded && is_new request)
            (λ b. full (and_right _ _ b) (crowded_full room h (and_left _ _ b)))
            (λ _. sign_up-Enrolls room is_open)

  vacant : SigningRoom
  vacant = new request.room_id (add_u16 request.threshold 1) env.renewed_uuid

  decide-Refines : (room : SigningRoom) → Ensures (Refines request room) (decide env request room)
  unfolding decide view vacant
  decide-Refines room =
      if_cases (Ensures (Refines request room)) (not (text_eq room.last_stage signup_stage))
        (λ closed.
          if_cases (Ensures (Refines request room))
            (has_member request.party_number request.party_uuid room)
            (λ _.
              Ensures-bind (λ s. Tells s (view room) request.party_number) (Refines request room)
                (get_signup_info env.clock request.party_number room) _
                (get_signup_info-Tells env.clock request.party_number room) λ s t. t)
            (λ unknown.
              Ensures-bind_any (Refines request room) (are_all_members_inactive env.clock room) _
                λ inactive _.
                  if_both (Ensures (Refines request room)) inactive
                    (Ensures-imp
                      (λ d.
                        Enrolls-reopens request room (vacant) d (ground (arith, closed))
                          (new-IsVacant _ _ _))
                      (enroll env request vacant)
                      (enroll-Enrolls vacant (new-IsVacant _ _ _).is_open))
                    (shut (ground (arith, closed))
                      (has_member-seat request.party_number request.party_uuid room unknown))))
        (λ is_open.
          Ensures-imp (λ d. Enrolls-Refines request room d) (enroll env request room)
            (enroll-Enrolls room (ground (arith, is_open))))

  -- If the timeout can be read and the room has fewer than 2 ^ 16 members, `signup_sign` decides,
  -- and what it decides is a move of the desk that the room shows: it answers with the seat that
  -- the party holds; or it writes a room in which the party holds the seat that it is told of,
  -- after a move (a vacant seat was taken under the next order as `u16`, a holder was replaced
  -- under its order, the desk closed with as many seats held as it is for, nothing changed, or any
  -- of these at a vacant desk after it had been closed); or it turns the party away for a reason
  -- that the desk shows. The UUID of the room is told exactly if the desk that results is closed.
  pub decide_keeps_promises :
      (t : ℕ) (room : SigningRoom)
      → signup_timeout env.clock ≡ ret t
      → length room.member_info < 2 ^ 16
      → (d : Decision) × (decide env request room ≡ ret d) × Refines request room d
  decide_keeps_promises t room timeout small =
      let (d, e) = decide-Returns env t timeout request room small in
      (d, e, Ensures-ret (Refines request room) (decide env request room) d e (decide-Refines room))
