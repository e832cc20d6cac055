-- ===== src/Manager/Replacing.antt =====
-- A member of a signing room of src/common/manager.rs that timed out and starts again.
use tss_ecdsa_cli.Base.{
  ℕ, ◌≡◌, ◌≢◌, refl, ◌∙◌, Text, [], some, false, length, arith, ret, text_eq, text_eq_iff, ltb,
  ltb→lt, Bool-cases, inl, inr,
}
use tss_ecdsa_cli.Common.{PartySignupRequestBody, SigningPartySignup, SigningPartyInfo}
use tss_ecdsa_cli.Room.Members.{lookup, modify, all_pass_of_lookup, lookup-modify_self}
use tss_ecdsa_cli.Room.Activity.{active, has_member_lem, are_all_members_active_lem}
use tss_ecdsa_cli.Room.{
  SigningRoom, signup_stage, signup_timeout, replace_party, joined, has_member,
}
use tss_ecdsa_cli.Manager.{Env, stored, refused, sign_up, enroll, decide, is_new, replaced_error}
use tss_ecdsa_cli.Manager.Joining.{
  Arrival, decide_open, sign_up_present, enroll_with_room, enroll_full,
}

-- The old order, under a new UUID.
abbrev pub signup_again : Env → SigningPartyInfo → SigningPartySignup
signup_again env i = record {
  party_order = i.party_order;
  party_uuid = env.party_uuid;
  room_uuid = [];
  total_joined = 0;
}

abbrev pub with_replaced :
    Env → PartySignupRequestBody → SigningRoom → SigningPartyInfo → SigningRoom
with_replaced env request room i = record room {
  member_info =
      modify request.party_number (λ _. joined env.clock (signup_again env i)) room.member_info;
}

-- A request for a room whose window is open, under a UUID that the room does not know, is refused.
pub refuses_stranger :
    (env : Env) (request : PartySignupRequestBody) (room : SigningRoom) (t : ℕ)
    → room.last_stage ≡ signup_stage
    → is_new request ≡ false
    → signup_timeout env.clock ≡ ret t
    → has_member request.party_number request.party_uuid room ≡ false
    → decide env request room ≡ ret (refused replaced_error)
refuses_stranger env request room t is_open old timeout stranger =
    decide_open env request room is_open ∙ enrolled
  where
    enrolled : enroll env request room ≡ ret (refused replaced_error)
    enrolled =
        unfold enroll sign_up in
        rw (old, stranger) (ground (arith, are_all_members_active_lem env.clock t timeout room))

module _ {env : Env} {request : PartySignupRequestBody} {room : SigningRoom} where
  -- A timed-out party that starts again keeps its order, under a new UUID.
  pub replaces_member :
      (t : ℕ) (i : SigningPartyInfo)
      → Arrival env request room
      → signup_timeout env.clock ≡ ret t
      → lookup request.party_number room.member_info ≡ some i
      → active env.clock t i ≡ false
      → decide env request room
        ≡ ret (stored (signup_again env i) (with_replaced env request room i))
  unfolding replace_party
  replaces_member t i a timeout present inactive =
      decide_open env request room a.is_open
      ∙ enrolled
      ∙ sign_up_present t i a timeout present
      ∙ rw (inactive, present)
    where
      enrolled : enroll env request room ≡ sign_up env request room
      enrolled = elim (Bool-cases (ltb (length room.member_info) room.room_size)) [
        | inl roomy ↦ enroll_with_room a (ltb→lt _ _ roomy)
        | inr full ↦
            enroll_full t a timeout (ground arith)
            ∙ rw (
                all_pass_of_lookup (active env.clock t) request.party_number i room.member_info
                  present inactive)
      ]

-- The replaced member is known under its new UUID alone.
has_member-with_replaced :
    (env : Env) (request : PartySignupRequestBody) (room : SigningRoom) (i : SigningPartyInfo)
    (uuid : Text)
    → lookup request.party_number room.member_info ≡ some i
    → has_member request.party_number uuid (with_replaced env request room i)
      ≡ text_eq env.party_uuid uuid
has_member-with_replaced env request room i uuid present =
    has_member_lem request.party_number uuid (with_replaced env request room i)
      (joined env.clock (signup_again env i))
      (lookup-modify_self request.party_number (λ _. joined env.clock (signup_again env i))
        room.member_info i present)

-- Where the timeout can be read: a party whose last ping is older than the timeout, and that starts
-- again in a room whose window is open, keeps its order and is told the new UUID of the request; a
-- request in its name under any other UUID that is not empty, to the room as this leaves it, is
-- refused, at whatever time.
pub locks_out_replaced :
    (env later : Env) (request poll : PartySignupRequestBody) (room : SigningRoom) (t u : ℕ)
    (i : SigningPartyInfo)
    → Arrival env request room
    → signup_timeout env.clock ≡ ret t
    → lookup request.party_number room.member_info ≡ some i
    → active env.clock t i ≡ false
    → signup_timeout later.clock ≡ ret u
    → poll.party_number ≡ request.party_number
    → is_new poll ≡ false
    → poll.party_uuid ≢ env.party_uuid
    → (s : SigningPartySignup) × (next : SigningRoom) × (decide env request room
        ≡ ret (stored s next))
      × (s.party_order ≡ i.party_order)
      × (s.party_uuid ≡ env.party_uuid)
      × (decide later poll next ≡ ret (refused replaced_error))
locks_out_replaced env later request poll room t u i a timeout present inactive timeout' same old
      other =
    (
      signup_again env i,
      with_replaced env request room i,
      replaces_member t i a timeout present inactive,
      refl,
      refl,
      refuses_stranger later poll (with_replaced env request room i) u a.is_open old timeout' (
          rw same (
            has_member-with_replaced env request room i poll.party_uuid present
            ∙ ground (arith, text_eq_iff env.party_uuid poll.party_uuid))),
    )
