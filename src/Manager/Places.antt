-- ===== src/Manager/Places.antt =====
-- The methods of src/common/signing_room.rs that give a party its seat, as moves at the desk.
use tss_ecdsa_cli.Base.{
  ℕ, ◌^◌, ◌≤◌, ◌≡◌, inl, inr, refl, ap, ◌∙◌, Text, length, none, Option-cases, Bool, true, ◌&&◌,
  ltb, leb, leb→le, ◌==◌, Bool-cases, Run, ret, panic, no_fuel, unwrap_option, Ensures,
  Ensures-bind, Ensures-bind_any, if_both, if_cases, text_eq, arith,
}
use tss_ecdsa_cli.Common.{SigningPartySignup}
use tss_ecdsa_cli.Room.Members.{MemberMap, lookup, length-modify}
use tss_ecdsa_cli.Room.{
  SigningRoom, Clock, signup_stage, terminated_stage, is_full, add_party, replace_party, pinged,
  close_signup_window, close_if_all_active, update_ping, get_signup_info, active_members, to_u16,
}
use tss_ecdsa_cli.Manager.Seats.{length-insert, seat-insert, seat-modify_same, seat-modify}
use tss_ecdsa_cli.Manager.Desk.{
  Desk, holder, seat_of, view, SameDoor, SameSeats, Move, stays, takes, replaces, closes, Tells,
}

same_door :
    (room : SigningRoom) (m : MemberMap)
    → SameDoor (view room) (view (record room { member_info = m }))
unfolding view
same_door room m = record { is_open = refl; uuid = refl; size = refl }

pub Ensures-imp :
    {A : Type 0} {P Q : A → Type 0}
    → ((a : A) → P a → Q a)
    → (m : Run A) → Ensures P m
    → Ensures Q m
Ensures-imp h (ret a) p = h a p
Ensures-imp h (panic e) p = tt
Ensures-imp h no_fuel p = tt

-- What a method that answers with a place in the room promises.
abbrev pub Places : SigningRoom → ℕ → SigningPartySignup × SigningRoom → Type 0
Places room n r = Move (view room) (view r.1) × Tells r.0 (view r.1) n

own : (n : ℕ) → (n == n) ≡ true
own n = ground arith

module _ (c : Clock) (n : ℕ) where
  pub get_signup_info-Tells :
      (room : SigningRoom) → Ensures (λ s. Tells s (view room) n) (get_signup_info c n room)
  unfolding get_signup_info view seat_of
  get_signup_info-Tells room = elim (Option-cases (lookup n room.member_info)) [
    | inl absent ↦ rw absent tt
    | inr (i, found) ↦ rw found (
        Ensures-bind_any (λ s. Tells s (view room) n) (active_members c room) _
          λ active _.
            Ensures-bind_any (λ s. Tells s (view room) n) (to_u16 (length active)) _
              λ total _. record { seat = ap holder found; uuid = refl })
  ]

  pub add_party-Places :
      (uuid : Text) (room : SigningRoom)
      → text_eq room.last_stage signup_stage ≡ true
      → lookup n room.member_info ≡ none
      → Ensures (Places room n) (add_party c uuid n room)
  unfolding add_party view
  add_party-Places uuid room is_open absent =
      elim (Bool-cases (ltb (length room.member_info) (2 ^ 16))) [
        | inl small ↦ rw small (
          takes n uuid is_open (unfold seat_of in rw absent refl)
              (λ j. seat-insert n _ room.member_info j) (length-insert n _ room.member_info absent)
              (same_door room _),
          record {
            seat = seat-insert n _ room.member_info n ∙ rw (own n) refl;
            uuid = rw is_open refl;
          },
        )
        | inr large ↦ rw large tt
      ]

  pub replace_party-Places :
      (uuid : Text) (room : SigningRoom)
      → text_eq room.last_stage signup_stage ≡ true
      → Ensures (Places room n) (replace_party c uuid n room)
  unfolding replace_party view
  replace_party-Places uuid room is_open = elim (Option-cases (lookup n room.member_info)) [
    | inl absent ↦ rw absent tt
    | inr (i, found) ↦ rw found (
      replaces n uuid i.party_id i.party_order is_open (unfold seat_of in ap holder found)
          (λ j. seat-modify n _ room.member_info i j found) (length-modify n _ room.member_info)
          (same_door room _),
      record {
        seat = seat-modify n _ room.member_info i n found ∙ rw (own n) refl;
        uuid = rw is_open refl;
      },
    )
  ]

  close_if_all_active-Move :
      (d : Desk) (room : SigningRoom)
      → SameSeats d (view room)
      → SameDoor d (view room)
      → Ensures (λ r. Move d (view r)) (close_if_all_active c room)
  unfolding close_if_all_active close_signup_window is_full view text_eq
  close_if_all_active-Move d room seats door =
      if_both (Ensures P) (is_full room)
        (Ensures-bind_any P (active_members c room) _ λ a _.
          if_both (Ensures P) (leb room.room_size (length a))
            (Ensures-bind_any P (active_members c room) _ λ b _.
              if_cases P (is_full room && leb room.room_size (length b))
                (λ full.
                  closes {e = view (record room { last_stage = terminated_stage })}
                    (full_desk _ full) seats refl door.uuid door.size)
                (λ _. stays seats door))
            (stays seats door))
        (stays seats door)
    where
      P : SigningRoom → Type 0
      P r = Move d (view r)

      full_desk : (b : Bool) → (is_full room && b) ≡ true → d.size ≤ d.count
      full_desk b h = elim (Bool-cases (is_full room)) [
        | inl full ↦
            let fits : room.room_size ≤ length room.member_info = leb→le _ _ full in
            let same : length room.member_info ≡ d.count = seats.1 in omega arith
        | inr room_left ↦ ground (arith, h, room_left)
      ]

  pub update_ping-Places : (room : SigningRoom) → Ensures (Places room n) (update_ping c n room)
  unfolding update_ping pinged view
  update_ping-Places room =
      Ensures-bind_any (Places room n) (unwrap_option (lookup n room.member_info)) _ λ _ _.
        Ensures-bind (λ r. Move (view room) (view r)) (Places room n)
          (close_if_all_active c (pinged c n room)) _
          (close_if_all_active-Move (view room) (pinged c n room)
            (
              λ j. seat-modify_same n _ (λ i. refl) room.member_info j,
              length-modify n _ room.member_info,
            )
            (same_door room _))
          λ closed m.
            Ensures-bind (λ s. Tells s (view closed) n) (Places room n) (get_signup_info c n closed)
              _ (get_signup_info-Tells closed) λ s t. (m, t)
