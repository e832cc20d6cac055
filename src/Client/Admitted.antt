-- ===== src/Client/Admitted.antt =====
-- A member of a signing room that waits in the loop of `signup` in src/common/mod.rs, while the manager of
-- src/common/manager.rs answers.
use tss_ecdsa_cli.Base.{
  ℕ, suc, ◌/◌, ◌≤◌, ◌≡◌, refl, Text, codes, is_empty, some, true, false, ltb, ◌==◌, Bool-cases, inl,
  inr, ret, ok, arith,
}
use tss_ecdsa_cli.Common.{PartySignupRequestBody, PartySignup, SigningPartySignup, SigningPartyInfo}
use tss_ecdsa_cli.Room.{SigningRoom, pinged}
use tss_ecdsa_cli.Manager.Store.{TtlHashMap, Json, IsJson}
use tss_ecdsa_cli.Manager.{
  Env, Manager, stored, decide, sign_key, load_room, signup_sign, signup_sign_locked,
}
use tss_ecdsa_cli.Manager.Polling.{Poll, present_count, told, closed, poll_lem}
use tss_ecdsa_cli.Client.Web.{Network, Wire}
use tss_ecdsa_cli.Client.{Client}
use tss_ecdsa_cli.Client.Served.{url_of, Serves}
use tss_ecdsa_cli.Client.Delivered.{ask-AnsweredBy}
use tss_ecdsa_cli.Client.Signup.{Waiting, answered, with_room, elapsed, ask_signup, wait_for_room}

-- A request of a member, under its UUID, to a room that the manager has, after which as many members are
-- active as the room is for.
pub record Admits (store : TtlHashMap) (rooms : Json SigningRoom) (env : Env)
    (request : PartySignupRequestBody) (room : SigningRoom) (t : ℕ) (i : SigningPartyInfo)
    (m : Manager store) : Type 0 where
  pub text : Text
  pub usable : m.poisoned ≡ false
  pub found : store.get env.instant (sign_key request) m.db ≡ some text
  pub read : rooms.from_str text ≡ some room
  pub poll : Poll env request room t i
  pub enough : room.room_size ≤ present_count env request room t

-- What the member is told.
abbrev pub admitted :
    Env → PartySignupRequestBody → SigningRoom → ℕ → SigningPartyInfo → SigningPartySignup
admitted env request room t i = told i room.room_uuid (present_count env request room t)

module _ (store : TtlHashMap) (rooms : Json SigningRoom) (env : Env)
    (request : PartySignupRequestBody) (room : SigningRoom) (t : ℕ) (i : SigningPartyInfo)
    (m : Manager store) (a : Admits store rooms env request room t i m) where
  decide_closes :
      decide env request room
      ≡ ret (
          stored
            (admitted env request room t i)
            (closed (pinged env.clock request.party_number room)))
  decide_closes = elim (poll_lem t i a.poll) [
    | inl more ↦ more.1
    | inr few ↦ absurd (omega (arith, few.0, a.enough))
  ]

  signup_sign_lem :
      (signup_sign store rooms env request m).0 ≡ ret (ok (admitted env request room t i))
  unfolding signup_sign signup_sign_locked
  signup_sign_lem = rw a.usable (rw (a.found, load_room) (rw a.read (rw decide_closes refl)))

module _ {net : Network} {wire : Wire} {client : Client} {store : TtlHashMap}
    {rooms : Json SigningRoom} {signups : Json PartySignup}
    (served : Serves net wire client store rooms signups) (sign_json : IsJson wire.sign_reply)
    (request : PartySignupRequestBody) (room : SigningRoom) (t : ℕ) (i : SigningPartyInfo)
    (w : net.World) where
  open served use {manager, env_of}

  -- The world after the member's next request, and the sleep before it.
  abbrev pub asking : net.World
  asking = net.wait 100 w

  abbrev pub told_in : net.World
  told_in =
      (net.request (url_of client (codes "signupsign")) (wire.sign_body.to_string request) asking).1

  abbrev pub place : SigningPartySignup
  place = admitted (env_of asking) request room t i

  asked :
      Admits store rooms (env_of asking) request room t i (manager asking)
      → ask_signup net wire client (codes "signupsign") request asking ≡ ret (place, told_in)
  unfolding ask_signup
  asked a =
      rw
        (ask-AnsweredBy net wire.sign_reply client (codes "signupsign")
          (wire.sign_body.to_string request) manager
          (signup_sign store rooms (env_of asking) request (manager asking)) asking (ok place)
          sign_json (served.serves_sign asking request)
          (signup_sign_lem store rooms (env_of asking) request room t i (manager asking) a))
        refl

  elapsed_lem :
      (s : Waiting)
      → s.now ≤ net.system_clock told_in
      → (d : ℕ) × (elapsed net wire client (answered place (net.system_clock told_in) s).now told_in
          ≡ ret (d, told_in))
  unfolding elapsed answered
  elapsed_lem s h = elim (Bool-cases (place.total_joined == s.last_total_joined)) [
    | inl same ↦ rw same (rw (not_before s.now h) (_, refl))
    | inr other ↦ rw other (rw (not_before (net.system_clock told_in) (omega arith)) (_, refl))
  ]
    where
      not_before : (n : ℕ) → n ≤ net.system_clock told_in → ltb (net.system_clock told_in) n ≡ false
      not_before n h = ground arith

  -- A member of a signing room that waits in the loop of `signup`, the network handing requests to
  -- the manager: if at its next request the manager has the room, under an unpoisoned lock and with
  -- a window that is open, knows the member under its UUID, and as many members as the room is for
  -- are then active, and the client's system clock is not set back, then the loop ends with that
  -- request, whatever the timeout, where it may go round twice: it returns the member's order, the
  -- UUID of the room, which is not empty, and the count of the active members.
  pub wait_for_room_ends :
      Admits store rooms (env_of asking) request room t i (manager asking)
      → is_empty room.room_uuid ≡ false
      → (fuel timeout : ℕ) (s : Waiting) → is_empty s.party_signup.uuid ≡ true
      → s.now ≤ net.system_clock told_in
      → wait_for_room net wire client (suc (suc fuel)) (codes "signupsign") request timeout s w
        ≡ ret (
          (record { number = i.party_order; uuid = room.room_uuid }, place.total_joined),
          told_in,
        )
  unfolding wait_for_room with_room answered
  wait_for_room_ends a named fuel timeout s waiting clock =
      let (d, passed) = elapsed_lem s clock in
      rw waiting (
        rw (asked a) (
          rw passed (elim (Bool-cases (ltb timeout (d / 1000))) [
            | inl late ↦ rw late (rw named refl)
            | inr early ↦ rw early (rw named refl)
          ])))
