-- ===== src/Manager/Rooms.antt =====
-- The store of src/common/manager.rs under any history of requests: a text that stands under the
-- key of a signing room is the text of a valid room.
use tss_ecdsa_cli.Base.{
  ℕ, ◌≤◌, ◌≡◌, ◌≢◌, sym, Text, List, [], ◌∷◌, some, false, Ensures, Bool-cases, text_eq,
  text_eq_iff, inl, inr, arith, parse_u16, Option-cases, ap, ◌∙◌, Ensures-any,
}
use tss_ecdsa_cli.Common.{PartySignupRequestBody, PartySignup, Index}
use tss_ecdsa_cli.Room.{SigningRoom, add_u16}
use tss_ecdsa_cli.Room.Valid.{IsValid, new-IsValid}
use tss_ecdsa_cli.Manager.Store.{TtlHashMap, IsTtlHashMap, Json, IsJson}
use tss_ecdsa_cli.Manager.Valid.{WritesValid, decide-IsValid}
use tss_ecdsa_cli.Manager.{
  Env, Manager, Decision, answered, stored, refused, decide, keygen_key, sign_key, get, set,
  get_locked, set_locked, signup_keygen, signup_keygen_locked, signup_sign, signup_sign_locked,
  load_room, load_signup, next_signup, write_back,
}
use tss_ecdsa_cli.Manager.Lock.{with_write-keeps, reading-keeps}
use tss_ecdsa_cli.Manager.Requests.{
  Request, gets, sets, keygens, signs, SparesRooms, Timely, end_of, step, run,
  keygen_key-ne-sign_key,
}

module _ (store : TtlHashMap) (rooms : Json SigningRoom) (signups : Json PartySignup) where
  -- From `now` on, all that is found under the key of a room is the text of a valid room.
  pub record RoomsValid (now : ℕ) (db : store.Map) : Type 0 where
    pub valid_room :
        (later : ℕ) (request : PartySignupRequestBody) (v : Text)
        → now ≤ later
        → store.get later (sign_key request) db ≡ some v
        → (room : SigningRoom) × (rooms.from_str v ≡ some room) × IsValid room

  RoomsValid-later : (now t : ℕ) (db : store.Map) → now ≤ t → RoomsValid now db → RoomsValid t db
  RoomsValid-later now t db h v = record {
    valid_room = λ later request w k e. v.valid_room later request w (omega arith) e;
  }

  module _ (ttl : ℕ) (lawful : IsTtlHashMap store ttl) (room_json : IsJson rooms) where
    -- An insertion under another key.
    RoomsValid-insert_other :
        (now : ℕ) (k v : Text) (db : store.Map)
        → ((request : PartySignupRequestBody) → sign_key request ≢ k)
        → RoomsValid now db
        → RoomsValid now (store.insert now k v db)
    RoomsValid-insert_other now k v db other h = record {
      valid_room = λ later request w l e. h.valid_room later request w l (
          sym (
            lawful.get-insert_ne db k (sign_key request) v now later (λ p. other request (sym p)) l)
          ∙ e);
    }

    found-IsValid :
        (now : ℕ) (k : Text) (room : SigningRoom) (db : store.Map)
        → IsValid room
        → RoomsValid now db
        → (later : ℕ) (request : PartySignupRequestBody) (w : Text) → now ≤ later
        → store.get later (sign_key request) (store.insert now k (rooms.to_string room) db) ≡ some w
        → (found : SigningRoom) × (rooms.from_str w ≡ some found) × IsValid found
    found-IsValid now k room db v h later request w l e =
        elim (Bool-cases (text_eq k (sign_key request))) [
          | inl same ↦
              let found = lawful.get-insert_found db k (rooms.to_string room) w now later l (
                ap (λ j. store.get later j (store.insert now k (rooms.to_string room) db))
                  ((text_eq_iff k (sign_key request)).0 same)
                ∙ e) in
              (room, rw found (room_json.from_str-to_string room), v)
          | inr other ↦ h.valid_room later request w l (
              sym (
                lawful.get-insert_ne db k (sign_key request) (rooms.to_string room) now later
                  (λ p. different other p) l)
              ∙ e)
        ]
      where
        different : text_eq k (sign_key request) ≡ false → k ≢ sign_key request
        different q p = ground (arith, text_eq_iff k (sign_key request))

    -- An insertion of a valid room.
    RoomsValid-insert_room :
        (now : ℕ) (k : Text) (room : SigningRoom) (db : store.Map)
        → IsValid room
        → RoomsValid now db
        → RoomsValid now (store.insert now k (rooms.to_string room) db)
    RoomsValid-insert_room now k room db v h = record {
      valid_room = found-IsValid now k room db v h;
    }

    get_locked-keeps :
        (env : Env) (index : Index) (db : store.Map)
        → RoomsValid env.instant db
        → RoomsValid env.instant (get_locked store env index db).1
    unfolding get_locked
    get_locked-keeps env index db v = elim (Option-cases (store.get env.instant index.key db)) [
      | inl e ↦ rw (e, get_locked) v
      | inr (w, e) ↦ rw (e, get_locked) v
    ]

    signup_keygen_locked-keeps :
        (env : Env) (parties : ℕ) (curve : Text) (db : store.Map)
        → RoomsValid env.instant db
        → RoomsValid env.instant (signup_keygen_locked store signups env parties curve db).1
    unfolding signup_keygen_locked
    signup_keygen_locked-keeps env parties curve db v =
        reading-keeps store (λ s. Unit {0}) (RoomsValid env.instant)
          (load_signup store signups env (keygen_key curve) db) db _ v
          (Ensures-any (load_signup store signups env (keygen_key curve) db))
          λ s _.
            RoomsValid-insert_other env.instant (keygen_key curve)
              (signups.to_string (next_signup env parties s)) db (keygen_key-ne-sign_key curve) v

    load_room-IsValid :
        (env : Env) (request : PartySignupRequestBody) (db : store.Map)
        → RoomsValid env.instant db
        → Ensures IsValid (load_room store rooms env request db)
    unfolding load_room
    load_room-IsValid env request db v =
        elim (Option-cases (store.get env.instant (sign_key request) db)) [
          | inl e ↦
              rw (e, load_room)
                (new-IsValid request.room_id (add_u16 request.threshold 1) env.new_uuid)
          | inr (w, e) ↦
              let (room, read, valid) = v.valid_room env.instant request w (omega arith) e in
              rw (e, load_room) (rw read valid)
        ]

    signup_sign_locked-keeps :
        (env : Env) (request : PartySignupRequestBody) (db : store.Map)
        → RoomsValid env.instant db
        → RoomsValid env.instant (signup_sign_locked store rooms env request db).1
    unfolding signup_sign_locked
    signup_sign_locked-keeps env request db v =
        reading-keeps store IsValid (RoomsValid env.instant) (load_room store rooms env request db)
          db _ v (load_room-IsValid env request db v)
          λ room valid.
            reading-keeps store WritesValid (RoomsValid env.instant) (decide env request room) db _
              v (decide-IsValid env request room valid) (written env request db v)
      where
        written :
            (env : Env) (request : PartySignupRequestBody) (db : store.Map)
            → RoomsValid env.instant db
            → (d : Decision) → WritesValid d
            → RoomsValid env.instant (write_back store rooms env request db d).1
        written env request db v (answered s) w = v
        written env request db v (stored s room) w =
            RoomsValid-insert_room env.instant (sign_key request) room db w v
        written env request db v (refused e) w = v

    step-RoomsValid :
        (env : Env) (request : Request) (m : Manager store)
        → SparesRooms request
        → RoomsValid env.instant m.db
        → RoomsValid env.instant (step store rooms signups env request m).db
    unfolding step
    step-RoomsValid env (gets index) m spares v =
        unfold get in
        with_write-keeps store (RoomsValid env.instant) (get_locked store env index) m v
          (get_locked-keeps env index m.db v)
    step-RoomsValid env (sets entry) m spares v =
        unfold set in
        with_write-keeps store (RoomsValid env.instant) (set_locked store env entry) m v
          (RoomsValid-insert_other env.instant entry.key entry.value m.db spares v)
    step-RoomsValid env (keygens params curve) m spares v =
        unfold signup_keygen in
        elim (Option-cases (parse_u16 params.parties)) [
          | inl e ↦ rw (e, step, signup_keygen) v
          | inr (parties, e) ↦
              rw (e, step, signup_keygen)
                (with_write-keeps store (RoomsValid env.instant)
                  (signup_keygen_locked store signups env parties curve) m v
                  (signup_keygen_locked-keeps env parties curve m.db v))
        ]
    step-RoomsValid env (signs request) m spares v =
        unfold signup_sign in
        with_write-keeps store (RoomsValid env.instant) (signup_sign_locked store rooms env request)
          m v (signup_sign_locked-keeps env request m.db v)

    -- Over a map and a codec that keep their documented behaviour: if all that is found under the
    -- keys of signing rooms is text of valid rooms (each party is there once, and the orders are 1,
    -- 2, ... up to the number of members), then it is so after any history of requests to the four
    -- handlers whose times do not go back and whose `set`s write under no key of a room, also where
    -- some of them fail or panic.
    pub run-RoomsValid :
        (now : ℕ) (history : List (Env × Request)) (m : Manager store)
        → Timely now history
        → RoomsValid now m.db
        → RoomsValid (end_of now history) (run store rooms signups history m).db
    unfolding run
    run-RoomsValid now [] m t v = v
    run-RoomsValid now ((env, request) ∷ history) m t v =
        run-RoomsValid env.instant history (step store rooms signups env request m) t.2
          (step-RoomsValid env request m t.1 (RoomsValid-later now env.instant m.db t.0 v))
