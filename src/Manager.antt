-- ===== src/Manager.antt =====
-- The request handlers of src/common/manager.rs, over a map and a JSON codec that are parameters.
-- The database stands behind a `RwLock`: a handler that panics while it holds the write guard
-- poisons the lock, and from then on `write().unwrap()` panics in every handler.
pub mod Store
pub mod Valid
pub mod Requests
pub mod Lock
pub mod Surviving
pub mod Rooms
pub mod Joining
pub mod Replacing
pub mod Polling
pub mod Failures
pub mod Keygen
pub mod Desk
pub mod Seats
pub mod Places
pub mod Returns
pub mod Refines
use tss_ecdsa_cli.Base.{
  ℕ, ◌+◌, ◌≡◌, refl, Text, codes, text_eq, is_empty, parse_u16, List, [], ◌++◌, Option, none, some,
  Bool, true, false, not, ◌&&◌, ltb, if◌then◌else◌, Run, ret, panic, no_fuel, unwrap, ◌>>=◌,
  unwrap_option, Result, ok, err,
}
use tss_ecdsa_cli.Common.{
  PartySignupRequestBody, PartySignup, SigningPartySignup, Index, Entry, ManagerError, Params,
}
use tss_ecdsa_cli.Room.Members.{contains_key}
use tss_ecdsa_cli.Room.{
  SigningRoom, Clock, signup_stage, new, is_full, add_u16, add_party, replace_party,
  are_all_members_active, are_all_members_inactive, is_member_active, update_ping, has_member,
  get_signup_info,
}
use Store.{TtlHashMap, Json}

-- What one request finds: the system time, the monotonic time of the map, and the values that
-- `Uuid::new_v4` gives at its three places: for a missing entry, for a renewed one, for a party.
pub record Env : Type 0 where
  pub clock : Clock
  pub instant : ℕ
  pub new_uuid : Text
  pub renewed_uuid : Text
  pub party_uuid : Text

-- What `signup_sign` does once it has read the room: answer and write nothing, answer and write
-- the room, or answer with an error.
pub data Decision : Type 0 where
  answered : SigningPartySignup → Decision
  stored : SigningPartySignup → SigningRoom → Decision
  refused : ManagerError → Decision

abbrev pub error_of : Text → ManagerError
error_of s = record { error = s }

abbrev pub terminated_error : ManagerError
terminated_error = error_of (codes "Room signup phase is terminated")

abbrev pub full_error : ManagerError
full_error = error_of (codes "Room is full, all members active")

abbrev pub replaced_error : ManagerError
replaced_error =
    error_of (codes "No party found with the given uuid, probably replaced due to timeout")

abbrev pub active_error : ManagerError
active_error = error_of (codes "Received a re-signup request for an active party. Request ignored")

abbrev pub to_stored : SigningPartySignup × SigningRoom → Decision
to_stored r = stored r.0 r.1

abbrev pub is_new : PartySignupRequestBody → Bool
is_new request = is_empty request.party_uuid

-- The block that binds `party_signup` in `signup_sign`.
unfoldable pub sign_up : Env → PartySignupRequestBody → SigningRoom → Run Decision
sign_up env request room =
    if not (is_new request)
    then (if not (has_member request.party_number request.party_uuid room)
        then ret (refused replaced_error)
        else (do r ← update_ping env.clock request.party_number room; ret (to_stored r)))
    else (if contains_key request.party_number room.member_info
        then (do
          active ← is_member_active env.clock request.party_number room
          if active then ret (refused active_error) else (do
            r ← replace_party env.clock env.party_uuid request.party_number room
            ret (to_stored r)))
        else (do
          r ← add_party env.clock env.party_uuid request.party_number room
          ret (to_stored r)))

-- `signup_sign` from the test for a full room on.
unfoldable pub enroll : Env → PartySignupRequestBody → SigningRoom → Run Decision
unfolding sign_up
enroll env request room = do
  crowded ← (if is_full room then are_all_members_active env.clock room else ret false)
  if crowded && is_new request then ret (refused full_error) else sign_up env request room

-- `signup_sign` between the read of the room and the write.
unfoldable pub decide : Env → PartySignupRequestBody → SigningRoom → Run Decision
unfolding enroll
decide env request room =
    if not (text_eq room.last_stage signup_stage)
    then (if has_member request.party_number request.party_uuid room
        then (do info ← get_signup_info env.clock request.party_number room; ret (answered info))
        else (do
          inactive ← are_all_members_inactive env.clock room
          if inactive
              then enroll env request
                  (new request.room_id (add_u16 request.threshold 1) env.renewed_uuid)
              else ret (refused terminated_error)))
    else enroll env request room

-- The entry that follows in `signup_keygen`.
unfoldable pub next_signup : Env → ℕ → PartySignup → PartySignup
next_signup env parties client_signup =
    if ltb client_signup.number parties
    then record { number = add_u16 client_signup.number 1; uuid = client_signup.uuid }
    else record { number = 1; uuid = env.renewed_uuid }

abbrev pub keygen_key : Text → Text
keygen_key curve = codes "signup-keygen-" ++ curve

abbrev pub sign_key : PartySignupRequestBody → Text
sign_key request = (codes "signup-sign-" ++ request.curve_name) ++ request.room_id

module _ (store : TtlHashMap) where
  -- The managed state: the map, and whether its lock is poisoned.
  pub record Manager : Type 0 where
    pub db : store.Map
    pub poisoned : Bool

  -- What a handler comes to under the write guard, and the map as it leaves it, also where it panics.
  abbrev pub Locked : Type 0 → Type 0
  Locked A = Run A × store.Map

  -- A step that only reads the map, and what follows it; a panic leaves the map as it is by then.
  unfoldable pub reading : {A B : Type 0} → Run A → store.Map → (A → Locked B) → Locked B
  reading (ret a) hm next = next a
  reading (panic p) hm next = (panic p, hm)
  reading no_fuel hm next = (no_fuel, hm)

  -- The end of a handler that ran under the write guard.
  abbrev pub released : {A : Type 0} → Manager → Locked A → Run A × Manager
  released m (ret a, db) = (ret a, record m { db = db })
  released m (panic p, db) = (panic p, record m { db = db; poisoned = true })
  released m (no_fuel, db) = (no_fuel, record m { db = db })

  -- `let mut hm = db_mtx.write().unwrap()`, and the rest of the handler.
  unfoldable pub with_write : {A : Type 0} → (store.Map → Locked A) → Manager → Run A × Manager
  with_write body m = if m.poisoned then (panic unwrap, m) else released m (body m.db)

  unfoldable pub get_locked : Env → Index → store.Map → Locked (Result Entry ManagerError)
  get_locked env index hm = elim (store.get env.instant index.key hm) [
    | some v ↦ (ret (ok (record { key = index.key; value = v })), hm)
    | none ↦ (ret (err (error_of (codes "Key not found: " ++ index.key))), hm)
  ]

  unfoldable pub get : Env → Index → Manager → Run (Result Entry ManagerError) × Manager
  unfolding with_write get_locked
  get env index = with_write (get_locked env index)

  unfoldable pub set_locked : Env → Entry → store.Map → Locked (Result (Unit {0}) (Unit {0}))
  set_locked env entry hm = (ret (ok tt), store.insert env.instant entry.key entry.value hm)

  unfoldable pub set : Env → Entry → Manager → Run (Result (Unit {0}) (Unit {0})) × Manager
  unfolding with_write set_locked
  set env entry = with_write (set_locked env entry)

  module _ (json : Json PartySignup) where
    unfoldable pub load_signup : Env → Text → store.Map → Run PartySignup
    load_signup env key hm = elim (store.get env.instant key hm) [
      | some o ↦ unwrap_option (json.from_str o)
      | none ↦ ret (record { number = 0; uuid = env.new_uuid })
    ]

    unfoldable pub signup_keygen_locked :
        Env → ℕ → Text → store.Map → Locked (Result PartySignup (Unit {0}))
    unfolding next_signup load_signup reading
    signup_keygen_locked env parties curve hm =
        let key = keygen_key curve in
        reading (load_signup env key hm) hm λ client_signup.
          let party_signup = next_signup env parties client_signup in
          (ret (ok party_signup), store.insert env.instant key (json.to_string party_signup) hm)

    unfoldable pub signup_keygen :
        Env → Params → Text → Manager → Run (Result PartySignup (Unit {0})) × Manager
    unfolding with_write signup_keygen_locked
    signup_keygen env params curve m = elim (parse_u16 params.parties) [
      | none ↦ (panic unwrap, m)
      | some parties ↦ with_write (signup_keygen_locked env parties curve) m
    ]

  module _ (json : Json SigningRoom) where
    unfoldable pub load_room : Env → PartySignupRequestBody → store.Map → Run SigningRoom
    load_room env request hm = elim (store.get env.instant (sign_key request) hm) [
      | some o ↦ unwrap_option (json.from_str o)
      | none ↦ ret (new request.room_id (add_u16 request.threshold 1) env.new_uuid)
    ]

    abbrev pub write_back :
        Env
        → PartySignupRequestBody
        → store.Map
        → Decision
        → Locked (Result SigningPartySignup ManagerError)
    write_back env request hm (answered s) = (ret (ok s), hm)
    write_back env request hm (stored s room) =
        (ret (ok s), store.insert env.instant (sign_key request) (json.to_string room) hm)
    write_back env request hm (refused e) = (ret (err e), hm)

    unfoldable pub signup_sign_locked :
        Env → PartySignupRequestBody → store.Map → Locked (Result SigningPartySignup ManagerError)
    unfolding load_room reading
    signup_sign_locked env request hm = reading (load_room env request hm) hm λ signing_room.
        reading (decide env request signing_room) hm λ decision. write_back env request hm decision

    unfoldable pub signup_sign :
        Env
        → PartySignupRequestBody
        → Manager
        → Run (Result SigningPartySignup ManagerError) × Manager
    unfolding with_write signup_sign_locked
    signup_sign env request = with_write (signup_sign_locked env request)
