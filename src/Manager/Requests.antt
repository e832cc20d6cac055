-- ===== src/Manager/Requests.antt =====
-- Histories of requests to the manager of src/common/manager.rs.
use tss_ecdsa_cli.Base.{ℕ, ◌≤◌, ◌≢◌, Text, List, [], ◌∷◌, none, some, arith, ap, get_elem?}
use tss_ecdsa_cli.Common.{PartySignupRequestBody, PartySignup, Index, Entry, Params}
use tss_ecdsa_cli.Room.{SigningRoom}
use tss_ecdsa_cli.Manager.Store.{TtlHashMap, Json}
use tss_ecdsa_cli.Manager.{Env, Manager, keygen_key, sign_key, get, set, signup_keygen, signup_sign}

pub data Request : Type 0 where
  gets : Index → Request
  sets : Entry → Request
  keygens : Params → Text → Request
  signs : PartySignupRequestBody → Request

-- The request writes under no key of a signing room. A `set` of a client of this program meets it:
-- its keys begin with a digit.
abbrev pub SparesRooms : Request → Type 0
SparesRooms (sets entry) = (request : PartySignupRequestBody) → sign_key request ≢ entry.key
SparesRooms (gets index) = Unit {0}
SparesRooms (keygens params curve) = Unit {0}
SparesRooms (signs request) = Unit {0}

-- The requests come one after the other in time, and spare the rooms.
abbrev pub Timely : ℕ → List (Env × Request) → Type 0
Timely now [] = Unit {0}
Timely now (e ∷ es) = (now ≤ e.0.instant) × SparesRooms e.1 × Timely e.0.instant es

abbrev eighth : Text → ℕ
eighth s = elim (get_elem? s 7) [ some c ↦ c | none ↦ 0 ]

letters_differ : ◌≢◌ {A = ℕ} b's' b'k'
letters_differ = omega arith

pub keygen_key-ne-sign_key :
    (curve : Text) (request : PartySignupRequestBody) → sign_key request ≢ keygen_key curve
keygen_key-ne-sign_key curve request e = letters_differ (ap eighth e)

-- The instant of the last request.
abbrev pub end_of : ℕ → List (Env × Request) → ℕ
end_of now [] = now
end_of now (e ∷ es) = end_of e.0.instant es

module _ (store : TtlHashMap) (rooms : Json SigningRoom) (signups : Json PartySignup) where
  unfoldable pub step : Env → Request → Manager store → Manager store
  step env (gets index) m = (get store env index m).1
  step env (sets entry) m = (set store env entry m).1
  step env (keygens params curve) m = (signup_keygen store signups env params curve m).1
  step env (signs request) m = (signup_sign store rooms env request m).1

  unfoldable pub run : List (Env × Request) → Manager store → Manager store
  run [] m = m
  run (e ∷ es) m = run es (step e.0 e.1 m)
