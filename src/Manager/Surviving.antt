-- ===== src/Manager/Surviving.antt =====
-- What becomes of an entry of the manager of src/common/manager.rs while other requests come.
use tss_ecdsa_cli.Base.{
  ℕ, ◌≤◌, ◌≡◌, ◌≢◌, refl, ◌∙◌, Text, List, [], ◌∷◌, Option-cases, inl, inr, arith, parse_u16,
  Ensures-any,
}
use tss_ecdsa_cli.Common.{PartySignupRequestBody, PartySignup, Index}
use tss_ecdsa_cli.Room.{SigningRoom}
use tss_ecdsa_cli.Manager.Store.{TtlHashMap, IsTtlHashMap, Json}
use tss_ecdsa_cli.Manager.{
  Env, Manager, Decision, answered, stored, refused, decide, keygen_key, sign_key, get, set,
  get_locked, set_locked, signup_keygen, signup_keygen_locked, signup_sign, signup_sign_locked,
  load_room, load_signup, next_signup, write_back,
}
use tss_ecdsa_cli.Manager.Lock.{with_write-keeps, reading-keeps}
use tss_ecdsa_cli.Manager.Requests.{Request, gets, sets, keygens, signs, step, run, end_of}

-- The request does not write under the key `k`.
abbrev pub SparesKey : Text → Request → Type 0
SparesKey k (sets entry) = entry.key ≢ k
SparesKey k (gets index) = Unit {0}
SparesKey k (keygens params curve) = keygen_key curve ≢ k
SparesKey k (signs request) = sign_key request ≢ k

-- Requests that come one after the other in time and do not write under the key.
abbrev pub TimelySparing : Text → ℕ → List (Env × Request) → Type 0
TimelySparing k now [] = Unit {0}
TimelySparing k now (e ∷ es) =
    (now ≤ e.0.instant) × SparesKey k e.1 × TimelySparing k e.0.instant es

module _ (store : TtlHashMap) (rooms : Json SigningRoom) (signups : Json PartySignup) (ttl : ℕ)
    (lawful : IsTtlHashMap store ttl) (k : Text) where
  -- From the instant `now` on, what the two maps hold under the key is the same.
  pub record Same (now : ℕ) (db db' : store.Map) : Type 0 where
    pub same : (later : ℕ) → now ≤ later → store.get later k db' ≡ store.get later k db

  insert-Same :
      (now : ℕ) (j v : Text) (db : store.Map) → j ≢ k → Same now db (store.insert now j v db)
  insert-Same now j v db other = record {
    same = λ later h. lawful.get-insert_ne db j k v now later other h;
  }

  Same-refl : (now : ℕ) (db : store.Map) → Same now db db
  Same-refl now db = record { same = λ later h. refl }

  get_locked-Same :
      (env : Env) (index : Index) (db : store.Map)
      → Same env.instant db (get_locked store env index db).1
  unfolding get_locked
  get_locked-Same env index db = elim (Option-cases (store.get env.instant index.key db)) [
    | inl e ↦ rw (e, get_locked) (Same-refl env.instant db)
    | inr (w, e) ↦ rw (e, get_locked) (Same-refl env.instant db)
  ]

  keygen_locked-Same :
      (env : Env) (parties : ℕ) (curve : Text) (db : store.Map)
      → keygen_key curve ≢ k
      → Same env.instant db (signup_keygen_locked store signups env parties curve db).1
  unfolding signup_keygen_locked
  keygen_locked-Same env parties curve db other =
      reading-keeps store (λ s. Unit {0}) (Same env.instant db)
        (load_signup store signups env (keygen_key curve) db) db _ (Same-refl env.instant db)
        (Ensures-any (load_signup store signups env (keygen_key curve) db))
        λ s _.
          insert-Same env.instant (keygen_key curve) (signups.to_string (next_signup env parties s))
            db other

  write_back-Same :
      (env : Env) (request : PartySignupRequestBody) (db : store.Map) (d : Decision)
      → sign_key request ≢ k
      → Same env.instant db (write_back store rooms env request db d).1
  write_back-Same env request db (answered s) other = Same-refl env.instant db
  write_back-Same env request db (stored s room) other =
      insert-Same env.instant (sign_key request) (rooms.to_string room) db other
  write_back-Same env request db (refused e) other = Same-refl env.instant db

  sign_locked-Same :
      (env : Env) (request : PartySignupRequestBody) (db : store.Map)
      → sign_key request ≢ k
      → Same env.instant db (signup_sign_locked store rooms env request db).1
  unfolding signup_sign_locked
  sign_locked-Same env request db other =
      reading-keeps store (λ room. Unit {0}) (Same env.instant db)
        (load_room store rooms env request db) db _ (Same-refl env.instant db)
        (Ensures-any (load_room store rooms env request db))
        λ room _.
          reading-keeps store (λ d. Unit {0}) (Same env.instant db) (decide env request room) db _
            (Same-refl env.instant db) (Ensures-any (decide env request room))
            λ d _. write_back-Same env request db d other

  step-Same :
      (env : Env) (request : Request) (m : Manager store)
      → SparesKey k request
      → Same env.instant m.db (step store rooms signups env request m).db
  unfolding step
  step-Same env (gets index) m spares =
      unfold get in
      with_write-keeps store (Same env.instant m.db) (get_locked store env index) m
        (Same-refl env.instant m.db) (get_locked-Same env index m.db)
  step-Same env (sets entry) m spares =
      unfold set in
      with_write-keeps store (Same env.instant m.db) (set_locked store env entry) m
        (Same-refl env.instant m.db) (insert-Same env.instant entry.key entry.value m.db spares)
  step-Same env (keygens params curve) m spares =
      unfold signup_keygen in
      elim (Option-cases (parse_u16 params.parties)) [
        | inl e ↦ rw (e, step, signup_keygen) (Same-refl env.instant m.db)
        | inr (parties, e) ↦
            rw (e, step, signup_keygen)
              (with_write-keeps store (Same env.instant m.db)
                (signup_keygen_locked store signups env parties curve) m
                (Same-refl env.instant m.db) (keygen_locked-Same env parties curve m.db spares))
      ]
  step-Same env (signs request) m spares =
      unfold signup_sign in
      with_write-keeps store (Same env.instant m.db) (signup_sign_locked store rooms env request) m
        (Same-refl env.instant m.db) (sign_locked-Same env request m.db spares)

  -- Over a map that keeps its documented behaviour: requests that do not write under a key, in the
  -- order of their times, do not change what is found under it. At any time after the last one the
  -- map gives what it would have given without them, also where some of them fail or panic.
  pub run-get :
      (now : ℕ) (history : List (Env × Request)) (m : Manager store) (later : ℕ)
      → TimelySparing k now history
      → end_of now history ≤ later
      → store.get later k (run store rooms signups history m).db ≡ store.get later k m.db
  unfolding run
  run-get now [] m later t h = refl
  run-get now ((env, request) ∷ history) m later t h =
      run-get env.instant history (step store rooms signups env request m) later t.2 h
      ∙ (step-Same env request m t.1).same later (end-le env.instant history later t.2 h)
    where
      end-le :
          (now : ℕ) (history : List (Env × Request)) (later : ℕ)
          → TimelySparing k now history
          → end_of now history ≤ later
          → now ≤ later
      end-le now [] later t h = h
      end-le now (e ∷ es) later t h = omega (arith, end-le e.0.instant es later t.2 h)
