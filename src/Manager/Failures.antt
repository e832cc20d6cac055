-- ===== src/Manager/Failures.antt =====
-- Requests to the manager of src/common/manager.rs that fail, and the poisoned lock.
use tss_ecdsa_cli.Base.{
  ℕ, ◌+◌, ◌≤◌, ◌<◌, ◌≡◌, ◌≢◌, ◌⊎◌, inl, inr, refl, ap, sym, ◌∙◌, Text, none, some, true, false, ret,
  panic, no_fuel, unwrap, Result, ok, arith, Bool-cases,
}
use tss_ecdsa_cli.Common.{PartySignupRequestBody, SigningPartySignup, Index, Entry, ManagerError}
use tss_ecdsa_cli.Room.{SigningRoom}
use tss_ecdsa_cli.Manager.Store.{TtlHashMap, IsTtlHashMap, Json}
use tss_ecdsa_cli.Manager.Lock.{reading-cases}
use tss_ecdsa_cli.Manager.{
  Env, Manager, Decision, answered, stored, refused, decide, sign_key, released, get, set,
  signup_sign, signup_sign_locked, load_room, write_back, Locked,
}

module _ (store : TtlHashMap) (rooms : Json SigningRoom) where
  abbrev Reply : Type 0
  Reply = Result SigningPartySignup ManagerError

  -- A body either accepts, or leaves the map as it is.
  abbrev AcceptsOrKeeps : store.Map → Locked store Reply → Type 0
  AcceptsOrKeeps hm r = ((s : SigningPartySignup) × (r.0 ≡ ret (ok s))) ⊎ (r.1 ≡ hm)

  write_back-cases :
      (env : Env) (request : PartySignupRequestBody) (hm : store.Map) (d : Decision)
      → AcceptsOrKeeps hm (write_back store rooms env request hm d)
  write_back-cases env request hm (answered s) = inr refl
  write_back-cases env request hm (stored s room) = inl (s, refl)
  write_back-cases env request hm (refused e) = inr refl

  locked-cases :
      (env : Env) (request : PartySignupRequestBody) (hm : store.Map)
      → AcceptsOrKeeps hm (signup_sign_locked store rooms env request hm)
  unfolding signup_sign_locked
  locked-cases env request hm =
      reading-cases store (AcceptsOrKeeps hm) (load_room store rooms env request hm) hm _
        (λ p. inr refl) (inr refl)
        λ room _.
          reading-cases store (AcceptsOrKeeps hm) (decide env request room) hm _ (λ p. inr refl)
            (inr refl) λ d _. write_back-cases env request hm d

  released-unchanged :
      (m : Manager store) (r : Locked store Reply)
      → AcceptsOrKeeps m.db r
      → ((s : SigningPartySignup) → (released store m r).0 ≢ ret (ok s))
      → (released store m r).1.db ≡ m.db
  released-unchanged m (ret a, db) (inl (s, e)) failed = absurd (failed s e)
  released-unchanged m (panic p, db) (inl (s, e)) failed = absurd (cc)
  released-unchanged m (no_fuel, db) (inl (s, e)) failed = absurd (cc)
  released-unchanged m (ret a, db) (inr e) failed = e
  released-unchanged m (panic p, db) (inr e) failed = e
  released-unchanged m (no_fuel, db) (inr e) failed = e

  signup_sign_poisoned :
      (env : Env) (request : PartySignupRequestBody) (m : Manager store)
      → m.poisoned ≡ true
      → signup_sign store rooms env request m ≡ (panic unwrap, m)
  unfolding signup_sign
  signup_sign_poisoned env request m p = ground arith

  signup_sign_sound :
      (env : Env) (request : PartySignupRequestBody) (m : Manager store)
      → m.poisoned ≡ false
      → signup_sign store rooms env request m
        ≡ released store m (signup_sign_locked store rooms env request m.db)
  unfolding signup_sign
  signup_sign_sound env request m p = rw p

  -- A request to join a signing room that is not accepted, by an error or by a panic, leaves the
  -- map as it was.
  pub signup_sign_unchanged :
      (env : Env) (request : PartySignupRequestBody) (m : Manager store)
      → ((s : SigningPartySignup) → (signup_sign store rooms env request m).0 ≢ ret (ok s))
      → (signup_sign store rooms env request m).1.db ≡ m.db
  signup_sign_unchanged env request m failed = elim (Bool-cases m.poisoned) [
    | inl p ↦ ap (λ x. x.1.db) (signup_sign_poisoned env request m p)
    | inr p ↦
        let e = signup_sign_sound env request m p in
        ap (λ x. x.1.db) e
        ∙ released-unchanged m (signup_sign_locked store rooms env request m.db)
            (locked-cases env request m.db) (λ s q. failed s (ap (λ x. x.0) e ∙ q))
  ]

  abbrev with_entry : Env → Entry → Manager store → Manager store
  with_entry env entry m = record m { db = store.insert env.instant entry.key entry.value m.db }

  set_sound :
      (env : Env) (entry : Entry) (m : Manager store)
      → m.poisoned ≡ false
      → (set store env entry m).1 ≡ with_entry env entry m
  unfolding set
  set_sound env entry m p = ground arith

  bad_room :
      (env : Env) (request : PartySignupRequestBody) (hm : store.Map) (v : Text)
      → store.get env.instant (sign_key request) hm ≡ some v
      → rooms.from_str v ≡ none
      → load_room store rooms env request hm ≡ panic unwrap
  unfolding load_room
  bad_room env request hm v e bad = rw (e, load_room, bad)

  poisoned_reply :
      (ttl : ℕ)
      → IsTtlHashMap store ttl
      → (env later : Env) (entry : Entry) (request : PartySignupRequestBody) (m : Manager store)
      → m.poisoned ≡ false
      → entry.key ≡ sign_key request
      → rooms.from_str entry.value ≡ none
      → env.instant ≤ later.instant
      → later.instant < env.instant + ttl
      → signup_sign store rooms later request (set store env entry m).1
        ≡ (panic unwrap, record (with_entry env entry m) { poisoned = true })
  poisoned_reply ttl lawful env later entry request m sound key bad h k =
      rw (set_sound env entry m sound) (
        signup_sign_sound later request (with_entry env entry m) sound
        ∙ unfold signup_sign_locked in
          rw (
            bad_room later request (with_entry env entry m).db entry.value
              (ap (λ j. store.get later.instant j (with_entry env entry m).db) (sym key)
                ∙ lawful.get-insert_self m.db entry.key entry.value env.instant later.instant h k)
              bad))

  -- Over a map that keeps its documented behaviour: a text that is no room, set under the key of a
  -- room, makes a signup to the room within the time to live of the entry panic and poison the
  -- lock; from then on every `get` panics too.
  pub set_poisons :
      (ttl : ℕ)
      → IsTtlHashMap store ttl
      → (env later : Env) (entry : Entry) (request : PartySignupRequestBody) (m : Manager store)
      → m.poisoned ≡ false
      → entry.key ≡ sign_key request
      → rooms.from_str entry.value ≡ none
      → env.instant ≤ later.instant
      → later.instant < env.instant + ttl
      → let after = signup_sign store rooms later request (set store env entry m).1 in
        (after.0 ≡ panic unwrap)
        × (after.1.poisoned ≡ true)
        × ((e : Env) (index : Index) → get store e index after.1 ≡ (panic unwrap, after.1))
  set_poisons ttl lawful env later entry request m sound key bad h k =
      rw (poisoned_reply ttl lawful env later entry request m sound key bad h k)
        (refl, refl, λ e index. unfold get in refl)
