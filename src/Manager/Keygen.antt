-- ===== src/Manager/Keygen.antt =====
-- The signup for a key generation, `signup_keygen` of src/common/manager.rs: how the numbers and the
-- UUIDs of a batch come about.
use tss_ecdsa_cli.Base.{
  ℕ, ◌+◌, ◌≤◌, ◌<◌, ◌^◌, ◌≡◌, ap, Text, List, [], ◌∷◌, ◌++◌, none, some, false, Run, ret, Result,
  ok, arith, length, parse_u16,
}
use tss_ecdsa_cli.Common.{PartySignup, Params}
use tss_ecdsa_cli.Manager.Store.{TtlHashMap, IsTtlHashMap, Json, IsJson}
use tss_ecdsa_cli.Manager.{Env, Manager, next_signup, keygen_key, load_signup, signup_keygen}

-- The replies to the next parties of a batch with the UUID `u`, in which `k` parties are.
abbrev pub numbered : ℕ → Text → List Env → List (Run (Result PartySignup (Unit {0})))
numbered k u [] = []
numbered k u (env ∷ envs) = ret (ok (record { number = k + 1; uuid = u })) ∷ numbered (k + 1) u envs

-- The entry with one party more.
abbrev counted : PartySignup → PartySignup
counted s = record { number = s.number + 1; uuid = s.uuid }

next_within :
    (env : Env) (n : ℕ) (s : PartySignup)
    → s.number < n
    → n < 2 ^ 16
    → next_signup env n s ≡ counted s
unfolding next_signup
next_within env n s h k = ground arith

next_full :
    (env : Env) (n : ℕ) (s : PartySignup)
    → s.number ≡ n
    → next_signup env n s ≡ record { number = 1; uuid = env.renewed_uuid }
unfolding next_signup
next_full env n s h = ground arith

module _ (store : TtlHashMap) (json : Json PartySignup) where
  -- The replies to signups that come one after the other.
  unfoldable pub replies :
      Params → Text → List Env → Manager store → List (Run (Result PartySignup (Unit {0})))
  replies params curve [] m = []
  replies params curve (env ∷ envs) m =
      let (reply, next) = signup_keygen store json env params curve m in
      reply ∷ replies params curve envs next

  module _ (ttl : ℕ) (lawful : IsTtlHashMap store ttl) (written : IsJson json) (params : Params)
      (curve : Text) (n : ℕ) (parties : parse_u16 params.parties ≡ some n) where
    -- Since the instant `t`, the entry of the curve is `s`.
    pub record Holds (t : ℕ) (m : Manager store) (s : PartySignup) : Type 0 where
      pub usable : m.poisoned ≡ false
      pub entry :
          (later : ℕ)
          → t ≤ later
          → later < t + ttl
          → store.get later (keygen_key curve) m.db ≡ some (json.to_string s)

    abbrev after_signup : Env → PartySignup → Manager store → Manager store
    after_signup env s m = record m {
      db = store.insert env.instant (keygen_key curve) (json.to_string s) m.db;
    }

    after_signup-Holds :
        (env : Env) (s : PartySignup) (m : Manager store)
        → m.poisoned ≡ false
        → Holds env.instant (after_signup env s m) s
    after_signup-Holds env s m usable = record {
      usable = usable;
      entry = λ later h k.
          lawful.get-insert_self m.db (keygen_key curve) (json.to_string s) env.instant later h k;
    }

    -- One signup, over what `load_signup` finds.
    signup_lem :
        (env : Env) (s : PartySignup) (m : Manager store)
        → m.poisoned ≡ false
        → load_signup store json env (keygen_key curve) m.db ≡ ret s
        → signup_keygen store json env params curve m
          ≡ (ret (ok (next_signup env n s)), after_signup env (next_signup env n s) m)
    unfolding signup_keygen
    signup_lem env s m usable loaded = rw (parties, signup_keygen) (rw (usable, loaded))

    loaded :
        (t : ℕ) (env : Env) (s : PartySignup) (m : Manager store)
        → Holds t m s
        → t ≤ env.instant
        → env.instant < t + ttl
        → load_signup store json env (keygen_key curve) m.db ≡ ret s
    unfolding load_signup
    loaded t env s m h a b =
        rw (h.entry env.instant a b, load_signup) (rw (written.from_str-to_string s))

    -- Each signup comes while the entry of the one before lives.
    abbrev pub InTime : ℕ → List Env → Type 0
    InTime t [] = Unit {0}
    InTime t (env ∷ envs) = (t ≤ env.instant) × (env.instant < t + ttl) × InTime env.instant envs

    replies-numbered :
        (t : ℕ) (s : PartySignup) (envs : List Env) (last : Env) (m : Manager store)
        → Holds t m s
        → InTime t (envs ++ last ∷ [])
        → s.number + length envs ≡ n
        → n < 2 ^ 16
        → replies params curve (envs ++ last ∷ []) m
          ≡ numbered s.number s.uuid envs
            ++ ret (ok (record { number = 1; uuid = last.renewed_uuid })) ∷ []
    unfolding replies
    replies-numbered t s [] last m h i e small = rw (
      signup_lem last s m h.usable (loaded t last s m h i.0 i.1),
      next_full last n s (omega arith),
    )
    replies-numbered t s (env ∷ envs) last m h i e small =
        rw
          (
            signup_lem env s m h.usable (loaded t env s m h i.0 i.1),
            next_within env n s (omega arith) small,
          )
          (ap (◌∷◌ (ret (ok (counted s)))) (
            replies-numbered env.instant (counted s) envs last (after_signup env (counted s) m)
              (after_signup-Holds env (counted s) m h.usable) i.2 (omega arith) small))

    -- Over a map and a codec that keep their documented behaviour, with an unpoisoned lock: if no
    -- entry of a curve is found, then of `n` signups, fewer than 2 ^ 16, that each come within the
    -- time to live of the entry of the one before, the `k`-th gets the number `k`, all get one
    -- UUID, and one more signup opens a new batch under a new UUID.
    pub keygen_batch :
        (first last : Env) (envs : List Env) (m : Manager store)
        → m.poisoned ≡ false
        → store.get first.instant (keygen_key curve) m.db ≡ none
        → InTime first.instant (envs ++ last ∷ [])
        → 1 + length envs ≡ n
        → n < 2 ^ 16
        → replies params curve (first ∷ (envs ++ last ∷ [])) m
          ≡ numbered 0 first.new_uuid (first ∷ envs)
            ++ ret (ok (record { number = 1; uuid = last.renewed_uuid })) ∷ []
    unfolding replies
    keygen_batch first last envs m usable absent i e small =
        rw
          (
            signup_lem first opening m usable (opens first m absent),
            next_within first n opening (omega arith) small,
          )
          (ap (◌∷◌ (ret (ok (counted opening)))) (
            replies-numbered first.instant (counted opening) envs last
              (after_signup first (counted opening) m)
              (after_signup-Holds first (counted opening) m usable) i (omega arith) small))
      where
        opening : PartySignup
        opening = record { number = 0; uuid = first.new_uuid }

        opens :
            (first : Env) (m : Manager store)
            → store.get first.instant (keygen_key curve) m.db ≡ none
            → load_signup store json first (keygen_key curve) m.db
              ≡ ret (record { number = 0; uuid = first.new_uuid })
        opens first m absent = unfold load_signup in rw (absent, load_signup)
