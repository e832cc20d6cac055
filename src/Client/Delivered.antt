-- ===== src/Client/Delivered.antt =====
-- A message of src/common/mod.rs from one party to another: the sender's `broadcast` or `sendp2p`,
-- any requests of others to the manager, and the receiver's poll.
use tss_ecdsa_cli.Base.{
  ℕ, suc, ◌+◌, ◌≤◌, ◌<◌, ◌≡◌, ap, ◌∙◌, Text, codes, List, some, false, Run, ret, ok,
}
use tss_ecdsa_cli.Common.{PartySignup, Index, Entry}
use tss_ecdsa_cli.Room.{SigningRoom}
use tss_ecdsa_cli.Manager.Store.{TtlHashMap, IsTtlHashMap, Json, IsJson}
use tss_ecdsa_cli.Manager.{Env, Manager, get, get_locked, set}
use tss_ecdsa_cli.Manager.Requests.{Request, run, end_of}
use tss_ecdsa_cli.Manager.Surviving.{TimelySparing, run-get}
use tss_ecdsa_cli.Client.Web.{Network, Wire}
use tss_ecdsa_cli.Client.Keys.{broadcast_key, p2p_key}
use tss_ecdsa_cli.Client.Served.{url_of, AnsweredBy, Serves}
use tss_ecdsa_cli.Client.{
  Client, attempts, postb, ask, broadcast, sendp2p, get_entry, poll_broadcast, poll_p2p,
}

module _ (net : Network) where
  open net use {World, request}

  -- An answer to the first request that parses is the result.
  pub ask_answered :
      {A : Type 0} (reply : Json A) (client : Client) (path body : Text) (w : World) (t : Text)
      (a : A)
      → (request (url_of client path) body w).0 ≡ some (some t)
      → reply.from_str t ≡ some a
      → ask net reply client path body w ≡ ret (a, (request (url_of client path) body w).1)
  unfolding ask postb attempts
  ask_answered reply client path body w t a sent read = rw (sent, attempts) (rw read)

  pub ask-AnsweredBy :
      {A M : Type 0} (reply : Json A) (client : Client) (path body : Text) (manager : World → M)
      (handled : Run A × M) (w : World) (a : A)
      → IsJson reply
      → AnsweredBy net reply manager handled (request (url_of client path) body w)
      → handled.0 ≡ ret a
      → ask net reply client path body w ≡ ret (a, (request (url_of client path) body w).1)
  ask-AnsweredBy reply client path body manager handled w a written answered returned =
      ask_answered reply client path body w (reply.to_string a) a (answered.sends a returned)
        (written.from_str-to_string a)

-- What the manager does on the way.
module _ (store : TtlHashMap) where
  set_usable :
      (env : Env) (entry : Entry) (m : Manager store)
      → m.poisoned ≡ false
      → set store env entry m
        ≡ (ret (ok tt), record m { db = store.insert env.instant entry.key entry.value m.db })
  unfolding set
  set_usable env entry m usable = rw usable

  get_usable :
      (env : Env) (index : Index) (m : Manager store) (v : Text)
      → m.poisoned ≡ false
      → store.get env.instant index.key m.db ≡ some v
      → (get store env index m).0 ≡ ret (ok (record { key = index.key; value = v }))
  unfolding get
  get_usable env index m v usable found = rw usable (rw (found, get_locked))

module _ {net : Network} {wire : Wire} {client : Client} {store : TtlHashMap}
    {rooms : Json SigningRoom} {signups : Json PartySignup}
    (served : Serves net wire client store rooms signups) (ttl : ℕ)
    (lawful : IsTtlHashMap store ttl) (set_json : IsJson wire.set_reply)
    (get_json : IsJson wire.get_reply) where
  open served use {manager, env_of, serves_get, serves_set}
  open net use {World, request, wait}

  -- The world once the entry is set.
  abbrev pub after_set : Entry → World → World
  after_set entry w = (request (url_of client (codes "set")) (wire.entry.to_string entry) w).1

  set_entry :
      (entry : Entry) (w : World)
      → (manager w).poisoned ≡ false
      → ask net wire.set_reply client (codes "set") (wire.entry.to_string entry) w
        ≡ ret (ok tt, after_set entry w)
  set_entry entry w usable =
      ask-AnsweredBy net wire.set_reply client (codes "set") (wire.entry.to_string entry) manager
        (set store (env_of w) entry (manager w)) w (ok tt) set_json (serves_set w entry)
        (ap (λ r. r.0) (set_usable store (env_of w) entry (manager w) usable))

  -- The requests that reach the manager between the message and the time `w` of the poll's request.
  pub record Between (entry : Entry) (sent w : World) (history : List (Env × Request))
      : Type 0 where
    pub usable : (manager sent).poisoned ≡ false
    pub still_usable : (manager w).poisoned ≡ false
    pub history_run : manager w ≡ run store rooms signups history (manager (after_set entry sent))
    pub timely : TimelySparing entry.key (env_of sent).instant history
    pub not_before : (env_of sent).instant ≤ (env_of w).instant
    pub after_history : end_of (env_of sent).instant history ≤ (env_of w).instant
    pub alive : (env_of w).instant < (env_of sent).instant + ttl

  found :
      (entry : Entry) (sent w : World) (history : List (Env × Request))
      → Between entry sent w history
      → store.get (env_of w).instant entry.key (manager w).db ≡ some entry.value
  found entry sent w history b =
      ap (λ (m : Manager store). store.get (env_of w).instant entry.key m.db)
        (b.history_run
          ∙ ap (run store rooms signups history) (
              (serves_set sent entry).leaves
              ∙ ap (λ r. r.1) (set_usable store (env_of sent) entry (manager sent) b.usable)))
      ∙ run-get store rooms signups ttl lawful entry.key (env_of sent).instant history
          (record (manager sent) {
            db = store.insert (env_of sent).instant entry.key entry.value (manager sent).db;
          })
          (env_of w).instant b.timely b.after_history
      ∙ lawful.get-insert_self (manager sent).db entry.key entry.value (env_of sent).instant
          (env_of w).instant b.not_before b.alive

  -- The world once the entry is asked for.
  abbrev pub after_get : Text → World → World
  after_get key w =
      (request (url_of client (codes "get")) (wire.index.to_string (record { key = key })) w).1

  get_entry_found :
      (entry : Entry) (sent w : World) (history : List (Env × Request))
      → Between entry sent w history
      → get_entry net wire client entry.key w ≡ ret (ok entry, after_get entry.key w)
  unfolding get_entry
  get_entry_found entry sent w history b =
      ask-AnsweredBy net wire.get_reply client (codes "get")
        (wire.index.to_string (record { key = entry.key })) manager
        (get store (env_of w) (record { key = entry.key }) (manager w)) w (ok entry) get_json
        (serves_get w (record { key = entry.key }))
        (get_usable store (env_of w) (record { key = entry.key }) (manager w) entry.value
          b.still_usable (found entry sent w history b))

  abbrev pub broadcast_entry : ℕ → Text → Text → Text → Entry
  broadcast_entry party_num round data' uuid = record {
    key = broadcast_key party_num round uuid;
    value = data';
  }

  abbrev pub p2p_entry : ℕ → ℕ → Text → Text → Text → Entry
  p2p_entry party_from party_to round data' uuid = record {
    key = p2p_key party_from party_to round uuid;
    value = data';
  }

  -- Against a server that answers with what the manager's handlers return, and a map and codecs
  -- that keep their documented behaviour: if the manager's lock is not poisoned, the sender's
  -- `broadcast` succeeds; and the poll of another party whose request reaches the manager within
  -- the time to live of the entry returns just the data sent, in its first round, whatever other
  -- requests the manager has had since, in the order of their times, as long as none wrote under
  -- the message's key and the lock is still not poisoned.
  pub broadcast-poll :
      (party_num : ℕ) (round data' uuid : Text) (sent w : World) (history : List (Env × Request))
      (fuel delay timeout start : ℕ)
      → Between (broadcast_entry party_num round data' uuid) sent (wait delay w) history
      → (broadcast net wire client party_num round data' uuid sent
          ≡ ret (ok tt, after_set (broadcast_entry party_num round data' uuid) sent))
        × (poll_broadcast net wire client
              (suc fuel)
              delay
              timeout
              start
              (broadcast_key party_num round uuid)
              w
            ≡ ret (data', after_get (broadcast_key party_num round uuid) (wait delay w)))
  unfolding broadcast poll_broadcast
  broadcast-poll party_num round data' uuid sent w history fuel delay timeout start b = (
    set_entry (broadcast_entry party_num round data' uuid) sent b.usable,
    rw (get_entry_found (broadcast_entry party_num round data' uuid) sent (wait delay w) history b),
  )

  -- Against a server that answers with what the manager's handlers return, and a map and codecs
  -- that keep their documented behaviour: if the manager's lock is not poisoned, the sender's
  -- `sendp2p` succeeds; and the receiver's poll, whose request reaches the manager within the time
  -- to live of the entry, returns just the data sent, in its first round, whatever other requests
  -- the manager has had since, in the order of their times, as long as none wrote under the
  -- message's key and the lock is still not poisoned.
  pub sendp2p-poll :
      (party_from party_to : ℕ) (round data' uuid : Text) (sent w : World)
      (history : List (Env × Request)) (fuel delay timeout start : ℕ)
      → Between (p2p_entry party_from party_to round data' uuid) sent (wait delay w) history
      → (sendp2p net wire client party_from party_to round data' uuid sent
          ≡ ret (ok tt, after_set (p2p_entry party_from party_to round data' uuid) sent))
        × (poll_p2p net wire client
              (suc fuel)
              delay
              timeout
              start
              (p2p_key party_from party_to round uuid)
              w
            ≡ ret (data', after_get (p2p_key party_from party_to round uuid) (wait delay w)))
  unfolding sendp2p poll_p2p
  sendp2p-poll party_from party_to round data' uuid sent w history fuel delay timeout start b = (
    set_entry (p2p_entry party_from party_to round data' uuid) sent b.usable,
    rw (
        get_entry_found (p2p_entry party_from party_to round data' uuid) sent (wait delay w) history
          b),
  )
