-- ===== src/Client.antt =====
-- The client side of src/common/mod.rs: requests to the manager with their retries, and the messages
-- between parties, which go through the manager's entries.
pub mod Effects
pub mod Web
pub mod Keys
pub mod Waiting
pub mod Signup
pub mod Joined
pub mod Served
pub mod Delivered
pub mod Admitted
use tss_ecdsa_cli.Base.{
  ℕ, zero, suc, ◌+◌, ◌-◌, ◌/◌, Text, codes, to_text, parse_u16, parse_u64, is_empty, List, [], ◌∷◌,
  ◌++◌, Option, none, some, Bool, true, false, not, ltb, ◌==◌, if◌then◌else◌, Run, ret, panic,
  no_fuel, unwrap, explicit, unwrap_option, Result, ok, err,
}
use tss_ecdsa_cli.Common.{
  PartySignupRequestBody, PartySignup, SigningPartySignup, Index, Entry, ManagerError, Params,
}
use tss_ecdsa_cli.Manager.Store.{Json}
use Effects.{Io, ◌>>=◌, ◌>>◌, pure, run, fail}
use Web.{Network, Wire}
use Keys.{broadcast_key, p2p_key}

-- `i..=n` for a counter that takes `k` values.
abbrev pub range : ℕ → ℕ → List ℕ
range i zero = []
range i (suc k) = i ∷ range (i + 1) k

-- A client: its connection is the network, and this is the manager's address.
pub record Client : Type 0 where
  pub address : Text

unfoldable pub new : Text → Client
new addr = record { address = addr }

-- `std::env::var(…).unwrap_or("30").parse::<u64>().unwrap()`, the variable being TSS_CLI_POLL_TIMEOUT
-- or TSS_CLI_SIGNUP_TIMEOUT.
unfoldable pub client_timeout : Option Text → Run ℕ
client_timeout none = unwrap_option (parse_u64 (codes "30"))
client_timeout (some s) = unwrap_option (parse_u64 s)

module _ (net : Network) where
  open net use {World, clock, request, wait}

  abbrev pub post : Text → Text → Io World (Option (Option Text))
  post url body w = ret (request url body w)

  abbrev pub sleep : ℕ → Io World (Unit {0})
  sleep d w = ret (tt, wait d w)

  -- `Instant::now()`, or what `elapsed` reads.
  abbrev pub now : Io World ℕ
  now w = ret (clock w, w)

  -- One attempt of `postb`, and what follows if the request failed.
  abbrev pub text_or : Io World (Option Text) → Option (Option Text) → Io World (Option Text)
  text_or retry none = retry
  text_or retry (some text) = run (unwrap_option text) >>= λ t. pure (some t)

  -- The loop of `postb`, for the attempts that are left; a request that fails waits 250 ms.
  unfoldable pub attempts : ℕ → Text → Text → Io World (Option Text)
  attempts zero addr body = pure none
  attempts (suc k) addr body = do
    res ← post addr body
    text_or (sleep 250 >> attempts k addr body) res

  -- `for _i in 1..retries` with three retries makes two attempts.
  unfoldable pub postb : Client → Text → Text → Io World (Option Text)
  unfolding attempts
  postb client path body = attempts 2 (client.address ++ codes "/" ++ path) body

  -- `postb(…).unwrap()`, and the parse of the answer.
  unfoldable pub ask : {A : Type 0} → Json A → Client → Text → Text → Io World A
  unfolding postb
  ask reply client path body = do
    res ← postb client path body
    res_body ← run (unwrap_option res)
    run (unwrap_option (reply.from_str res_body))

  -- The `match` on an answer, with what follows an error.
  abbrev pub value_or : Io World Text → Result Entry ManagerError → Io World Text
  value_or retry (ok entry) = pure entry.value
  value_or retry (err e) = retry

  -- `if start_time.elapsed().as_secs() > timeout { panic!(…) }`.
  abbrev pub unless_timeout : ℕ → ℕ → Io World Text → Io World Text
  unless_timeout timeout start retry = do
    time ← now
    if ltb timeout ((time - start) / 1000) then fail (panic explicit) else retry

  module _ (wire : Wire) (client : Client) where
    unfoldable pub broadcast : ℕ → Text → Text → Text → Io World (Result (Unit {0}) (Unit {0}))
    unfolding ask
    broadcast party_num round data' sender_uuid = ask wire.set_reply client (codes "set") (
        wire.entry.to_string
          (record { key = broadcast_key party_num round sender_uuid; value = data' }))

    unfoldable pub sendp2p : ℕ → ℕ → Text → Text → Text → Io World (Result (Unit {0}) (Unit {0}))
    unfolding ask
    sendp2p party_from party_to round data' sender_uuid = ask wire.set_reply client (codes "set") (
        wire.entry.to_string
          (record { key = p2p_key party_from party_to round sender_uuid; value = data' }))

    -- The answer to one `get`.
    unfoldable pub get_entry : Text → Io World (Result Entry ManagerError)
    unfolding ask
    get_entry key =
        ask wire.get_reply client (codes "get") (wire.index.to_string (record { key = key }))

    -- The `loop` of `poll_for_broadcasts` for one key, on fuel: the panic is the time-out.
    unfoldable pub poll_broadcast : ℕ → ℕ → ℕ → ℕ → Text → Io World Text
    poll_broadcast zero delay timeout start key = fail no_fuel
    poll_broadcast (suc fuel) delay timeout start key = do
      sleep delay
      answer ← get_entry key
      value_or
          (unless_timeout timeout start
            (sleep delay >> poll_broadcast fuel delay timeout start key))
          answer

    -- The `loop` of `poll_for_p2p`, which sleeps once per round.
    unfoldable pub poll_p2p : ℕ → ℕ → ℕ → ℕ → Text → Io World Text
    poll_p2p zero delay timeout start key = fail no_fuel
    poll_p2p (suc fuel) delay timeout start key = do
      sleep delay
      answer ← get_entry key
      value_or (unless_timeout timeout start (poll_p2p fuel delay timeout start key)) answer

    -- The `for` loop of both polls over the other parties.
    unfoldable pub poll_each : (ℕ → ℕ → Io World Text) → ℕ → List ℕ → Io World (List Text)
    poll_each poll party_num [] = pure []
    poll_each poll party_num (i ∷ is) = if i == party_num then poll_each poll party_num is else (do
      start_time ← now
      value ← poll start_time i
      rest ← poll_each poll party_num is
      pure (value ∷ rest))

    -- The fuel is for each party.
    unfoldable pub poll_for_broadcasts :
        Option Text → ℕ → ℕ → ℕ → ℕ → Text → Text → Io World (List Text)
    unfolding poll_broadcast poll_each client_timeout
    poll_for_broadcasts var fuel party_num n delay round sender_uuid = do
      timeout ← run (client_timeout var)
      poll_each
          (λ start i. poll_broadcast fuel delay timeout start (broadcast_key i round sender_uuid))
          party_num (range 1 n)

    unfoldable pub poll_for_p2p : Option Text → ℕ → ℕ → ℕ → ℕ → Text → Text → Io World (List Text)
    unfolding poll_p2p poll_each client_timeout
    poll_for_p2p var fuel party_num n delay round sender_uuid = do
      timeout ← run (client_timeout var)
      poll_each
          (λ start i. poll_p2p fuel delay timeout start (p2p_key i party_num round sender_uuid))
          party_num (range 1 n)

    unfoldable pub keygen_signup : Params → Text → Io World (Result PartySignup (Unit {0}))
    unfolding ask
    keygen_signup params curve_name =
        ask wire.keygen_reply client (codes "signupkeygen")
          (wire.keygen_body.to_string (params, curve_name))
