-- ===== src/Client/Signup.antt =====
-- `signup` of src/common/mod.rs: the request to join a signing room, repeated until the manager
-- tells the UUID of the room.
use tss_ecdsa_cli.Base.{
  ℕ, zero, suc, ◌-◌, ◌/◌, Text, [], is_empty, parse_u16, Option, ltb, ◌==◌, if◌then◌else◌, Run, ret,
  panic, no_fuel, unwrap, explicit, unwrap_option, Result, ok, err,
}
use tss_ecdsa_cli.Common.{
  PartySignupRequestBody, PartySignup, SigningPartySignup, ManagerError, Params,
}
use tss_ecdsa_cli.Client.Effects.{Io, ◌>>=◌, ◌>>◌, pure, run, fail}
use tss_ecdsa_cli.Client.Web.{Network, Wire}
use tss_ecdsa_cli.Client.{Client, client_timeout, sleep, ask}

-- The variables of the loop: `party_signup`, `last_total_joined` and `now`.
pub record Waiting : Type 0 where
  pub party_signup : PartySignup
  pub last_total_joined : ℕ
  pub now : ℕ

-- The variables after an answer, at the time `time`.
unfoldable pub answered : SigningPartySignup → ℕ → Waiting → Waiting
answered answer time s = record {
  party_signup = record { number = answer.party_order; uuid = answer.room_uuid };
  last_total_joined = answer.total_joined;
  now = if answer.total_joined == s.last_total_joined then s.now else time;
}

-- The test after the loop.
unfoldable pub with_room : Waiting → Run (PartySignup × ℕ)
with_room s =
    if is_empty s.party_signup.uuid
    then panic explicit
    else ret (s.party_signup, s.last_total_joined)

module _ (net : Network) (wire : Wire) (client : Client) where
  open net use {World, system_clock}

  -- `SystemTime::now()`.
  abbrev system_now : Io World ℕ
  system_now w = ret (system_clock w, w)

  -- `now.elapsed().unwrap()`, which panics if the system's clock was set back.
  unfoldable pub elapsed : ℕ → Io World ℕ
  elapsed start w =
      if ltb (system_clock w) start then panic unwrap else ret (system_clock w - start, w)

  -- The value of an answer; an error is a panic with the manager's text.
  abbrev pub accepted : Result SigningPartySignup ManagerError → Run SigningPartySignup
  accepted (ok answer) = ret answer
  accepted (err e) = panic explicit

  unfoldable pub ask_signup : Text → PartySignupRequestBody → Io World SigningPartySignup
  unfolding ask
  ask_signup path body = do
    answer ← ask net wire.sign_reply client path (wire.sign_body.to_string body)
    run (accepted answer)

  -- The `while` loop, on fuel.
  unfoldable pub wait_for_room :
      ℕ → Text → PartySignupRequestBody → ℕ → Waiting → Io World (PartySignup × ℕ)
  unfolding ask_signup answered elapsed with_room
  wait_for_room zero path body timeout s = fail no_fuel
  wait_for_room (suc fuel) path body timeout s =
      if is_empty s.party_signup.uuid
      then (do
        sleep net 100
        answer ← ask_signup path body
        time ← system_now
        let next = answered answer time s
        waited ← elapsed next.now
        if ltb timeout (waited / 1000)
            then run (with_room next)
            else wait_for_room fuel path body timeout next)
      else run (with_room s)

  unfoldable pub signup :
      Option Text
      → ℕ
      → Text
      → Params
      → Text
      → ℕ
      → Text
      → Io World (Result (PartySignup × ℕ) (Unit {0}))
  unfolding ask_signup wait_for_room client_timeout
  signup var fuel path params room_id party_id curve_name = do
    threshold ← run (unwrap_option (parse_u16 params.threshold))
    let body : PartySignupRequestBody = record {
      threshold = threshold;
      room_id = room_id;
      party_number = party_id;
      party_uuid = [];
      curve_name = curve_name;
    }
    timeout ← run (client_timeout var)
    first ← ask_signup path body
    time ← system_now
    joined ←
        wait_for_room fuel path (record body { party_uuid = first.party_uuid }) timeout
          (record {
            party_signup = record { number = first.party_order; uuid = first.room_uuid };
            last_total_joined = first.total_joined;
            now = time;
          })
    pure (ok joined)
