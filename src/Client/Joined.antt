-- ===== src/Client/Joined.antt =====
-- What `signup` of src/common/mod.rs returns.
use tss_ecdsa_cli.Base.{
  ℕ, zero, suc, ◌/◌, ◌≡◌, refl, Text, is_empty, parse_u16, Option, false, ltb, if_cases, Run, ret,
  panic, no_fuel, unwrap_option, Result, ok, Ensures, Ensures-ret,
}
use tss_ecdsa_cli.Common.{PartySignupRequestBody, PartySignup, Params}
use tss_ecdsa_cli.Client.Effects.{Io, then_run, with_world}
use tss_ecdsa_cli.Client.Web.{Network, Wire}
use tss_ecdsa_cli.Client.{Client, client_timeout}
use tss_ecdsa_cli.Client.Signup.{
  Waiting, answered, with_room, elapsed, ask_signup, wait_for_room, signup,
}

then_run-Ensures :
    {W A B : Type 0} (P : B × W → Type 0) (m : Run (A × W)) (f : A → Io W B)
    → ((a : A) (w : W) → Ensures P (f a w))
    → Ensures P (then_run m f)
then_run-Ensures P (ret (a, w)) f h = h a w
then_run-Ensures P (panic p) f h = tt
then_run-Ensures P no_fuel f h = tt

-- The room has a UUID.
abbrev HasRoom : {W : Type 0} → (PartySignup × ℕ) × W → Type 0
HasRoom r = is_empty r.0.0.uuid ≡ false

with_room-HasRoom :
    {W : Type 0} (s : Waiting) (w : W) → Ensures HasRoom (with_world (with_room s) w)
unfolding with_room
with_room-HasRoom {W} s w =
    if_cases (λ r. Ensures (HasRoom {W = W}) (with_world r w)) (is_empty s.party_signup.uuid)
      (λ e. tt) (λ e. e)

module _ (net : Network) (wire : Wire) (client : Client) where
  wait_for_room-HasRoom :
      (fuel : ℕ) (path : Text) (body : PartySignupRequestBody) (timeout : ℕ) (s : Waiting)
      (w : net.World)
      → Ensures HasRoom (wait_for_room net wire client fuel path body timeout s w)
  unfolding wait_for_room
  wait_for_room-HasRoom zero path body timeout s w = tt
  wait_for_room-HasRoom (suc fuel) path body timeout s w =
      if_cases {A = Io net.World (PartySignup × ℕ)} (λ m. Ensures HasRoom (m w))
        (is_empty s.party_signup.uuid)
        (λ e.
          then_run-Ensures HasRoom (ask_signup net wire client path body (net.wait 100 w)) _
            (λ answer w2.
              then_run-Ensures HasRoom
                (elapsed net wire client (answered answer (net.system_clock w2) s).now w2) _
                (λ waited w3.
                  if_cases {A = Io net.World (PartySignup × ℕ)} (λ m. Ensures HasRoom (m w3))
                    (ltb timeout (waited / 1000))
                    (λ late. with_room-HasRoom (answered answer (net.system_clock w2) s) w3)
                    (λ early.
                      wait_for_room-HasRoom fuel path body timeout
                        (answered answer (net.system_clock w2) s) w3))))
        (λ e. with_room-HasRoom s w)

  abbrev Joined : Result (PartySignup × ℕ) (Unit {0}) × net.World → Type 0
  Joined r = (joined : PartySignup × ℕ) × (r.0 ≡ ok joined) × (is_empty joined.0.uuid ≡ false)

  joined-Ensures :
      (m : Run ((PartySignup × ℕ) × net.World))
      → Ensures HasRoom m
      → Ensures Joined (then_run m (λ joined w. ret (ok joined, w)))
  joined-Ensures (ret (joined, w)) h = (joined, refl, h)
  joined-Ensures (panic p) h = tt
  joined-Ensures no_fuel h = tt

  signup-Joined :
      (var : Option Text) (fuel : ℕ) (path : Text) (params : Params) (room_id : Text) (party_id : ℕ)
      (curve_name : Text) (w : net.World)
      → Ensures Joined (signup net wire client var fuel path params room_id party_id curve_name w)
  unfolding signup
  signup-Joined var fuel path params room_id party_id curve_name w =
      then_run-Ensures Joined (with_world (unwrap_option (parse_u16 params.threshold)) w) _
        (λ threshold w1.
          then_run-Ensures Joined (with_world (client_timeout var) w1) _ (λ timeout w2.
            then_run-Ensures Joined (ask_signup net wire client path _ w2) _
              (λ first w3. joined-Ensures _ (wait_for_room-HasRoom fuel path _ timeout _ w3))))

  -- A signup that returns, returns a place in a room that has a UUID, and no error: a time-out and
  -- an answer that is an error are panics.
  pub signup-HasRoom :
      (var : Option Text) (fuel : ℕ) (path : Text) (params : Params) (room_id : Text) (party_id : ℕ)
      (curve_name : Text) (w w' : net.World) (r : Result (PartySignup × ℕ) (Unit {0}))
      → signup net wire client var fuel path params room_id party_id curve_name w ≡ ret (r, w')
      → (joined : PartySignup × ℕ) × (r ≡ ok joined) × (is_empty joined.0.uuid ≡ false)
  signup-HasRoom var fuel path params room_id party_id curve_name w w' r e =
      Ensures-ret Joined _ (r, w') e
        (signup-Joined var fuel path params room_id party_id curve_name w)
