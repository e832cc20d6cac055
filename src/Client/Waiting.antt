-- ===== src/Client/Waiting.antt =====
-- The polls of src/common/mod.rs come to an end: by the answer or by the time-out.
use tss_ecdsa_cli.Base.{
  ℕ, zero, suc, ◌+◌, ◌-◌, ◌*◌, ◌/◌, ◌≤◌, ◌<◌, ◌≡◌, ◌≢◌, Text, List, [], ◌∷◌, Option, none, some,
  false, ltb, ◌==◌, if_cases, Run, ret, panic, no_fuel, unwrap_option, Result, ok, err, arith,
}
use tss_ecdsa_cli.Common.{Entry, ManagerError}
use tss_ecdsa_cli.Manager.Store.{Json}
use tss_ecdsa_cli.Client.Effects.{Io, then_run, with_world}
use tss_ecdsa_cli.Client.Web.{Network, IsTimed, Wire}
use tss_ecdsa_cli.Client.Keys.{broadcast_key, p2p_key}
use tss_ecdsa_cli.Client.{
  Client, range, client_timeout, text_or, value_or, unless_timeout, attempts, postb, ask, get_entry,
  poll_broadcast, poll_p2p, poll_each, poll_for_broadcasts, poll_for_p2p,
}

module _ (net : Network) (timed : IsTimed net) where
  open net use {World, clock, request, wait}

  -- The run comes to an end, with the clock not before `t`.
  abbrev Ends : {A : Type 0} → ℕ → Run (A × World) → Type 0
  Ends t (ret (a, w)) = t ≤ clock w
  Ends t (panic p) = Unit {0}
  Ends t no_fuel = ⊥

  Ends-then_run :
      {A B : Type 0} (t u : ℕ) (r : Run (A × World)) (f : A → World → Run (B × World))
      → Ends t r
      → ((a : A) (w : World) → t ≤ clock w → Ends u (f a w))
      → Ends u (then_run r f)
  Ends-then_run t u (ret (a, w)) f h k = k a w h
  Ends-then_run t u (panic p) f h k = tt
  Ends-then_run t u no_fuel f h k = h

  Ends-weaken : {A : Type 0} (t u : ℕ) (r : Run (A × World)) → t ≤ u → Ends u r → Ends t r
  Ends-weaken t u (ret (a, w)) h k = omega arith
  Ends-weaken t u (panic p) h k = tt
  Ends-weaken t u no_fuel h k = k

  text_or-Ends :
      (t : ℕ) (retry : World → Run (Option Text × World)) (res : Option (Option Text)) (w : World)
      → t ≤ clock w
      → Ends t (retry w)
      → Ends t (text_or net retry res w)
  text_or-Ends t retry none w h k = k
  text_or-Ends t retry (some none) w h k = tt
  text_or-Ends t retry (some (some text)) w h k = h

  attempts-Ends :
      (k : ℕ) (addr body : Text) (w : World) → Ends (clock w) (attempts net k addr body w)
  unfolding attempts
  attempts-Ends zero addr body w = omega arith
  attempts-Ends (suc k) addr body w =
      let w1 = (request addr body w).1 in
      let w2 = wait 250 w1 in
      let later = timed.request_takes_time addr body w in
      let later' = timed.wait_takes_time 250 w1 in
      text_or-Ends (clock w) _ (request addr body w).0 w1 later (
        Ends-weaken (clock w) (clock w2) (attempts net k addr body w2) (omega arith)
          (attempts-Ends k addr body w2))

  with_world-Ends :
      {A : Type 0} (t : ℕ) (o : Option A) (w : World)
      → t ≤ clock w
      → Ends t (with_world (unwrap_option o) w)
  with_world-Ends t none w h = tt
  with_world-Ends t (some a) w h = h

  ask-Ends :
      {A : Type 0} (reply : Json A) (client : Client) (path body : Text) (w : World)
      → Ends (clock w) (ask net reply client path body w)
  unfolding ask postb
  ask-Ends reply client path body w =
      Ends-then_run (clock w) (clock w) _ _ (attempts-Ends 2 _ body w) (λ res w1 h.
        Ends-then_run (clock w) (clock w) _ _ (with_world-Ends (clock w) res w1 h)
          (λ text w2 h2. with_world-Ends (clock w) (reply.from_str text) w2 h2))

  value_or-Ends :
      (t : ℕ) (retry : World → Run (Text × World)) (answer : Result Entry ManagerError) (w : World)
      → t ≤ clock w
      → Ends t (retry w)
      → Ends t (value_or net retry answer w)
  value_or-Ends t retry (ok entry) w h k = h
  value_or-Ends t retry (err e) w h k = k

  -- The test of the time-out lets the loop go on only before the deadline.
  unless_timeout-Ends :
      (t timeout start : ℕ) (retry : World → Run (Text × World)) (w : World)
      → (clock w < start + (timeout + 1) * 1000 → Ends t (retry w))
      → Ends t (unless_timeout net timeout start retry w)
  unless_timeout-Ends t timeout start retry w k =
      if_cases {A = Io World Text} (λ m. Ends t (m w)) (ltb timeout ((clock w - start) / 1000))
        (λ e. tt) (λ e. k (in_time e))
    where
      in_time :
          ltb timeout ((clock w - start) / 1000) ≡ false → clock w < start + (timeout + 1) * 1000
      in_time e = ground (arith, e)

  module _ (wire : Wire) (client : Client) (timeout delay start : ℕ) (key : Text) where
    poll_broadcast-Ends :
        (fuel : ℕ) (w : World)
        → 1 ≤ delay
        → start + (timeout + 1) * 1000 < clock w + fuel
        → 1 ≤ fuel
        → Ends (clock w) (poll_broadcast net wire client fuel delay timeout start key w)
    unfolding poll_broadcast get_entry
    poll_broadcast-Ends zero w d f h = omega arith
    poll_broadcast-Ends (suc fuel) w d f h =
        let w1 = wait delay w in
        let later = timed.wait_takes_time delay w in
        Ends-weaken (clock w) (clock w1) _ (omega arith) (
          Ends-then_run (clock w1) (clock w1) _ _ (ask-Ends wire.get_reply client _ _ w1)
            (λ answer w2 h2. value_or-Ends (clock w1) _ answer w2 h2 (
              unless_timeout-Ends (clock w1) timeout start _ w2 (λ in_time.
                let later' = timed.wait_takes_time delay w2 in
                Ends-weaken (clock w1) (clock (wait delay w2))
                  (poll_broadcast net wire client fuel delay timeout start key (wait delay w2))
                  (omega arith)
                  (poll_broadcast-Ends fuel (wait delay w2) d (omega arith) (omega arith))))))

    poll_p2p-Ends :
        (fuel : ℕ) (w : World)
        → 1 ≤ delay
        → start + (timeout + 1) * 1000 < clock w + fuel
        → 1 ≤ fuel
        → Ends (clock w) (poll_p2p net wire client fuel delay timeout start key w)
    unfolding poll_p2p get_entry
    poll_p2p-Ends zero w d f h = omega arith
    poll_p2p-Ends (suc fuel) w d f h =
        let w1 = wait delay w in
        let later = timed.wait_takes_time delay w in
        Ends-weaken (clock w) (clock w1) _ (omega arith) (
          Ends-then_run (clock w1) (clock w1) _ _ (ask-Ends wire.get_reply client _ _ w1)
            (λ answer w2 h2. value_or-Ends (clock w1) _ answer w2 h2 (
              unless_timeout-Ends (clock w1) timeout start _ w2 (λ in_time.
                Ends-weaken (clock w1) (clock w2)
                  (poll_p2p net wire client fuel delay timeout start key w2) h2
                  (poll_p2p-Ends fuel w2 d (omega arith) (omega arith))))))

  module _ (party_num : ℕ) where
    -- A loop over the parties ends if each party's poll ends, whenever it starts.
    poll_each-Ends :
        (wire : Wire) (client : Client) (poll : ℕ → ℕ → Io World Text)
        → ((i : ℕ) (w : World) → Ends (clock w) (poll (clock w) i w))
        → (parties : List ℕ) (w : World)
        → Ends (clock w) (poll_each net wire client poll party_num parties w)
    unfolding poll_each
    poll_each-Ends wire client poll each [] w = omega arith
    poll_each-Ends wire client poll each (i ∷ is) w =
        if_cases {A = Io World (List Text)} (λ m. Ends (clock w) (m w)) (i == party_num)
          (λ own. poll_each-Ends wire client poll each is w)
          (λ other. Ends-then_run (clock w) (clock w) _ _ (each i w) (λ value w1 h.
            Ends-then_run (clock w) (clock w) _ _
              (Ends-weaken (clock w) (clock w1) (poll_each net wire client poll party_num is w1) h
                (poll_each-Ends wire client poll each is w1))
              (λ rest w2 h2. h2)))

-- A poll for the broadcasts or the messages of a round, whatever the network answers, comes to an
-- end where the timeout can be read and requests and sleeps take the time that they should: with
-- more fuel for each party than the milliseconds of the timeout and one second, and a delay of at
-- least a millisecond, the loops do not run out of fuel.
pub polls_end :
    (net : Network) (timed : IsTimed net) (wire : Wire) (client : Client) (var : Option Text)
    (timeout fuel party_num n delay : ℕ) (round uuid : Text) (w : net.World)
    → client_timeout var ≡ ret timeout
    → 1 ≤ delay
    → (timeout + 1) * 1000 < fuel
    → (poll_for_broadcasts net wire client var fuel party_num n delay round uuid w ≢ no_fuel)
      × (poll_for_p2p net wire client var fuel party_num n delay round uuid w ≢ no_fuel)
unfolding poll_for_broadcasts poll_for_p2p
polls_end net timed wire client var timeout fuel party_num n delay round uuid w t d f = (
  rw t (
      not_no_fuel _ (
        poll_each-Ends net timed party_num wire client
          (λ start i.
            poll_broadcast net wire client fuel delay timeout start (broadcast_key i round uuid))
          (λ i w.
            poll_broadcast-Ends net timed wire client timeout delay (net.clock w)
              (broadcast_key i round uuid) fuel w d (omega arith) (omega arith))
          (range 1 n) w)),
  rw t (
      not_no_fuel _ (
        poll_each-Ends net timed party_num wire client
          (λ start i.
            poll_p2p net wire client fuel delay timeout start (p2p_key i party_num round uuid))
          (λ i w.
            poll_p2p-Ends net timed wire client timeout delay (net.clock w)
              (p2p_key i party_num round uuid) fuel w d (omega arith) (omega arith))
          (range 1 n) w)),
)
  where
    not_no_fuel : (r : Run (List Text × net.World)) → Ends net timed (net.clock w) r → r ≢ no_fuel
    not_no_fuel (ret a) h e = ground arith
    not_no_fuel (panic p) h e = ground arith
    not_no_fuel no_fuel h e = h
