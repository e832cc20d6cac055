-- ===== src/Protocols/Delivers.antt =====
-- Rounds in which all messages are there: what the polls of src/common/mod.rs and `exchange_data` of
-- src/protocols/eddsa/signer.rs then return.
use tss_ecdsa_cli.Base.{
  ℕ, suc, ◌≡◌, refl, subst, ap, ◌∙◌, Text, List, [], ◌∷◌, map, Option, Bool-cases, inl, inr, ◌==◌,
  Run, ret, ok,
}
use tss_ecdsa_cli.Manager.Store.{Json, IsJson}
use tss_ecdsa_cli.Client.Effects.{Io, then_run}
use tss_ecdsa_cli.Client.Web.{Network, Wire}
use tss_ecdsa_cli.Client.Keys.{broadcast_key, p2p_key}
use tss_ecdsa_cli.Client.{
  Client, range, client_timeout, broadcast, sendp2p, get_entry, poll_broadcast, poll_p2p, poll_each,
  poll_for_broadcasts, poll_for_p2p,
}
use tss_ecdsa_cli.Protocols.Gathered.{others, others_own, others_other, collect_lem}
use tss_ecdsa_cli.Protocols.Rounds.{round_answers, exchange_data}

module _ (net : Network) (wire : Wire) (client : Client) where
  open net use {World, wait}

  -- The code returns `a`, in a world of which `P` holds.
  abbrev pub Yields : {A : Type 0} → (World → Type 0) → A → Run (A × World) → Type 0
  Yields P a r = (w : World) × (r ≡ ret (a, w)) × P w

  -- One after the other, a wait of `delay` and a request for the entry under `key i` are answered with
  -- the text `sent i`; in the end `After` holds.
  abbrev pub Reads : (World → Type 0) → ℕ → (ℕ → Text) → (ℕ → Text) → List ℕ → World → Type 0
  Reads After delay key sent [] w = After w
  Reads After delay key sent (i ∷ is) w =
      Yields (Reads After delay key sent is) (ok (record { key = key i; value = sent i }))
        (get_entry net wire client (key i) (wait delay w))

  -- One after the other, the messages of party `p` to others are accepted; in the end `After` holds.
  abbrev pub Sends : (World → Type 0) → ℕ → Text → Text → (ℕ → Text) → List ℕ → World → Type 0
  Sends After p round uuid text [] w = After w
  Sends After p round uuid text (i ∷ is) w =
      Yields (Sends After p round uuid text is) (ok tt)
        (sendp2p net wire client p i round (text i) uuid w)

  -- A round of the session `uuid` of `n` parties, in which they broadcast the texts that `sent` gives:
  -- from a world of which `Before` holds, the broadcast of party `p` succeeds, and then the broadcast of
  -- each other party is there when `p` first asks for it.
  pub record Delivers (Before After : World → Type 0) (p n delay : ℕ) (round uuid : Text)
      (sent : ℕ → Text) : Type 0 where
    pub sends :
        (w : World)
        → Before w
        → Yields
            (Reads After delay (λ i. broadcast_key i round uuid) sent (others p (range 1 n)))
            (ok tt)
            (broadcast net wire client p round (sent p) uuid w)

  -- A round in which each party sends each other one a message of its own, `text i j` from `i` to `j`.
  pub record Swaps (Before After : World → Type 0) (p n delay : ℕ) (round uuid : Text)
      (text : ℕ → ℕ → Text) : Type 0 where
    pub sends :
        (w : World)
        → Before w
        → Sends
            (Reads After delay (λ i. p2p_key i p round uuid) (λ i. text i p) (others p (range 1 n)))
            p
            round
            uuid
            (text p)
            (others p (range 1 n))
            w

  pub then_run-Yields :
      {A B : Type 0} {P Q : World → Type 0} {a : A} {b : B} (r : Run (A × World))
      (f : A → World → Run (B × World))
      → Yields P a r
      → ((w : World) → P w → Yields Q b (f a w))
      → Yields Q b (then_run r f)
  then_run-Yields {Q} {a} {b} r f (w, e, p) h =
      let (w', e', q) = h w p in (w', ap (λ r. then_run r f) e ∙ e', q)

  -- After code that returns.
  pub after_ret :
      {A B : Type 0} {Q : World → Type 0} {a : A} {b : B} {w : World} (r : Run (A × World))
      (f : A → World → Run (B × World))
      → r ≡ ret (a, w)
      → Yields Q b (f a w)
      → Yields Q b (then_run r f)
  after_ret r f e (w', e', q) = (w', ap (λ r. then_run r f) e ∙ e', q)

  poll_broadcast-Yields :
      {P : World → Type 0} (fuel delay timeout start : ℕ) (key text : Text) (w : World)
      → Yields P
          (ok (record { key = key; value = text }))
          (get_entry net wire client key (wait delay w))
      → Yields P text (poll_broadcast net wire client (suc fuel) delay timeout start key w)
  unfolding poll_broadcast
  poll_broadcast-Yields fuel delay timeout start key text w (w', answered, after) =
      (w', rw answered, after)

  poll_p2p-Yields :
      {P : World → Type 0} (fuel delay timeout start : ℕ) (key text : Text) (w : World)
      → Yields P
          (ok (record { key = key; value = text }))
          (get_entry net wire client key (wait delay w))
      → Yields P text (poll_p2p net wire client (suc fuel) delay timeout start key w)
  unfolding poll_p2p
  poll_p2p-Yields fuel delay timeout start key text w (w', answered, after) =
      (w', rw answered, after)

  poll_each-Yields :
      {After : World → Type 0} (p delay : ℕ) (key sent : ℕ → Text) (poll : ℕ → ℕ → Io World Text)
      → ((P : World → Type 0) (start i : ℕ) (w : World)
          → Yields P
              (ok (record { key = key i; value = sent i }))
              (get_entry net wire client (key i) (wait delay w))
          → Yields P (sent i) (poll start i w))
      → (is : List ℕ) (w : World) → Reads After delay key sent (others p is) w
      → Yields After (map sent (others p is)) (poll_each net wire client poll p is w)
  unfolding poll_each
  poll_each-Yields p delay key sent poll each [] w h = (w, refl, h)
  poll_each-Yields {After} p delay key sent poll each (i ∷ is) w h = elim (Bool-cases (i == p)) [
    | inl own ↦
        let rest = subst (λ js. Reads After delay key sent js w) (others_own p i is own) h in
        rw (others_own p i is own)
          (rw own (poll_each-Yields {After = After} p delay key sent poll each is w rest))
    | inr other ↦
        let first = subst (λ js. Reads After delay key sent js w) (others_other p i is other) h in
        rw (others_other p i is other) (
          rw other (
            then_run-Yields _ _ (each _ (net.clock w) i w first) (λ w1 h1.
              then_run-Yields _ _
                (poll_each-Yields {After = After} p delay key sent poll each is w1 h1)
                (λ w2 h2. (w2, refl, h2)))))
  ]

  module _ (var : Option Text) {timeout : ℕ} (t : client_timeout var ≡ ret timeout) (fuel : ℕ) where
    pub broadcasts-Yields :
        {After : World → Type 0} (p n delay : ℕ) (round uuid : Text) (sent : ℕ → Text) (w : World)
        → Reads After delay (λ i. broadcast_key i round uuid) sent (others p (range 1 n)) w
        → Yields After
            (map sent (others p (range 1 n)))
            (poll_for_broadcasts net wire client var (suc fuel) p n delay round uuid w)
    unfolding poll_for_broadcasts
    broadcasts-Yields p n delay round uuid sent w h = rw t (
        poll_each-Yields p delay (λ i. broadcast_key i round uuid) sent _
          (λ P start i w k. poll_broadcast-Yields {P = P} fuel delay timeout start _ _ w k)
          (range 1 n) w h)

    pub p2ps-Yields :
        {After : World → Type 0} (p n delay : ℕ) (round uuid : Text) (sent : ℕ → Text) (w : World)
        → Reads After delay (λ i. p2p_key i p round uuid) sent (others p (range 1 n)) w
        → Yields After
            (map sent (others p (range 1 n)))
            (poll_for_p2p net wire client var (suc fuel) p n delay round uuid w)
    unfolding poll_for_p2p
    p2ps-Yields p n delay round uuid sent w h = rw t (
        poll_each-Yields p delay (λ i. p2p_key i p round uuid) sent _
          (λ P start i w k. poll_p2p-Yields {P = P} fuel delay timeout start _ _ w k) (range 1 n) w
          h)

    pub round_answers_lem :
        {Before After : World → Type 0} (p n delay : ℕ) (round uuid : Text) (sent : ℕ → Text)
        (w : World)
        → Delivers Before After p n delay round uuid sent
        → Before w
        → Yields After
            (map sent (others p (range 1 n)))
            (round_answers net wire var (suc fuel) client p n uuid round delay (sent p) w)
    unfolding round_answers
    round_answers_lem p n delay round uuid sent w d before =
        then_run-Yields _ _ (d.sends w before)
          (λ w1 h1. broadcasts-Yields p n delay round uuid sent w1 h1)

    -- If the timeout can be read, the codec reads back what it wrote, and in a round the broadcast
    -- of the party is accepted and that of each other party is there when the party first asks for
    -- it, then `exchange_data` returns the values of all parties in the order of their numbers, the
    -- party's own included.
    pub exchange_data_lem :
        {T : Type 0} {Before After : World → Type 0} (json : Json T)
        → IsJson json
        → (p n delay : ℕ) (round uuid : Text) (f : ℕ → T) (w : World)
        → Delivers Before After p n delay round uuid (λ i. json.to_string (f i))
        → Before w
        → Yields After
            (map f (range 1 n))
            (exchange_data net wire var (suc fuel) json client p n uuid round delay (f p) w)
    unfolding exchange_data
    exchange_data_lem json laws p n delay round uuid f w d before =
        then_run-Yields _ _
          (round_answers_lem p n delay round uuid (λ i. json.to_string (f i)) w d before)
          (λ w1 h1. (w1, rw (collect_lem json laws p f (range 1 n)), h1))
