-- ===== src/Ecdsa/Signer/Phases.antt =====
-- Rounds 3 to 9 of `sign` in src/protocols/ecdsa/signer.rs where all messages arrive and the libraries
-- accept them.
use tss_ecdsa_cli.Base.{
  ℕ, suc, ◌+◌, ◌≤◌, ◌≡◌, refl, ap, ◌∙◌, Text, codes, map, length, length-map, Option, ret, arith,
  sym,
}
use tss_ecdsa_cli.Client.Web.{Network, Wire}
use tss_ecdsa_cli.Client.{Client, range, client_timeout}
use tss_ecdsa_cli.Curves.{Curve, Bignum}
use tss_ecdsa_cli.Protocols.Gathered.{others}
use tss_ecdsa_cli.Protocols.Numbers.{length-range}
use tss_ecdsa_cli.Protocols.Delivers.{Yields, then_run-Yields}
use tss_ecdsa_cli.Protocols.Others.{parts}
use tss_ecdsa_cli.Protocols.Loops.{map-map, parts_lem}
use tss_ecdsa_cli.Ecdsa.Library.{Library}
use tss_ecdsa_cli.Ecdsa.Signer.{previous}
use tss_ecdsa_cli.Ecdsa.Signer.Crates.{SignLibrary, SignCodecs, Opening}
use tss_ecdsa_cli.Ecdsa.Signer.Honest.{
  SignDrawn, commitment_of, decommit_of, delta_of, local_sig, com_of, opening_of, IsAccepted,
  AreSignCodecs,
}
use tss_ecdsa_cli.Ecdsa.Signer.Arrives.{SignArrives}
use tss_ecdsa_cli.Ecdsa.Signer.Session.{exchange_point, exchange_phase5}
use tss_ecdsa_cli.Ecdsa.Signer.Rounds.{
  room, count_others, removed, exchange_reads_lem, previous_lem,
}
use tss_ecdsa_cli.Ecdsa.Signer.Products.{shared_of}

module _ (net : Network) (wire : Wire) (client : Client) (var : Option Text) {curve : Curve}
    (bignum : Bignum) {lib : Library curve} (sl : SignLibrary lib) (json : SignCodecs sl)
    (d : SignDrawn sl) (uuid : Text) {timeout : ℕ} (t : client_timeout var ≡ ret timeout)
    (fuel p : ℕ) (low : 1 ≤ p) (high : p ≤ d.n) (laws : AreSignCodecs json)
    (h : IsAccepted bignum sl d p) {Stage : ℕ → net.World → Type 0}
    (arrives : SignArrives net wire client bignum sl json d uuid p Stage) where
  pub point_lem :
      (w : net.World)
      → Stage 3 w
      → Yields net wire client (Stage 5) d.point (
          exchange_point net wire var
            (suc fuel)
            sl
            json
            (room net wire client var bignum sl json d uuid t fuel p low high)
            (shared_of bignum sl d p low high h)
            w)
  unfolding exchange_point
  point_lem w before =
      then_run-Yields net wire client _ _
        (exchange_reads_lem net wire client var bignum sl json d uuid t fuel p low high json.scalar
          laws.scalars (codes "round3") (delta_of bignum sl d) w arrives.round3 before)
        (λ w1 h1.
          then_run-Yields net wire client _ _
            (exchange_reads_lem net wire client var bignum sl json d uuid t fuel p low high
              json.round4 laws.round4 (codes "round4") (decommit_of bignum sl d) w1 arrives.round4
              h1)
            (λ w2 h2. (
              w2,
              rw
                  (
                    removed net wire client var bignum sl json d uuid t fuel p low high
                        (decommit_of bignum sl d),
                    removed net wire client var bignum sl json d uuid t fuel p low high
                        (commitment_of bignum sl d),
                    map-map sl.b_proof (λ i. (d.gamma i p).0) (others p (range 1 d.n)),
                    h.has_point,
                  )
                  (rw h.one_point refl),
              h2,
            )))

  -- A component of what the others opened, and of what all opened.
  opened_parts :
      {B : Type 0} (part : Opening sl → B)
      → parts part (map (opening_of bignum sl d) (others p (range 1 d.n))) (range 0 (previous d.n))
        ≡ ret (map (λ i. part (opening_of bignum sl d i)) (others p (range 1 d.n)))
  opened_parts part =
      parts_lem part _ (previous d.n) (
        length-map (opening_of bignum sl d) (others p (range 1 d.n))
        ∙ omega (arith, count)
        ∙ sym (
            previous_lem net wire client var bignum sl json d uuid t fuel p low high d.n
              (omega arith) (omega arith)))
      ∙ ap ret (map-map part (opening_of bignum sl d) (others p (range 1 d.n)))
    where
      count : length (others p (range 1 d.n)) + 1 ≡ d.n
      count = count_others net wire client var bignum sl json d uuid t fuel p low high

  all_parts :
      {B : Type 0} (part : Opening sl → B)
      → parts part (map (opening_of bignum sl d) (range 1 d.n)) (range 0 d.n)
        ≡ ret (map (λ i. part (opening_of bignum sl d i)) (range 1 d.n))
  all_parts part =
      parts_lem part _ d.n (length-map (opening_of bignum sl d) (range 1 d.n) ∙ length-range 1 d.n)
      ∙ ap ret (map-map part (opening_of bignum sl d) (range 1 d.n))

  pub phase5_lem :
      (w : net.World)
      → Stage 5 w
      → Yields net wire client (Stage 9) (d.s_i p) (
          exchange_phase5 net wire var
            (suc fuel)
            sl
            json
            (room net wire client var bignum sl json d uuid t fuel p low high)
            (local_sig bignum sl d p)
            d.point
            w)
  unfolding exchange_phase5
  phase5_lem w before =
      then_run-Yields net wire client _ _
        (exchange_reads_lem net wire client var bignum sl json d uuid t fuel p low high json.round5
          laws.round5 (codes "round5") (com_of bignum sl d) w arrives.round5 before)
        (λ w1 h1.
          then_run-Yields net wire client _ _
            (exchange_reads_lem net wire client var bignum sl json d uuid t fuel p low high
              json.round6 laws.round6 (codes "round6") (opening_of bignum sl d) w1 arrives.round6
              h1)
            (λ w2 h2.
              rw
                (
                  removed net wire client var bignum sl json d uuid t fuel p low high
                      (opening_of bignum sl d),
                  removed net wire client var bignum sl json d uuid t fuel p low high
                      (com_of bignum sl d),
                  opened_parts (λ o. o.0),
                  opened_parts (λ o. o.1),
                  opened_parts (λ o. o.2),
                  h.commits,
                )
                (then_run-Yields net wire client _ _
                  (exchange_reads_lem net wire client var bignum sl json d uuid t fuel p low high
                    json.round7 laws.round7 (codes "round7") (λ i. (d.phase5c i).0) w2
                    arrives.round7 h2)
                  (λ w3 h3.
                    then_run-Yields net wire client _ _
                      (exchange_reads_lem net wire client var bignum sl json d uuid t fuel p low
                        high json.round8 laws.round8 (codes "round8") (λ i. (d.phase5c i).1) w3
                        arrives.round8 h3)
                      (λ w4 h4. (w4, rw (all_parts (λ o. o.0), h.opens) refl, h4))))))
