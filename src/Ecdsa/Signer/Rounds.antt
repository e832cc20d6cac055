-- ===== src/Ecdsa/Signer/Rounds.antt =====
-- The rounds of `sign` in src/protocols/ecdsa/signer.rs where all messages arrive and the libraries
-- accept them.
use tss_ecdsa_cli.Base.{
  ℕ, suc, ◌+◌, ◌-◌, ◌≤◌, ◌≡◌, ap, ◌∙◌, Text, codes, List, [], map, length, length-map, get_elem?,
  Option, some, ret, arith,
}
use tss_ecdsa_cli.Manager.Store.{Json, IsJson}
use tss_ecdsa_cli.Room.{sub_u16}
use tss_ecdsa_cli.Client.Web.{Network, Wire}
use tss_ecdsa_cli.Client.{Client, range, client_timeout}
use tss_ecdsa_cli.Curves.{Curve, Bignum}
use tss_ecdsa_cli.Protocols.{format_vec_from_reads}
use tss_ecdsa_cli.Protocols.Gathered.{others, collect_lem, gathers_alike}
use tss_ecdsa_cli.Protocols.Numbers.{get_elem?-range, length-others, insert_at_lem}
use tss_ecdsa_cli.Protocols.Delivers.{Yields, Delivers, then_run-Yields, round_answers_lem}
use tss_ecdsa_cli.Protocols.Loops.{map-map, remove_at_lem}
use tss_ecdsa_cli.Protocols.Others.{remove_at}
use tss_ecdsa_cli.Ecdsa.Library.{Library}
use tss_ecdsa_cli.Ecdsa.Signer.Crates.{SignLibrary, SignCodecs}
use tss_ecdsa_cli.Ecdsa.Signer.{signers_of, previous, through}
use tss_ecdsa_cli.Ecdsa.Signer.Honest.{SignDrawn, all, index_of, IsAccepted, AreSignCodecs}
use tss_ecdsa_cli.Ecdsa.Signer.Arrives.{SignArrives}
use tss_ecdsa_cli.Ecdsa.Signer.Session.{Signing, exchange_reads, exchange_ids}

module _ {curve : Curve} (bignum : Bignum) {lib : Library curve} (sl : SignLibrary lib)
    (d : SignDrawn sl) (p : ℕ) (low : 1 ≤ p) (high : p ≤ d.n) where
  -- The index of each signer stands at its number.
  pub signer_at :
      (i : ℕ)
      → 1 ≤ i
      → i ≤ d.n
      → get_elem? (map (index_of bignum sl d) (range 1 d.n)) (i - 1) ≡ some (index_of bignum sl d i)
  signer_at i one last =
      get_elem?-range (index_of bignum sl d) 1 d.n (i - 1) (omega arith)
      ∙ ap (λ j. some (index_of bignum sl d j)) back
    where
      back : 1 + (i - 1) ≡ i
      back = omega arith

module _ (net : Network) (wire : Wire) (client : Client) (var : Option Text) {curve : Curve}
    (bignum : Bignum) {lib : Library curve} (sl : SignLibrary lib) (json : SignCodecs sl)
    (d : SignDrawn sl) (uuid : Text) {timeout : ℕ} (t : client_timeout var ≡ ret timeout)
    (fuel p : ℕ) (low : 1 ≤ p) (high : p ≤ d.n) where
  abbrev pub room : Signing
  room = record { client = client; party_num_int = p; total_parties = d.n; uuid = uuid }

  pub count_others : length (others p (range 1 d.n)) + 1 ≡ d.n
  count_others = length-others p 1 d.n low (omega arith)

  -- In such a round a signer gathers the values of all signers in the order of their numbers.
  pub exchange_reads_lem :
      {T : Type 0} {Before After : net.World → Type 0} (codec : Json T)
      → IsJson codec
      → (round : Text) (f : ℕ → T) (w : net.World)
      → Delivers net wire client Before After p d.n 25 round uuid (λ i. codec.to_string (f i))
      → Before w
      → Yields net wire client After
          (map f (range 1 d.n))
          (exchange_reads net wire var (suc fuel) sl json codec room round (f p) w)
  unfolding exchange_reads
  exchange_reads_lem {T} codec laws round f w delivered before =
      then_run-Yields net wire client _ _
        (round_answers_lem net wire client var t fuel p d.n 25 round uuid _ w delivered before)
        (λ w1 h1. (w1, rw read, h1))
    where
      sent : List Text
      sent = map (λ i. codec.to_string (f i)) (others p (range 1 d.n))

      count : length sent + 1 ≡ d.n
      count =
          ap (λ k. k + 1) (length-map (λ i. codec.to_string (f i)) (others p (range 1 d.n)))
          ∙ count_others

      read : format_vec_from_reads codec sent p (f p) [] ≡ ret (map f (range 1 d.n))
      read =
          (gathers_alike codec p (f p) sent low (omega (arith, count))).1
          ∙ insert_at_lem codec laws p d.n f low high

  pub previous_lem : (k : ℕ) → 1 ≤ k → k ≤ d.n → previous k ≡ k - 1
  unfolding previous
  previous_lem k above below = omega (arith, d.few)

  pub through_lem : through d.n ≡ range 1 d.n
  unfolding through
  through_lem = ap (range 1) (omega (arith, d.few))

  -- What is removed at the party's place, and what is left.
  pub removed :
      {A : Type 0} (f : ℕ → A)
      → remove_at (previous p) (map f (range 1 d.n)) ≡ ret (f p, map f (others p (range 1 d.n)))
  removed f =
      rw (previous_lem p low high) (remove_at_lem f p 1 d.n (p - 1) (omega arith) (omega arith))

  module _ (laws : AreSignCodecs json) (h : IsAccepted bignum sl d p)
      {Stage : ℕ → net.World → Type 0}
      (arrives : SignArrives net wire client bignum sl json d uuid p Stage) where
    pub ids_lem :
        (w : net.World)
        → Stage 0 w
        → Yields net wire client
            (Stage 1)
            (map (index_of bignum sl d) (all bignum sl d))
            (exchange_ids net wire var (suc fuel) sl json room (d.ids p) w)
    unfolding exchange_ids signers_of
    ids_lem w before =
        then_run-Yields net wire client _ _
          (round_answers_lem net wire client var t fuel p d.n 25 (codes "round0") uuid _ w
            arrives.round0 before)
          (λ w1 h1. (
            w1,
            rw (
              collect_lem json.index laws.indices p d.ids (range 1 d.n),
              map-map (λ i. sub_u16 i 1) d.ids (range 1 d.n),
            ),
            h1,
          ))
