-- ===== src/Ecdsa/Signer/Products.antt =====
-- Rounds 1 and 2 of `sign` in src/protocols/ecdsa/signer.rs where all messages arrive and the libraries
-- accept them.
use tss_ecdsa_cli.Base.{
  ℕ, suc, ◌+◌, ◌-◌, ◌≤◌, ◌≡◌, refl, sym, ap, ◌∙◌, Text, codes, List, map, length, length-map,
  get_elem?, Option, some, Run, ret, ◌>>=◌, ◌==◌, ==_iff, true, arith, unwrap_option, at_index,
}
use tss_ecdsa_cli.Client.Web.{Network, Wire}
use tss_ecdsa_cli.Client.{Client, range, client_timeout}
use tss_ecdsa_cli.Curves.{Curve, Bignum}
use tss_ecdsa_cli.Protocols.Gathered.{others}
use tss_ecdsa_cli.Protocols.Delivers.{Yields, then_run-Yields, round_answers_lem, p2ps-Yields}
use tss_ecdsa_cli.Protocols.Others.{for_each}
use tss_ecdsa_cli.Protocols.Loops.{
  IsOther, IsOther-bounds, get_elem?-map, map-map, for_others_lem, for_each_lem, HasAt-map,
}
use tss_ecdsa_cli.Ecdsa.Library.{Library}
use tss_ecdsa_cli.Ecdsa.Signer.Crates.{SignLibrary, SignCodecs}
use tss_ecdsa_cli.Ecdsa.Signer.{Answer, answer_messages, check_answers, open_round2, previous}
use tss_ecdsa_cli.Ecdsa.Signer.Honest.{
  SignDrawn, index_of, signer_of, sign_keys, commitment_of, decommit_of, m_a_of, delta_of, sigma_of,
  IsAccepted, AreSignCodecs,
}
use tss_ecdsa_cli.Ecdsa.Signer.Arrives.{SignArrives, answer_text}
use tss_ecdsa_cli.Ecdsa.Signer.Opened.{open_round1_lem, send_answers_lem}
use tss_ecdsa_cli.Ecdsa.Signer.Session.{Shared, exchange_products}
use tss_ecdsa_cli.Ecdsa.Signer.Rounds.{room, count_others, signer_at, previous_lem, through_lem}

module _ {curve : Curve} (bignum : Bignum) {lib : Library curve} (sl : SignLibrary lib)
    (d : SignDrawn sl) (p : ℕ) (low : 1 ≤ p) (high : p ≤ d.n) (h : IsAccepted bignum sl d p) where
  abbrev pub indices : List ℕ
  indices = map (index_of bignum sl d) (range 1 d.n)

  -- What party `p` answers to party `i`, and what it reads of its answer.
  abbrev pub answer_to : ℕ → Answer sl
  answer_to i = (d.gamma p i, d.w p i)

  abbrev pub received_from : ℕ → sl.MessageB × sl.MessageB
  received_from i = ((d.gamma i p).0, (d.w i p).0)

  abbrev pub alphas_of : ℕ → curve.Scalar × curve.Scalar
  alphas_of i = (d.alpha p i, d.miu p i)

  abbrev pub shared_of : Shared sl
  shared_of = record {
    decommit = decommit_of bignum sl d p;
    bc1_vec = map (commitment_of bignum sl d) (range 1 d.n);
    m_b_gamma_rec_vec = map (λ i. (d.gamma i p).0) (others p (range 1 d.n));
    delta_i = delta_of bignum sl d p;
    sigma = sigma_of bignum sl d p;
  }

  -- An entry of the list of what belongs to the others.
  entry :
      {A : Type 0} (f : ℕ → A) (k i : ℕ)
      → IsOther p (range 1 d.n) k i
      → get_elem? (map f (others p (range 1 d.n))) (0 + k) ≡ some (f i)
  entry f k i e =
      ap (get_elem? (map f (others p (range 1 d.n)))) (front k)
      ∙ get_elem?-map f (others p (range 1 d.n)) k i e
    where
      front : (k : ℕ) → 0 + k ≡ k
      front k = omega arith

  pub answer_messages_lem :
      answer_messages sl p
        (sign_keys bignum sl d p)
        d.paillier_key_vector
        indices
        (map (m_a_of bignum sl d) (others p (range 1 d.n)))
        (range 1 d.n)
      ≡ ret (map answer_to (others p (range 1 d.n)))
  unfolding answer_messages
  answer_messages_lem = for_others_lem p _ answer_to 0 (range 1 d.n) (λ k i e.
      let (one, last) = IsOther-bounds p 1 d.n k i e in
      rw (signer_at bignum sl d p low high i one (omega arith)) (
        rw (h.own_key i one (omega arith), entry (m_a_of bignum sl d) k i e)
          (rw (h.gamma_answers i one (omega arith), h.w_answers i one (omega arith)) refl)))

  pub check_answers_lem :
      check_answers sl p
        (sl.dk (d.keys p))
        (sign_keys bignum sl d p)
        d.schemes
        indices
        (map received_from (others p (range 1 d.n)))
        (range 1 d.n)
      ≡ ret (map alphas_of (others p (range 1 d.n)))
  unfolding check_answers
  check_answers_lem = for_others_lem p _ alphas_of 0 (range 1 d.n) (λ k i e.
      let (one, last) = IsOther-bounds p 1 d.n k i e in
      rw (entry received_from k i e) (
        rw
          (
            h.alphas i one (omega arith),
            h.mius i one (omega arith),
            signer_at bignum sl d p low high i one (omega arith),
          )
          (rw (h.own_xi_com i one (omega arith), h.own_scheme i one (omega arith))
            (rw (h.w_points i one (omega arith)) refl))))

module _ (net : Network) (wire : Wire) (client : Client) (var : Option Text) {curve : Curve}
    (bignum : Bignum) {lib : Library curve} (sl : SignLibrary lib) (json : SignCodecs sl)
    (d : SignDrawn sl) (uuid : Text) {timeout : ℕ} (t : client_timeout var ≡ ret timeout)
    (fuel p : ℕ) (low : 1 ≤ p) (high : p ≤ d.n) (laws : AreSignCodecs json)
    (h : IsAccepted bignum sl d p) {Stage : ℕ → net.World → Type 0}
    (arrives : SignArrives net wire client bignum sl json d uuid p Stage) where
  open_round2_lem :
      open_round2 sl json
        (map (λ i. answer_text net wire client bignum sl json d uuid i p) (others p (range 1 d.n)))
        (range 0 (previous d.n))
      ≡ ret (map (received_from bignum sl d p low high h) (others p (range 1 d.n)))
  unfolding open_round2
  open_round2_lem =
      ap (λ k. for_each body (range 0 k)) (fewer ∙ omega (arith, count))
      ∙ for_each_lem body (received_from bignum sl d p low high h) 0 (others p (range 1 d.n))
          (λ k i e.
            rw
              (entry bignum sl d p low high h
                (λ i. answer_text net wire client bignum sl json d uuid i p) k i e)
              (rw (laws.round2.from_str-to_string (received_from bignum sl d p low high h i)) refl))
    where
      fewer : previous d.n ≡ d.n - 1
      fewer =
          previous_lem net wire client var bignum sl json d uuid t fuel p low high d.n (omega arith)
            (omega arith)

      count : length (others p (range 1 d.n)) + 1 ≡ d.n
      count = count_others net wire client var bignum sl json d uuid t fuel p low high

      body : ℕ → Run (sl.MessageB × sl.MessageB)
      body i =
          at_index (
            get_elem?
              (map (λ i. answer_text net wire client bignum sl json d uuid i p)
                (others p (range 1 d.n)))
              i)
          >>= λ answer. unwrap_option (json.round2.from_str answer)

  same_count :
      (length (indices bignum sl d p low high h)
        == length (map (commitment_of bignum sl d) (range 1 d.n)))
      ≡ true
  same_count = (==_iff _ _).1 (
      length-map (index_of bignum sl d) (range 1 d.n)
      ∙ sym (length-map (commitment_of bignum sl d) (range 1 d.n)))

  pub products_lem :
      (w : net.World)
      → Stage 1 w
      → Yields net wire client (Stage 3) (shared_of bignum sl d p low high h) (
          exchange_products net wire var
            (suc fuel)
            sl
            json
            (room net wire client var bignum sl json d uuid t fuel p low high)
            (signer_of bignum sl d p)
            d.schemes
            (indices bignum sl d p low high h)
            (sign_keys bignum sl d p)
            w)
  unfolding exchange_products
  products_lem w before =
      rw (through_lem net wire client var bignum sl json d uuid t fuel p low high) (
        then_run-Yields net wire client _ _
          (round_answers_lem net wire client var t fuel p d.n 25 (codes "round1") uuid _ w
            arrives.round1 before)
          (λ w1 h1.
            rw
              (open_round1_lem sl json laws.round1 p (commitment_of bignum sl d)
                (m_a_of bignum sl d)
                (map
                  (λ i. json.round1.to_string (commitment_of bignum sl d i, m_a_of bignum sl d i))
                  (others p (range 1 d.n)))
                0 (range 1 d.n) (HasAt-map _ p (range 1 d.n)))
              (rw (same_count, answer_messages_lem bignum sl d p low high h)
                (then_run-Yields net wire client _ _
                  (send_answers_lem sl json net wire var (suc fuel)
                    (room net wire client var bignum sl json d uuid t fuel p low high) _
                    (answer_to bignum sl d p low high h) _ 0 (range 1 d.n) w1
                    (HasAt-map _ p (range 1 d.n)) (arrives.round2.sends w1 h1))
                  (λ w2 h2.
                    then_run-Yields net wire client _ _
                      (p2ps-Yields net wire client var t fuel p d.n 25 (codes "round2") uuid _ w2
                        h2)
                      (λ w3 h3. (
                        w3,
                        rw (open_round2_lem, check_answers_lem bignum sl d p low high h)
                            (rw
                              (
                                map-map (λ m. m.0) (received_from bignum sl d p low high h)
                                    (others p (range 1 d.n)),
                                map-map (λ a. a.0) (alphas_of bignum sl d p low high h)
                                    (others p (range 1 d.n)),
                                map-map (λ a. a.1) (alphas_of bignum sl d p low high h)
                                    (others p (range 1 d.n)),
                                map-map (λ a. a.0.1) (answer_to bignum sl d p low high h)
                                    (others p (range 1 d.n)),
                                map-map (λ a. a.1.1) (answer_to bignum sl d p low high h)
                                    (others p (range 1 d.n)),
                              )
                              refl),
                        h3,
                      )))))))
