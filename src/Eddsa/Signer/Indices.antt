-- ===== src/Eddsa/Signer/Indices.antt =====
-- What round 0 of `run_signer` in src/protocols/eddsa/signer.rs comes to for the signers of a session.
use tss_ecdsa_cli.Base.{
  ℕ, zero, suc, ◌+◌, ◌-◌, ◌%◌, ◌^◌, ◌≤◌, ◌<◌, ◌≡◌, ◌⊎◌, inl, inr, refl, ◌∙◌, leb, lt→ltb, le→leb,
  leb→le, Text, codes, List, [], ◌∷◌, map, length, length-map, get_elem?, Option, none, ret, panic,
  bounds, Bool-cases, at_index, ◌>>=◌, arith,
}
use tss_ecdsa_cli.Manager.Store.{Json, IsJson}
use tss_ecdsa_cli.Room.{add_u16, sub_u16}
use tss_ecdsa_cli.Client.Web.{Network, Wire}
use tss_ecdsa_cli.Client.{Client, range, client_timeout}
use tss_ecdsa_cli.Protocols.Delivers.{Yields, Delivers, exchange_data_lem}
use tss_ecdsa_cli.Protocols.Numbers.{length-range, get_elem?-range}
use tss_ecdsa_cli.Eddsa.Signer.{this_party_index, signer_indices}

get_elem?-past : {A : Type 0} (l : List A) (k : ℕ) → length l ≤ k → get_elem? l k ≡ none
get_elem?-past [] k h = refl
get_elem?-past (a ∷ l) zero h = absurd (omega arith)
get_elem?-past (a ∷ l) (suc k) h = get_elem?-past l k (omega arith)

map-sent :
    (f g h : ℕ → ℕ)
    → ((i : ℕ) → g (f i) ≡ h i)
    → (i n : ℕ) → map g (map f (range i n)) ≡ map h (range i n)
map-sent f g h e i zero = refl
map-sent f g h e i (suc n) = rw (e i, map-sent f g h e (i + 1) n)

module _ (id_of : ℕ → ℕ) (some_id : (i : ℕ) → 1 ≤ id_of i) (small : (i : ℕ) → id_of i < 2 ^ 16)
    (t n p : ℕ) (fits : t + 1 < 2 ^ 16) (enough : t + 1 ≤ n) where
  abbrev pub sent : ℕ → ℕ
  sent i = sub_u16 (id_of i) 1

  back : (i : ℕ) → add_u16 (sent i) 1 ≡ id_of i
  back i = omega (arith, some_id i, small i)

  abbrev pub ids : List ℕ
  ids = map id_of (range 1 (t + 1))

  count : length ids ≡ t + 1
  count = length-map id_of (range 1 (t + 1)) ∙ length-range 1 (t + 1)

  pub joined_below : (t + 1) % 2 ^ 16 ≡ t + 1
  joined_below = omega arith

  -- Both assertions hold.
  indices_lem :
      this_party_index t n p (map sent (range 1 (t + 1)))
      ≡ (at_index (get_elem? ids (p - 1)) >>= λ own. ret (ids, own))
  unfolding this_party_index
  indices_lem =
      rw
        (
          map-sent sent (λ i. add_u16 i 1) id_of back 1 (t + 1),
          count,
          joined_below,
          lt→ltb t (t + 1) (omega arith),
          le→leb (t + 1) n enough,
        )
        refl

  pub this_party_index_lem :
      1 ≤ p → p ≤ t + 1 → this_party_index t n p (map sent (range 1 (t + 1))) ≡ ret (ids, id_of p)
  this_party_index_lem low high =
      indices_lem ∙ rw (get_elem?-range id_of 1 (t + 1) (p - 1) (omega arith), one_back)
    where
      one_back : 1 + (p - 1) ≡ p
      one_back = omega arith

  this_party_index_past :
      t + 1 < p → this_party_index t n p (map sent (range 1 (t + 1))) ≡ panic bounds
  this_party_index_past past = indices_lem ∙ rw (get_elem?-past ids (p - 1) (omega (arith, count)))

  -- In a session of EdDSA signers of a threshold `t`, `t + 1` below 2 ^ 16, that at least `t + 1`
  -- have joined, if the timeout can be read, the codec reads back what it wrote, the indices lie
  -- between 1 and 2 ^ 16, and in round 0 the broadcast of the party is accepted and that of each
  -- other one of the first `t + 1` is there when the party first asks for it: a party among the
  -- first `t + 1` has the indices of the first `t + 1` and its own; any other party panics by an
  -- index out of bounds.
  pub signer_indices_lem :
      (net : Network) (wire : Wire) (client : Client) (var : Option Text) {timeout : ℕ} (fuel : ℕ)
      (json : Json ℕ) (uuid : Text) {Before After : net.World → Type 0} (w : net.World)
      → client_timeout var ≡ ret timeout
      → IsJson json
      → 1 ≤ p
      → Delivers net wire client Before After p
          (t + 1)
          25
          (codes "round0")
          uuid
          (λ i. json.to_string (sent i))
      → Before w
      → ((p ≤ t + 1)
          × Yields net wire client After
              (ids, id_of p)
              (signer_indices net wire var (suc fuel) json client p t uuid (id_of p) n w))
        ⊎ ((t + 1 < p)
            × (signer_indices net wire var (suc fuel) json client p t uuid (id_of p) n w
                ≡ panic bounds))
  unfolding signer_indices
  signer_indices_lem net wire client var fuel json uuid w timed written low delivers before =
      rw joined_below (
        let (after, e, h) =
          exchange_data_lem net wire client var timed fuel json written p (t + 1) 25
            (codes "round0") uuid sent w delivers before in
        elim (Bool-cases (leb p (t + 1))) [
          | inl low_enough ↦
              let high : p ≤ t + 1 = leb→le p (t + 1) low_enough in
              inl (high, (after, rw e (rw (this_party_index_lem low high)), h))
          | inr off ↦
              let past : t + 1 < p = ground (arith, off) in
              inr (past, rw e (rw (this_party_index_past past)))
        ])
