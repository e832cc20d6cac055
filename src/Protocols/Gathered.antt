-- ===== src/Protocols/Gathered.antt =====
-- The ways in which the protocols put a party's own value among the answers come to the same, and
-- every party gathers the same values.
use tss_ecdsa_cli.Base.{
  ℕ, some, zero, suc, ◌+◌, ◌-◌, ◌≤◌, ◌<◌, ◌≡◌, refl, sym, ap, ◌∙◌, Text, List, [], ◌∷◌, ◌++◌,
  length, map, filter_by, true, false, not, Bool-cases, inl, inr, ◌==◌, Run, ret, panic, no_fuel,
  ◌>>=◌, unwrap_option, arith,
}
use tss_ecdsa_cli.Manager.Store.{Json, IsJson}
use tss_ecdsa_cli.Client.{range}
use tss_ecdsa_cli.Protocols.{collect, format_vec_from_reads, decode_all, insert_at}

-- The numbers of the other parties.
abbrev pub others : ℕ → List ℕ → List ℕ
others p = filter_by (λ i. not (i == p))

pub others_own : (p i : ℕ) (is : List ℕ) → (i == p) ≡ true → others p (i ∷ is) ≡ others p is
others_own p i is h = ground arith

pub others_other : (p i : ℕ) (is : List ℕ) → (i == p) ≡ false → others p (i ∷ is) ≡ i ∷ others p is
others_other p i is h = ground arith

module _ {T : Type 0} (json : Json T) where
  -- An answer that was read already makes no difference.
  collect-suc :
      (p : ℕ) (value : T) (m : Text) (ms : List Text) (j : ℕ) (is : List ℕ)
      → collect json p value (m ∷ ms) (suc j) is ≡ collect json p value ms j is
  unfolding collect
  collect-suc p value m ms j [] = refl
  collect-suc p value m ms j (i ∷ is) =
      rw (collect-suc p value m ms j is, collect-suc p value m ms (suc j) is) refl

  -- Past the party's own number only answers are left.
  collect_past :
      (p : ℕ) (value : T) (i : ℕ) (ms : List Text)
      → p < i
      → collect json p value ms 0 (range i (length ms)) ≡ decode_all json ms
  unfolding collect decode_all
  collect_past p value i [] h = refl
  collect_past p value i (m ∷ ms) h =
      rw
        (
          other,
          collect-suc p value m ms 0 (range (i + 1) (length ms)),
          collect_past p value (i + 1) ms (omega arith),
        )
        refl
    where
      other : (i == p) ≡ false
      other = ground arith

  insert_at_later :
      (k : ℕ) (value : T) (v : Run T) (d : Run (List T))
      → (v >>= λ v. d >>= insert_at k value >>= λ rest. ret (v ∷ rest))
        ≡ (v >>= (λ v. d >>= λ rest. ret (v ∷ rest)) >>= insert_at (suc k) value)
  unfolding insert_at
  insert_at_later k value (ret v) (ret l) = refl
  insert_at_later k value (ret v) (panic e) = refl
  insert_at_later k value (ret v) no_fuel = refl
  insert_at_later k value (panic e) d = refl
  insert_at_later k value no_fuel d = refl

  collect_insert :
      (p : ℕ) (value : T) (i k : ℕ) (ms : List Text)
      → p ≡ i + k
      → k ≤ length ms
      → collect json p value ms 0 (range i (suc (length ms)))
        ≡ (decode_all json ms >>= insert_at k value)
  unfolding collect decode_all insert_at
  collect_insert p value i zero ms e h =
      rw (own, collect_past p value (i + 1) ms (omega arith)) refl
    where
      own : (i == p) ≡ true
      own = ground arith
  collect_insert p value i (suc k) [] e h = absurd (omega arith)
  collect_insert p value i (suc k) (m ∷ ms) e h =
      rw
        (
          other,
          collect-suc p value m ms 0 (range (i + 1) (suc (length ms))),
          collect_insert p value (i + 1) k ms (omega arith) (omega arith),
        )
        (insert_at_later k value (unwrap_option (json.from_str m)) (decode_all json ms))
    where
      other : (i == p) ≡ false
      other = ground arith

  -- For a party among those of the round, the three ways to gather the values of all parties from
  -- the answers of the others agree: the loop of `exchange_data`, `format_vec_from_reads`, and the
  -- answers with the own value inserted. They panic on the same answers.
  pub gathers_alike :
      (party_num : ℕ) (value : T) (answers : List Text)
      → 1 ≤ party_num
      → party_num ≤ length answers + 1
      → (collect json party_num value answers 0 (range 1 (length answers + 1))
          ≡ (decode_all json answers >>= insert_at (party_num - 1) value))
        × (format_vec_from_reads json answers party_num value []
            ≡ (decode_all json answers >>= insert_at (party_num - 1) value))
  unfolding format_vec_from_reads
  gathers_alike p value answers low high =
      let inserted = collect_insert p value 1 (p - 1) answers (omega arith) (omega arith) in
      (rw one inserted, rw one (onto_nil _ ∙ inserted))
    where
      one : length answers + 1 ≡ suc (length answers)
      one = omega arith

      onto_nil : (r : Run (List T)) → (r >>= λ values. ret ([] ++ values)) ≡ r
      onto_nil (ret l) = refl
      onto_nil (panic e) = refl
      onto_nil no_fuel = refl

  collect_own :
      (p : ℕ) (value : T) (i : ℕ) (is : List ℕ) (answers : List Text)
      → (i == p) ≡ true
      → collect json p value answers 0 (i ∷ is)
        ≡ (collect json p value answers 0 is >>= λ rest. ret (value ∷ rest))
  unfolding collect
  collect_own p value i is answers h = rw h

  collect_other :
      (p : ℕ) (value v : T) (i : ℕ) (is : List ℕ) (m : Text) (answers : List Text)
      → (i == p) ≡ false
      → json.from_str m ≡ some v
      → collect json p value (m ∷ answers) 0 (i ∷ is)
        ≡ (collect json p value answers 0 is >>= λ rest. ret (v ∷ rest))
  unfolding collect
  collect_other p value v i is m answers h e = rw (h, e, collect-suc p value m answers 0 is)

  -- If the others sent the values that `f` gives, encoded, in the order of their numbers, a party
  -- gathers the values of `f` at all numbers, its own included: no answer is attributed to a wrong
  -- party, and all parties gather one list.
  pub collect_lem :
      IsJson json
      → (party_num : ℕ) (f : ℕ → T) (is : List ℕ)
      → collect json party_num
          (f party_num)
          (map (λ i. json.to_string (f i)) (others party_num is))
          0
          is
        ≡ ret (map f is)
  collect_lem laws p f [] = unfold collect in refl
  collect_lem laws p f (i ∷ is) = elim (Bool-cases (i == p)) [
    | inl own ↦ rw (others_own p i is own) (
        collect_own p (f p) i is (sent is) own
        ∙ rw (collect_lem laws p f is) (ap (λ j. ret (f j ∷ map f is)) (sym (number own))))
    | inr other ↦ rw (others_other p i is other) (
        collect_other p (f p) (f i) i is (json.to_string (f i)) (sent is) other
          (laws.from_str-to_string (f i))
        ∙ rw (collect_lem laws p f is))
  ]
    where
      number : (i == p) ≡ true → i ≡ p
      number h = ground (arith, h)

      sent : List ℕ → List Text
      sent is = map (λ i. json.to_string (f i)) (others p is)
