-- ===== src/Protocols/Numbers.antt =====
-- The numbers of the parties in the rounds of src/protocols: their count, and the values that lists
-- have at them.
use tss_ecdsa_cli.Base.{
  ℕ, zero, suc, ◌+◌, ◌-◌, ◌≤◌, ◌<◌, ◌≡◌, refl, ap, ◌∙◌, List, ◌∷◌, map, length, length-map,
  get_elem?, some, false, ◌==◌, Text, ret, ◌>>=◌, arith, sym,
}
use native.Mathlib.Decide.{ℕ_discrete}
use tss_ecdsa_cli.Manager.Store.{Json, IsJson}
use tss_ecdsa_cli.Client.{range}
use tss_ecdsa_cli.Protocols.{collect, decode_all, insert_at}
use tss_ecdsa_cli.Protocols.Gathered.{others, others_own, others_other, collect_lem, gathers_alike}

pub length-range : (i n : ℕ) → length (range i n) ≡ n
length-range i zero = refl
length-range i (suc n) = ap suc (length-range (i + 1) n)

pub others_past : (p i k : ℕ) → p < i → others p (range i k) ≡ range i k
others_past p i zero h = refl
others_past p i (suc k) h =
    others_other p i (range (i + 1) k) other ∙ ap (◌∷◌ i) (others_past p (i + 1) k (omega arith))
  where
    other : (i == p) ≡ false
    other = ground arith

-- A party among them has one other less.
pub length-others : (p i k : ℕ) → i ≤ p → p < i + k → length (others p (range i k)) + 1 ≡ k
length-others p i zero low high = absurd (omega arith)
length-others p i (suc k) low high = elim (ℕ_discrete i p) [
  | yes same ↦
      rw (others_own p i (range (i + 1) k) (ground arith))
        (rw (others_past p (i + 1) k (omega arith)) (omega (arith, length-range (i + 1) k)))
  | no other ↦
      rw (others_other p i (range (i + 1) k) (ground arith))
        (omega (arith, length-others p (i + 1) k (omega arith) (omega arith)))
]

pub get_elem?-range :
    {A : Type 0} (f : ℕ → A) (i n k : ℕ)
    → k < n
    → get_elem? (map f (range i n)) k ≡ some (f (i + k))
get_elem?-range f i zero k h = absurd (omega arith)
get_elem?-range f i (suc n) zero h = ap (λ j. some (f j)) (omega arith)
get_elem?-range f i (suc n) (suc k) h =
    get_elem?-range f (i + 1) n k (omega arith) ∙ ap (λ j. some (f j)) (omega arith)

-- The answers of the others with the own value inserted: the values of all.
pub insert_at_lem :
    {T : Type 0} (json : Json T)
    → IsJson json
    → (p n : ℕ) (f : ℕ → T) → 1 ≤ p
    → p ≤ n
    → (decode_all json (map (λ i. json.to_string (f i)) (others p (range 1 n)))
        >>= insert_at (p - 1) (f p))
      ≡ ret (map f (range 1 n))
insert_at_lem {T} json laws p n f low high =
    sym ((gathers_alike json p (f p) sent low (omega (arith, count))).0)
    ∙ ap (λ k. collect json p (f p) sent 0 (range 1 k)) count
    ∙ collect_lem json laws p f (range 1 n)
  where
    sent : List Text
    sent = map (λ i. json.to_string (f i)) (others p (range 1 n))

    count : length sent + 1 ≡ n
    count =
        ap (λ k. k + 1) (length-map (λ i. json.to_string (f i)) (others p (range 1 n)))
        ∙ length-others p 1 n low (omega arith)
