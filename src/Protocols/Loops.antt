-- ===== src/Protocols/Loops.antt =====
-- The loops of the signers in src/protocols over the other parties, where each step comes to a value.
use tss_ecdsa_cli.Base.{
  ℕ, zero, suc, ◌+◌, ◌≤◌, ◌<◌, ◌≡◌, refl, sym, subst, ap, ◌∙◌, List, [], ◌∷◌, map, length,
  get_elem?, Option, none, some, true, false, Bool-cases, inl, inr, ◌==◌, Run, ret, ◌>>=◌, at_index,
  arith,
}
use native.Mathlib.Decide.{ℕ_discrete}
use tss_ecdsa_cli.Client.{range}
use tss_ecdsa_cli.Protocols.Gathered.{others, others_own, others_other}
use tss_ecdsa_cli.Protocols.Numbers.{others_past}
use tss_ecdsa_cli.Protocols.Others.{for_others, for_each, remove_at, parts}

-- `others p is` has `i` at `k`.
abbrev pub IsOther : ℕ → List ℕ → ℕ → ℕ → Type 0
IsOther p is k i = get_elem? (others p is) k ≡ some i

abbrev some_of : {A B : Type 0} → (A → B) → Option A → Option B
some_of f none = none
some_of f (some a) = some (f a)

pub get_elem?-map :
    {A B : Type 0} (f : A → B) (l : List A) (k : ℕ) (a : A)
    → get_elem? l k ≡ some a
    → get_elem? (map f l) k ≡ some (f a)
get_elem?-map f [] k a h = cc
get_elem?-map f (b ∷ l) zero a h = ap (some_of f) h
get_elem?-map f (b ∷ l) (suc k) a h = get_elem?-map f l k a h

pub map-map :
    {A B C : Type 0} (g : B → C) (f : A → B) (l : List A) → map g (map f l) ≡ map (λ a. g (f a)) l
map-map g f [] = refl
map-map g f (a ∷ l) = ap (◌∷◌ (g (f a))) (map-map g f l)

module _ (p : ℕ) where
  -- The first of the others, and the rest.
  pub IsOther-first : (i : ℕ) (is : List ℕ) → (i == p) ≡ false → IsOther p (i ∷ is) 0 i
  IsOther-first i is h = rw (others_other p i is h)

  pub IsOther-next :
      (i : ℕ) (is : List ℕ) (k o : ℕ)
      → (i == p) ≡ false
      → IsOther p is k o
      → IsOther p (i ∷ is) (suc k) o
  IsOther-next i is k o h e = rw (others_other p i is h) e

  pub IsOther-own :
      (i : ℕ) (is : List ℕ) (k o : ℕ) → (i == p) ≡ true → IsOther p is k o → IsOther p (i ∷ is) k o
  IsOther-own i is k o h e = rw (others_own p i is h) e

  -- `Q` holds of each other party and its place, counted from `j`.
  abbrev pub ForOthers : (ℕ → ℕ → Type 0) → ℕ → List ℕ → Type 0
  ForOthers Q j is = (k i : ℕ) → IsOther p is k i → Q (j + k) i

  module _ (Q : ℕ → ℕ → Type 0) (j i : ℕ) (is : List ℕ) (h : ForOthers Q j (i ∷ is)) where
    pub ForOthers-own : (i == p) ≡ true → ForOthers Q j is
    ForOthers-own own k o e = h k o (IsOther-own i is k o own e)

    pub ForOthers-first : (i == p) ≡ false → Q j i
    ForOthers-first other = subst (λ j. Q j i) (front j) (h 0 i (IsOther-first i is other))
      where
        front : (j : ℕ) → j + 0 ≡ j
        front j = omega arith

    pub ForOthers-next : (i == p) ≡ false → ForOthers Q (suc j) is
    ForOthers-next other k o e =
        subst (λ j. Q j o) (more j k) (h (suc k) o (IsOther-next i is k o other e))
      where
        more : (j k : ℕ) → j + suc k ≡ suc j + k
        more j k = omega arith

  -- The others of a range are in it.
  pub IsOther-bounds : (i n k o : ℕ) → IsOther p (range i n) k o → (i ≤ o) × (o < i + n)
  IsOther-bounds i zero k o h = cc
  IsOther-bounds i (suc n) k o h = elim (Bool-cases (i == p)) [
    | inl own ↦
        let (low, high) =
          IsOther-bounds (i + 1) n k o (rw (sym (others_own p i (range (i + 1) n) own)) h) in
        (omega arith, omega arith)
    | inr other ↦
        past k (IsOther-bounds (i + 1) n) (rw (sym (others_other p i (range (i + 1) n) other)) h)
  ]
    where
      past :
          (k : ℕ)
          → ((k o : ℕ) → IsOther p (range (i + 1) n) k o → (i + 1 ≤ o) × (o < i + 1 + n))
          → get_elem? (i ∷ others p (range (i + 1) n)) k ≡ some o
          → (i ≤ o) × (o < i + suc n)
      past zero ih h = ground arith
      past (suc k) ih h = let (low, high) = ih k o h in (omega arith, omega arith)

  -- Whoever is in a range, and is not the party, is one of the others.
  pub IsOther-exists :
      (i n o : ℕ) → i ≤ o → o < i + n → (o == p) ≡ false → (k : ℕ) × IsOther p (range i n) k o
  IsOther-exists i zero o low high h = absurd (omega arith)
  IsOther-exists i (suc n) o low high h = elim (ℕ_discrete i o) [
    | yes same ↦ (0, rw (sym same) (IsOther-first i (range (i + 1) n) (rw same h)))
    | no other ↦
        let (k, e) = IsOther-exists (i + 1) n o (omega arith) (omega arith) h in
        elim (Bool-cases (i == p)) [
          | inl own ↦ (k, IsOther-own i (range (i + 1) n) k o own e)
          | inr off ↦ (suc k, IsOther-next i (range (i + 1) n) k o off e)
        ]
  ]

  -- A loop whose body comes to `f i` for each other party `i`.
  pub for_others_lem :
      {A : Type 0} (body : ℕ → ℕ → Run A) (f : ℕ → A) (j : ℕ) (is : List ℕ)
      → ((k i : ℕ) → IsOther p is k i → body i (j + k) ≡ ret (f i))
      → for_others body p j is ≡ ret (map f (others p is))
  unfolding for_others
  for_others_lem body f j [] h = refl
  for_others_lem body f j (i ∷ is) h = elim (Bool-cases (i == p)) [
    | inl own ↦
        rw (others_own p i is own)
          (rw own (for_others_lem body f j is (λ k o e. h k o (IsOther-own i is k o own e))))
    | inr other ↦ rw (others_other p i is other) (
        rw (
          other,
          ap (body i) (zero_more j) ∙ h 0 i (IsOther-first i is other),
          for_others_lem body f (suc j) is
              (λ k o e. ap (body o) (one_more j k) ∙ h (suc k) o (IsOther-next i is k o other e)),
        ))
  ]
    where
      zero_more : (j : ℕ) → j ≡ j + 0
      zero_more j = omega arith

      one_more : (j k : ℕ) → suc j + k ≡ j + suc k
      one_more j k = omega arith

-- A loop whose body comes to `f` of the entry of a list.
pub for_each_lem :
    {A B : Type 0} (body : ℕ → Run B) (f : A → B) (s : ℕ) (l : List A)
    → ((k : ℕ) (a : A) → get_elem? l k ≡ some a → body (s + k) ≡ ret (f a))
    → for_each body (range s (length l)) ≡ ret (map f l)
unfolding for_each
for_each_lem body f s [] h = refl
for_each_lem body f s (a ∷ l) h = rw (
  ap body (zero_more s) ∙ h 0 a refl,
  for_each_lem body f (s + 1) l (λ k b e. ap body (one_more s k) ∙ h (suc k) b e),
)
  where
    zero_more : (j : ℕ) → j ≡ j + 0
    zero_more j = omega arith

    one_more : (j k : ℕ) → j + 1 + k ≡ j + suc k
    one_more j k = omega arith

pub parts_lem :
    {A B : Type 0} (part : A → B) (l : List A) (n : ℕ)
    → length l ≡ n
    → parts part l (range 0 n) ≡ ret (map part l)
unfolding parts
parts_lem part l n h =
    ap (λ n. parts part l (range 0 n)) (sym h)
    ∙ for_each_lem _ part 0 l
        (λ k a e. ap (λ o. at_index o >>= λ a. ret (part a)) (ap (get_elem? l) (front k) ∙ e))
  where
    front : (k : ℕ) → 0 + k ≡ k
    front k = omega arith

-- What is removed at the place of a party is its own value; those of the others stay.
pub remove_at_lem :
    {A : Type 0} (f : ℕ → A) (p i n k : ℕ)
    → p ≡ i + k
    → k < n
    → remove_at k (map f (range i n)) ≡ ret (f p, map f (others p (range i n)))
unfolding remove_at
remove_at_lem f p i zero k e h = absurd (omega arith)
remove_at_lem f p i (suc n) zero e h =
    rw (others_own p i (range (i + 1) n) (ground arith), others_past p (i + 1) n (omega arith))
      (ap (λ j. ret (f j, map f (range (i + 1) n))) (omega arith))
remove_at_lem f p i (suc n) (suc k) e h = rw (
  remove_at_lem f p (i + 1) n k (omega arith) (omega arith),
  others_other p i (range (i + 1) n) (ground arith),
)

-- The list has what belongs to a party at a place.
abbrev pub HasAt : {A : Type 0} → List A → (ℕ → A) → ℕ → ℕ → Type 0
HasAt answers of k i = get_elem? answers k ≡ some (of i)

pub HasAt-map :
    {A : Type 0} (of : ℕ → A) (p : ℕ) (is : List ℕ)
    → ForOthers p (HasAt (map of (others p is)) of) 0 is
HasAt-map of p is k i e =
    ap (get_elem? (map of (others p is))) (front k) ∙ get_elem?-map of (others p is) k i e
  where
    front : (k : ℕ) → 0 + k ≡ k
    front k = omega arith
