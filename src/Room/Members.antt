-- ===== src/Room/Members.antt =====
-- `HashMap<u16, SigningPartyInfo>`, the `member_info` of a room in src/common/signing_room.rs, as a
-- list of entries in the order of their insertion. The room's code looks at it only by key, by its
-- length and by tests of all values, so the order stands for nothing.
use tss_ecdsa_cli.Base.{
  ℕ, ◌≡◌, refl, ◌≢◌, List, [], ◌∷◌, ◌++◌, map, Option, none, some, Bool, true, false, ◌==◌,
  if◌then◌else◌, length, arith, Run, ret, ◌>>=◌, filter_by,
}
use tss_ecdsa_cli.Common.{SigningPartyInfo}

abbrev pub MemberMap : Type 0
MemberMap = List (ℕ × SigningPartyInfo)

unfoldable pub lookup : ℕ → MemberMap → Option SigningPartyInfo
lookup k [] = none
lookup k (e ∷ m) = if e.0 == k then some e.1 else lookup k m

unfoldable pub insert : ℕ → SigningPartyInfo → MemberMap → MemberMap
insert k v [] = (k, v) ∷ []
insert k v ((j, w) ∷ m) = if j == k then (j, v) ∷ m else (j, w) ∷ insert k v m

-- A write through `get_mut`.
unfoldable pub modify : ℕ → (SigningPartyInfo → SigningPartyInfo) → MemberMap → MemberMap
modify k f [] = []
modify k f ((j, w) ∷ m) = if j == k then (j, f w) ∷ m else (j, w) ∷ modify k f m

abbrev pub is_some {ℓ} : {A : Type ℓ} → Option A → Bool
is_some none = false
is_some (some a) = true

unfoldable pub contains_key : ℕ → MemberMap → Bool
contains_key k m = is_some (lookup k m)

-- `iter().all(p)` stops at the first value that fails, and panics where `p` does.
unfoldable pub all {ℓ} : {A : Type ℓ} → (A → Run Bool) → List A → Run Bool
all p [] = ret true
all p (x ∷ xs) = do b ← p x; elim b [ true ↦ all p xs | false ↦ ret false ]

-- `into_iter().filter(p).collect()`.
unfoldable pub filter {ℓ} : {A : Type ℓ} → (A → Run Bool) → List A → Run (List A)
filter p [] = ret []
filter p (x ∷ xs) = do b ← p x; rest ← filter p xs; ret (if b then x ∷ rest else rest)

abbrev pub values : MemberMap → List SigningPartyInfo
values = map (λ e. e.1)

abbrev pub all_pass {ℓ} : {A : Type ℓ} → (A → Bool) → List A → Bool
all_pass q [] = true
all_pass q (x ∷ xs) = if q x then all_pass q xs else false

module _ {ℓ} {A : Type ℓ} (p : A → Run Bool) (q : A → Bool) (h : (x : A) → p x ≡ ret (q x)) where
  pub all-all_pass : (xs : List A) → all p xs ≡ ret (all_pass q xs)
  unfolding all
  all-all_pass [] = refl
  all-all_pass (x ∷ xs) = ground (arith, h x, all-all_pass xs)

  pub filter-filter_by : (xs : List A) → filter p xs ≡ ret (filter_by q xs)
  unfolding filter
  filter-filter_by [] = refl
  filter-filter_by (x ∷ xs) = ground (arith, h x, filter-filter_by xs)

-- What is found after a write: at the number of the write the new entry.
pub lookup-insert :
    (n p : ℕ) (info : SigningPartyInfo) (members : MemberMap)
    → lookup p (insert n info members) ≡ (if n == p then some info else lookup p members)
unfolding insert lookup
lookup-insert n p info [] = refl
lookup-insert n p info (e ∷ members) = ground (arith, lookup-insert n p info members)

pub insert_absent :
    (k : ℕ) (v : SigningPartyInfo) (m : MemberMap)
    → lookup k m ≡ none
    → insert k v m ≡ m ++ (k, v) ∷ []
unfolding lookup insert
insert_absent k v [] h = refl
insert_absent k v ((i, w) ∷ m) h = ground (arith, insert_absent k v m)

pub lookup-modify_self :
    (k : ℕ) (f : SigningPartyInfo → SigningPartyInfo) (m : MemberMap) (v : SigningPartyInfo)
    → lookup k m ≡ some v
    → lookup k (modify k f m) ≡ some (f v)
unfolding lookup modify
lookup-modify_self k f [] v h = ground arith
lookup-modify_self k f ((i, w) ∷ m) v h = ground (arith, lookup-modify_self k f m v)

pub lookup-modify_ne :
    (k j : ℕ) (f : SigningPartyInfo → SigningPartyInfo) (m : MemberMap)
    → k ≢ j
    → lookup j (modify k f m) ≡ lookup j m
unfolding lookup modify
lookup-modify_ne k j f [] h = refl
lookup-modify_ne k j f ((i, w) ∷ m) h = ground (arith, lookup-modify_ne k j f m)

pub length-modify :
    (k : ℕ) (f : SigningPartyInfo → SigningPartyInfo) (m : MemberMap)
    → length (modify k f m) ≡ length m
unfolding modify
length-modify k f [] = refl
length-modify k f ((i, w) ∷ m) = ground (arith, length-modify k f m)

-- A member that fails a test makes the test of all values fail.
pub all_pass_of_lookup :
    (q : SigningPartyInfo → Bool) (k : ℕ) (v : SigningPartyInfo) (m : MemberMap)
    → lookup k m ≡ some v
    → q v ≡ false
    → all_pass q (values m) ≡ false
unfolding lookup
all_pass_of_lookup q k v [] h f = cc
all_pass_of_lookup q k v ((j, w) ∷ m) h f = ground (arith, all_pass_of_lookup q k v m)
