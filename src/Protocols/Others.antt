-- ===== src/Protocols/Others.antt =====
-- The loops of the signers in src/protocols over the other parties of a session, and `Vec::remove`.
use tss_ecdsa_cli.Base.{
  ℕ, zero, suc, ◌==◌, if◌then◌else◌, List, [], ◌∷◌, Run, ret, panic, bounds, ◌>>=◌, get_elem?,
  at_index,
}

-- `for i in … { if i != party_num { …; j = j + 1; } }`: the body has the number of the party and `j`,
-- and what it pushes is collected.
unfoldable pub for_others {ℓ} : {A : Type ℓ} → (ℕ → ℕ → Run A) → ℕ → ℕ → List ℕ → Run (List A)
for_others body party_num j [] = ret []
for_others body party_num j (i ∷ is) =
    if i == party_num
    then for_others body party_num j is
    else (do a ← body i j; rest ← for_others body party_num (suc j) is; ret (a ∷ rest))

-- `Vec::remove`: what was there, and the vector without it.
unfoldable pub remove_at {ℓ} : {A : Type ℓ} → ℕ → List A → Run (A × List A)
remove_at i [] = panic bounds
remove_at zero (a ∷ l) = ret (a, l)
remove_at (suc i) (a ∷ l) = do removed ← remove_at i l; ret (removed.0, a ∷ removed.1)

-- A loop that pushes what its body makes of each number.
unfoldable pub for_each {ℓ} : {A : Type ℓ} → (ℕ → Run A) → List ℕ → Run (List A)
for_each body [] = ret []
for_each body (i ∷ is) = do a ← body i; rest ← for_each body is; ret (a ∷ rest)

-- `(0..n).map(|i| vec[i].part.clone()).collect()`.
unfoldable pub parts {ℓ κ} : {A : Type ℓ} {B : Type κ} → (A → B) → List A → List ℕ → Run (List B)
unfolding for_each
parts part vec = for_each (λ i. do a ← at_index (get_elem? vec i); ret (part a))
