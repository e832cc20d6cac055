-- ===== src/Base/Outcomes.antt =====
-- What a piece of Rust code comes to: a value, a panic, or (for a loop that is run on fuel) no
-- result within the fuel. `Result` is the standard library's, a value like any other.
use mathlib.Core.Path.{◌≡◌, refl, subst}
use mathlib.Core.Bool.{Bool, true, false}
use mathlib.Core.Option.{Option, none, some}

-- Why a thread panics: `unwrap` or `expect` on `None` or `Err`, an index or a split out of range,
-- `assert!`, or a call of `panic!`.
pub data Panic : Type 0 where
  unwrap bounds assertion explicit : Panic

pub data Run {ℓ} (A : Type ℓ) : Type ℓ where
  ret : A → Run A
  panic : Panic → Run A
  no_fuel : Run A

pub data Result {ℓ κ} (A : Type ℓ) (E : Type κ) : Type (ℓ ⊔ κ) where
  ok : A → Result A E
  err : E → Result A E

infixl 5 ◌>>=◌ ◌>>◌
abbrev pub ◌>>=◌ {ℓ κ} : {A : Type ℓ} {B : Type κ} → Run A → (A → Run B) → Run B
ret a >>= f = f a
panic p >>= f = panic p
no_fuel >>= f = no_fuel

abbrev pub ◌>>◌ {ℓ} : {B : Type ℓ} → Run (Unit {0}) → Run B → Run B
m >> k = m >>= λ _. k

-- `o.unwrap()`.
abbrev pub unwrap_option {ℓ} : {A : Type ℓ} → Option A → Run A
unwrap_option none = panic unwrap
unwrap_option (some a) = ret a

-- `l[i]`.
abbrev pub at_index {ℓ} : {A : Type ℓ} → Option A → Run A
at_index none = panic bounds
at_index (some a) = ret a

-- `assert!(b)`.
abbrev pub assert : Bool → Run (Unit {0})
assert true = ret tt
assert false = panic assertion

-- Inversion of a bind that returns.
pub >>=-eq-ret {ℓ κ} :
    {A : Type ℓ} {B : Type κ} (m : Run A) (f : A → Run B) {b : B}
    → (m >>= f) ≡ ret b
    → (a : A) × (m ≡ ret a) × (f a ≡ ret b)
>>=-eq-ret (ret a) f h = (a, refl, h)
>>=-eq-ret (panic p) f h = cc
>>=-eq-ret no_fuel f h = cc

pub >>=_assoc {ℓ κ μ} :
    {A : Type ℓ} {B : Type κ} {C : Type μ} (m : Run A) (f : A → Run B) (g : B → Run C)
    → (m >>= f >>= g) ≡ (m >>= λ a. f a >>= g)
>>=_assoc (ret a) f g = refl
>>=_assoc (panic p) f g = refl
>>=_assoc no_fuel f g = refl

-- `P` holds of the value, if there is one.
abbrev pub Ensures {ℓ κ} : {A : Type ℓ} → (A → Type κ) → Run A → Type κ
Ensures P (ret a) = P a
Ensures P (panic p) = Unit
Ensures P no_fuel = Unit

pub Ensures-bind {ℓ κ μ ν} :
    {A : Type ℓ} {B : Type κ} (Q : A → Type μ) (P : B → Type ν) (m : Run A) (f : A → Run B)
    → Ensures Q m
    → ((a : A) → Q a → Ensures P (f a))
    → Ensures P (m >>= f)
Ensures-bind Q P (ret a) f q h = h a q
Ensures-bind Q P (panic p) f q h = tt
Ensures-bind Q P no_fuel f q h = tt

-- The bind of a value that says nothing about the property.
pub Ensures-bind_any {ℓ κ ν} :
    {A : Type ℓ} {B : Type κ} (P : B → Type ν) (m : Run A) (f : A → Run B)
    → ((a : A) → m ≡ ret a → Ensures P (f a))
    → Ensures P (m >>= f)
Ensures-bind_any P (ret a) f h = h a refl
Ensures-bind_any P (panic p) f h = tt
Ensures-bind_any P no_fuel f h = tt

pub Ensures-any {ℓ} : {A : Type ℓ} (m : Run A) → Ensures (λ a. Unit {0}) m
Ensures-any (ret a) = tt
Ensures-any (panic p) = tt
Ensures-any no_fuel = tt

pub Ensures-ret {ℓ κ} :
    {A : Type ℓ} (P : A → Type κ) (m : Run A) (a : A) → m ≡ ret a → Ensures P m → P a
Ensures-ret P (ret b) a e h = subst P (ret_injective b a e) h
  where
    ret_injective : {A : Type ℓ} (b a : A) → ret b ≡ ret a → b ≡ a
    ret_injective b a e = cc
Ensures-ret P (panic p) a e h = absurd (cc)
Ensures-ret P no_fuel a e h = absurd (cc)
