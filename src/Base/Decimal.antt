-- ===== src/Base/Decimal.antt =====
-- The standard library's conversions of unsigned numbers: `to_string` (and `{}` in `format!`),
-- and `parse::<u16>()`, `parse::<u64>()`.
use Prim.Native.Nat.{ℕ, zero, suc, ◌+◌, ◌-◌, ◌*◌, ◌/◌, ◌%◌, ◌≤◌, ◌<◌, ◌^◌}
use mathlib.Core.Path.{◌≡◌, refl, sym, ◌∙◌, ap}
use mathlib.Core.Logic.{inl, inr, ◌≢◌}
use mathlib.Core.Bool.{◌&&◌}
use mathlib.Core.Option.{Option, none, some}
use mathlib.Core.List.{[], ◌∷◌}
use native.Mathlib.Omega.{arith}
use tss_ecdsa_cli.Base.Tests.{ltb, leb, ◌==◌, if◌then◌else◌, Bool-cases, ltb→lt}
use tss_ecdsa_cli.Base.Lists.{All}
use tss_ecdsa_cli.Base.Strings.{Text}

-- The decimal digits of a number, in front of `acc`; the fuel is above the number.
digits : ℕ → ℕ → Text → Text
digits zero n acc = acc
digits (suc f) n acc =
    let here = (b'0' + n % 10) ∷ acc in
    let rest = digits f (n / 10) here in if ltb n 10 then here else rest

-- `n.to_string()`.
unfoldable pub to_text : ℕ → Text
unfolding digits
to_text n = digits (suc n) n []

-- Each digit is added with a check against the type's modulus `m`.
parse_digits : ℕ → ℕ → Text → Option ℕ
parse_digits m acc [] = some acc
parse_digits m acc (c ∷ s) =
    let rest = parse_digits m (acc * 10 + (c - b'0')) s in
    if leb b'0' c && leb c b'9' && ltb (acc * 10 + (c - b'0')) m then rest else none

after_plus : ℕ → Text → Option ℕ
unfolding parse_digits
after_plus m [] = none
after_plus m (c ∷ s) = parse_digits m 0 (c ∷ s)

-- `s.parse::<u_w>()` with m = 2 ^ w: an optional `+`, then at least one digit, with no overflow.
unfoldable pub parse_uint : ℕ → Text → Option ℕ
unfolding parse_digits after_plus
parse_uint m [] = none
parse_uint m (c ∷ s) = if c == b'+' then after_plus m s else parse_digits m 0 (c ∷ s)

unfoldable pub parse_u16 : Text → Option ℕ
unfolding parse_uint
parse_u16 s = parse_uint (2 ^ 16) s

unfoldable pub parse_u64 : Text → Option ℕ
unfolding parse_uint
parse_u64 s = parse_uint (2 ^ 64) s

abbrev pub IsDigit : ℕ → Type 0
IsDigit c = (48 ≤ c) × (c ≤ 57)

digits-All : (f n : ℕ) (acc : Text) → All IsDigit acc → All IsDigit (digits f n acc)
unfolding digits
digits-All zero n acc h = h
digits-All (suc f) n acc h = elim (Bool-cases (ltb n 10)) [
  | inl e ↦ rw e (omega arith, h)
  | inr e ↦ rw e (digits-All f (n / 10) ((b'0' + n % 10) ∷ acc) (omega arith, h))
]

pub to_text-All : (n : ℕ) → All IsDigit (to_text n)
unfolding to_text
to_text-All n = digits-All (suc n) n [] tt

-- Reading the digit that `digits` wrote.
parse_digits_step :
    (m n : ℕ) (acc : Text)
    → n < m
    → parse_digits m (n / 10) ((b'0' + n % 10) ∷ acc) ≡ parse_digits m n acc
unfolding parse_digits
parse_digits_step m n acc k =
    let e : n / 10 * 10 + (48 + n % 10 - 48) ≡ n = omega arith in rw e (ground arith)

parse_digits-digits :
    (m f n : ℕ) (acc : Text)
    → n < f
    → n < m
    → parse_digits m 0 (digits f n acc) ≡ parse_digits m n acc
unfolding digits
parse_digits-digits m zero n acc h k = elim h [ ]
parse_digits-digits m (suc f) n acc h k = elim (Bool-cases (ltb n 10)) [
  | inl e ↦ rw e (one_digit (ltb→lt n 10 e))
  | inr e ↦ rw e (
      parse_digits-digits m f (n / 10) ((b'0' + n % 10) ∷ acc) (ground arith) (omega arith)
      ∙ parse_digits_step m n acc k)
]
  where
    one_digit : n < 10 → parse_digits m 0 ((b'0' + n % 10) ∷ acc) ≡ parse_digits m n acc
    one_digit l = let z : 0 ≡ n / 10 = omega arith in rw z (parse_digits_step m n acc k)

-- The text of a number begins with a digit, so it is not read as a sign.
parse_uint_digits :
    (m : ℕ) (s : Text) → All IsDigit s → s ≢ [] → parse_uint m s ≡ parse_digits m 0 s
unfolding parse_uint
parse_uint_digits m [] a h = absurd (h refl)
parse_uint_digits m (c ∷ s) a h = ground arith

digits-ne-nil : (f n c : ℕ) (acc : Text) → digits f n (c ∷ acc) ≢ []
unfolding digits
digits-ne-nil zero n c acc = λ e. cc
digits-ne-nil (suc f) n c acc = elim (Bool-cases (ltb n 10)) [
  | inl e ↦ rw e (λ p. cc)
  | inr e ↦ rw e (digits-ne-nil f (n / 10) (b'0' + n % 10) (c ∷ acc))
]

pub to_text-ne-nil : (n : ℕ) → to_text n ≢ []
unfolding to_text digits
to_text-ne-nil n = elim (Bool-cases (ltb n 10)) [
  | inl e ↦ rw e (λ p. cc)
  | inr e ↦ rw e (digits-ne-nil n (n / 10) (b'0' + n % 10) [])
]

read : (m n : ℕ) → n < m → parse_digits m 0 (to_text n) ≡ some n
unfolding to_text parse_digits
read m n h = parse_digits-digits m (suc n) n [] (omega arith) h

-- A number that fits its type is read back from its text.
pub parse_uint-to_text : (m n : ℕ) → n < m → parse_uint m (to_text n) ≡ some n
parse_uint-to_text m n h =
    parse_uint_digits m (to_text n) (to_text-All n) (to_text-ne-nil n) ∙ read m n h

pub to_text-injective : (a b : ℕ) → to_text a ≡ to_text b → a ≡ b
to_text-injective a b e =
    let back = parse_uint-to_text (suc (a + b)) a (omega arith) in
    let back' = parse_uint-to_text (suc (a + b)) b (omega arith) in
    some_eq (sym back ∙ ap (parse_uint (suc (a + b))) e ∙ back')
  where
    some_eq : ◌≡◌ {A = Option ℕ} (some a) (some b) → a ≡ b
    some_eq h = ground arith
