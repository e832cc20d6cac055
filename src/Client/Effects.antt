-- ===== src/Client/Effects.antt =====
-- Code with effects on a world, which may panic: a panic ends the program of the client, not the
-- world.
use tss_ecdsa_cli.Base.{Run, ret, panic, no_fuel, ◌>>=◌ as and_then, ◌≡◌, refl}

abbrev pub Io : Type 0 → Type 0 → Type 0
Io W A = W → Run (A × W)

abbrev pub then_run : {W A B : Type 0} → Run (A × W) → (A → Io W B) → Run (B × W)
then_run (ret (a, w)) f = f a w
then_run (panic p) f = panic p
then_run no_fuel f = no_fuel

infixl 5 ◌>>=◌ ◌>>◌
abbrev pub ◌>>=◌ : {W A B : Type 0} → Io W A → (A → Io W B) → Io W B
◌>>=◌ m f w = then_run (m w) f

abbrev pub ◌>>◌ : {W A B : Type 0} → Io W A → Io W B → Io W B
m >> k = m >>= λ _. k

abbrev pub pure : {W A : Type 0} → A → Io W A
pure a w = ret (a, w)

abbrev pub with_world : {W A : Type 0} → Run A → W → Run (A × W)
with_world (ret a) w = ret (a, w)
with_world (panic p) w = panic p
with_world no_fuel w = no_fuel

-- Code that leaves the world alone.
abbrev pub run : {W A : Type 0} → Run A → Io W A
run r w = with_world r w

-- No value: a panic, or no fuel.
abbrev pub fail : {W A : Type 0} → Run A → Io W A
fail r = run r

-- Two pieces of such code in a row.
pub run-bind :
    {W A B : Type 0} (m : Run A) (f : A → Run B) (w : W)
    → then_run (with_world m w) (λ a. run (f a)) ≡ with_world (and_then m f) w
run-bind (ret a) f w = refl
run-bind (panic p) f w = refl
run-bind no_fuel f w = refl
