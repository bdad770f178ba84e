-- ===== src/Prelude/Partial.antt =====
-- A Go function that may panic or run for ever. A loop takes fuel, and `out_of_fuel` says that the
-- fuel was not enough.
use mathlib.Core.Path.{◌≡◌, refl}
use mathlib.Core.Bool.{Bool, true, false}
use formaldehyde.Prelude.Tests.{if◌then◌else◌}

pub data Partial (A : Type 0) : Type 0 where
  done : A → Partial A
  panic : Partial A
  out_of_fuel : Partial A

infixl 5 ◌>>=◌
abbrev pub ◌>>=◌ : {A B : Type 0} → Partial A → (A → Partial B) → Partial B
done a >>= f = f a
panic >>= f = panic
out_of_fuel >>= f = out_of_fuel

-- The function returns, and `P` holds of what it returns.
abbrev pub Finishes : {A : Type 0} → (A → Type 0) → Partial A → Type 0
Finishes P (done a) = P a
Finishes P panic = ⊥
Finishes P out_of_fuel = ⊥

pub Finishes-bind :
    {A B : Type 0} (P : A → Type 0) (Q : B → Type 0) (m : Partial A) (f : A → Partial B)
    → Finishes P m
    → ((a : A) → P a → Finishes Q (f a))
    → Finishes Q (m >>= f)
Finishes-bind P Q (done a) f h k = k a h
Finishes-bind P Q panic f h k = absurd h
Finishes-bind P Q out_of_fuel f h k = absurd h

pub Finishes-done :
    {A : Type 0} (P : A → Type 0) (m : Partial A) → Finishes P m → (a : A) × (m ≡ done a) × P a
Finishes-done P (done a) h = (a, refl, h)
Finishes-done P panic h = absurd h
Finishes-done P out_of_fuel h = absurd h

pub Finishes-if :
    {A : Type 0} (P : A → Type 0) (b : Bool) (m n : Partial A)
    → ((b ≡ true) → Finishes P m)
    → ((b ≡ false) → Finishes P n)
    → Finishes P (if b then m else n)
Finishes-if P true m n h k = h refl
Finishes-if P false m n h k = k refl
