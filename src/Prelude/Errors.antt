-- ===== src/Prelude/Errors.antt =====
-- What a Go function with an `error` result does: return a value, return an error, or panic.
use Prim.Native.String.{String}

-- The `Kind` constants of `CpuError`.
pub data ErrorKind : Type 0 where
  too_short bad_operand address_too_high address_unaligned halted bad_address_fault again :
      ErrorKind

-- An `error` value: a `*CpuError`, or one made by `errors.New` or the standard library.
pub data Error : Type 0 where
  cpu_error : ErrorKind → String → Error
  plain_error : String → Error

pub data Result {ℓ} (A : Type ℓ) : Type ℓ where
  ok : A → Result A
  err : Error → Result A
  panic : Result A

infixl 5 ◌>>=◌
abbrev pub ◌>>=◌ {ℓ κ} : {A : Type ℓ} {B : Type κ} → Result A → (A → Result B) → Result B
ok a >>= f = f a
err e >>= f = err e
panic >>= f = panic

-- The call returns a value, and `P` holds of it.
abbrev pub Returns {ℓ} : {A : Type ℓ} → (A → Type 0) → Result A → Type 0
Returns P (ok a) = P a
Returns P (err e) = ⊥
Returns P panic = ⊥

pub Returns-bind {ℓ κ} :
    {A : Type ℓ} {B : Type κ} (P : A → Type 0) (Q : B → Type 0) (m : Result A) (f : A → Result B)
    → Returns P m
    → ((a : A) → P a → Returns Q (f a))
    → Returns Q (m >>= f)
Returns-bind P Q (ok a) f h k = k a h
Returns-bind P Q (err e) f h k = absurd h
Returns-bind P Q panic f h k = absurd h
