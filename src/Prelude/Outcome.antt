-- ===== src/Prelude/Outcome.antt =====
-- A Go function that changes the state `S`: it returns a value or an error, each with the state it
-- leaves, or it panics, or it waits for ever (`blocked`).
use mathlib.Core.Path.{◌≡◌}
use formaldehyde.Prelude.Errors.{Error, Result}

pub data Outcome (S A : Type 0) : Type 0 where
  ok : A → S → Outcome S A
  err : Error → S → Outcome S A
  panic : Outcome S A
  blocked : Outcome S A

infixl 5 ◌>>=◌ ◌>>◌
abbrev pub ◌>>=◌ : {S A B : Type 0} → (S → Outcome S A) → (A → S → Outcome S B) → S → Outcome S B
◌>>=◌ m f s = elim (m s) [
  | ok a s' ↦ f a s'
  | err e s' ↦ err e s'
  | panic ↦ panic
  | blocked ↦ blocked
]

abbrev pub ◌>>◌ : {S B : Type 0} → (S → Outcome S (Unit {0})) → (S → Outcome S B) → S → Outcome S B
m >> k = m >>= λ _. k

abbrev pub return : {S A : Type 0} → A → S → Outcome S A
return a s = ok a s

abbrev pub fail : {S A : Type 0} → Error → S → Outcome S A
fail e s = err e s

-- An assignment that cannot fail.
abbrev pub modify : {S : Type 0} → (S → S) → S → Outcome S (Unit {0})
modify f s = ok tt (f s)

-- A function that leaves the state alone.
abbrev pub lift : {S A : Type 0} → Result A → S → Outcome S A
lift (Result.ok a) s = ok a s
lift (Result.err e) s = err e s
lift Result.panic s = panic

-- A call whose `error` the caller drops.
abbrev pub ignore_error : {S : Type 0} → (S → Outcome S (Unit {0})) → S → Outcome S (Unit {0})
ignore_error m s = elim (m s) [
  | ok a s' ↦ ok tt s'
  | err e s' ↦ ok tt s'
  | panic ↦ panic
  | blocked ↦ blocked
]

-- An assignment made after a call, whether or not the call returned an error.
abbrev pub afterwards : {S A : Type 0} → (S → S) → (S → Outcome S A) → S → Outcome S A
afterwards f m s = elim (m s) [
  | ok a s' ↦ ok a (f s')
  | err e s' ↦ err e (f s')
  | panic ↦ panic
  | blocked ↦ blocked
]

-- A sequence whose first call is known.
pub >>=-ok :
    {S A B : Type 0} (m : S → Outcome S A) (f : A → S → Outcome S B) (s : S) {a : A} {s' : S}
    → m s ≡ ok a s'
    → (m >>= f) s ≡ f a s'
>>=-ok m f s e = rw (e, ◌>>=◌)

pub >>=-err :
    {S A B : Type 0} (m : S → Outcome S A) (f : A → S → Outcome S B) (s : S) {e : Error} {s' : S}
    → m s ≡ err e s'
    → (m >>= f) s ≡ err e s'
>>=-err m f s e = rw (e, ◌>>=◌)
