-- ===== src/Prelude/Process.antt =====
-- A Go function on a state that it changes, which may panic or run for ever.

use formaldehyde.Prelude.Partial.{Partial, done, panic, out_of_fuel, Finishes}

abbrev pub Process : Type 0 → Type 0 → Type 0
Process S A = S → Partial (A × S)

infixl 5 ◌>>=◌ ◌>>◌
abbrev pub ◌>>=◌ : {S A B : Type 0} → Process S A → (A → Process S B) → Process S B
◌>>=◌ m f s = elim (m s) [ done (a, s') ↦ f a s' | panic ↦ panic | out_of_fuel ↦ out_of_fuel ]

abbrev pub ◌>>◌ : {S B : Type 0} → Process S (Unit {0}) → Process S B → Process S B
m >> k = m >>= λ _. k

abbrev pub return : {S A : Type 0} → A → Process S A
return a s = done (a, s)

abbrev pub modify : {S : Type 0} → (S → S) → Process S (Unit {0})
modify f s = done (tt, f s)

-- The rule for a sequence: what the first part ensures is enough for the second.
pub Finishes-then :
    {S A B : Type 0} (P : A × S → Type 0) (Q : B × S → Type 0) (m : Process S A)
    (f : A → Process S B) (s : S)
    → Finishes P (m s)
    → ((a : A) (s' : S) → P (a, s') → Finishes Q (f a s'))
    → Finishes Q ((m >>= f) s)
Finishes-then P Q m f s h k = go (m s) h
  where
    go :
        (r : Partial _)
        → Finishes P r
        → Finishes Q (elim r [ done (a, s') ↦ f a s' | panic ↦ panic | out_of_fuel ↦ out_of_fuel ])
    go (done (a, s')) h' = k a s' h'
    go panic h' = absurd h'
    go out_of_fuel h' = absurd h'
