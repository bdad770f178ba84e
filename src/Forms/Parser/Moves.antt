-- ===== src/Forms/Parser/Moves.antt =====
-- What leads where in the parser of forms, and how that is put together.
use formaldehyde.Prelude.{
  ℕ, ◌<◌, ◌≡◌, refl, arith, Bool, true, false, if◌then◌else◌, [], ◌∷◌, some, String,
}
use formaldehyde.Prelude.Process.{◌>>=◌, ◌>>◌}
use formaldehyde.Forms.Nodes.{
  Kind, FormError, unexpected_token, Parser, Parse, Lexis, fail, unexpected,
}
use formaldehyde.Forms.Parser.Steps.{
  is_nesting, At, After, Keeps, Keeps-then, Keeps-map, At-After, fail-At,
}

-- An operation leads from `I` to `J`.
pub record Moves {T A : Type 0} (I J : ℕ → Parser T → Type 0) (m : Parse T A) : Type 0 where
  pub run : (n : ℕ) (p : Parser T) → I n p → Keeps (J n) (m p)

module _ {T : Type 0} where
  pub Moves-then :
      {A B : Type 0} {I J K : ℕ → Parser T → Type 0} {m : Parse T A} {f : A → Parse T B}
      → Moves I J m
      → ((a : A) → Moves J K (f a))
      → Moves I K (m >>= f)
  Moves-then {J = J} {K = K} {m = m} {f = f} h k = record {
    run = λ n p i. Keeps-then (J n) (K n) m f p (h.run n p i) (λ a. (k a).run n);
  }

  pub Moves-seq :
      {B : Type 0} {I J K : ℕ → Parser T → Type 0} {m : Parse T (Unit {0})} {k : Parse T B}
      → Moves I J m
      → Moves J K k
      → Moves I K (m >> k)
  Moves-seq h g = Moves-then h (λ _. g)

  -- Fewer rounds are due than there is fuel.
  abbrev pub Within : ℕ → (Kind → Bool) → ℕ → Parser T → Type 0
  Within fuel P n p = (n < fuel) × At P n p

  pub within :
      {A : Type 0} {m : Parse T A} (fuel : ℕ) (P Q : Kind → Bool)
      → Moves (At P) (At Q) m
      → Moves (Within fuel P) (Within fuel Q) m
  within {m = m} fuel P Q h = record {
    run = λ n p (l, i). Keeps-map (At Q n) (Within fuel Q n) (m p) (h.run n p i) (λ p' j. (l, j));
  }

  pub without :
      {A : Type 0} {J : ℕ → Parser T → Type 0} {m : Parse T A} (fuel : ℕ) (P : Kind → Bool)
      → Moves (At P) J m
      → Moves (Within fuel P) J m
  without fuel P h = record { run = λ n p (l, i). h.run n p i }

  pub Moves-if :
      {A : Type 0} {I J : ℕ → Parser T → Type 0} {m k : Parse T A} (b : Bool)
      → Moves I J m
      → Moves I J k
      → Moves I J (if b then m else k)
  Moves-if true h g = h
  Moves-if false h g = g

  pub end-After :
      {A : Type 0} {I : ℕ → Parser T → Type 0} {m : Parse T A} (P : Kind → Bool)
      → Moves I (At P) m
      → Moves I (After P) m
  end-After {m = m} P h = record {
    run = λ n p i. Keeps-map (At P n) (After P n) (m p) (h.run n p i) (λ q. At-After P n q);
  }

  -- An error ends whatever goes on.
  pub fail-After :
      (P Q : Kind → Bool) (e : FormError)
      → is_nesting (some e) ≡ false
      → Moves (At P) (After Q) (fail {T = T} e)
  unfolding fail
  fail-After P Q e h = record { run = λ n p (t, q, k, d). (t, h, (λ z. cc), omega arith) }

module _ {T : Type 0} (lx : Lexis T) where
  pub unexpected-After :
      (P Q : Kind → Bool) (t : T) (context message : String)
      → Moves (At P) (After Q) (unexpected lx t context message)
  unfolding unexpected
  unexpected-After P Q t context message = record {
    run = λ n p.
        (fail-After P Q (unexpected_token p.line context (lx.token_text (t ∷ [])) message) refl).run
          n p;
  }

  pub unexpected-At :
      (P : Kind → Bool) (t : T) (context message : String)
      → Moves (At P) (At P) (unexpected lx t context message)
  unfolding unexpected
  unexpected-At P t context message = record {
    run = λ n p.
        fail-At P (unexpected_token p.line context (lx.token_text (t ∷ [])) message) n p refl;
  }
