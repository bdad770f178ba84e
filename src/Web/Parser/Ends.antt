-- ===== src/Web/Parser/Ends.antt =====
-- How many tokens the parts of the parser leave, and that their loops end.
use formaldehyde.Prelude.{
  ℕ, zero, suc, ◌+◌, ◌≤◌, ◌<◌, ◌≡◌, refl, ap, arith, Bool, true, false, if◌then◌else◌, List, [],
  ◌∷◌, ◌++◌, Bool-cases, inl, inr, ◌≢◌,
}
use formaldehyde.Prelude.Partial.{Partial, done, panic, out_of_fuel, Finishes, Finishes-done}
use formaldehyde.Web.Lexer.{Token, TokenCode, eof, ws, and, token_number, is, is_among}
use formaldehyde.Web.Nodes.{
  NodeCode, Parser, Parse, ◌>>=◌, ◌>>◌, pop, pop_from, push, emit, emit_span, last_pos,
  collect_arg_key_value,
}
use formaldehyde.Web.Parser.{
  goes_on, collect, collect_loop, skip_loop, while_true, kvp_value, parse_kvp,
}

-- The end of the input does not count as a token.
abbrev pub weight : Token → ℕ
weight t = if is t eof then 0 else 1

abbrev pub size : List Token → ℕ
size [] = 0
size (t ∷ ts) = weight t + size ts

abbrev pub left : Parser → ℕ
left p = size p.stack + size p.tokens

abbrev pub bit : Bool → ℕ
bit true = 1
bit false = 0

pub Parse-bind :
    {A B : Type 0} (P : A × Parser → Type 0) (Q : B × Parser → Type 0) (m : Parse A)
    (f : A → Parse B) (p : Parser)
    → Finishes P (m p)
    → ((a : A) (p' : Parser) → P (a, p') → Finishes Q (f a p'))
    → Finishes Q ((m >>= f) p)
Parse-bind P Q m f p h k = go (m p) h
  where
    go :
        (r : Partial _)
        → Finishes P r
        → Finishes Q (elim r [ done (a, p') ↦ f a p' | panic ↦ panic | out_of_fuel ↦ out_of_fuel ])
    go (done (a, p')) h' = k a p' h'
    go panic h' = absurd h'
    go out_of_fuel h' = absurd h'

pub is-weight : (t : Token) (k : TokenCode) → token_number k ≢ 1 → is t k ≡ true → weight t ≡ 1
unfolding is
is-weight t k n e = ground arith

-- The function leaves at most `n` tokens, together with what its result has taken.
abbrev pub Leaves : {A : Type 0} → (A → ℕ) → ℕ → A × Parser → Type 0
Leaves spent n r = left r.1 + spent r.0 ≤ n

abbrev pub Ends : {A : Type 0} → (A → ℕ) → ℕ → Partial (A × Parser) → Type 0
Ends {A} spent n x = (r : A × Parser) × (x ≡ done r) × Leaves spent n r

pub ends :
    {A : Type 0} (spent : A → ℕ) (n : ℕ) (x : Partial (A × Parser))
    → Finishes (Leaves spent n) x
    → Ends spent n x
ends spent n x h = Finishes-done (Leaves spent n) x h

abbrev pub nothing : {A : Type 0} → A → ℕ
nothing a = 0

pop_from-Leaves :
    (stack tokens : List Token) (p : Parser)
    → p.stack ≡ stack
    → p.tokens ≡ tokens
    → Leaves weight (size stack + size tokens) (pop_from stack tokens p)
unfolding pop_from is
pop_from-Leaves (t ∷ stack) tokens p e e' = omega (arith, ap size e')
pop_from-Leaves [] (t ∷ tokens) p e e' = omega (arith, ap size e)
pop_from-Leaves [] [] p e e' = omega (arith, ap size e, ap size e')

pub pop-Leaves : (n : ℕ) (p : Parser) → left p ≤ n → Finishes (Leaves weight n) (pop p)
unfolding pop
pop-Leaves n p h = omega (arith, pop_from-Leaves p.stack p.tokens p refl refl)

pub push-Leaves :
    (t : Token) (n : ℕ) (p : Parser)
    → left p + weight t ≤ n
    → Finishes (Leaves nothing n) (push t p)
unfolding push
push-Leaves t n p h = omega arith

-- What `emit_span` leaves: it sends at most one node.
abbrev pub spanned : NodeCode → List Token → Parser → Parser
spanned code [] p = p
spanned code (t ∷ ts) p = record p {
  out = p.out ++ record { code = code; start = t.cur; stop = last_pos t ts; err_text = "" } ∷ [];
}

pub emit_span_lem :
    (code : NodeCode) (ts : List Token) (p : Parser)
    → emit_span code ts p ≡ done (tt, spanned code ts p)
unfolding emit_span emit
emit_span_lem code [] p = refl
emit_span_lem code (t ∷ ts) p = refl

pub left-spanned :
    (code : NodeCode) (ts : List Token) (p : Parser) → left (spanned code ts p) ≡ left p
left-spanned code [] p = refl
left-spanned code (t ∷ ts) p = refl

abbrev pub Counts : List TokenCode → Type 0
Counts valid = (t : Token) → goes_on valid t ≡ true → weight t ≡ 1

pub Counts-args : Counts collect_arg_key_value
unfolding is_among
Counts-args t e = ground arith

pub collect-Leaves :
    (fuel : ℕ) (valid : List TokenCode) (acc : List Token) (n : ℕ) (p : Parser)
    → Counts valid
    → left p ≤ n
    → left p < fuel
    → Finishes (Leaves (λ r. weight r.1) n) (collect_loop fuel valid acc p)
unfolding collect_loop
collect-Leaves zero valid acc n p c l h = absurd (omega arith)
collect-Leaves (suc fuel) valid acc n p c l h =
    Parse-bind (Leaves weight (left p)) (Leaves (λ r. weight r.1) n) pop _ p
      (pop-Leaves (left p) p (omega arith))
      (λ t p' k. elim (Bool-cases (goes_on valid t)) [
        | inl e ↦
            rw e (
              collect-Leaves fuel valid (acc ++ t ∷ []) n p' c (omega arith) (omega (arith, c t e)))
        | inr e ↦ rw e (omega arith)
      ])

pub skip-Leaves :
    (fuel : ℕ) (t : Token) (n : ℕ) (p : Parser)
    → left p + weight t ≤ n
    → left p + weight t < fuel
    → Finishes (Leaves weight n) (skip_loop fuel t p)
unfolding skip_loop
skip-Leaves zero t n p l h = absurd (omega arith)
skip-Leaves (suc fuel) t n p l h = elim (Bool-cases (is t ws)) [
  | inl e ↦
      rw (e, skip_loop)
        (Parse-bind (Leaves weight (left p)) (Leaves weight n) pop _ p
          (pop-Leaves (left p) p (omega arith))
          (λ t' p' k.
            skip-Leaves fuel t' n p' (omega (arith, is-weight t ws (omega arith) e))
              (omega (arith, is-weight t ws (omega arith) e))))
  | inr e ↦ rw (e, skip_loop) (omega arith)
]

pub collect-Ends :
    (fuel : ℕ) (valid : List TokenCode) (n : ℕ) (p : Parser)
    → Counts valid
    → left p ≤ n
    → n < fuel
    → Ends (λ r. weight r.1) n (collect fuel valid p)
collect-Ends fuel valid n p c l h =
    ends (λ r. weight r.1) n (collect fuel valid p)
      (collect-Leaves fuel valid [] n p c l (omega arith))

pub pop-Ends : (n : ℕ) (p : Parser) → left p ≤ n → Ends weight n (pop p)
pop-Ends n p l = ends weight n (pop p) (pop-Leaves n p l)

pub skip-Ends :
    (fuel : ℕ) (t : Token) (n : ℕ) (p : Parser)
    → left p + weight t ≤ n
    → n < fuel
    → Ends weight n (skip_loop fuel t p)
skip-Ends fuel t n p l h =
    ends weight n (skip_loop fuel t p) (skip-Leaves fuel t n p l (omega arith))

-- A loop `for round() {}` ends if each round that asks for another takes a token.
pub while_true-Leaves :
    (fuel : ℕ) (round : Parse Bool) (bound n : ℕ) (p : Parser)
    → ((m : ℕ) (q : Parser) → left q ≤ m → m ≤ bound → Ends bit m (round q))
    → left p ≤ n
    → n ≤ bound
    → left p < fuel
    → Finishes (Leaves nothing n) (while_true fuel round p)
unfolding while_true
while_true-Leaves zero round bound n p r l b h = absurd (omega arith)
while_true-Leaves (suc fuel) round bound n p r l b h =
    let ((again, p'), e, c) = r (left p) p (omega arith) (omega arith) in
    rw (e, while_true, ◌>>=◌)
      (elim again
          as (λ a.
            Leaves bit (left p) (a, p')
            → Finishes (Leaves nothing n)
                (elim a [ true ↦ while_true fuel round p' | false ↦ done (tt, p') ])) [
                  | true ↦
                      λ c'. while_true-Leaves fuel round bound n p' r (omega arith) b (omega arith)
                  | false ↦ λ c'. omega arith
                ]
        c)

module _ (fuel : ℕ) where
  pub kvp_value-Ends :
      (val : NodeCode) (n : ℕ) (p : Parser)
      → left p ≤ n
      → n < fuel
      → Ends bit n (kvp_value fuel val p)
  unfolding kvp_value push
  kvp_value-Ends val n p l h =
      let (((k, t), p'), e, c) = collect-Ends fuel collect_arg_key_value n p Counts-args l h in
      ends bit n (kvp_value fuel val p) (
        rw (e, ◌>>=◌, ◌>>◌, emit_span_lem val k p') (ground (arith, is-weight t and (omega arith))))

  -- The end of `parseKvp`, once the key is collected.
  pub parse_kvp-from :
      (key val : NodeCode) (n : ℕ) (p : Parser) {k : List Token} {t : Token} {p' : Parser}
      → collect fuel collect_arg_key_value p ≡ done ((k, t), p')
      → left p' + weight t ≤ n
      → n < fuel
      → Ends bit n (parse_kvp fuel key val p)
  unfolding parse_kvp push
  parse_kvp-from key val n p {k} {t} {p'} e c h =
      let (r, e', c') =
        kvp_value-Ends val n (spanned key k p') (omega (arith, left-spanned key k p')) h in
      ends bit n (parse_kvp fuel key val p) (
        rw (e, ◌>>=◌, ◌>>◌, emit_span_lem key k p')
          (ground (arith, is-weight t and (omega arith), e', left-spanned key k p')))

  pub parse_kvp-Ends :
      (key val : NodeCode) (n : ℕ) (p : Parser)
      → left p ≤ n
      → n < fuel
      → Ends bit n (parse_kvp fuel key val p)
  parse_kvp-Ends key val n p l h =
      let (((k, t), p'), e, c) = collect-Ends fuel collect_arg_key_value n p Counts-args l h in
      parse_kvp-from key val n p e c h
