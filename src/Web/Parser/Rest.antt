-- ===== src/Web/Parser/Rest.antt =====
-- The headers, the cookies and the body are parsed to their end.
use formaldehyde.Prelude.{
  ℕ, zero, suc, ◌+◌, ◌≤◌, ◌<◌, arith, Bool, true, false, if◌then◌else◌, [], ◌∷◌, Bool-cases, inl,
  inr,
}
use formaldehyde.Prelude.Partial.{done, Finishes}
use formaldehyde.Web.Lexer.{Token, ws, semi, newline, colon, is, is_among}
use formaldehyde.Web.Nodes.{
  NodeCode, Parser, ◌>>=◌, ◌>>◌, push, emit, collect_cookie, collect_cookie_value,
  collect_header_key, collect_header_value, cookie_name, cookie_value, header_key, header_value,
  body_arg_key, body_arg_value,
}
use formaldehyde.Web.Parser.{
  while_true, cookie_value_or, parse_cookie, parse_header_value, parse_header, body_loop,
  parse_body, parse_rest,
}
use formaldehyde.Web.Parser.Ends.{
  weight, left, bit, nothing, Leaves, Ends, ends, Counts, is-weight, spanned, emit_span_lem,
  left-spanned, collect-Ends, pop-Ends, skip-Ends, while_true-Leaves, parse_kvp-Ends,
}

Counts-cookie : Counts collect_cookie
unfolding is_among
Counts-cookie t e = ground arith

Counts-cookie_value : Counts collect_cookie_value
unfolding is_among
Counts-cookie_value t e = ground arith

Counts-header_key : Counts collect_header_key
unfolding is_among
Counts-header_key t e = ground arith

Counts-header_value : Counts collect_header_value
unfolding is_among
Counts-header_value t e = ground arith

Counts-ws : Counts (ws ∷ [])
unfolding is_among
Counts-ws t e = ground arith

pub Counts-all : Counts []
Counts-all t e = ground arith

module _ (fuel : ℕ) where
  body_loop-Leaves :
      (rounds : ℕ) (some_pair : Bool) (n : ℕ) (p : Parser)
      → left p ≤ n
      → n < fuel
      → left p < rounds
      → Finishes (Leaves nothing n) (body_loop fuel rounds some_pair p)
  unfolding body_loop
  body_loop-Leaves zero b n p l h r = absurd (omega arith)
  body_loop-Leaves (suc rounds) b n p l h r =
      let ((more, p'), e, c) =
        parse_kvp-Ends fuel body_arg_key body_arg_value (left p) p (omega arith) (omega arith) in
      rw (e, ◌>>=◌, body_loop)
        (elim more
            as (λ a.
              Leaves bit (left p) (a, p')
              → Finishes (Leaves nothing n)
                  (elim a [ true ↦ body_loop fuel rounds true p' | false ↦ done (b, p') ])) [
                    | true ↦ λ c'. body_loop-Leaves rounds true n p' (omega arith) h (omega arith)
                    | false ↦ λ c'. omega arith
                  ]
          c)

  parse_body-Leaves :
      (n : ℕ) (p : Parser) → left p ≤ n → n < fuel → Finishes (Leaves nothing n) (parse_body fuel p)
  unfolding parse_body push emit
  parse_body-Leaves n p l h =
      let ((first, p₁), e₁, c₁) = pop-Ends n p l in
      let ((some_pair, p₂), e₂, c₂) =
        ends nothing n (body_loop fuel fuel false (record p₁ { stack = first ∷ p₁.stack })) (
          body_loop-Leaves fuel false n (record p₁ { stack = first ∷ p₁.stack }) (omega arith) h
            (omega arith)) in
      let ((last, p₃), e₃, c₃) = pop-Ends n p₂ (omega arith) in
      rw (e₁, ◌>>=◌, ◌>>◌, e₂) (ground (arith, e₃))

  parse_header_value-Ends :
      (n : ℕ) (p : Parser) → left p ≤ n → n < fuel → Ends bit n (parse_header_value fuel p)
  unfolding parse_header_value
  parse_header_value-Ends n p l h =
      let (((all, nxt), p'), e, c) =
        collect-Ends fuel collect_header_value n p Counts-header_value l h in
      ends bit n (parse_header_value fuel p) (
        rw (e, ◌>>=◌, ◌>>◌, emit_span_lem header_value all p')
          (ground (arith, is-weight nxt newline (omega arith), left-spanned header_value all p')))

  cookie_value_or-Ends :
      (nxt : Token) (n : ℕ) (p : Parser)
      → left p + weight nxt ≤ n
      → n < fuel
      → Ends weight n (cookie_value_or fuel nxt p)
  unfolding cookie_value_or
  cookie_value_or-Ends nxt n p l h =
      let (((all, nxt'), p'), e, c) =
        collect-Ends fuel collect_cookie_value n p Counts-cookie_value (omega arith) h in
      ends weight n (cookie_value_or fuel nxt p)
        (ground (arith, e, emit_span_lem cookie_value all p', left-spanned cookie_value all p'))

  parse_cookie-Ends :
      (rounds n : ℕ) (p : Parser)
      → left p ≤ n
      → n < fuel
      → left p < rounds
      → Ends bit n (parse_cookie fuel rounds p)
  unfolding parse_cookie push
  parse_cookie-Ends zero n p l h r = absurd (omega arith)
  parse_cookie-Ends (suc rounds) n p l h r =
      let (((all, nxt), p₁), e₁, c₁) =
        collect-Ends fuel collect_cookie (left p) p Counts-cookie (omega arith) (omega arith) in
      let ((nxt₂, p₂), e₂, c₂) =
        cookie_value_or-Ends nxt (left p) (spanned cookie_name all p₁)
          (omega (arith, left-spanned cookie_name all p₁)) (omega arith) in
      let ((nxt₃, p₃), e₃, c₃) = skip-Ends fuel nxt₂ (left p) p₂ c₂ (omega arith) in
      let ((t₄, p₄), e₄, c₄) = pop-Ends (left p₃) p₃ (omega arith) in
      let ((t₅, p₅), e₅, c₅) = skip-Ends fuel t₄ (left p₃) p₄ c₄ (omega arith) in
      ends bit n (parse_cookie fuel (suc rounds) p) (
        rw (e₁, ◌>>=◌, ◌>>◌, emit_span_lem cookie_name all p₁, e₂, e₃)
          (elim (Bool-cases (is nxt₃ semi)) [
            | inl y ↦
                let (r₆, e₆, c₆) =
                  parse_cookie-Ends rounds (left p₃) (record p₅ { stack = t₅ ∷ p₅.stack })
                    (omega arith) (omega arith)
                    (omega (arith, is-weight nxt₃ semi (omega arith) y)) in
                rw (y, ◌>>=◌, ◌>>◌, e₄, e₅, e₆) (omega arith)
            | inr y ↦ rw y (ground (arith, is-weight nxt₃ newline (omega arith)))
          ]))

  parse_header-Ends :
      (n : ℕ) (p : Parser) → left p ≤ n → n < fuel → Ends bit n (parse_header fuel p)
  unfolding parse_header push
  parse_header-Ends n p l h =
      let (((all, nxt), p₁), e₁, c₁) =
        collect-Ends fuel collect_header_key n p Counts-header_key l h in
      let (((spaces, nxt₂), p₂), e₂, c₂) =
        collect-Ends fuel (ws ∷ []) n (spanned header_key all p₁) Counts-ws
          (omega (arith, left-spanned header_key all p₁)) h in
      let p₃ : Parser = record p₂ { stack = nxt₂ ∷ p₂.stack } in
      let (r₄, e₄, c₄) = parse_cookie-Ends fuel n p₃ (omega arith) h (omega arith) in
      let (r₅, e₅, c₅) = parse_header_value-Ends n p₃ (omega arith) h in
      ends bit n (parse_header fuel p) (
        rw (e₁, ◌>>=◌, ◌>>◌, emit_span_lem header_key all p₁)
          (elim (Bool-cases (is nxt colon)) [
            | inl y ↦ rw (y, ◌>>=◌, ◌>>◌, if◌then◌else◌, e₂) (ground (arith, e₄, e₅))
            | inr y ↦ rw y (omega (arith, left-spanned header_key all p₁))
          ]))

  pub parse_rest-Ends :
      (n : ℕ) (p : Parser) → left p ≤ n → n < fuel → Ends nothing n (parse_rest fuel p)
  unfolding parse_rest
  parse_rest-Ends n p l h =
      let ((u₁, p₁), e₁, c₁) = ends nothing n (while_true fuel (parse_header fuel) p) (
        while_true-Leaves fuel (parse_header fuel) n n p
          (λ m q k b. parse_header-Ends m q k (omega arith)) l (omega arith) (omega arith)) in
      let ((parsed, p₂), e₂, c₂) =
        ends nothing n (parse_body fuel p₁) (parse_body-Leaves n p₁ (omega arith) h) in
      let (((all, t₃), p₃), e₃, c₃) = collect-Ends fuel [] n p₂ Counts-all (omega arith) h in
      ends nothing n (parse_rest fuel p) (
        rw (e₁, ◌>>=◌, ◌>>◌, e₂)
          (ground (
            arith,
            e₃,
            emit_span_lem NodeCode.raw_body all p₃,
            left-spanned NodeCode.raw_body all p₃,
          )))
