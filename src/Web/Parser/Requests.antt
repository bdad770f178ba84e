-- ===== src/Web/Parser/Requests.antt =====
-- Whole requests: which end, and which do not.
use formaldehyde.Prelude.{
  ℕ, zero, suc, ◌+◌, ◌≤◌, ◌<◌, ◌≡◌, ◌⊎◌, refl, arith, Bool, true, false, if◌then◌else◌, List, [],
  ◌∷◌, ◌++◌, Bool-cases, inl, inr,
}
use formaldehyde.Prelude.Partial.{out_of_fuel}
use formaldehyde.Web.Lexer.{
  Token, TokenCode, ws, ident, num, dot, newline, colon, slash, is, is_among,
}
use formaldehyde.Web.Nodes.{
  NodeCode, Parser, Parse, ◌>>=◌, ◌>>◌, pop, pop_from, push, emit, errf, collect_url, scheme_codes,
  collect_rest_of_line, url_path, verb, request_line_remnants,
}
use formaldehyde.Web.Parser.{
  expect, parse_remnants, parse_try_scheme, scheme_loop, skip_loop, parse_url, parse_version,
  parse_request_line, parse_request,
}
use formaldehyde.Web.Parser.Ends.{
  weight, size, left, nothing, Ends, ends, Counts, spanned, emit_span_lem, left-spanned,
  collect-Ends, pop-Ends,
}
use formaldehyde.Web.Parser.Rest.{parse_rest-Ends}
use formaldehyde.Web.Parser.RequestLine.{url_loop-Ends}

expect-Ends :
    (code : TokenCode) (k : Token → Parse Bool) (n : ℕ) (p : Parser)
    → left p ≤ n
    → ((t : Token) (q : Parser) → left q ≤ n → Ends nothing n (k t q))
    → Ends nothing n (expect code k p)
expect-Ends code k n p l h =
    let ((t, q), e, c) = pop-Ends n p l in
    let (r, e', c') = h t q (omega arith) in
    ends nothing n (expect code k p) (rw (e, ◌>>=◌) (ground (arith, e')))

parse_version-Ends : (fuel n : ℕ) (p : Parser) → left p ≤ n → Ends nothing n (parse_version fuel p)
unfolding parse_version emit
parse_version-Ends fuel n p l = expect-Ends ident _ n p l λ first p₁ l₁.
    expect-Ends slash _ n p₁ l₁ λ t₂ p₂ l₂. expect-Ends num _ n p₂ l₂ λ t₃ p₃ l₃.
      expect-Ends dot _ n p₃ l₃ λ t₄ p₄ l₄.
        expect-Ends num _ n p₄ l₄
          λ t₅ p₅ l₅. expect-Ends newline _ n _ l₅ λ t₆ p₆ l₆. ((true, p₆), refl, omega arith)

Counts-rest_of_line : Counts collect_rest_of_line
unfolding is_among
Counts-rest_of_line t e = ground arith

weight-le-one : (t : Token) → weight t ≤ 1
weight-le-one t = ground arith

parse_remnants-Ends :
    (fuel n : ℕ) (p : Parser) → left p ≤ n → n < fuel → Ends nothing n (parse_remnants fuel p)
unfolding parse_remnants errf
parse_remnants-Ends fuel n p l h =
    let (((all, nxt), q), e, c) =
      collect-Ends fuel collect_rest_of_line n p Counts-rest_of_line l h in
    let mangled : Parser = record q {
      out =
          q.out
          ++ record {
            code = NodeCode.err_node;
            start = 0;
            stop = 0;
            err_text = "REQUEST-LINE-MANGLED";
          }
            ∷ [];
    } in
    let (r, e', c') =
      parse_rest-Ends fuel n (spanned request_line_remnants all mangled)
        (omega (arith, left-spanned request_line_remnants all mangled)) h in
    ends nothing n (parse_remnants fuel p)
      (rw (e, ◌>>=◌, ◌>>◌) (ground (arith, emit_span_lem request_line_remnants all mangled, e')))

module _ (fuel : ℕ) where
  -- A URL that is no scheme and no part of one at its first token.
  parse_url-Ends :
      (u : Token) (n : ℕ) (p : Parser)
      → is_among u scheme_codes ≡ false
      → left p + weight u ≤ n
      → suc n < fuel
      → Ends nothing n (parse_url (suc fuel) (record p { stack = u ∷ p.stack }))
  unfolding parse_url pop pop_from parse_try_scheme push emit
  parse_url-Ends u n p s l h =
      let (((segment, t), q), e, c) =
        url_loop-Ends fuel (suc fuel) true [] u n p l h (omega arith) in
      ends nothing n (parse_url (suc fuel) (record p { stack = u ∷ p.stack }))
        (elim (Bool-cases (is_among u collect_url)) [
          | inl y ↦
              rw (y, s, ◌>>=◌, ◌>>◌, e, emit_span_lem url_path segment q)
                (omega (arith, left-spanned url_path segment q))
          | inr y ↦ rw (y, ◌>>=◌) (omega arith)
        ])

  -- The request line of a request in origin form: a word, white space, and a URL that does not begin
  -- as a scheme may.
  parse_request_line-Ends :
      (v w u : Token) (n : ℕ) (p : Parser)
      → is v ident ≡ true
      → is w ws ≡ true
      → is u ws ≡ false
      → is_among u scheme_codes ≡ false
      → left p + weight u ≤ n
      → suc n < fuel
      → Ends nothing n
          (parse_request_line (suc fuel) (record p { stack = []; tokens = v ∷ w ∷ u ∷ p.tokens }))
  unfolding parse_request_line pop pop_from push skip_loop emit
  parse_request_line-Ends v w u n p iv iw iu s l h =
      let p₁ : Parser = record p {
        stack = [];
        out = p.out ++ record { code = verb; start = 0; stop = 0; err_text = "" } ∷ [];
      } in
      let ((found, p₂), e₂, c₂) = parse_url-Ends u n p₁ s (omega arith) h in
      rw (iv, if◌then◌else◌, ◌>>◌, ◌>>=◌, iw, iu, e₂)
        (expect-Ends ws _ n p₂ (omega arith) λ t₃ p₃ l₃. parse_version-Ends (suc fuel) n p₃ l₃)

  -- The parser ends on every request in origin form, with two rounds of fuel more than it has tokens:
  -- its tokens begin with a word, white space, and a token that is no white space and not one that a
  -- scheme may begin with (a word, a number or a colon).
  pub parse_request-Ends :
      (v w u : Token) (rest : List Token) (sz : ℕ)
      → is v ident ≡ true
      → is w ws ≡ true
      → is u ws ≡ false
      → is_among u scheme_codes ≡ false
      → size rest + 2 < fuel
      → Ends nothing (size rest + 1) (
          parse_request
            (suc fuel)
            (record { stack = []; tokens = v ∷ w ∷ u ∷ rest; out = []; sz = sz }))
  unfolding parse_request
  parse_request-Ends v w u rest sz iv iw iu s h =
      let p : Parser = record { stack = []; tokens = rest; out = []; sz = sz } in
      let n : ℕ = size rest + 1 in
      let ((parsed, q), e, c) =
        parse_request_line-Ends v w u n p iv iw iu s (omega (arith, weight-le-one u))
          (omega arith) in
      let (r₁, e₁, c₁) = parse_rest-Ends (suc fuel) n q (omega arith) (omega arith) in
      let (r₂, e₂, c₂) = parse_remnants-Ends (suc fuel) n q (omega arith) (omega arith) in
      ends nothing n
        (parse_request (suc fuel)
          (record { stack = []; tokens = v ∷ w ∷ u ∷ rest; out = []; sz = sz }))
        (rw (e, ◌>>=◌) (ground (arith, e₁, e₂)))

-- The loop of `parseTryScheme` does not end at a word or a number, whatever the fuel.
scheme_loop-hangs :
    (fuel : ℕ) (first t : Token) (acc : List Token) (p : Parser)
    → is_among t scheme_codes ≡ true
    → is t colon ≡ false
    → scheme_loop fuel first t acc p ≡ out_of_fuel
unfolding scheme_loop
scheme_loop-hangs zero first t acc p a c = refl
scheme_loop-hangs (suc fuel) first t acc p a c =
    rw (a, c) (scheme_loop-hangs fuel first t (acc ++ t ∷ []) p a c)

word :
    (t : Token)
    → (is t ident ≡ true) ⊎ (is t num ≡ true)
    → (is t ws ≡ false) × (is_among t collect_url ≡ true) × (is_among t scheme_codes ≡ true)
unfolding is_among
word t h = ground arith

not_colon : (t : Token) → (is t ident ≡ true) ⊎ (is t num ≡ true) → is t colon ≡ false
unfolding is
not_colon t h = ground arith

-- No fuel is enough for a request whose URL begins with a word or a number that a word or a number
-- follows, such as `GET 1a`: the parser never returns.
pub parse_request-hangs :
    (fuel : ℕ) (v w u t : Token) (rest : List Token) (sz : ℕ)
    → is v ident ≡ true
    → is w ws ≡ true
    → (is u ident ≡ true) ⊎ (is u num ≡ true)
    → (is t ident ≡ true) ⊎ (is t num ≡ true)
    → parse_request fuel (record { stack = []; tokens = v ∷ w ∷ u ∷ t ∷ rest; out = []; sz = sz })
      ≡ out_of_fuel
unfolding parse_request parse_request_line parse_url parse_try_scheme pop pop_from push emit
    skip_loop
parse_request-hangs zero v w u t rest sz iv iw iu it = rw (iv, if◌then◌else◌, ◌>>◌, ◌>>=◌, iw) refl
parse_request-hangs (suc fuel) v w u t rest sz iv iw iu it =
    let (not_ws, in_url, in_scheme) = word u iu in
    let (_, _, again) = word t it in
    let p : Parser = record {
      stack = [];
      tokens = rest;
      out = record { code = verb; start = 0; stop = 0; err_text = "" } ∷ [];
      sz = sz;
    } in
    rw
      (
        iv,
        if◌then◌else◌,
        ◌>>◌,
        ◌>>=◌,
        iw,
        not_ws,
        in_url,
        in_scheme,
        scheme_loop-hangs (suc fuel) u t (u ∷ []) p again (not_colon t it),
      )
      refl
