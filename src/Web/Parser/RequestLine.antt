-- ===== src/Web/Parser/RequestLine.antt =====
-- The request line, where its URL does not begin as a scheme may: then the parser ends.
use formaldehyde.Prelude.{
  ℕ, zero, suc, ◌+◌, ◌≤◌, ◌<◌, ◌≡◌, ◌⊎◌, refl, ◌∙◌, arith, Bool, true, false, List, [], ◌∷◌, ◌++◌,
  Bool-cases, inl, inr,
}
use formaldehyde.Prelude.Partial.{done}
use formaldehyde.Web.Lexer.{Token, TokenCode, eq, and, slash, query, is, is_among}
use formaldehyde.Web.Nodes.{
  NodeCode, Parser, ◌>>=◌, ◌>>◌, pop, pop_from, push, collect_url, collect_arg_key_value, arg_key,
  arg_value, url_path,
}
use formaldehyde.Web.Parser.{goes_on, collect_loop, parse_kvp, url_loop}
use formaldehyde.Web.Parser.Ends.{
  weight, left, nothing, Ends, ends, Counts-args, spanned, emit_span_lem, left-spanned,
  collect-Leaves, pop-Ends, kvp_value-Ends, parse_kvp-from,
}

-- The codes of a URL are those of a key, `=` and `&`.
url-args :
    (t : Token)
    → is_among t collect_url ≡ true
    → (is_among t collect_arg_key_value ≡ true) ⊎ (is t eq ≡ true) ⊎ (is t and ≡ true)
unfolding is_among
url-args t h = ground arith

url-weight : (t : Token) → is_among t collect_url ≡ true → weight t ≡ 1
unfolding is_among
url-weight t h = ground arith

collect_loop-push :
    (fuel : ℕ) (valid : List TokenCode) (acc : List Token) (t : Token) (p : Parser)
    → goes_on valid t ≡ true
    → collect_loop (suc fuel) valid acc (record p { stack = t ∷ p.stack })
      ≡ collect_loop fuel valid (acc ++ t ∷ []) p
unfolding collect_loop pop pop_from
collect_loop-push fuel valid acc t p e = rw (e, ◌>>=◌) refl

collect_loop-stop :
    (fuel : ℕ) (valid : List TokenCode) (acc : List Token) (t : Token) (p : Parser)
    → goes_on valid t ≡ false
    → collect_loop (suc fuel) valid acc (record p { stack = t ∷ p.stack }) ≡ done ((acc, t), p)
unfolding collect_loop pop pop_from
collect_loop-stop fuel valid acc t p e = rw (e, ◌>>=◌) refl

module _ (fuel : ℕ) where
  not_key :
      (key val : NodeCode) (t : Token) (n : ℕ) (p : Parser)
      → is_among t collect_url ≡ true
      → is_among t collect_arg_key_value ≡ false
      → left p ≤ n
      → suc n < fuel
      → Ends nothing n (parse_kvp (suc fuel) key val (record p { stack = t ∷ p.stack }))
  unfolding parse_kvp
  not_key key val t n p u y l h =
      let (r, e, c) = kvp_value-Ends (suc fuel) val n p l (omega arith) in
      ends nothing n (parse_kvp (suc fuel) key val (record p { stack = t ∷ p.stack })) (
        rw
          (
            collect_loop-stop fuel collect_arg_key_value [] t p y,
            ◌>>=◌,
            ◌>>◌,
            emit_span_lem key [] p,
          )
          (ground (arith, e, url-args t u)))

  -- `parseKvp` before a token of a URL takes it.
  parse_kvp-takes :
      (key val : NodeCode) (t : Token) (n : ℕ) (p : Parser)
      → is_among t collect_url ≡ true
      → left p ≤ n
      → suc n < fuel
      → Ends nothing n (parse_kvp (suc fuel) key val (record p { stack = t ∷ p.stack }))
  parse_kvp-takes key val t n p u l h = elim (Bool-cases (is_among t collect_arg_key_value)) [
    | inl y ↦
        let (((k, t'), p'), e, c) =
          ends (λ r. weight r.1) n (collect_loop fuel collect_arg_key_value (t ∷ []) p)
            (collect-Leaves fuel collect_arg_key_value (t ∷ []) n p Counts-args l (omega arith)) in
        let (r, e', c') =
          parse_kvp-from (suc fuel) key val n (record p { stack = t ∷ p.stack })
            (collect_loop-push fuel collect_arg_key_value [] t p y ∙ e) c (omega arith) in
        (r, e', omega arith)
    | inr y ↦ not_key key val t n p u y l h
  ]

  -- A round that pops the next token and goes on.
  after_pop :
      (rounds : ℕ) (can_path : Bool) (segment : List Token) (n : ℕ) (p : Parser)
      → left p ≤ n
      → left p < rounds
      → ((t : Token) (q : Parser)
          → left q + weight t ≤ n
          → left q + weight t < rounds
          → Ends (λ r. weight r.1) n (url_loop (suc fuel) rounds can_path segment t q))
      → Ends (λ r. weight r.1) n ((pop >>= λ t. url_loop (suc fuel) rounds can_path segment t) p)
  after_pop rounds can_path segment n p l r ih =
      let ((t, q), e, c) = pop-Ends (left p) p (omega arith) in
      rw (e, ◌>>=◌) (ih t q (omega arith) (omega arith))

  pub url_loop-Ends :
      (rounds : ℕ) (can_path : Bool) (segment : List Token) (t : Token) (n : ℕ) (p : Parser)
      → left p + weight t ≤ n
      → suc n < fuel
      → left p + weight t < rounds
      → Ends (λ r. weight r.1) n (url_loop (suc fuel) rounds can_path segment t p)
  unfolding url_loop push
  url_loop-Ends zero can_path segment t n p l h r = absurd (omega arith)
  url_loop-Ends (suc rounds) false segment t n p l h r =
      elim (Bool-cases (is_among t collect_url)) [
        | inl u ↦
            let ((more, q), e, c) =
              parse_kvp-takes arg_key arg_value t (left p) p u (omega arith) (omega arith) in
            rw (u, url_loop, ◌>>=◌, ◌>>◌, e)
              (after_pop rounds false segment n q (omega arith) (omega (arith, url-weight t u))
                (λ t' q' c' r'. url_loop-Ends rounds false segment t' n q' c' h r'))
        | inr u ↦
            ends (λ r. weight r.1) n (url_loop (suc fuel) (suc rounds) false segment t p)
              (rw (u, url_loop) l)
      ]
  url_loop-Ends (suc rounds) true segment t n p l h r = elim (Bool-cases (is_among t collect_url)) [
    | inl u ↦
        let next : (can_path : Bool) (segment' : List Token) (q : Parser)
            → left q ≡ left p
            → Ends (λ r. weight r.1) n
                ((pop >>= λ t. url_loop (suc fuel) rounds can_path segment' t) q) =
          λ can_path segment' q e.
            after_pop rounds can_path segment' n q (omega arith) (omega (arith, url-weight t u))
              (λ t' q' c' r'. url_loop-Ends rounds can_path segment' t' n q' c' h r') in
        elim (Bool-cases (is t slash)) [
          | inl y ↦
              rw (u, url_loop, y, ◌>>=◌, ◌>>◌, emit_span_lem url_path segment p)
                (next true [] (spanned url_path segment p) (left-spanned url_path segment p))
          | inr y ↦ elim (Bool-cases (is t query)) [
            | inl z ↦
                rw (u, url_loop, y, z, ◌>>=◌, ◌>>◌, emit_span_lem url_path segment p)
                  (next false [] (spanned url_path segment p) (left-spanned url_path segment p))
            | inr z ↦ rw (u, url_loop, y, z) (next true (segment ++ t ∷ []) p refl)
          ]
        ]
    | inr u ↦
        ends (λ r. weight r.1) n (url_loop (suc fuel) (suc rounds) true segment t p)
          (rw (u, url_loop) l)
  ]
