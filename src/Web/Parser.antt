-- ===== src/Web/Parser.antt =====
-- The parser of src/matasano/web/parse.go: the tokens of a request to the nodes that it sends.
-- A loop takes fuel, and one that does not end runs out of it.
pub mod Ends
pub mod Rest
pub mod RequestLine
pub mod Requests
use formaldehyde.Prelude.{
  ℕ, zero, suc, ◌-◌, ◌^◌, Bool, true, false, not, ◌==◌, if◌then◌else◌, List, [], ◌∷◌, ◌++◌, length,
  codes, same_text,
}
use formaldehyde.Prelude.Partial.{Partial, done, panic, out_of_fuel}
use formaldehyde.Prelude.Partial
use formaldehyde.Web.Lexer.{
  Token, TokenCode, eof, ident, num, ws, newline, slash, dot, colon, eq, and, query, semi, is,
  is_among, lex,
}
use formaldehyde.Web.Nodes.{
  NodeCode, url, url_scheme, arg_key, arg_value, url_path, verb, version, header_key, header_value,
  cookie_name, cookie_value, raw_body, body_arg_key, body_arg_value, body, request_line_remnants,
  HttpNode, collect_rest_of_line, collect_arg_key_value, collect_url, collect_cookie,
  collect_cookie_value, collect_header_key, collect_header_value, scheme_codes, Parse, ◌>>=◌, ◌>>◌,
  return, pop, push, rewind, emit, errf, emit_span,
}

-- `t.Cur - 1`, of a `uint`.
abbrev pub before : Token → ℕ
before t = if t.cur == 0 then 2 ^ 64 - 1 else t.cur - 1

-- The loop of `parseTryScheme`, which takes no new token.
unfoldable pub scheme_loop : ℕ → Token → Token → List Token → Parse Bool
scheme_loop zero first t acc p = out_of_fuel
scheme_loop (suc fuel) first t acc p =
    let again = scheme_loop fuel first t (acc ++ t ∷ []) p in
    if is_among t scheme_codes
    then if is t colon then (emit url_scheme first.cur (before t) >> return true) p else again
    else (rewind acc >> return false) p

unfoldable pub parse_try_scheme : ℕ → Token → Parse Bool
parse_try_scheme fuel first =
    if is_among first scheme_codes
    then (pop >>= λ t. scheme_loop fuel first t (first ∷ []))
    else return false

-- `collect`: the tokens up to the first that is not valid, and that one. No valid code at all stands
-- for every code but the end.
abbrev pub goes_on : List TokenCode → Token → Bool
goes_on [] t = not (is t eof)
goes_on (k ∷ ks) t = is_among t (k ∷ ks)

unfoldable pub collect_loop : ℕ → List TokenCode → List Token → Parse (List Token × Token)
collect_loop zero valid acc p = out_of_fuel
collect_loop (suc fuel) valid acc p =
    (pop >>= λ t. λ p'. elim (goes_on valid t) [
      | true ↦ collect_loop fuel valid (acc ++ t ∷ []) p'
      | false ↦ done ((acc, t), p')
    ])
      p

-- `for t.Is(TokWs) { t = p.pop() }`.
unfoldable pub skip_loop : ℕ → Token → Parse Token
skip_loop zero t p = out_of_fuel
skip_loop (suc fuel) t p = elim (is t ws) [
  | true ↦ (pop >>= λ t'. skip_loop fuel t') p
  | false ↦ done (t, p)
]

-- A loop `for body() {}`.
unfoldable pub while_true : ℕ → Parse Bool → Parse (Unit {0})
while_true zero round p = out_of_fuel
while_true (suc fuel) round p =
    (round >>= λ again.
    λ p'. elim again [ true ↦ while_true fuel round p' | false ↦ done (tt, p') ])
      p

-- `if t = p.pop(); !t.Is(code) { return false }`.
abbrev pub expect : TokenCode → (Token → Parse Bool) → Parse Bool
expect code k = pop >>= λ t. if is t code then k t else return false

module _ (fuel : ℕ) where
  abbrev pub collect : List TokenCode → Parse (List Token × Token)
  collect valid = collect_loop fuel valid []

  -- The end of `parseKvp`.
  unfoldable pub kvp_value : NodeCode → Parse Bool
  kvp_value val = collect collect_arg_key_value >>= λ (k, t).
      emit_span val k >> (if is t and then return true else (push t >> return false))

  unfoldable pub parse_kvp : NodeCode → NodeCode → Parse Bool
  parse_kvp key val = collect collect_arg_key_value >>= λ (k, t).
      emit_span key k
      >> (if is t and
          then return true
          else if is t eq
          then kvp_value val
          else (push t >> return false))

  -- The loop of `parseUrl`: it ends with the token that is no part of a URL.
  unfoldable pub url_loop : ℕ → Bool → List Token → Token → Parse (List Token × Token)
  url_loop zero can_path segment t p = out_of_fuel
  url_loop (suc n) can_path segment t p = elim (is_among t collect_url) [
    | false ↦ done ((segment, t), p)
    | true ↦ elim can_path [
      | false ↦
          (push t >> parse_kvp arg_key arg_value >>= λ more.
          pop >>= λ t'. url_loop n false segment t')
            p
      | true ↦ elim (is t slash) [
        | true ↦ (emit_span url_path segment >> pop >>= λ t'. url_loop n true [] t') p
        | false ↦ elim (is t query) [
          | true ↦ (emit_span url_path segment >> pop >>= λ t'. url_loop n false [] t') p
          | false ↦ (pop >>= λ t'. url_loop n true (segment ++ t ∷ []) t') p
        ]
      ]
    ]
  ]

  unfoldable pub parse_url : Parse Bool
  parse_url = pop >>= λ t.
      if is_among t collect_url
      then (parse_try_scheme fuel t >>= λ scheme. url_loop fuel true [] t >>= λ (segment, t').
          emit_span url_path segment >> emit url t.cur t'.cur >> push t' >> return true)
      else return false

  -- The version at the end of the request line.
  unfoldable pub parse_version : Parse Bool
  parse_version = expect ident λ first. expect slash λ _. expect num λ _.
      expect dot
        λ _. expect num λ t. emit version first.cur t.pos >> expect newline λ _. return true

  -- The verb is sent from a variable that the first `if` shadows: its positions are 0.
  unfoldable pub parse_request_line : Parse Bool
  parse_request_line = expect ident λ _.
      emit verb 0 0
      >> expect ws λ _.
        pop >>= skip_loop fuel >>= λ t. push t >> parse_url >>= λ _. expect ws λ _. parse_version

  unfoldable pub cookie_value_or : Token → Parse Token
  cookie_value_or nxt =
      if is nxt eq
      then (collect collect_cookie_value >>= λ (all, nxt').
          emit_span cookie_value all >> return nxt')
      else return nxt

  unfoldable pub parse_cookie : ℕ → Parse Bool
  parse_cookie zero p = out_of_fuel
  parse_cookie (suc n) p =
      (collect collect_cookie >>= λ (all, nxt).
      emit_span cookie_name all >> cookie_value_or nxt >>= skip_loop fuel >>= λ nxt'. λ p'.
        elim (is nxt' semi) [
          | true ↦ (pop >>= skip_loop fuel >>= λ t. push t >> parse_cookie n) p'
          | false ↦ (if is nxt' newline then return true else (push nxt' >> return false)) p'
        ])
        p

  -- `len(all) == 1 && string(all[0].Value) == "Cookie"`.
  unfoldable pub is_cookie : List Token → Bool
  is_cookie (t ∷ []) = same_text t.value (codes "Cookie")
  is_cookie _ = false

  unfoldable pub parse_header_value : Parse Bool
  parse_header_value = collect collect_header_value >>= λ (all, nxt).
      emit_span header_value all >> return (is nxt newline)

  unfoldable pub parse_header : Parse Bool
  parse_header = collect collect_header_key >>= λ (all, nxt).
      emit_span header_key all
      >> (if is nxt colon
          then (collect (ws ∷ []) >>= λ (spaces, nxt').
              push nxt' >> (if is_cookie all then parse_cookie fuel else parse_header_value))
          else return false)

  -- `for parseKvp(…) { c += 1 }`, and whether `c` was counted up at all.
  unfoldable pub body_loop : ℕ → Bool → Parse Bool
  body_loop zero some_pair p = out_of_fuel
  body_loop (suc n) some_pair p =
      (parse_kvp body_arg_key body_arg_value >>= λ more.
      λ p'. elim more [ true ↦ body_loop n true p' | false ↦ done (some_pair, p') ])
        p

  unfoldable pub parse_body : Parse Bool
  parse_body = pop >>= λ first. push first >> body_loop fuel false >>= λ some_pair.
      if some_pair
      then (pop >>= λ last. emit body first.cur (before last) >> return true)
      else return false

  -- `ParseHttp` after its request line.
  unfoldable pub parse_rest : Parse Bool
  parse_rest = while_true fuel parse_header >> parse_body >>= λ parsed.
      if parsed
      then return true
      else (collect [] >>= λ (all, _). emit_span raw_body all >> return true)

  -- `ParseHttp` after a request line that is not parsed: does it close the channel of nodes?
  unfoldable pub parse_remnants : Parse Bool
  parse_remnants = collect collect_rest_of_line >>= λ (all, nxt).
      if is nxt newline
      then (errf "REQUEST-LINE-MANGLED" >> emit_span request_line_remnants all >> parse_rest)
      else (errf "REQUEST-LINE-MANGLED-IRREPERABLY" >> return false)

  -- The goroutine of `ParseHttp`: does it close the channel of nodes?
  unfoldable pub parse_request : Parse Bool
  parse_request = parse_request_line >>= λ parsed. if parsed then parse_rest else parse_remnants

-- `ParseHttp`: the nodes that are sent, and whether the channel is closed after them.
unfoldable pub parse_http : (List ℕ → ℕ × ℕ) → ℕ → List ℕ → Partial (List HttpNode × Bool)
parse_http decode_rune fuel buf = Partial.◌>>=◌ (lex decode_rune buf) λ tokens.
    Partial.◌>>=◌
      (parse_request fuel (record { stack = []; tokens = tokens; out = []; sz = length buf }))
      λ (closed, p). done (p.out, closed)
