-- ===== src/Web/Nodes.antt =====
-- The state of the parser of src/matasano/web/parse.go, the nodes that it sends, and the sets of codes.
-- The state has the tokens pushed back, the last one first, and those still in the channel; the list
-- holds as many as `stacksz` counts.
use formaldehyde.Prelude.{
  ℕ, zero, suc, ◌+◌, ◌-◌, ◌^◌, Bool, true, false, not, ◌&&◌, ◌||◌, leb, ltb, ◌==◌, if◌then◌else◌,
  List, [], ◌∷◌, ◌++◌, Option, none, some, length, take, drop, codes, same_text, String, Result,
}
use formaldehyde.Prelude
use formaldehyde.Prelude.Partial.{Partial, done, panic, out_of_fuel}
use formaldehyde.Web.Lexer.{
  Token, TokenCode, eof, ident, num, punct, ws, slash, dot, colon, eq, and, query, semi,
}

pub data NodeCode : Type 0 where
  err_node url url_scheme arg_key arg_value url_path verb version header_key header_value : NodeCode
  cookie_name cookie_value raw_body body_arg_key body_arg_value body : NodeCode
  request_line_remnants : NodeCode

pub record HttpNode : Type 0 where
  pub code : NodeCode
  pub start : ℕ
  pub stop : ℕ
  pub err_text : String

-- `Snapshot`, of a node whose two positions are in order.
unfoldable pub snapshot : List ℕ → HttpNode → Result (Option (List ℕ))
snapshot buf n =
    if ltb (length buf) (n.start + 1)
    then Prelude.Result.ok none
    else if leb (length buf) (n.stop + 1)
    then Prelude.Result.ok (some (take (length buf - 1 - n.start) (drop n.start buf)))
    else if leb n.start n.stop
    then Prelude.Result.ok (some (take (n.stop - n.start) (drop n.start buf)))
    else Prelude.Result.panic

abbrev pub collect_rest_of_line : List TokenCode
collect_rest_of_line = ident ∷ num ∷ punct ∷ ws ∷ slash ∷ dot ∷ colon ∷ eq ∷ and ∷ query ∷ semi ∷ []

abbrev pub collect_arg_key_value : List TokenCode
collect_arg_key_value = ident ∷ num ∷ punct ∷ slash ∷ dot ∷ colon ∷ query ∷ semi ∷ []

abbrev pub collect_url : List TokenCode
collect_url = ident ∷ num ∷ punct ∷ slash ∷ dot ∷ colon ∷ eq ∷ and ∷ query ∷ semi ∷ []

abbrev pub collect_cookie : List TokenCode
collect_cookie = ident ∷ num ∷ punct ∷ slash ∷ dot ∷ colon ∷ and ∷ query ∷ []

abbrev pub collect_cookie_value : List TokenCode
collect_cookie_value = ident ∷ num ∷ eq ∷ punct ∷ slash ∷ dot ∷ colon ∷ and ∷ query ∷ []

abbrev pub collect_header_key : List TokenCode
collect_header_key = ident ∷ num ∷ slash ∷ dot ∷ query ∷ semi ∷ punct ∷ []

abbrev pub collect_header_value : List TokenCode
collect_header_value = ident ∷ num ∷ colon ∷ slash ∷ dot ∷ query ∷ semi ∷ punct ∷ eq ∷ and ∷ ws ∷ []

abbrev pub scheme_codes : List TokenCode
scheme_codes = ident ∷ num ∷ colon ∷ []

pub record Parser : Type 0 where
  pub stack : List Token
  pub tokens : List Token
  pub out : List HttpNode
  pub sz : ℕ

-- A parsing function: what it returns, and the parser after it.
abbrev pub Parse : Type 0 → Type 0
Parse A = Parser → Partial (A × Parser)

infixl 5 ◌>>=◌ ◌>>◌
abbrev pub ◌>>=◌ : {A B : Type 0} → Parse A → (A → Parse B) → Parse B
◌>>=◌ m f p = elim (m p) [ done (a, p') ↦ f a p' | panic ↦ panic | out_of_fuel ↦ out_of_fuel ]

abbrev pub ◌>>◌ : {B : Type 0} → Parse (Unit {0}) → Parse B → Parse B
m >> k = m >>= λ _. k

abbrev pub return : {A : Type 0} → A → Parse A
return a p = done (a, p)

abbrev first_or : Token → List Token → Token
first_or t [] = t
first_or t (x ∷ xs) = x

-- The token that a drained channel stands for.
abbrev pub eof_token : ℕ → Token
eof_token sz = record { code = eof; value = []; cur = sz; pos = sz }

unfoldable pub pop_from : List Token → List Token → Parser → Token × Parser
pop_from (t ∷ stack) tokens p = (t, record p { stack = stack })
pop_from [] (t ∷ tokens) p = (t, record p { tokens = tokens })
pop_from [] [] p = (eof_token p.sz, p)

unfoldable pub pop : Parse Token
unfolding pop_from
pop p = done (pop_from p.stack p.tokens p)

unfoldable pub push : Token → Parse (Unit {0})
push t p = done (tt, record p { stack = t ∷ p.stack })

-- `rewind`: the tokens are pushed from the last to the first.
unfoldable pub rewind : List Token → Parse (Unit {0})
rewind ts p = done (tt, record p { stack = ts ++ p.stack })

unfoldable pub emit : NodeCode → ℕ → ℕ → Parse (Unit {0})
emit code start stop p = done (
  tt,
  record p {
    out = p.out ++ record { code = code; start = start; stop = stop; err_text = "" } ∷ [];
  },
)

-- `errf` of a text with no verbs.
unfoldable pub errf : String → Parse (Unit {0})
errf text p = done (
  tt,
  record p { out = p.out ++ record { code = err_node; start = 0; stop = 0; err_text = text } ∷ [] },
)

-- The end of the last token of a list that begins with `t`.
abbrev pub last_pos : Token → List Token → ℕ
last_pos t [] = t.pos
last_pos t (x ∷ xs) = last_pos x xs

-- `if len(all) > 0 { p.out <- … }`, from the first token's start to the last one's end.
unfoldable pub emit_span : NodeCode → List Token → Parse (Unit {0})
emit_span code [] = return tt
emit_span code (t ∷ ts) = emit code t.cur (last_pos t ts)
