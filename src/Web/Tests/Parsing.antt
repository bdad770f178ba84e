-- ===== src/Web/Tests/Parsing.antt =====
-- The parser on the tokens of requests.
use formaldehyde.Prelude.{ℕ, ◌+◌, ◌≡◌, refl, arith, List, [], ◌∷◌, inl, inr}
use formaldehyde.Prelude.Partial.{out_of_fuel}
use formaldehyde.Web.Lexer.{
  Token, TokenCode, ident, num, ws, slash, dot, newline, eof, is, is_among,
}
use formaldehyde.Web.Parser.{parse_request}
use formaldehyde.Web.Parser.Ends.{Ends, nothing, size}
use formaldehyde.Web.Parser.Requests.{parse_request-Ends, parse_request-hangs}

-- A token of one byte at an offset.
abbrev token : TokenCode → ℕ → Token
token code at = record { code = code; value = 0x41 ∷ []; cur = at; pos = at + 1 }

-- What follows the slash of `G / H/1.0` and two ends of line.
abbrev rest : List Token
rest =
    token ws 3
    ∷ token ident 4
    ∷ token slash 5
    ∷ token num 6
    ∷ token dot 7
    ∷ token num 8
    ∷ token newline 9
    ∷ token newline 10
    ∷ token eof 11
    ∷ []

parse_request-Ends_example : Ends nothing (size rest + 1) (
    parse_request 12 (record {
      stack = [];
      tokens = token ident 0 ∷ token ws 1 ∷ token slash 2 ∷ rest;
      out = [];
      sz = 11;
    }))
unfolding is is_among
parse_request-Ends_example =
    parse_request-Ends 11 (token ident 0) (token ws 1) (token slash 2) rest 11 refl refl refl refl
      (omega arith)

parse_request-hangs_example :
    parse_request 20 (record {
      stack = [];
      tokens = token ident 0 ∷ token ws 1 ∷ token num 2 ∷ token ident 3 ∷ rest;
      out = [];
      sz = 11;
    })
    ≡ out_of_fuel
unfolding is
parse_request-hangs_example =
    parse_request-hangs 20 (token ident 0) (token ws 1) (token num 2) (token ident 3) rest 11 refl
      refl (inr refl) (inl refl)
