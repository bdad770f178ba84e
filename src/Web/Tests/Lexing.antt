-- ===== src/Web/Tests/Lexing.antt =====
-- The lexer on requests, with a decoder that knows ASCII.
use formaldehyde.Prelude.{
  ℕ, ◌≤◌, ◌<◌, ◌≡◌, refl, arith, ltb, if◌then◌else◌, List, [], ◌∷◌, length, map, codes,
}
use formaldehyde.Prelude.Partial.{done, ◌>>=◌}
use formaldehyde.Web.Lexer.{
  Token, lex, ident, num, ws, slash, dot, newline, eof, run, step, peek, next, back, skip_ws,
  accept, run_of, spit, spit_to, state_next, state_run, dispatch, newline_or_back, chars_ws,
  chars_num, chars_ident, chars_alpha, chars_punct,
}
use formaldehyde.Web.Lexer.Laws.{IsDecoder}
use formaldehyde.Web.Lexer.Tiling.{Tiles}
use formaldehyde.Web.Lexer.Lexing.{lex-Tiles}

abbrev pub decode_ascii : List ℕ → ℕ × ℕ
decode_ascii [] = (0xfffd, 0)
decode_ascii (b ∷ bs) = if ltb b 128 then (b, 1) else (0xfffd, 1)

narrow : (bs : List ℕ) → (decode_ascii bs).1 ≤ length bs
narrow [] = omega arith
narrow (b ∷ bs) = ground arith

ascii : (bs : List ℕ) → (decode_ascii bs).0 < 128 → (decode_ascii bs).1 ≡ 1
ascii [] h = absurd (omega arith)
ascii (b ∷ bs) h = ground arith

pub decode_ascii-IsDecoder : IsDecoder decode_ascii
decode_ascii-IsDecoder = record { narrow = narrow; ascii = ascii }

abbrev request : List ℕ
request = codes "GET /a1 HTTP/1.0\n\n"

lexed :
    (lex decode_ascii request >>= λ ts. done (map (λ t. t.code) ts))
    ≡ done (ident ∷ ws ∷ slash ∷ ident ∷ ws ∷ ident ∷ slash ∷ num ∷ dot ∷ num ∷ newline ∷ eof ∷ [])
unfolding lex run step peek next back skip_ws accept run_of spit spit_to state_next state_run
    dispatch newline_or_back chars_ws chars_num chars_ident chars_alpha chars_punct
lexed = refl

lex-Tiles_example :
    (tokens : List Token) × (to : ℕ) × (lex decode_ascii request ≡ done tokens)
    × (to ≤ length request)
    × Tiles request 0 tokens to
lex-Tiles_example = lex-Tiles decode_ascii request decode_ascii-IsDecoder
