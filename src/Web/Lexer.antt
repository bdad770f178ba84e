-- ===== src/Web/Lexer.antt =====
-- The lexer of src/matasano/web/lex.go: HTTP text to tokens, by state functions.
-- `decode_rune` is `utf8.DecodeRune`: the rune at the head of the bytes and its width. A position is
-- at most the length of the buffer, which Go keeps below 2 ^ 63, so that only `back` could wrap.
-- The channel of tokens is the list of what was sent.
pub mod Laws
pub mod Tiling
pub mod Ends
pub mod Lexing
use formaldehyde.Prelude.{
  ℕ, zero, suc, ◌+◌, ◌-◌, ◌*◌, ◌^◌, Bool, true, false, ◌&&◌, ◌||◌, leb, ◌==◌, if◌then◌else◌, List,
  [], ◌∷◌, ◌++◌, Option, none, some, length, take, drop, codes, contains,
}
use formaldehyde.Prelude.Partial.{Partial, done, panic, out_of_fuel, ◌>>=◌}

pub data TokenCode : Type 0 where
  err eof ident num punct ws newline slash dot colon eq and query semi : TokenCode

-- The value of a code, as `iota` numbers them.
abbrev pub token_number : TokenCode → ℕ
token_number err = 0
token_number eof = 1
token_number ident = 2
token_number num = 3
token_number punct = 4
token_number ws = 5
token_number newline = 6
token_number slash = 7
token_number dot = 8
token_number colon = 9
token_number eq = 10
token_number and = 11
token_number query = 12
token_number semi = 13

pub record Token : Type 0 where
  pub code : TokenCode
  pub value : List ℕ
  pub cur : ℕ
  pub pos : ℕ

-- `Is` and `IsAmong`.
unfoldable pub is : Token → TokenCode → Bool
is t k = token_number t.code == token_number k

unfoldable pub is_among : Token → List TokenCode → Bool
unfolding is
is_among t [] = false
is_among t (k ∷ ks) = is t k || is_among t ks

unfoldable pub chars_ws : List ℕ
chars_ws = codes " \t"

unfoldable pub chars_caps : List ℕ
chars_caps = codes "ABCDEFGHIJKLMNOPQRSTUVWXYZ"

unfoldable pub chars_alpha : List ℕ
unfolding chars_caps
chars_alpha = chars_caps ++ codes "abcdefghijklmnopqrstuvwxyz"

unfoldable pub chars_num : List ℕ
chars_num = codes "0123456789"

unfoldable pub chars_ident : List ℕ
unfolding chars_alpha chars_num
chars_ident = chars_alpha ++ (chars_num ++ codes "_-%")

unfoldable pub chars_punct : List ℕ
chars_punct = codes "!@#$%^&*()_-+={}[]\\\":|;'`~<>,./?"

-- What `next` returns: a decoded rune, or the source's `EOF`, -1, which no rune is.
pub data Rune : Type 0 where
  end : Rune
  char : ℕ → Rune

-- The state functions. No function returns `stateVerb`.
pub data StateFn : Type 0 where
  start next_token number identifier verb : StateFn

pub record Lexer : Type 0 where
  pub cur : ℕ
  pub pos : ℕ
  pub w : ℕ
  pub out : List Token

-- The state that `NewLexer` makes.
abbrev pub new_lexer : Lexer
new_lexer = record { cur = 0; pos = 0; w = 0; out = [] }

unfoldable pub back : Lexer → Lexer
back l = record l { pos = if leb l.w l.pos then l.pos - l.w else 2 ^ 64 - (l.w - l.pos) }

-- `errf` of a text with no verbs.
unfoldable pub errf : List ℕ → Lexer → Lexer
errf message l = record l {
  out = l.out ++ record { code = err; value = message; cur = l.cur; pos = l.cur } ∷ [];
}

module _ (decode_rune : List ℕ → ℕ × ℕ) (buf : List ℕ) where
  unfoldable pub next : Lexer → Partial (Rune × Lexer)
  next l =
      if l.pos + 1 == length buf
      then done (end, record l { pos = l.pos + 1 })
      else if leb l.pos (length buf)
      then (let (r, w) = decode_rune (drop l.pos buf) in
          done (char r, record l { w = w; pos = l.pos + w }))
      else panic

  unfoldable pub peek : Lexer → Partial (Rune × Lexer)
  peek l = next l >>= λ (r, l'). done (r, back l')

  abbrev accept_rune : List ℕ → Rune → Lexer → Bool × Lexer
  accept_rune valid end l = (false, l)
  accept_rune valid (char c) l = if contains valid c then (true, l) else (false, back l)

  unfoldable pub accept : List ℕ → Lexer → Partial (Bool × Lexer)
  accept valid l = next l >>= λ (r, l'). done (accept_rune valid r l')

  unfoldable pub run_of : ℕ → List ℕ → Lexer → Partial Lexer
  run_of zero valid l = out_of_fuel
  run_of (suc fuel) valid l = accept valid l >>= λ (accepted, l'). elim accepted [
    | true ↦ run_of fuel valid l'
    | false ↦ done l'
  ]

  unfoldable pub spit : TokenCode → Lexer → Partial Lexer
  spit t l =
      if leb l.cur l.pos && leb l.pos (length buf)
      then done (record l {
        out =
            l.out
            ++ record {
              code = t;
              value = take (l.pos - l.cur) (drop l.cur buf);
              cur = l.cur;
              pos = l.pos;
            }
              ∷ [];
        cur = l.pos;
      })
      else panic

  -- Send a token, and go on with a state.
  unfoldable pub spit_to : TokenCode → Option StateFn → Lexer → Partial (Option StateFn × Lexer)
  spit_to t state l = spit t l >>= λ l'. done (state, l')

  -- `stateNum` and `stateIdent`.
  unfoldable pub state_run : List ℕ → TokenCode → Lexer → Partial (Option StateFn × Lexer)
  state_run valid t l = run_of (suc (length buf)) valid l >>= λ l'. spit_to t (some next_token) l'

  unfoldable pub state_verb : Lexer → Partial (Option StateFn × Lexer)
  state_verb l = accept chars_caps l >>= λ (accepted, l'). elim accepted [
    | true ↦ state_run chars_caps ident l'
    | false ↦ done (none, errf (codes "Expected VERB") l')
  ]

  -- After a carriage return.
  unfoldable pub newline_or_back : Rune → Lexer → Partial (Option StateFn × Lexer)
  newline_or_back end l = done (some next_token, back l)
  newline_or_back (char c) l =
      if c == b'\n' then spit_to newline (some next_token) l else done (some next_token, back l)

  -- The `switch` of `stateNext`.
  unfoldable pub dispatch : Rune → Lexer → Partial (Option StateFn × Lexer)
  dispatch end l = spit_to eof none l
  dispatch (char c) l =
      if c == b'\r'
      then (next l >>= λ (r, l'). newline_or_back r l')
      else if c == b'\n'
      then spit_to newline (some next_token) l
      else if c == b'/'
      then spit_to slash (some next_token) l
      else if c == b'.'
      then spit_to dot (some next_token) l
      else if c == b':'
      then spit_to colon (some next_token) l
      else if c == b'='
      then spit_to eq (some next_token) l
      else if c == b'&'
      then spit_to and (some next_token) l
      else if c == b'?'
      then spit_to query (some next_token) l
      else if c == b';'
      then spit_to semi (some next_token) l
      else if contains chars_num c
      then done (some number, back l)
      else if contains chars_alpha c
      then done (some identifier, back l)
      else if contains chars_punct c
      then spit_to punct (some next_token) l
      else done (none, l)

  -- The white space that `stateNext` sends before it looks at the next rune.
  unfoldable pub skip_ws : Lexer → Partial Lexer
  skip_ws l = accept chars_ws l >>= λ (accepted, l'). elim accepted [
    | true ↦ (run_of (suc (length buf)) chars_ws l' >>= λ l''. spit ws l'')
    | false ↦ done l'
  ]

  unfoldable pub state_next : Rune → Lexer → Partial (Option StateFn × Lexer)
  state_next end l = spit_to eof none l
  state_next (char c) l = skip_ws l >>= λ l'. next l' >>= λ (r, l''). dispatch r l''

  unfoldable pub step : StateFn → Lexer → Partial (Option StateFn × Lexer)
  step start l = done (some next_token, l)
  step next_token l = peek l >>= λ (r, l'). state_next r l'
  step number l = state_run chars_num num l
  step identifier l = state_run chars_ident ident l
  step verb l = state_verb l

  unfoldable pub run : ℕ → StateFn → Lexer → Partial Lexer
  run zero state l = out_of_fuel
  run (suc fuel) state l = step state l >>= λ (following, l'). elim following [
    | some state' ↦ run fuel state' l'
    | none ↦ done l'
  ]

  -- The tokens of the buffer, with fuel that is always enough.
  unfoldable pub lex : Partial (List Token)
  lex = run (2 * length buf + 4) start new_lexer >>= λ l. done l.out
