-- ===== src/Web/Lexer/Lexing.antt =====
-- `run` from the start: with the fuel of `lex` it ends, without a panic, and its tokens tile.
use formaldehyde.Prelude.{
  ℕ, zero, suc, ◌+◌, ◌-◌, ◌*◌, ◌≤◌, ◌<◌, ◌≡◌, ap, inl, inr, refl, arith, true, List, Option, none,
  some, length, is_ascii, Bool-cases,
}
use native.Mathlib.Decide.{ℕ_discrete}
use formaldehyde.Prelude.Partial.{done, ◌>>=◌, Finishes, Finishes-bind, Finishes-done}
use formaldehyde.Web.Lexer.{
  Lexer, Token, TokenCode, StateFn, start, next_token, number, identifier, verb, next, peek,
  state_run, dispatch, skip_ws, state_next, step, run, lex, new_lexer, chars_ws, chars_num,
  chars_ident,
}
use formaldehyde.Web.Lexer.Laws.{
  IsDecoder, accepts, moved, next_end, next_char, accepts-inside, accept_lem, moved-IsOpen,
  stayed-IsOpen,
}
use formaldehyde.Web.Lexer.Tiling.{Tiles, IsTiled, Past, run_of-Past, run_of-accepts, spit-IsTiled}
use formaldehyde.Web.Lexer.Ends.{
  IsReady, distance, IsLexed, Continues, Goes, back-after, dispatch-Goes, spit_to-IsLexed,
  spit_to-Goes, peeked-IsTiled, back_end-IsTiled, ascii_ws, ascii_num, ascii_ident,
}

module _ (decode_rune : List ℕ → ℕ × ℕ) (buf : List ℕ) (decoder : IsDecoder decode_rune) where
  next-dispatch :
      (budget : ℕ) (l : Lexer)
      → IsTiled decode_rune buf l
      → distance decode_rune buf next_token l ≤ budget
      → Finishes
          (Goes decode_rune buf budget)
          (next decode_rune buf l >>= λ (r, l'). dispatch decode_rune buf r l')
  unfolding dispatch
  next-dispatch budget l i d = elim (ℕ_discrete (l.pos + 1) (length buf)) [
    | yes e ↦ rw (next_end decode_rune buf l e) (
        spit_to-IsLexed decode_rune buf decoder budget TokenCode.eof (record l { pos = l.pos + 1 })
          ((omega arith, omega arith, omega arith), i.1))
    | no n ↦
        rw (next_char decode_rune buf l n i.0.1)
          (dispatch-Goes decode_rune buf decoder budget l i n d)
  ]

  skip_ws-Past :
      (l : Lexer)
      → IsTiled decode_rune buf l
      → Finishes (Past decode_rune buf l.pos) (skip_ws decode_rune buf l)
  unfolding skip_ws
  skip_ws-Past l i = elim (Bool-cases (accepts decode_rune buf chars_ws l)) [
    | inl e ↦
        rw (accept_lem decode_rune buf decoder chars_ws l ascii_ws i.0, e)
          (Finishes-bind (Past decode_rune buf l.pos) (Past decode_rune buf l.pos) _ _
            (run_of-Past decode_rune buf decoder (suc (length buf)) l.pos chars_ws
              (moved decode_rune buf l) ascii_ws
              ((moved-IsOpen decode_rune buf decoder chars_ws l ascii_ws i.0 e, i.1), omega arith)
              (omega arith))
            (λ l' h. spit-IsTiled decode_rune buf decoder l.pos TokenCode.ws l' h))
    | inr e ↦
        rw (accept_lem decode_rune buf decoder chars_ws l ascii_ws i.0, e)
          ((stayed-IsOpen decode_rune buf decoder l i.0, ground arith), ground arith)
  ]

  state_run-Goes :
      (valid : List ℕ) (t : TokenCode) (budget : ℕ) (l : Lexer)
      → is_ascii valid ≡ true
      → IsTiled decode_rune buf l
      → accepts decode_rune buf valid l ≡ true
      → 2 * (length buf - l.pos) < budget
      → Finishes (Goes decode_rune buf budget) (state_run decode_rune buf valid t l)
  unfolding state_run
  state_run-Goes valid t budget l a i e d =
      Finishes-bind (Past decode_rune buf (l.pos + 1)) (Goes decode_rune buf budget) _ _
        (run_of-accepts decode_rune buf decoder (length buf) valid l a i e (omega (arith, inside)))
        (λ l' h.
          spit_to-Goes decode_rune buf decoder budget (l.pos + 1) t l' h (omega (arith, inside)))
    where
      inside : l.pos + 1 < length buf
      inside = (accepts-inside decode_rune buf decoder valid l a i.0.1 e).0

  state_next-Goes :
      (budget : ℕ) (l : Lexer)
      → IsTiled decode_rune buf l
      → distance decode_rune buf next_token l ≤ budget
      → Finishes (Goes decode_rune buf budget) (step decode_rune buf next_token l)
  unfolding step peek state_next
  state_next-Goes budget l i d = elim (ℕ_discrete (l.pos + 1) (length buf)) [
    | yes e ↦ rw (next_end decode_rune buf l e) (
        spit_to-IsLexed decode_rune buf decoder budget TokenCode.eof _
          (back_end-IsTiled decode_rune buf decoder l i e).0)
    | no n ↦
        rw (next_char decode_rune buf l n i.0.1, back-after decode_rune buf l)
          (Finishes-bind (Past decode_rune buf l.pos) (Goes decode_rune buf budget) _ _
            (skip_ws-Past _ (peeked-IsTiled decode_rune buf decoder l i))
            (λ l' h. next-dispatch budget l' h.0 (omega arith)))
  ]

  step-Goes :
      (budget : ℕ) (state : StateFn) (l : Lexer)
      → IsTiled decode_rune buf l
      → IsReady decode_rune buf state l
      → distance decode_rune buf state l ≤ budget
      → Finishes (Goes decode_rune buf budget) (step decode_rune buf state l)
  unfolding step
  step-Goes budget start l i r d = (i, tt, omega arith)
  step-Goes budget next_token l i r d = state_next-Goes budget l i (omega arith)
  step-Goes budget number l i r d =
      state_run-Goes chars_num TokenCode.num budget l ascii_num i r (omega arith)
  step-Goes budget identifier l i r d =
      state_run-Goes chars_ident TokenCode.ident budget l ascii_ident i r (omega arith)
  step-Goes budget verb l i r d = absurd r

  -- What follows a step, if the rest of the run does well from every state that is near enough.
  following-IsLexed :
      (fuel : ℕ) (o : Option StateFn) (l : Lexer)
      → ((state : StateFn) (l' : Lexer)
          → IsTiled decode_rune buf l'
          → IsReady decode_rune buf state l'
          → distance decode_rune buf state l' < fuel
          → Finishes (IsLexed decode_rune buf) (run decode_rune buf fuel state l'))
      → Continues decode_rune buf fuel o l
      → Finishes
          (IsLexed decode_rune buf)
          (elim o [ some state' ↦ run decode_rune buf fuel state' l | none ↦ done l ])
  following-IsLexed fuel none l ih g = g
  following-IsLexed fuel (some state) l ih (i, r, d) = ih state l i r d

  run-IsLexed :
      (fuel : ℕ) (state : StateFn) (l : Lexer)
      → IsTiled decode_rune buf l
      → IsReady decode_rune buf state l
      → distance decode_rune buf state l < fuel
      → Finishes (IsLexed decode_rune buf) (run decode_rune buf fuel state l)
  unfolding run
  run-IsLexed zero state l i r h = absurd (omega arith)
  run-IsLexed (suc fuel) state l i r h =
      Finishes-bind (Goes decode_rune buf fuel) (IsLexed decode_rune buf) _ _
        (step-Goes fuel state l i r (omega arith))
        (λ (o, l') g. following-IsLexed fuel o l' (run-IsLexed fuel) g)

  -- The lexer returns for every buffer, with no panic, and its tokens tile what it has read of the
  -- buffer, from its first byte on: each begins where the one before ends and has the bytes between
  -- its two positions, if `utf8.DecodeRune` decodes as `IsDecoder` says.
  pub lex-Tiles :
      (tokens : List Token) × (to : ℕ) × (lex decode_rune buf ≡ done tokens)
      × (to ≤ length buf)
      × Tiles buf 0 tokens to
  unfolding lex
  lex-Tiles =
      let (l, e, (t, h)) = Finishes-done (IsLexed decode_rune buf) _ (
        run-IsLexed (2 * length buf + 4) start new_lexer
          ((omega arith, omega arith, omega arith), refl) tt (omega arith)) in
      (l.out, l.cur, ap (λ m. m >>= λ (l : Lexer). done l.out) e, h, t)
