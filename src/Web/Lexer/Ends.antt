-- ===== src/Web/Lexer/Ends.antt =====
-- The state functions of the lexer keep its tiling, and bring it nearer to its end.
use formaldehyde.Prelude.{
  ℕ, ◌+◌, ◌-◌, ◌*◌, ◌≤◌, ◌<◌, ◌≡◌, ◌≢◌, refl, arith, true, false, ◌==◌, List, ◌++◌, Option, none,
  some, length, drop, contains, is_ascii, contains-append_left, contains-lt, ==_refl, codes,
}
use native.Mathlib.Decide.{ℕ_discrete}
use formaldehyde.Prelude.Partial.{done, ◌>>=◌, Finishes, Finishes-bind, Finishes-if}
use formaldehyde.Web.Lexer.{
  Lexer, TokenCode, char, StateFn, start, next_token, number, identifier, verb, next, back, spit,
  spit_to, newline_or_back, dispatch, chars_ws, chars_num, chars_ident, chars_alpha, chars_punct,
}
use formaldehyde.Web.Lexer.Laws.{IsDecoder, here, width, accepts, next_end, next_char, width_le}
use formaldehyde.Web.Lexer.Tiling.{Tiles, IsTiled, Past, spit-IsTiled}

abbrev pub cost : StateFn → ℕ
cost start = 3
cost next_token = 2
cost number = 1
cost identifier = 1
cost verb = 0

pub ascii_num : is_ascii chars_num ≡ true
unfolding chars_num
ascii_num = refl

pub ascii_ws : is_ascii chars_ws ≡ true
unfolding chars_ws
ascii_ws = refl

ascii_punct : is_ascii chars_punct ≡ true
unfolding chars_punct
ascii_punct = refl

pub ascii_ident : is_ascii chars_ident ≡ true
unfolding chars_ident
ascii_ident = refl

alpha-ident : (c : ℕ) → contains chars_alpha c ≡ true → contains chars_ident c ≡ true
unfolding chars_ident
alpha-ident c h = contains-append_left chars_alpha (chars_num ++ codes "_-%") c h

module _ (decode_rune : List ℕ → ℕ × ℕ) (buf : List ℕ) where
  -- A state that reads a run stands before a rune of it. `stateVerb` is never entered.
  abbrev pub IsReady : StateFn → Lexer → Type 0
  IsReady start l = Unit {0}
  IsReady next_token l = Unit {0}
  IsReady number l = accepts decode_rune buf chars_num l ≡ true
  IsReady identifier l = accepts decode_rune buf chars_ident l ≡ true
  IsReady verb l = ⊥

  abbrev pub distance : StateFn → Lexer → ℕ
  distance state l = 2 * (length buf - l.pos) + cost state

  abbrev pub IsLexed : Lexer → Type 0
  IsLexed l = Tiles buf 0 l.out l.cur × (l.cur ≤ length buf)

  -- The lexer is finished, or goes on nearer to its end than `budget`.
  abbrev pub Continues : ℕ → Option StateFn → Lexer → Type 0
  Continues budget none l = IsLexed l
  Continues budget (some state) l =
      IsTiled decode_rune buf l × IsReady state l × (distance state l < budget)

  abbrev pub Goes : ℕ → Option StateFn × Lexer → Type 0
  Goes budget r = Continues budget r.0 r.1

  abbrev pub after : Lexer → Lexer
  after l = record l { w = width decode_rune buf l; pos = l.pos + width decode_rune buf l }

  pub back-after : (l : Lexer) → back (after l) ≡ record l { w = width decode_rune buf l }
  unfolding back
  back-after l = ground arith

  module _ (decoder : IsDecoder decode_rune) where
    pub spit_to-Goes :
        (budget from : ℕ) (t : TokenCode) (l : Lexer)
        → Past decode_rune buf from l
        → 2 * (length buf - from) + 2 < budget
        → Finishes (Goes budget) (spit_to decode_rune buf t (some next_token) l)
    unfolding spit_to
    spit_to-Goes budget from t l h d =
        Finishes-bind (Past decode_rune buf from) (Goes budget) (spit decode_rune buf t l) _
          (spit-IsTiled decode_rune buf decoder from t l h) (λ l' k. (k.0, tt, omega arith))

    pub spit_to-IsLexed :
        (budget : ℕ) (t : TokenCode) (l : Lexer)
        → IsTiled decode_rune buf l
        → Finishes (Goes budget) (spit_to decode_rune buf t none l)
    unfolding spit_to
    spit_to-IsLexed budget t l h =
        Finishes-bind (Past decode_rune buf 0) (Goes budget) (spit decode_rune buf t l) _
          (spit-IsTiled decode_rune buf decoder 0 t l (h, omega arith))
          (λ l' k. (k.0.1, omega arith))

    -- After a rune of ASCII.
    after-IsTiled :
        (l : Lexer) (c : ℕ)
        → IsTiled decode_rune buf l
        → l.pos + 1 ≢ length buf
        → (here decode_rune buf l == c) ≡ true
        → c < 128
        → Past decode_rune buf (l.pos + 1) (after l) × (l.pos < length buf)
    after-IsTiled l c ((p, q, r), t) e h k =
        ground (arith, decoder.ascii (drop l.pos buf), width_le decode_rune buf decoder l q)

    -- The case of `dispatch` for one character.
    sent :
        (budget : ℕ) (t : TokenCode) (l : Lexer) (c : ℕ)
        → IsTiled decode_rune buf l
        → l.pos + 1 ≢ length buf
        → distance next_token l ≤ budget
        → c < 128
        → (here decode_rune buf l == c) ≡ true
        → Finishes (Goes budget) (spit_to decode_rune buf t (some next_token) (after l))
    sent budget t l c i n d k e =
        let (past, inside) = after-IsTiled l c i n e k in
        spit_to-Goes budget (l.pos + 1) t (after l) past (omega arith)

    pub peeked-IsTiled :
        (l : Lexer)
        → IsTiled decode_rune buf l
        → IsTiled decode_rune buf (record l { w = width decode_rune buf l })
    peeked-IsTiled l ((p, q, r), t) = ground (arith, width_le decode_rune buf decoder l q)

    -- A state that is entered with the rune put back.
    put_back :
        (budget : ℕ) (state : StateFn) (l : Lexer)
        → IsTiled decode_rune buf l
        → distance state l < budget
        → IsReady state (record l { w = width decode_rune buf l })
        → Finishes (Goes budget) (done (some state, back (after l)))
    put_back budget state l i d r = rw back-after ((peeked-IsTiled l i, r, d))

    -- At the last byte `next` steps over the end, and `back` comes back before it or stays.
    pub back_end-IsTiled :
        (l : Lexer)
        → IsTiled decode_rune buf l
        → l.pos + 1 ≡ length buf
        → Past decode_rune buf l.pos (back (record l { pos = l.pos + 1 }))
    unfolding back
    back_end-IsTiled l i e = ground arith

    newline_or_back-Goes :
        (budget : ℕ) (l : Lexer)
        → IsTiled decode_rune buf l
        → distance next_token l < budget
        → Finishes
            (Goes budget)
            (next decode_rune buf l >>= λ (r, l'). newline_or_back decode_rune buf r l')
    unfolding newline_or_back
    newline_or_back-Goes budget l i d = elim (ℕ_discrete (l.pos + 1) (length buf)) [
      | yes e ↦
          rw (next_end decode_rune buf l e)
            (let (tiled, far) = back_end-IsTiled l i e in (tiled, tt, omega arith))
      | no n ↦ rw (next_char decode_rune buf l n i.0.1) (
          Finishes-if (Goes budget) (here decode_rune buf l == b'\n') _ _
            (sent budget TokenCode.newline l b'\n' i n (omega arith) (omega arith))
            (λ e. put_back budget next_token l i d tt))
    ]

    sent_punct :
        (budget : ℕ) (l : Lexer)
        → IsTiled decode_rune buf l
        → l.pos + 1 ≢ length buf
        → distance next_token l ≤ budget
        → contains chars_punct (here decode_rune buf l) ≡ true
        → Finishes
            (Goes budget)
            (spit_to decode_rune buf TokenCode.punct (some next_token) (after l))
    sent_punct budget l i n d e =
        sent budget TokenCode.punct l (here decode_rune buf l) i n d
          (contains-lt chars_punct (here decode_rune buf l) ascii_punct e)
          (==_refl (here decode_rune buf l))

    not_last : (l : Lexer) → l.pos + 1 ≢ length buf → (l.pos + 1 == length buf) ≡ false
    not_last l n = ground arith

    pub dispatch-Goes :
        (budget : ℕ) (l : Lexer)
        → IsTiled decode_rune buf l
        → l.pos + 1 ≢ length buf
        → distance next_token l ≤ budget
        → Finishes
            (Goes budget)
            (dispatch decode_rune buf (char (here decode_rune buf l)) (after l))
    unfolding dispatch
    dispatch-Goes budget l i n d =
        Finishes-if (Goes budget) (here decode_rune buf l == b'\r') _ _
          (λ e.
            let (past, inside) = after-IsTiled l b'\r' i n e (omega arith) in
            newline_or_back-Goes budget (after l) past.0 (omega arith))
          (λ _.
            Finishes-if (Goes budget) (here decode_rune buf l == b'\n') _ _
              (sent budget TokenCode.newline l b'\n' i n d (omega arith))
              (λ _.
                Finishes-if (Goes budget) (here decode_rune buf l == b'/') _ _
                  (sent budget TokenCode.slash l b'/' i n d (omega arith))
                  (λ _.
                    Finishes-if (Goes budget) (here decode_rune buf l == b'.') _ _
                      (sent budget TokenCode.dot l b'.' i n d (omega arith))
                      (λ _.
                        Finishes-if (Goes budget) (here decode_rune buf l == b':') _ _
                          (sent budget TokenCode.colon l b':' i n d (omega arith))
                          (λ _.
                            Finishes-if (Goes budget) (here decode_rune buf l == b'=') _ _
                              (sent budget TokenCode.eq l b'=' i n d (omega arith))
                              (λ _.
                                Finishes-if (Goes budget) (here decode_rune buf l == b'&') _ _
                                  (sent budget TokenCode.and l b'&' i n d (omega arith))
                                  (λ _.
                                    Finishes-if (Goes budget) (here decode_rune buf l == b'?') _ _
                                      (sent budget TokenCode.query l b'?' i n d (omega arith))
                                      (λ _.
                                        Finishes-if (Goes budget) (here decode_rune buf l == b';') _
                                          _ (sent budget TokenCode.semi l b';' i n d (omega arith))
                                          (λ _.
                                            Finishes-if (Goes budget)
                                              (contains chars_num (here decode_rune buf l)) _ _
                                              (λ e.
                                                put_back budget number l i (omega arith)
                                                  (cc (e, not_last l n)))
                                              (λ _.
                                                Finishes-if (Goes budget)
                                                  (contains chars_alpha (here decode_rune buf l)) _
                                                  _
                                                  (λ e.
                                                    put_back budget identifier l i (omega arith) (
                                                      cc (
                                                        alpha-ident (here decode_rune buf l) e,
                                                        not_last l n,
                                                      )))
                                                  (λ _.
                                                    Finishes-if (Goes budget)
                                                      (contains chars_punct
                                                        (here decode_rune buf l))
                                                      _ _ (λ e. sent_punct budget l i n d e)
                                                      (λ _. (i.1, omega arith)))))))))))))
