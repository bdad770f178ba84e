-- ===== src/Web/Lexer/Tiling.antt =====
-- The lexer ends on every buffer, and its tokens tile the part of the buffer that it has read.
use formaldehyde.Prelude.{
  ℕ, zero, suc, ◌+◌, ◌-◌, ◌≤◌, ◌<◌, ◌≡◌, inl, inr, refl, sym, arith, true, List, [], ◌∷◌, ◌++◌,
  length, drop, take, is_ascii, Bool-cases,
}
use formaldehyde.Prelude.Partial.{Finishes}
use formaldehyde.Web.Lexer.{Lexer, Token, TokenCode, run_of, spit}
use formaldehyde.Web.Lexer.Laws.{
  IsDecoder, IsOpen, accepts, moved, accept_lem, moved-IsOpen, stayed-IsOpen,
}

module _ (buf : List ℕ) where
  -- The tokens cover the bytes from `from` to `to` in order, with no gap, and each has its bytes.
  abbrev pub Tiles : ℕ → List Token → ℕ → Type 0
  Tiles from [] to = from ≡ to
  Tiles from (t ∷ ts) to =
      (t.cur ≡ from)
      × (t.cur ≤ t.pos)
      × (t.value ≡ take (t.pos - t.cur) (drop t.cur buf))
      × Tiles t.pos ts to

  Tiles-snoc :
      (from : ℕ) (ts : List Token) (t : Token)
      → Tiles from ts t.cur
      → t.cur ≤ t.pos
      → t.value ≡ take (t.pos - t.cur) (drop t.cur buf)
      → Tiles from (ts ++ t ∷ []) t.pos
  Tiles-snoc from [] t h p v = (sym h, p, v, refl)
  Tiles-snoc from (s ∷ ts) t (a, b, c, h) p v = (a, b, c, Tiles-snoc s.pos ts t h p v)

  abbrev pub spat : TokenCode → Lexer → Token
  spat t l = record {
    code = t;
    value = take (l.pos - l.cur) (drop l.cur buf);
    cur = l.cur;
    pos = l.pos;
  }

module _ (decode_rune : List ℕ → ℕ × ℕ) (buf : List ℕ) where
  -- The lexer's invariant between states.
  abbrev pub IsTiled : Lexer → Type 0
  IsTiled l = IsOpen decode_rune buf l × Tiles buf 0 l.out l.cur

  -- It has got as far as `from`.
  abbrev pub Past : ℕ → Lexer → Type 0
  Past from l = IsTiled l × (from ≤ l.pos)

  module _ (decoder : IsDecoder decode_rune) where
    pub run_of-Past :
        (fuel from : ℕ) (valid : List ℕ) (l : Lexer)
        → is_ascii valid ≡ true
        → Past from l
        → length buf < fuel + l.pos
        → Finishes (Past from) (run_of decode_rune buf fuel valid l)
    unfolding run_of
    run_of-Past zero from valid l a ((o, t), p) h = absurd (omega arith)
    run_of-Past (suc fuel) from valid l a ((o, t), p) h =
        elim (Bool-cases (accepts decode_rune buf valid l)) [
          | inl e ↦
              rw (accept_lem decode_rune buf decoder valid l a o, e)
                (run_of-Past fuel from valid (moved decode_rune buf l) a
                  ((moved-IsOpen decode_rune buf decoder valid l a o e, t), omega arith)
                  (omega arith))
          | inr e ↦
              rw (accept_lem decode_rune buf decoder valid l a o, e)
                ((stayed-IsOpen decode_rune buf decoder l o, ground arith), ground arith)
        ]

    -- A run that begins with a rune of the text gets past it.
    pub run_of-accepts :
        (fuel : ℕ) (valid : List ℕ) (l : Lexer)
        → is_ascii valid ≡ true
        → IsTiled l
        → accepts decode_rune buf valid l ≡ true
        → length buf < fuel + (l.pos + 1)
        → Finishes (Past (l.pos + 1)) (run_of decode_rune buf (suc fuel) valid l)
    unfolding run_of
    run_of-accepts fuel valid l a (o, t) e h =
        rw (accept_lem decode_rune buf decoder valid l a o, e)
          (run_of-Past fuel (l.pos + 1) valid (moved decode_rune buf l) a
            ((moved-IsOpen decode_rune buf decoder valid l a o e, t), omega arith) (omega arith))

    pub spit-IsTiled :
        (from : ℕ) (t : TokenCode) (l : Lexer)
        → Past from l
        → Finishes (Past from) (spit decode_rune buf t l)
    unfolding spit
    spit-IsTiled from t l (((p, q, r), ts), h) =
        ground (arith, Tiles-snoc buf 0 l.out (spat buf t l) ts p refl)
