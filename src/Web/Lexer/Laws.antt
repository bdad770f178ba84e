-- ===== src/Web/Lexer/Laws.antt =====
-- How the lexer reads: where `next` and `accept` leave the positions.
use formaldehyde.Prelude.{
  ℕ, zero, suc, ◌+◌, ◌-◌, ◌≤◌, ◌<◌, ◌≡◌, ◌≢◌, ◌⊎◌, arith, Bool, true, false, not, ◌&&◌, ◌==◌,
  if◌then◌else◌, List, [], ◌∷◌, length, drop, contains, is_ascii, contains-lt,
}
use formaldehyde.Prelude.Partial.{done}
use formaldehyde.Web.Lexer.{Lexer, end, char, next, back, accept}

-- What the lexer relies on of `utf8.DecodeRune`: the width of a rune is at most what is left, and a
-- rune of ASCII is one byte wide.
pub record IsDecoder (decode_rune : List ℕ → ℕ × ℕ) : Type 0 where
  pub narrow : (bs : List ℕ) → (decode_rune bs).1 ≤ length bs
  pub ascii : (bs : List ℕ) → (decode_rune bs).0 < 128 → (decode_rune bs).1 ≡ 1

pub length-drop : (n : ℕ) (bs : List ℕ) → length (drop n bs) ≡ length bs - n
length-drop zero bs = omega arith
length-drop (suc n) [] = omega arith
length-drop (suc n) (b ∷ bs) = omega (arith, length-drop n bs)

module _ (decode_rune : List ℕ → ℕ × ℕ) (buf : List ℕ) where
  -- The positions are in order and in the buffer, and stepping back over its end is safe.
  abbrev pub IsOpen : Lexer → Type 0
  IsOpen l = (l.cur ≤ l.pos) × (l.pos ≤ length buf) × ((l.w ≤ 1) ⊎ (l.pos + 1 < length buf))

  abbrev pub here : Lexer → ℕ
  here l = (decode_rune (drop l.pos buf)).0

  abbrev pub width : Lexer → ℕ
  width l = (decode_rune (drop l.pos buf)).1

  abbrev pub accepts : List ℕ → Lexer → Bool
  accepts valid l = not (l.pos + 1 == length buf) && contains valid (here l)

  abbrev pub moved : Lexer → Lexer
  moved l = record l { w = 1; pos = l.pos + 1 }

  abbrev pub stayed : Lexer → Lexer
  stayed l =
      if l.pos + 1 == length buf then record l { pos = l.pos + 1 } else record l { w = width l }

  pub next_end :
      (l : Lexer)
      → l.pos + 1 ≡ length buf
      → next decode_rune buf l ≡ done (end, record l { pos = l.pos + 1 })
  unfolding next
  next_end l e = ground arith

  pub next_char :
      (l : Lexer)
      → l.pos + 1 ≢ length buf
      → l.pos ≤ length buf
      → next decode_rune buf l
        ≡ done (char (here l), record l { w = width l; pos = l.pos + width l })
  unfolding next
  next_char l e h = ground arith

  module _ (decoder : IsDecoder decode_rune) where
    pub width_le : (l : Lexer) → l.pos ≤ length buf → l.pos + width l ≤ length buf
    width_le l h = omega (arith, decoder.narrow (drop l.pos buf), length-drop l.pos buf)

    -- A rune of a text in ASCII is inside the buffer, and one byte wide.
    pub accepts-inside :
        (valid : List ℕ) (l : Lexer)
        → is_ascii valid ≡ true
        → l.pos ≤ length buf
        → accepts valid l ≡ true
        → (l.pos + 1 < length buf) × (width l ≡ 1)
    accepts-inside valid l a h e =
        ground (arith, contains-lt valid (here l), decoder.ascii (drop l.pos buf), width_le l)

    pub accept_lem :
        (valid : List ℕ) (l : Lexer)
        → is_ascii valid ≡ true
        → IsOpen l
        → accept decode_rune buf valid l
          ≡ done (if accepts valid l then (true, moved l) else (false, stayed l))
    unfolding accept back
    accept_lem valid l a (p, q, r) =
        ground (arith, next_end l, next_char l, accepts-inside valid l a q)

    pub moved-IsOpen :
        (valid : List ℕ) (l : Lexer)
        → is_ascii valid ≡ true
        → IsOpen l
        → accepts valid l ≡ true
        → IsOpen (moved l)
    moved-IsOpen valid l a (p, q, r) e = ground (arith, accepts-inside valid l a q e)

    pub stayed-IsOpen : (l : Lexer) → IsOpen l → IsOpen (stayed l)
    stayed-IsOpen l (p, q, r) = ground (arith, width_le l q)
