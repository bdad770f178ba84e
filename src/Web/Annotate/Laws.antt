-- ===== src/Web/Annotate/Laws.antt =====
-- The fragments of a marked request, read back from its text, and put together again.
use formaldehyde.Prelude.{
  ℕ, ◌+◌, ◌≡◌, refl, sym, ap, ◌∙◌, arith, false, List, [], ◌∷◌, ◌++◌, contains,
}
use mathlib.Core.List.{append_assoc, append-nil}
use formaldehyde.Web.Annotate.{
  Frags, FragState, pre, in_value, post_open, post, is_mark, cut, take_byte, frag_loop, find_frags,
}

-- A mark: the text before it, the value that it encloses, and its index in digits.
pub record Mark : Type 0 where
  pub before : List ℕ
  pub value : List ℕ
  pub index : List ℕ

-- The text before has no opening brace, the value no closing one, and the index no parenthesis.
abbrev pub IsClean : Mark → Type 0
IsClean m =
    (contains m.before b'{' ≡ false)
    × (contains m.value b'}' ≡ false)
    × (contains m.index b')' ≡ false)

abbrev pub AllClean : List Mark → Type 0
AllClean [] = Unit
AllClean (m ∷ ms) = IsClean m × AllClean ms

-- One mark as the annotator writes it, `before{{value}}(index)`, and what follows.
abbrev pub print_mark : Mark → List ℕ → List ℕ
print_mark m ys = m.before ++ b'{' ∷ b'{' ∷ (m.value ++ b'}' ∷ b'}' ∷ b'(' ∷ (m.index ++ b')' ∷ ys))

unfoldable pub print_marks : List Mark → List ℕ → List ℕ
print_marks [] rest = rest
print_marks (m ∷ ms) rest = print_mark m (print_marks ms rest)

unfoldable pub mark_frags : List Mark → List (List ℕ)
mark_frags [] = []
mark_frags (m ∷ ms) = m.before ∷ m.value ∷ mark_frags ms

unfoldable pub mark_specials : ℕ → List Mark → List (ℕ × ℕ)
mark_specials c [] = []
mark_specials c (m ∷ ms) = (c + 1, 0) ∷ mark_specials (c + 2) ms

-- A byte that begins no mark.
frag_loop-byte :
    (b : ℕ) (rest : List ℕ) (s : Frags)
    → ((c : ℕ) → is_mark s.state b c ≡ false)
    → frag_loop (b ∷ rest) s ≡ frag_loop rest (take_byte b s)
unfolding frag_loop
frag_loop-byte b [] s h = refl
frag_loop-byte b (c ∷ rest) s h = ground (arith, h c)

module _ (frags : List (List ℕ)) (special : List (ℕ × ℕ)) (n : ℕ) where
  abbrev scan : FragState → List ℕ → Frags
  scan state ab = record { state = state; frags = frags; special = special; fragc = n; ab = ab }

  frag_loop-text :
      (xs ys ab : List ℕ)
      → contains xs b'{' ≡ false
      → frag_loop (xs ++ ys) (scan pre ab) ≡ frag_loop ys (scan pre (ab ++ xs))
  unfolding is_mark take_byte
  frag_loop-text [] ys ab h = ap (λ (a : List ℕ). frag_loop ys (scan pre a)) (sym (append-nil ab))
  frag_loop-text (x ∷ xs) ys ab h =
      frag_loop-byte x (xs ++ ys) (scan pre ab) (λ c. ground (arith, h))
      ∙ (frag_loop-text xs ys (ab ++ x ∷ []) (ground (arith, h))
          ∙ ap (λ (a : List ℕ). frag_loop ys (scan pre a)) (append_assoc ab (x ∷ []) xs))

  frag_loop-value :
      (xs ys ab : List ℕ)
      → contains xs b'}' ≡ false
      → frag_loop (xs ++ ys) (scan in_value ab) ≡ frag_loop ys (scan in_value (ab ++ xs))
  unfolding is_mark take_byte
  frag_loop-value [] ys ab h =
      ap (λ (a : List ℕ). frag_loop ys (scan in_value a)) (sym (append-nil ab))
  frag_loop-value (x ∷ xs) ys ab h =
      frag_loop-byte x (xs ++ ys) (scan in_value ab) (λ c. ground (arith, h))
      ∙ (frag_loop-value xs ys (ab ++ x ∷ []) (ground (arith, h))
          ∙ ap (λ (a : List ℕ). frag_loop ys (scan in_value a)) (append_assoc ab (x ∷ []) xs))

  frag_loop-index :
      (xs ys ab : List ℕ)
      → contains xs b')' ≡ false
      → frag_loop (xs ++ b')' ∷ ys) (scan post ab) ≡ frag_loop ys (scan pre ab)
  unfolding is_mark take_byte
  frag_loop-index [] ys ab h = frag_loop-byte b')' ys (scan post ab) (λ c. refl)
  frag_loop-index (x ∷ xs) ys ab h =
      frag_loop-byte x (xs ++ b')' ∷ ys) (scan post ab) (λ c. refl)
      ∙ (ap (frag_loop (xs ++ b')' ∷ ys)) ground (arith, h)
          ∙ frag_loop-index xs ys ab (ground (arith, h)))

-- One mark, from the text before it on.
frag_loop-mark :
    (frags : List (List ℕ)) (special : List (ℕ × ℕ)) (n : ℕ) (m : Mark) (ys : List ℕ)
    → IsClean m
    → frag_loop (print_mark m ys) (scan frags special n pre [])
      ≡ frag_loop ys (
          scan
            ((frags ++ m.before ∷ []) ++ m.value ∷ [])
            (special ++ (n + 1, 0) ∷ [])
            (n + 1 + 1)
            pre
            [])
unfolding frag_loop cut is_mark take_byte
frag_loop-mark frags special n m ys (a, b, c) =
    frag_loop-text frags special n m.before _ [] a
    ∙ (frag_loop-value (frags ++ m.before ∷ []) special (n + 1) m.value _ [] b
        ∙ (frag_loop-byte b'(' (m.index ++ b')' ∷ ys)
              (scan ((frags ++ m.before ∷ []) ++ m.value ∷ []) (special ++ (n + 1, 0) ∷ [])
                (n + 1 + 1) post_open [])
              (λ c. refl)
            ∙ frag_loop-index ((frags ++ m.before ∷ []) ++ m.value ∷ [])
                (special ++ (n + 1, 0) ∷ []) (n + 1 + 1) m.index ys [] c))

frag_loop-tail :
    (frags : List (List ℕ)) (special : List (ℕ × ℕ)) (n : ℕ) (rest : List ℕ)
    → contains rest b'{' ≡ false
    → frag_loop rest (scan frags special n pre []) ≡ scan frags special n pre rest
unfolding frag_loop
frag_loop-tail frags special n rest r =
    ap (λ (xs : List ℕ). frag_loop xs (scan frags special n pre [])) (sym (append-nil rest))
    ∙ frag_loop-text frags special n rest [] [] r

frag_loop-marks :
    (frags : List (List ℕ)) (special : List (ℕ × ℕ)) (n : ℕ) (ms : List Mark) (rest : List ℕ)
    → AllClean ms
    → contains rest b'{' ≡ false
    → let s = frag_loop (print_marks ms rest) (scan frags special n pre []) in
      (s.frags ≡ frags ++ mark_frags ms) × (s.special ≡ special ++ mark_specials n ms)
unfolding print_marks mark_frags mark_specials
frag_loop-marks frags special n [] rest h r =
    rw (frag_loop-tail frags special n rest r) ((sym (append-nil frags), sym (append-nil special)))
frag_loop-marks frags special n (m ∷ ms) rest (h, hs) r =
    let (e, e') =
      frag_loop-marks ((frags ++ m.before ∷ []) ++ m.value ∷ []) (special ++ (n + 1, 0) ∷ [])
        (n + 1 + 1) ms rest hs r in
    rw (frag_loop-mark frags special n m (print_marks ms rest) h) (
      (
        e
            ∙ (append_assoc (frags ++ m.before ∷ []) (m.value ∷ []) (mark_frags ms)
                ∙ append_assoc frags (m.before ∷ []) (m.value ∷ mark_frags ms)),
        e'
            ∙ (append_assoc special ((n + 1, 0) ∷ []) (mark_specials (n + 1 + 1) ms)
                ∙ ap (λ (k : ℕ). special ++ (n + 1, 0) ∷ mark_specials k ms) (omega arith)),
      ))

-- If no text before a mark has an opening brace, no value a closing one, no index a closing
-- parenthesis, and no opening brace follows the last mark, then reading a marked text back gives the
-- texts before the marks and the values, in turn; the values are the special fragments; every rule
-- index is 0, whatever the text says; and what follows the last mark is in no fragment.
pub find_frags-print :
    (ms : List Mark) (rest : List ℕ)
    → AllClean ms
    → contains rest b'{' ≡ false
    → find_frags (print_marks ms rest) ≡ (mark_frags ms, mark_specials 0 ms)
unfolding find_frags
find_frags-print ms rest h r = let (e, e') = frag_loop-marks [] [] 0 ms rest h r in cc
