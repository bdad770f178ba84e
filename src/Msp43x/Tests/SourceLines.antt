-- ===== src/Msp43x/Tests/SourceLines.antt =====
-- Stabs of two files, with a toy expression and toy numbers.
use formaldehyde.Prelude.{ℕ, ◌≡◌, refl, arith, ℤ, pos, List, [], ◌∷◌, Option, none, some, codes}
use formaldehyde.Prelude.Partial.{done}
use formaldehyde.Msp43x.Stabs.{
  Stabs, read_stabs, read_lines, read_line, read_match, add_stab, number_file, find_file, put_stab,
  find_stab, line_at, line_of,
}
use formaldehyde.Msp43x.Stabs.Files.{IsNumbered, read_stabs-IsNumbered}

-- A line is a file's letter, a line's digit and an address's digit.
abbrev match_line : List ℕ → Option (List ℕ × (List ℕ × List ℕ))
match_line (f ∷ l ∷ a ∷ []) = some (f ∷ [], (l ∷ [], a ∷ []))
match_line _ = none

abbrev parse_int : List ℕ → Option ℤ
parse_int (d ∷ []) = some (pos d)
parse_int _ = none

abbrev before : Stabs
before = record { maxfile = 5; files = λ id. none; files_rev = []; stabs = [] }

abbrev listing : List (List ℕ)
listing = (1 ∷ 1 ∷ 10 ∷ []) ∷ (2 ∷ 7 ∷ 20 ∷ []) ∷ [] ∷ (1 ∷ 2 ∷ 10 ∷ []) ∷ []

-- Two addresses are counted, and the later line counts for the first of them.
counted :
    ((read_stabs match_line parse_int listing before).0 ≡ 2)
    × (line_at
          (λ path. some (codes "one" ∷ codes "two" ∷ []))
          10
          (read_stabs match_line parse_int listing before).1
        ≡ done (codes "two"))
unfolding read_stabs read_lines read_line read_match add_stab number_file find_file put_stab line_at
    find_stab line_of
counted = (refl, refl)

read_stabs-IsNumbered_example : IsNumbered (read_stabs match_line parse_int listing before).1
read_stabs-IsNumbered_example =
    read_stabs-IsNumbered match_line parse_int listing before (omega arith)
