-- ===== src/Web/Tests/Annotating.antt =====
-- The annotator's marks on a small text.
use formaldehyde.Prelude.{◌≡◌, refl, List, [], ◌∷◌, codes}
use formaldehyde.Web.Annotate.{find_frags}
use formaldehyde.Web.Annotate.Laws.{
  Mark, AllClean, print_marks, mark_frags, mark_specials, find_frags-print,
}

-- `a={{1}}(0)&b={{2}}(1) H`.
abbrev marks : List Mark
marks =
    record { before = codes "a="; value = codes "1"; index = codes "0" }
    ∷ record { before = codes "&b="; value = codes "2"; index = codes "1" }
    ∷ []

marks-AllClean : AllClean marks
marks-AllClean = ((refl, refl, refl), ((refl, refl, refl), tt))

find_frags-print_example :
    find_frags (print_marks marks (codes " H")) ≡ (mark_frags marks, mark_specials 0 marks)
find_frags-print_example = find_frags-print marks (codes " H") marks-AllClean refl
