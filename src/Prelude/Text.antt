-- ===== src/Prelude/Text.antt =====
-- Text as the list of its code points, which are its bytes where it is ASCII.
use Prim.Native.Char.{code}
use Prim.Native.Nat.{ℕ, ◌<◌}
use Prim.Native.String.{String}
use mathlib.Core.Path.{◌≡◌, refl}
use mathlib.Core.Bool.{Bool, true, false, ◌&&◌, ◌||◌}
use mathlib.Core.List.{List, [], ◌∷◌, ◌++◌}
use native.Mathlib.Omega.{arith}
use formaldehyde.Prelude.Tests.{if◌then◌else◌, ◌==◌, ltb}

abbrev pub codes : String → List ℕ
codes String.[] = []
codes (String.◌∷◌ c s) = code c ∷ codes s

-- Is the code point `c` in the text?
abbrev pub contains : List ℕ → ℕ → Bool
contains [] c = false
contains (x ∷ xs) c = x == c || contains xs c

abbrev pub is_ascii : List ℕ → Bool
is_ascii [] = true
is_ascii (x ∷ xs) = ltb x 128 && is_ascii xs

pub contains-lt : (xs : List ℕ) (c : ℕ) → is_ascii xs ≡ true → contains xs c ≡ true → c < 128
contains-lt [] c a h = cc
contains-lt (x ∷ xs) c a h = ground (arith, contains-lt xs c)

pub contains-append_left :
    (xs ys : List ℕ) (c : ℕ) → contains xs c ≡ true → contains (xs ++ ys) c ≡ true
contains-append_left [] ys c h = cc
contains-append_left (x ∷ xs) ys c h = ground (arith, contains-append_left xs ys c)

-- Are two texts equal?
abbrev pub same_text : List ℕ → List ℕ → Bool
same_text [] [] = true
same_text [] (y ∷ ys) = false
same_text (x ∷ xs) [] = false
same_text (x ∷ xs) (y ∷ ys) = x == y && same_text xs ys

pub same_text-eq : (xs ys : List ℕ) → same_text xs ys ≡ true → xs ≡ ys
same_text-eq [] [] h = refl
same_text-eq [] (y ∷ ys) h = cc
same_text-eq (x ∷ xs) [] h = cc
same_text-eq (x ∷ xs) (y ∷ ys) h = ground (arith, same_text-eq xs ys)

pub same_text_refl : (xs : List ℕ) → same_text xs xs ≡ true
same_text_refl [] = refl
same_text_refl (x ∷ xs) = ground (arith, same_text_refl xs)

-- `strings.Split(input, string(sep))` of a single character.
abbrev pub split : ℕ → List ℕ → List (List ℕ)
split sep [] = [] ∷ []
split sep (c ∷ cs) =
    let rest = split sep cs in
    if c == sep
    then [] ∷ rest
    else elim rest [ [] ↦ (c ∷ []) ∷ [] | part ∷ parts ↦ (c ∷ part) ∷ parts ]

-- A text without the separator, before one and alone.
pub split-append :
    (sep : ℕ) (xs ys : List ℕ)
    → contains xs sep ≡ false
    → split sep (xs ++ sep ∷ ys) ≡ xs ∷ split sep ys
split-append sep [] ys h = ground arith
split-append sep (x ∷ xs) ys h = ground (arith, h, split-append sep xs ys)

pub split-single : (sep : ℕ) (xs : List ℕ) → contains xs sep ≡ false → split sep xs ≡ xs ∷ []
split-single sep [] h = refl
split-single sep (x ∷ xs) h = ground (arith, h, split-single sep xs)
