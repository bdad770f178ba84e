-- ===== src/Msp43x/Stabs.antt =====
-- src/newmadrid/msp43x/stabs.go: the lines of source files that addresses come from. The regular
-- expression, `strconv.ParseInt`, and the files on disk are parameters.
pub mod Files
use formaldehyde.Prelude.{
  ℕ, zero, suc, ◌+◌, ◌-◌, ◌%◌, ◌^◌, ℤ, pos, negsuc, ltb, ◌==◌, if◌then◌else◌, List, [], ◌∷◌, Option,
  none, some, length, get_elem?, update, u16_of, same_text,
}
use formaldehyde.Prelude.Partial.{Partial, done, panic}

pub record Stab : Type 0 where
  pub addr : ℕ
  pub file : ℕ
  pub line : ℤ

-- The maps from file names and from addresses are lists of pairs, since `ReadStabs` counts one.
pub record Stabs : Type 0 where
  pub maxfile : ℕ
  pub files : ℕ → Option (List ℕ)
  pub files_rev : List (List ℕ × ℕ)
  pub stabs : List (ℕ × Stab)

unfoldable pub find_file : List ℕ → List (List ℕ × ℕ) → Option ℕ
find_file name [] = none
find_file name ((n, id) ∷ m) =
    let rest = find_file name m in if same_text n name then some id else rest

unfoldable pub find_stab : ℕ → List (ℕ × Stab) → Option Stab
find_stab addr [] = none
find_stab addr ((a, s) ∷ m) = let rest = find_stab addr m in if a == addr then some s else rest

-- `stabs.stabs[addr] = …`.
unfoldable pub put_stab : ℕ → Stab → List (ℕ × Stab) → List (ℕ × Stab)
put_stab addr s [] = (addr, s) ∷ []
put_stab addr s ((a, t) ∷ m) =
    let rest = put_stab addr s m in if a == addr then (addr, s) ∷ m else (a, t) ∷ rest

-- The number of a file: a new name gets the next one, a `uint`.
unfoldable pub number_file : Option ℕ → List ℕ → Stabs → ℕ × Stabs
number_file (some id) name s = (id, s)
number_file none name s = (
  s.maxfile,
  record s {
    maxfile = (s.maxfile + 1) % 2 ^ 64;
    files = update s.files s.maxfile (some name);
    files_rev = (name, s.maxfile) ∷ s.files_rev;
  },
)

unfoldable pub add_stab : List ℕ → ℤ → ℤ → Stabs → Stabs
unfolding find_file number_file put_stab
add_stab name line addr s =
    let (id, s') = number_file (find_file name s.files_rev) name s in
    record s' {
      stabs =
          put_stab (u16_of addr) (record { addr = u16_of addr; file = id; line = line }) s'.stabs;
    }

-- What the loop does with a line that matches.
unfoldable pub read_match : List ℕ → Option ℤ → Option ℤ → Stabs → Stabs
read_match name (some line) (some addr) s = add_stab name line addr s
read_match name none addr s = s
read_match name (some line) none s = s

module _ (match_line : List ℕ → Option (List ℕ × (List ℕ × List ℕ)))
    (parse_int : List ℕ → Option ℤ) where
  unfoldable pub read_line : Option (List ℕ × (List ℕ × List ℕ)) → Stabs → Stabs
  unfolding read_match
  read_line none s = s
  read_line (some (name, (line, addr))) s = read_match name (parse_int line) (parse_int addr) s

  unfoldable pub read_lines : List (List ℕ) → Stabs → Stabs
  unfolding read_line
  read_lines [] s = s
  read_lines (l ∷ ls) s = read_lines ls (read_line (match_line l) s)

  -- `ReadStabs`, which keeps the last file number: the count, and the maps.
  unfoldable pub read_stabs : List (List ℕ) → Stabs → ℕ × Stabs
  read_stabs ls s =
      let s' = read_lines ls (record s { files = λ id. none; files_rev = []; stabs = [] }) in
      (length s'.stabs, s')

-- `LineAt`, with the lines of the file under the root. A line number below 1 that is found panics.
unfoldable pub line_of : ℤ → List (List ℕ) → Partial (List ℕ)
line_of (pos zero) ls = panic
line_of (negsuc n) ls = panic
line_of (pos (suc n)) ls = elim (get_elem? ls n) [ none ↦ done [] | some l ↦ done l ]

unfoldable pub line_at : (List ℕ → Option (List (List ℕ))) → ℕ → Stabs → Partial (List ℕ)
unfolding find_stab line_of
line_at lines addr s = elim (find_stab addr s.stabs) [
  | none ↦ done []
  | some t ↦ elim (s.files t.file) [
    | none ↦ done []
    | some path ↦ elim (lines path) [ none ↦ done [] | some ls ↦ line_of t.line ls ]
  ]
]
