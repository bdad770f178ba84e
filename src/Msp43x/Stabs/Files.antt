-- ===== src/Msp43x/Stabs/Files.antt =====
-- Every stab names a file.
use formaldehyde.Prelude.{
  ℕ, ◌+◌, ◌%◌, ◌^◌, ◌<◌, ◌≤◌, ◌≡◌, refl, arith, ℤ, ◌==◌, List, [], ◌∷◌, Option, none, some, length,
  update, u16_of, same_text, same_text-eq, Bool-cases, inl, inr,
}
use formaldehyde.Msp43x.Stabs.{
  Stab, Stabs, find_file, put_stab, number_file, add_stab, read_match, read_line, read_lines,
  read_stabs,
}

-- The number of a file that has been given out: below the next one, and with a name.
abbrev pub IsFile : ℕ → (ℕ → Option (List ℕ)) → ℕ → List ℕ → Type 0
IsFile maxfile files id name = (id < maxfile) × (files id ≡ some name)

abbrev pub AllFiles : ℕ → (ℕ → Option (List ℕ)) → List (List ℕ × ℕ) → Type 0
AllFiles maxfile files [] = Unit
AllFiles maxfile files ((name, id) ∷ m) = IsFile maxfile files id name × AllFiles maxfile files m

abbrev pub AllNamed : ℕ → (ℕ → Option (List ℕ)) → List (ℕ × Stab) → Type 0
AllNamed maxfile files [] = Unit
AllNamed maxfile files ((a, s) ∷ m) =
    ((name : List ℕ) × IsFile maxfile files s.file name) × AllNamed maxfile files m

-- Every name has its number, and every stab a number with a name.
abbrev pub IsNumbered : Stabs → Type 0
IsNumbered s = AllFiles s.maxfile s.files s.files_rev × AllNamed s.maxfile s.files s.stabs

module _ (maxfile : ℕ) (files : ℕ → Option (List ℕ)) where
  IsFile-find :
      (name : List ℕ) (id : ℕ) (m : List (List ℕ × ℕ))
      → AllFiles maxfile files m
      → find_file name m ≡ some id
      → IsFile maxfile files id name
  unfolding find_file
  IsFile-find name id [] h e = cc
  IsFile-find name id ((n, i) ∷ m) ((l, f), h) e = elim (Bool-cases (same_text n name)) [
    | inl y ↦ let e' = same_text-eq n name y in ground arith
    | inr other ↦ let rest = IsFile-find name id m h in ground arith
  ]

  AllNamed-put :
      (addr : ℕ) (t : Stab) (name : List ℕ) (m : List (ℕ × Stab))
      → IsFile maxfile files t.file name
      → AllNamed maxfile files m
      → AllNamed maxfile files (put_stab addr t m)
  unfolding put_stab
  AllNamed-put addr t name [] f h = ((name, f), tt)
  AllNamed-put addr t name ((a, s) ∷ m) f (g, h) =
      let rest = AllNamed-put addr t name m f h in
      elim (Bool-cases (a == addr)) [ inl y ↦ rw y ((name, f), h) | inr other ↦ rw other (g, rest) ]

  -- A new file changes no other number.
  module _ (new : List ℕ) (n : ℕ) (above : maxfile < n) where
    IsFile-new :
        (name : List ℕ) (id : ℕ)
        → IsFile maxfile files id name
        → IsFile n (update files maxfile (some new)) id name
    IsFile-new name id (l, f) = (omega (arith, l, above), ground (arith, l, f))

    AllFiles-new :
        (m : List (List ℕ × ℕ))
        → AllFiles maxfile files m
        → AllFiles n (update files maxfile (some new)) m
    AllFiles-new [] h = tt
    AllFiles-new ((name, id) ∷ m) (f, h) = (IsFile-new name id f, AllFiles-new m h)

    AllNamed-new :
        (m : List (ℕ × Stab))
        → AllNamed maxfile files m
        → AllNamed n (update files maxfile (some new)) m
    AllNamed-new [] h = tt
    AllNamed-new ((a, s) ∷ m) ((name, f), h) = ((name, IsFile-new name s.file f), AllNamed-new m h)

-- After a line: the maps are in order, and at most one number has been given out.
abbrev Follows : Stabs → Stabs → Type 0
Follows s t = IsNumbered t × (t.maxfile ≤ s.maxfile + 1)

next_number : (n : ℕ) → n + 1 < 2 ^ 64 → (n + 1) % 2 ^ 64 ≡ n + 1
next_number n h = omega (arith, h)

number_file-IsNumbered :
    (o : Option ℕ) (name : List ℕ) (s : Stabs)
    → find_file name s.files_rev ≡ o
    → IsNumbered s
    → s.maxfile + 1 < 2 ^ 64
    → let (id, t) = number_file o name s in Follows s t × IsFile t.maxfile t.files id name
unfolding number_file
number_file-IsNumbered (some id) name s e (h, k) b =
    (((h, k), omega arith), IsFile-find s.maxfile s.files name id s.files_rev h e)
number_file-IsNumbered none name s e (h, k) b =
    let n : ℕ = (s.maxfile + 1) % 2 ^ 64 in
    let above : s.maxfile < n = omega (arith, next_number s.maxfile b) in
    let own : IsFile n (update s.files s.maxfile (some name)) s.maxfile name =
      (above, ground arith) in
    (
      (
        (
          (own, AllFiles-new s.maxfile s.files name n above s.files_rev h),
          AllNamed-new s.maxfile s.files name n above s.stabs k,
        ),
        omega (arith, next_number s.maxfile b),
      ),
      own,
    )

add_stab-IsNumbered :
    (name : List ℕ) (line addr : ℤ) (s : Stabs)
    → IsNumbered s
    → s.maxfile + 1 < 2 ^ 64
    → Follows s (add_stab name line addr s)
unfolding add_stab
add_stab-IsNumbered name line addr s h b =
    let (((f, k), l), i) = number_file-IsNumbered (find_file name s.files_rev) name s refl h b in
    ((f, AllNamed-put _ _ (u16_of addr) _ name _ i k), l)

read_match-IsNumbered :
    (name : List ℕ) (line addr : Option ℤ) (s : Stabs)
    → IsNumbered s
    → s.maxfile + 1 < 2 ^ 64
    → Follows s (read_match name line addr s)
unfolding read_match
read_match-IsNumbered name (some line) (some addr) s h b = add_stab-IsNumbered name line addr s h b
read_match-IsNumbered name none addr s h b = (h, omega arith)
read_match-IsNumbered name (some line) none s h b = (h, omega arith)

module _ (match_line : List ℕ → Option (List ℕ × (List ℕ × List ℕ)))
    (parse_int : List ℕ → Option ℤ) where
  read_line-IsNumbered :
      (o : Option (List ℕ × (List ℕ × List ℕ))) (s : Stabs)
      → IsNumbered s
      → s.maxfile + 1 < 2 ^ 64
      → Follows s (read_line match_line parse_int o s)
  unfolding read_line
  read_line-IsNumbered none s h b = (h, omega arith)
  read_line-IsNumbered (some (name, (line, addr))) s h b =
      read_match-IsNumbered name (parse_int line) (parse_int addr) s h b

  read_lines-IsNumbered :
      (ls : List (List ℕ)) (s : Stabs)
      → IsNumbered s
      → s.maxfile + length ls < 2 ^ 64
      → IsNumbered (read_lines match_line parse_int ls s)
  unfolding read_lines
  read_lines-IsNumbered [] s h b = h
  read_lines-IsNumbered (l ∷ ls) s h b =
      let (h', k) = read_line-IsNumbered (match_line l) s h (omega (arith, b)) in
      read_lines-IsNumbered ls (read_line match_line parse_int (match_line l) s) h'
        (omega (arith, k, b))

  -- After `ReadStabs`, whatever the lines are and whatever was read before, every file name has a
  -- number that leads back to it, and the file of every stab has a name, if fewer than 2^64 numbers
  -- can have been given out.
  pub read_stabs-IsNumbered :
      (ls : List (List ℕ)) (s : Stabs)
      → s.maxfile + length ls < 2 ^ 64
      → IsNumbered (read_stabs match_line parse_int ls s).1
  unfolding read_stabs
  read_stabs-IsNumbered ls s b =
      read_lines-IsNumbered ls (record s { files = λ id. none; files_rev = []; stabs = [] })
        (tt, tt) b
