-- ===== src/Forms/Print/Lines.antt =====
-- `String` of a form that is parsed ends: a form is four nodes deep at most.
use formaldehyde.Prelude.{ℕ, zero, suc, ◌+◌, ◌<◌, ◌≤◌, ◌≡◌, arith, true, List, [], ◌∷◌, ◌++◌}
use formaldehyde.Prelude.Partial.{Partial, done, ◌>>=◌, Finishes, Finishes-bind}
use formaldehyde.Forms.Nodes.{Attr, Node, Parser, Lexis}
use formaldehyde.Forms.Nodes.Tree.{Class, root, page, input, class_at, fits, IsTree, AllFit}
use formaldehyde.Forms.Parser.{parse}
use formaldehyde.Forms.Parser.Returns.{parse-Parsed}
use formaldehyde.Forms.Print.{node_line, print_all, string_rec, string}

-- How many nodes stand below one another, from a node of the class on.
abbrev pub deep : Class → ℕ
deep root = 4
deep page = 3
deep input = 2
deep _ = 1

fits-deep : (c d : Class) → fits c d ≡ true → deep d < deep c
fits-deep c d f = ground (arith, f)

deep-pos : (c : Class) → ¬ (deep c ≤ 0)
deep-pos c d = ground (arith, d)

deep-le : (c : Class) → deep c ≤ 4
deep-le c = ground arith

-- What is printed ends.
abbrev Ends : Partial (List ℕ) → Type 0
Ends = Finishes (λ out. Unit)

module _ (print_map : List (Attr × List ℕ) → List ℕ) (nodes : ℕ → Node) (count current : ℕ)
    (t : IsTree nodes count current) where
  print_all-Ends :
      (cls : Class) (print : ℕ → Partial (List ℕ)) (cs : List ℕ)
      → AllFit nodes count cls cs
      → ((c : ℕ) → c < count → fits cls (class_at nodes c) ≡ true → Ends (print c))
      → Ends (print_all print_map print cs)
  unfolding print_all
  print_all-Ends cls print [] f h = tt
  print_all-Ends cls print (c ∷ cs) (l, f, rest) h =
      Finishes-bind (λ line. Unit) (λ out. Unit) (print c)
        (λ line. print_all print_map print cs >>= λ rest'. done (line ++ rest')) (h c l f)
        (λ line _.
          Finishes-bind (λ rest'. Unit) (λ out. Unit) (print_all print_map print cs)
            (λ rest'. done (line ++ rest')) (print_all-Ends cls print cs rest h) (λ _ _. tt))

  string_rec-Ends :
      (fuel depth id : ℕ)
      → id < count
      → deep (class_at nodes id) ≤ fuel
      → Ends (string_rec print_map nodes fuel depth id)
  unfolding string_rec
  string_rec-Ends zero depth id l d = absurd (deep-pos (class_at nodes id) d)
  string_rec-Ends (suc fuel) depth id l d =
      Finishes-bind (λ kids. Unit) (λ out. Unit)
        (print_all print_map (string_rec print_map nodes fuel (depth + 1)) (nodes id).children)
        (λ kids. done (node_line print_map depth (nodes id) ++ kids))
        (print_all-Ends (class_at nodes id) (string_rec print_map nodes fuel (depth + 1))
          (nodes id).children (t.children_fit id l)
          (λ c b f.
            string_rec-Ends fuel (depth + 1) c b
              (omega (arith, d, fits-deep (class_at nodes id) (class_at nodes c) f))))
        (λ _ _. tt)

-- `String` ends for every form that `Parse` returns, with an error or without: there are at most four nodes below one another, the document with them.
pub string-Returns :
    {T : Type 0} (lx : Lexis T) (print_map : List (Attr × List ℕ) → List ℕ) (tokens : List T)
    (top : ℕ) (p : Parser T)
    → parse lx tokens ≡ done (top, p)
    → Finishes (λ out. Unit) (string print_map p.nodes top)
unfolding string
string-Returns lx print_map tokens top p e =
    let (z, t, q, rest) = parse-Parsed lx tokens (top, p) e in
    string_rec-Ends print_map p.nodes p.count p.current t 4 0 top (omega (arith, z, t.in_use))
      (deep-le (class_at p.nodes top))
