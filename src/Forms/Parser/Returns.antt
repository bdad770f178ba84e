-- ===== src/Forms/Parser/Returns.antt =====
-- `Parse` of a form returns for every text: it does not run for ever, and does not panic.
use formaldehyde.Prelude.{
  ℕ, zero, suc, ◌+◌, ◌-◌, ◌<◌, ◌≡◌, refl, sym, arith, true, false, List, Option, none, some, length,
  get_elem?,
}
use mathlib.Core.Path.{subst}
use formaldehyde.Prelude.Partial
use formaldehyde.Prelude.Partial.{Partial, done, panic, out_of_fuel, Finishes, Finishes-if}
use formaldehyde.Prelude.Process.{return, Finishes-then}
use formaldehyde.Forms.Nodes.{Node, Parser, Lexis, take_token, here, next}
use formaldehyde.Forms.Nodes.Tree.{IsTree, ParentFits}
use formaldehyde.Forms.Rounds.{on_code, each_token, go_on}
use formaldehyde.Forms.Parser.{document_token, document, new_parser, climb, parse}
use formaldehyde.Forms.Parser.Steps.{
  rounds_le, is_nesting, left, At, After, Keeps, Keeps-then, At-After, resting,
}
use formaldehyde.Forms.Parser.Moves.{Moves, Within}
use formaldehyde.Forms.Parser.Loops.{each_token-Keeps}
use formaldehyde.Forms.Parser.Total.{document_token-After}

module _ {T : Type 0} (lx : Lexis T) where
  next-At : (n : ℕ) (p : Parser T) → At resting n p → Keeps (At resting n) (next lx p)
  unfolding next
  next-At n p (t, q, i, d) = go (get_elem? p.tokens p.taken)
    where
      go : (o : Option T) → Keeps (At resting n) (done (take_token lx o p))
      go none = (t, q, i, d)
      go (some tok) =
          (t, q, i, rounds_le p.err n (length p.tokens - (p.taken + 1)) (left p) (omega arith) d)

  document-After : (fuel : ℕ) → Moves (Within fuel resting) (After resting) (document lx fuel)
  unfolding document
  document-After fuel = record {
    run = λ n p (l, h).
        Keeps-then (At resting n) (After resting n) (next lx)
          (each_token lx fuel (λ prev t. go_on (on_code lx (document_token lx fuel) t)) none) p
          (next-At n p h)
          (λ o p' h'.
            each_token-Keeps lx resting (λ prev t. go_on (on_code lx (document_token lx fuel) t)) n
              (λ m q prev t le e i.
                Finishes-then (λ r. After resting m r.1) (λ r. After resting m r.1)
                  (document_token lx fuel (lx.code t) t) (λ _. return true) q
                  ((document_token-After lx fuel (lx.code t) t).run m q (omega (arith, l, le), i))
                  (λ _ q' j. j))
              fuel n p' none o (omega arith) l (At-After resting n p' h'));
  }

  new_parser-At : (tokens : List T) → At resting (length tokens + 1) (new_parser tokens)
  new_parser-At tokens = (
    record {
      in_use = omega arith;
      top = refl;
      top_parent = refl;
      below = λ id p l. absurd (omega (arith, p, l));
      children_fit = λ id l. tt;
      one_open = λ id l o. absurd cc;
    },
    refl,
    refl,
    omega arith,
  )

-- From a node in use, the way up ends at the document.
climb-root :
    {nodes : ℕ → Node} {count current : ℕ}
    → IsTree nodes count current
    → (fuel id : ℕ) → id < fuel
    → id < count
    → climb fuel nodes id ≡ done 0
unfolding climb
climb-root t zero id l u = absurd (omega (arith, l))
climb-root {nodes} t (suc fuel) zero l u =
    subst (λ o. elim o as (λ _. Partial ℕ) [ none ↦ done 0 | some q ↦ climb fuel nodes q ] ≡ done 0)
      (sym t.top_parent) refl
climb-root {nodes} {count} t (suc fuel) (suc k) l u =
    go (nodes (suc k)).parent (t.below (suc k) (omega arith) u).0 (climb-root t fuel)
  where
    go :
        (parent : Option ℕ)
        → ParentFits nodes (suc k) parent
        → ((id : ℕ) → id < fuel → id < count → climb fuel nodes id ≡ done 0)
        → (elim parent [ none ↦ done (suc k) | some q ↦ climb fuel nodes q ]) ≡ done 0
    go none m known = absurd m
    go (some q) (lt, f) known = known q (omega (arith, lt, l)) (omega (arith, lt, u))

-- What is so of the root and of the parser's state at the end.
abbrev pub Parsed : {T : Type 0} → ℕ × Parser T → Type 0
Parsed (root, p) =
    (root ≡ 0)
    × IsTree p.nodes p.count p.current
    × (is_nesting p.err ≡ false)
    × (p.err ≡ none → resting (here p).kind ≡ true)

-- `Parse` returns the document for all tokens, with or without an error: its loops end, and no pointer is nil
-- where it is used. The nodes are a tree under the document, and the error is never that of nested pages. Without an error the current node at the end is a page or the document.
pub parse-Returns :
    {T : Type 0} (lx : Lexis T) (tokens : List T) → Finishes Parsed (parse lx tokens)
unfolding parse
parse-Returns {T} lx tokens = go (document lx (length tokens + 2) (new_parser tokens)) (
    (document-After lx (length tokens + 2)).run (length tokens + 1) (new_parser tokens)
      (omega arith, new_parser-At lx tokens))
  where
    go :
        (m : Partial (Unit {0} × Parser T))
        → Keeps (After resting (length tokens + 1)) m
        → Finishes Parsed (elim m [
          | panic ↦ panic
          | out_of_fuel ↦ out_of_fuel
          | done (_, p) ↦ Partial.◌>>=◌ (climb p.count p.nodes p.current) λ root. done (root, p)
        ])
    go panic h = h
    go out_of_fuel h = h
    go (done (_, p)) (t, q, k, d) =
        rw (climb-root t p.count p.current t.in_use t.in_use) (refl, t, q, k)

-- The same of a result of `Parse`.
pub parse-Parsed :
    {T : Type 0} (lx : Lexis T) (tokens : List T) (r : ℕ × Parser T)
    → parse lx tokens ≡ done r
    → Parsed r
parse-Parsed lx tokens r e = subst (Finishes Parsed) e (parse-Returns lx tokens)
