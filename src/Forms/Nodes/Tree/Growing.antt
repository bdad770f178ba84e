-- ===== src/Forms/Nodes/Tree/Growing.antt =====
-- The tree of nodes of a form grows by a node below the current one.
use formaldehyde.Prelude.{
  ℕ, ◌+◌, ◌==◌, ◌<◌, ◌≡◌, sym, ap, ◌∙◌, arith, true, false, [], ◌∷◌, ◌++◌, none, some, update,
  Bool-cases, inl, inr,
}
use mathlib.Core.Path.{subst}
use formaldehyde.Forms.Nodes.{Kind, Node}
use formaldehyde.Forms.Nodes.Tree.{
  class_of, fits, is_open, HasMap, SameClasses, AllFit-grows, AllFit-last, HasMap-same,
  IsBelow-grows, update_same, eq_of_test, class_at, ParentFits, IsBelow, AllFit, IsTree,
}

-- A new node below the current one.
module _ {nodes : ℕ → Node} {count current : ℕ} (t : IsTree nodes count current) (n : Node)
    (below_current : n.parent ≡ some current)
    (fitting : fits (class_at nodes current) (class_of n.kind) ≡ true)
    (no_children : n.children ≡ []) (map : HasMap n.attrs) where
  abbrev pub own : Node
  own = record (nodes current) { children = (nodes current).children ++ count ∷ [] }

  abbrev pub added : ℕ → Node
  added = update (update nodes current own) count n

  pub added-SameClasses : SameClasses count nodes added
  added-SameClasses id l = ground arith

  added-parent : (id : ℕ) → id < count → (added id).parent ≡ (nodes id).parent
  added-parent id l = ground arith

  added-attrs : (id : ℕ) → id < count → (added id).attrs ≡ (nodes id).attrs
  added-attrs id l = ground arith

  pub added-kind : (id : ℕ) → id < count → (added id).kind ≡ (nodes id).kind
  added-kind id l = ground arith

  pub added-new : added count ≡ n
  added-new = update_same (update nodes current own) count n

  new-fits : fits (class_at added current) (class_at added count) ≡ true
  new-fits =
      rw (added-SameClasses current t.in_use, ap (λ (m : Node). class_of m.kind) added-new) fitting

  new-below : ParentFits added count n.parent × HasMap n.attrs
  new-below = (subst (ParentFits added count) (sym below_current) (t.in_use, new-fits), map)

  old-AllFit :
      (id : ℕ) → id < count → AllFit added (count + 1) (class_at nodes id) (nodes id).children
  old-AllFit id l =
      AllFit-grows nodes added count (count + 1) (class_at nodes id) (nodes id).children
        added-SameClasses (omega arith) (t.children_fit id l)

  added-below : (id : ℕ) → 0 < id → id < count + 1 → IsBelow added id
  added-below id p l = elim (Bool-cases (id == count)) [
    | inl e ↦ let same = eq_of_test id count e in rw (same, added-new) new-below
    | inr e ↦
        let old : id < count = ground (arith, e, l) in
        IsBelow-grows nodes added count id added-SameClasses old (added-parent id old)
          (HasMap-same (nodes id).attrs (added id).attrs (sym (added-attrs id old))
            (t.below id p old).1)
          (t.below id p old)
  ]

  added-children :
      (id : ℕ) → id < count → (id == current) ≡ false → (added id).children ≡ (nodes id).children
  added-children id l e = ground arith

  added-children_own : (added current).children ≡ (nodes current).children ++ count ∷ []
  added-children_own = ground (arith, t.in_use)

  new-AllFit : AllFit added (count + 1) (class_at nodes current) (added current).children
  new-AllFit = subst (AllFit added (count + 1) (class_at nodes current)) (sym added-children_own) (
      AllFit-last added (count + 1) (class_at nodes current) (nodes current).children count
        (old-AllFit current t.in_use) (omega arith)
        (ap (λ (m : Node). fits (class_at nodes current) (class_of m.kind)) added-new ∙ fitting))

  added-AllFit_old :
      (id : ℕ) → id < count → AllFit added (count + 1) (class_at nodes id) (added id).children
  added-AllFit_old id l = elim (Bool-cases (id == current)) [
    | inl e ↦ rw (eq_of_test id current e) new-AllFit
    | inr e ↦
        subst (AllFit added (count + 1) (class_at nodes id)) (sym (added-children id l e))
          (old-AllFit id l)
  ]

  added-AllFit :
      (id : ℕ) → id < count + 1 → AllFit added (count + 1) (class_at added id) (added id).children
  added-AllFit id l = elim (Bool-cases (id == count)) [
    | inl e ↦ rw (eq_of_test id count e, added-new, no_children) tt
    | inr e ↦
        let old : id < count = ground (arith, e, l) in
        subst (λ c. AllFit added (count + 1) c (added id).children) (sym (added-SameClasses id old))
          (added-AllFit_old id old)
  ]

  added-top : (added 0).kind ≡ Kind.document
  added-top = added-kind 0 (omega (arith, t.in_use)) ∙ t.top

  added-top_parent : (added 0).parent ≡ none
  added-top_parent = added-parent 0 (omega (arith, t.in_use)) ∙ t.top_parent

  added-open_new : is_open (added count).kind ≡ is_open n.kind
  added-open_new = ap (λ (m : Node). is_open m.kind) added-new

  added-open :
      (id : ℕ)
      → id < count + 1
      → (id == count) ≡ false
      → is_open (added id).kind ≡ true
      → id ≡ current
  added-open id l e o =
      let old : id < count = ground (arith, e, l) in
      t.one_open id old (sym (ap is_open (added-kind id old)) ∙ o)

  -- The current node stays, if the new one is of a known kind.
  pub add-IsTree : is_open n.kind ≡ false → IsTree added (count + 1) current
  add-IsTree known = record {
    in_use = omega (arith, t.in_use);
    top = added-top;
    top_parent = added-top_parent;
    below = added-below;
    children_fit = added-AllFit;
    one_open = λ id l o. elim (Bool-cases (id == count)) [
      | inl e ↦ cc (ap (λ (i : ℕ). is_open (added i).kind) (eq_of_test id count e), added-open_new)
      | inr e ↦ added-open id l e o
    ];
  }

  -- The new node is entered, if the current one is of a known kind.
  pub enter-IsTree : is_open (nodes current).kind ≡ false → IsTree added (count + 1) count
  enter-IsTree known = record {
    in_use = omega arith;
    top = added-top;
    top_parent = added-top_parent;
    below = added-below;
    children_fit = added-AllFit;
    one_open = λ id l o. elim (Bool-cases (id == count)) [
      | inl e ↦ eq_of_test id count e
      | inr e ↦
          let same = added-open id l e o in
          cc (ap (λ (i : ℕ). is_open (added i).kind) same, ap is_open (added-kind current t.in_use))
    ];
  }
