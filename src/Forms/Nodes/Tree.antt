-- ===== src/Forms/Nodes/Tree.antt =====
-- What the parser of forms keeps of its nodes: they are a tree under node 0, with the kinds that belong
-- there.
pub mod Growing
use formaldehyde.Prelude.{
  ℕ, zero, suc, ◌+◌, ◌==◌, ◌≤◌, ◌<◌, ◌≡◌, ◌≢◌, refl, sym, ap, ◌∙◌, arith, Bool, true, false, List,
  [], ◌∷◌, ◌++◌, Option, none, some, update, Bool-cases, inl, inr,
}
use mathlib.Core.Path.{subst}
use formaldehyde.Forms.Nodes.{Kind, Node}

-- What stands where in a tree: the document, pages, what holds nothing, fields, which may hold
-- selections, and those. The parser makes no label.
pub data Class : Type 0 where
  root page leaf input choice unused : Class

abbrev pub class_of : Kind → Class
class_of Kind.document = root
class_of Kind.label = unused
class_of Kind.heading = leaf
class_of Kind.text = leaf
class_of Kind.field = input
class_of Kind.page = page
class_of Kind.text_field = input
class_of Kind.radio_field = input
class_of Kind.check_field = input
class_of Kind.drop_field = input
class_of Kind.selection = choice
class_of Kind.button = leaf
class_of Kind.number_field = input
class_of Kind.switch_field = input

-- May a node hold a node?
abbrev pub fits : Class → Class → Bool
fits root page = true
fits root leaf = true
fits root input = true
fits page leaf = true
fits page input = true
fits input choice = true
fits _ _ = false

abbrev pub is_rest : Class → Bool
is_rest root = true
is_rest page = true
is_rest _ = false

-- The kind of a field before what follows it is known.
abbrev pub is_open : Kind → Bool
is_open Kind.field = true
is_open _ = false

abbrev pub HasMap : {A : Type 0} → Option A → Type 0
HasMap none = ⊥
HasMap (some attrs) = Unit

module _ (nodes : ℕ → Node) where
  abbrev pub class_at : ℕ → Class
  class_at id = class_of (nodes id).kind

  -- A node above holds it, and has a smaller number.
  abbrev pub ParentFits : ℕ → Option ℕ → Type 0
  ParentFits id none = ⊥
  ParentFits id (some q) = (q < id) × (fits (class_at q) (class_at id) ≡ true)

  abbrev pub IsBelow : ℕ → Type 0
  IsBelow id = ParentFits id (nodes id).parent × HasMap (nodes id).attrs

  -- The nodes of a list fit below a class.
  abbrev pub AllFit : ℕ → Class → List ℕ → Type 0
  AllFit count cls [] = Unit
  AllFit count cls (c ∷ cs) = (c < count) × (fits cls (class_at c) ≡ true) × AllFit count cls cs

-- The state of the store: `current` is in use, all but the document are below a node, the children of
-- each node fit below it, and no node but the current one is a field of unknown kind.
pub record IsTree (nodes : ℕ → Node) (count current : ℕ) : Type 0 where
  pub in_use : current < count
  pub top : (nodes 0).kind ≡ Kind.document
  pub top_parent : (nodes 0).parent ≡ none
  pub below : (id : ℕ) → 0 < id → id < count → IsBelow nodes id
  pub children_fit :
      (id : ℕ) → id < count → AllFit nodes count (class_at nodes id) (nodes id).children
  pub one_open : (id : ℕ) → id < count → is_open (nodes id).kind ≡ true → id ≡ current

-- The nodes in use keep their classes.
abbrev pub SameClasses : ℕ → (ℕ → Node) → (ℕ → Node) → Type 0
SameClasses count nodes nodes' = (id : ℕ) → id < count → class_at nodes' id ≡ class_at nodes id

AllFit-grows :
    (nodes nodes' : ℕ → Node) (count count' : ℕ) (cls : Class) (cs : List ℕ)
    → SameClasses count nodes nodes'
    → count ≤ count'
    → AllFit nodes count cls cs
    → AllFit nodes' count' cls cs
AllFit-grows nodes nodes' count count' cls [] s le h = tt
AllFit-grows nodes nodes' count count' cls (c ∷ cs) s le (l, f, h) = (
  omega (arith, l, le),
  ap (fits cls) (s c l) ∙ f,
  AllFit-grows nodes nodes' count count' cls cs s le h,
)

AllFit-last :
    (nodes : ℕ → Node) (count : ℕ) (cls : Class) (cs : List ℕ) (c : ℕ)
    → AllFit nodes count cls cs
    → c < count
    → fits cls (class_at nodes c) ≡ true
    → AllFit nodes count cls (cs ++ c ∷ [])
AllFit-last nodes count cls [] c h l f = (l, f, tt)
AllFit-last nodes count cls (d ∷ cs) c (m, g, h) l f =
    (m, g, AllFit-last nodes count cls cs c h l f)

ParentFits-grows :
    (nodes nodes' : ℕ → Node) (count id : ℕ) (parent : Option ℕ)
    → SameClasses count nodes nodes'
    → id < count
    → ParentFits nodes id parent
    → ParentFits nodes' id parent
ParentFits-grows nodes nodes' count id none s l h = absurd h
ParentFits-grows nodes nodes' count id (some q) s l (b, f) =
    (b, rw (s q (omega (arith, b, l)), s id l) f)

class_root : (k : Kind) → class_of k ≡ root → k ≡ Kind.document
class_root Kind.document h = refl
class_root k h = cc

HasMap-same : {A : Type 0} (a b : Option A) → a ≡ b → HasMap a → HasMap b
HasMap-same a b e h = subst HasMap e h

IsBelow-grows :
    (nodes nodes' : ℕ → Node) (count id : ℕ)
    → SameClasses count nodes nodes'
    → id < count
    → (nodes' id).parent ≡ (nodes id).parent
    → HasMap (nodes' id).attrs
    → IsBelow nodes id
    → IsBelow nodes' id
IsBelow-grows nodes nodes' count id s l e a (f, m) = (
  subst (ParentFits nodes' id) (sym e)
      (ParentFits-grows nodes nodes' count id (nodes id).parent s l f),
  a,
)

pub update_same : {A : Type 0} (f : ℕ → A) (k : ℕ) (v : A) → update f k v k ≡ v
update_same f k v = ground arith

pub eq_of_test : (a b : ℕ) → (a == b) ≡ true → a ≡ b
eq_of_test a b h = ground arith

-- A change of the current node that keeps its class, its parent and a map, and leaves children that fit.
module _ {nodes : ℕ → Node} {count current : ℕ} (t : IsTree nodes count current) (n : Node)
    (same_class : class_of n.kind ≡ class_at nodes current)
    (same_parent : n.parent ≡ (nodes current).parent) (map : 0 < current → HasMap n.attrs)
    (fit : AllFit nodes count (class_at nodes current) n.children) where
  abbrev changed : ℕ → Node
  changed = update nodes current n

  changed-SameClasses : SameClasses count nodes changed
  changed-SameClasses id l = ground (arith, same_class)

  changed-parent : (id : ℕ) → (changed id).parent ≡ (nodes id).parent
  changed-parent id = ground (arith, same_parent)

  changed-HasMap : (id : ℕ) → 0 < id → HasMap (nodes id).attrs → HasMap (changed id).attrs
  changed-HasMap id p h = elim (Bool-cases (id == current)) [
    | inl e ↦ rw e (map (omega (arith, eq_of_test id current e, p)))
    | inr e ↦ rw e h
  ]

  changed-AllFit :
      (id : ℕ) → id < count → AllFit changed count (class_at changed id) (changed id).children
  changed-AllFit id l = elim (Bool-cases (id == current)) [
    | inl e ↦
        rw (e, same_class)
          (AllFit-grows nodes changed count count (class_at nodes current) n.children
            changed-SameClasses (omega arith) fit)
    | inr e ↦ rw e (
        AllFit-grows nodes changed count count (class_at nodes id) (nodes id).children
          changed-SameClasses (omega arith) (t.children_fit id l))
  ]

  pub change-IsTree : IsTree changed count current
  change-IsTree = record {
    in_use = t.in_use;
    top =
        class_root (changed 0).kind
          (changed-SameClasses 0 (omega (arith, t.in_use)) ∙ ap class_of t.top);
    top_parent = changed-parent 0 ∙ t.top_parent;
    below = λ id p l.
        IsBelow-grows nodes changed count id changed-SameClasses l (changed-parent id)
          (changed-HasMap id p (t.below id p l).1) (t.below id p l);
    children_fit = changed-AllFit;
    one_open = λ id l o. elim (Bool-cases (id == current)) [
      | inl e ↦ eq_of_test id current e
      | inr e ↦ t.one_open id l (rw e at o)
    ];
  }

-- The node above is entered, if the current one is of a known kind.
pub leave-IsTree :
    {nodes : ℕ → Node} {count current : ℕ} (q : ℕ)
    → IsTree nodes count current
    → is_open (nodes current).kind ≡ false
    → q < count
    → IsTree nodes count q
leave-IsTree {nodes} q t known l = record {
  in_use = l;
  top = t.top;
  top_parent = t.top_parent;
  below = t.below;
  children_fit = t.children_fit;
  one_open = λ id k o. cc (ap (λ (i : ℕ). is_open (nodes i).kind) (t.one_open id k o));
}

-- Only the document is a root.
pub current-pos :
    {nodes : ℕ → Node} {count current : ℕ}
    → IsTree nodes count current
    → class_at nodes current ≢ root
    → 0 < current
current-pos {nodes} {count} {current = zero} t h = absurd (h (ap class_of t.top))
current-pos {nodes} {count} {current = suc above} t h = omega arith
