-- ===== src/Forms/Json/Total.antt =====
-- `JSON` of a form that is parsed returns, but for switches, which it does not know.
use formaldehyde.Prelude.{
  ℕ, ◌<◌, ◌≡◌, ◌≢◌, ◌==◌, refl, arith, Bool, true, false, List, [], ◌∷◌, none, length, contains, ap,
  ◌∙◌, sym, Bool-cases, inl, inr,
}
use mathlib.Core.Path.{subst}
use formaldehyde.Prelude.Partial.{
  Partial, done, panic, out_of_fuel, ◌>>=◌, Finishes, Finishes-bind, Finishes-done,
}
use formaldehyde.Forms.Nodes.{Kind, Attr, Node, Parser, Lexis}
use formaldehyde.Forms.Nodes.Tree.{
  root, page, eq_of_test, class_of, class_at, fits, is_open, IsTree, AllFit,
}
use formaldehyde.Forms.Parser.{parse}
use formaldehyde.Forms.Parser.Steps.{resting}
use formaldehyde.Forms.Parser.Returns.{parse-Parsed}
use formaldehyde.Forms.Json.{
  Emitter, Item, widget, j_page, attr, handle_kind, handle, handle_all, item_kind, items, json,
}

abbrev is_switch : Kind → Bool
is_switch Kind.switch_field = true
is_switch _ = false

-- Does `handle` know the kind?
abbrev handled : Kind → Bool
handled Kind.button = true
handled Kind.text = true
handled Kind.heading = true
handled Kind.number_field = true
handled Kind.text_field = true
handled Kind.check_field = true
handled Kind.radio_field = true
handled Kind.drop_field = true
handled _ = false

abbrev Any : {A : Type 0} → A → Type 0
Any a = Unit

below_page-handled :
    (k : Kind)
    → fits page (class_of k) ≡ true
    → is_open k ≡ false
    → is_switch k ≡ false
    → handled k ≡ true
below_page-handled k f o s = ground arith

below_root-handled :
    (k : Kind)
    → fits root (class_of k) ≡ true
    → is_open k ≡ false
    → is_switch k ≡ false
    → (k ≢ Kind.page)
    → handled k ≡ true
below_root-handled k f o s p = ground (arith, p)

resting-known : (k : Kind) → is_open k ≡ true → resting k ≢ true
resting-known k o h = ground arith

module _ (em : Emitter) (nodes : ℕ → Node) where
  handle_kind-done :
      (k : Kind) (n : Node) → handled k ≡ true → Finishes Any (handle_kind em nodes k n)
  unfolding handle_kind
  handle_kind-done Kind.button n h = tt
  handle_kind-done Kind.text n h = tt
  handle_kind-done Kind.heading n h = tt
  handle_kind-done Kind.number_field n h = tt
  handle_kind-done Kind.text_field n h = tt
  handle_kind-done Kind.check_field n h = tt
  handle_kind-done Kind.radio_field n h = tt
  handle_kind-done Kind.drop_field n h = tt
  handle_kind-done _ n h = absurd cc

  module _ (count current : ℕ) (t : IsTree nodes count current)
      (known : (id : ℕ)
        → id < count
        → (is_open (nodes id).kind ≡ false) × (is_switch (nodes id).kind ≡ false)) where
    handle_all-Finishes :
        (cs : List ℕ)
        → AllFit nodes count page cs
        → Finishes (λ ws. length ws ≡ length cs) (handle_all em nodes cs)
    unfolding handle_all handle
    handle_all-Finishes [] f = refl
    handle_all-Finishes (c ∷ cs) (l, f, rest) =
        Finishes-bind Any (λ ws. length ws ≡ length (c ∷ cs)) (handle em nodes c)
          (λ w. handle_all em nodes cs >>= λ ws. done (w ∷ ws))
          (handle_kind-done (nodes c).kind (nodes c)
            (below_page-handled (nodes c).kind f (known c l).0 (known c l).1))
          (λ w _.
            Finishes-bind (λ ws. length ws ≡ length cs) (λ ws. length ws ≡ length (c ∷ cs))
              (handle_all em nodes cs) (λ ws. done (w ∷ ws)) (handle_all-Finishes cs rest)
              (λ ws e. omega (arith, e)))

    handle-Finishes :
        (c : ℕ)
        → c < count
        → fits root (class_at nodes c) ≡ true
        → (nodes c).kind ≢ Kind.page
        → Finishes Any (handle em nodes c >>= λ w. done (widget w))
    unfolding handle
    handle-Finishes c l f p =
        Finishes-bind Any Any (handle_kind em nodes (nodes c).kind (nodes c)) (λ w. done (widget w))
          (handle_kind-done (nodes c).kind (nodes c)
            (below_root-handled (nodes c).kind f (known c l).0 (known c l).1 p))
          (λ w h. tt)

    item_kind-Finishes :
        (c : ℕ)
        → c < count
        → (k : Kind) → (nodes c).kind ≡ k
        → fits root (class_of k) ≡ true
        → Finishes Any (item_kind em nodes k c)
    unfolding item_kind
    item_kind-Finishes c l Kind.page e f =
        Finishes-bind (λ ws. length ws ≡ length (nodes c).children) Any
          (handle_all em nodes (nodes c).children)
          (λ ws. done (j_page (attr Attr.label (nodes c)) ws))
          (handle_all-Finishes (nodes c).children (
            subst (λ cls. AllFit nodes count cls (nodes c).children) (ap class_of e)
              (t.children_fit c l)))
          (λ ws h. tt)
    item_kind-Finishes c l _ e f =
        handle-Finishes c l (subst (λ k. fits root (class_of k) ≡ true) (sym e) f)
          (λ h. cc (sym e ∙ h))

    items-Finishes :
        (cs : List ℕ)
        → AllFit nodes count root cs
        → Finishes (λ is. length is ≡ length cs) (items em nodes cs)
    unfolding items
    items-Finishes [] f = refl
    items-Finishes (c ∷ cs) (l, f, rest) =
        Finishes-bind Any (λ is. length is ≡ length (c ∷ cs)) (item_kind em nodes (nodes c).kind c)
          (λ i. items em nodes cs >>= λ is. done (i ∷ is))
          (item_kind-Finishes c l (nodes c).kind refl f)
          (λ i _.
            Finishes-bind (λ is. length is ≡ length cs) (λ is. length is ≡ length (c ∷ cs))
              (items em nodes cs) (λ is. done (i ∷ is)) (items-Finishes cs rest)
              (λ is e. omega (arith, e)))

-- No node in use is a switch.
abbrev pub NoSwitch : (ℕ → Node) → ℕ → Type 0
NoSwitch nodes count = (id : ℕ) → id < count → (nodes id).kind ≢ Kind.switch_field

not_switch : (k : Kind) → k ≢ Kind.switch_field → is_switch k ≡ false
not_switch k h = ground (arith, h)

-- Once the parser rests, no field waits for its kind.
rest-known :
    {nodes : ℕ → Node} {count current : ℕ}
    → IsTree nodes count current
    → resting (nodes current).kind ≡ true
    → (id : ℕ) → id < count
    → is_open (nodes id).kind ≡ false
rest-known {nodes} {current} t h id l = elim (Bool-cases (is_open (nodes id).kind)) [
  | inr e ↦ e
  | inl e ↦ absurd (
      resting-known (nodes id).kind e
        (subst (λ i. resting (nodes i).kind ≡ true) (sym (t.one_open id l e)) h))
]

-- A form that `Parse` takes without an error and that has no switch is made JSON of without a panic, with one item for each child of the document.
pub json-Returns :
    {T : Type 0} (lx : Lexis T) (em : Emitter) (tokens : List T) (top : ℕ) (p : Parser T)
    → parse lx tokens ≡ done (top, p)
    → p.err ≡ none
    → NoSwitch p.nodes p.count
    → (is : List Item) × (json em p.nodes top ≡ done (em.marshal_indent is))
      × (length is ≡ length (p.nodes top).children)
unfolding json
json-Returns lx em tokens top p e fine no_switch =
    let (z, t, q, rest) = parse-Parsed lx tokens (top, p) e in
    let fit =
      subst (λ i. AllFit p.nodes p.count root (p.nodes i).children) (sym z)
        (subst (λ k. AllFit p.nodes p.count (class_of k) (p.nodes 0).children) t.top
          (t.children_fit 0 (omega (arith, t.in_use)))) in
    let (is, e', l) =
      Finishes-done (λ is. length is ≡ length (p.nodes top).children)
        (items em p.nodes (p.nodes top).children)
        (items-Finishes em p.nodes p.count p.current t
          (λ id b. (rest-known t (rest fine) id b, not_switch (p.nodes id).kind (no_switch id b)))
          (p.nodes top).children fit) in
    (is, ap (λ m. m >>= λ is'. done (em.marshal_indent is')) e', l)

unbind :
    {A B : Type 0} (m : Partial A) (f : A → Partial B)
    → Finishes Any (m >>= f)
    → (a : A) × (m ≡ done a) × Finishes Any (f a)
unbind (done a) f h = (a, refl, h)
unbind panic f h = absurd h
unbind out_of_fuel f h = absurd h

-- `handle` panics for a switch.
item_switch :
    (em : Emitter) (nodes : ℕ → Node) (c : ℕ) (k : Kind)
    → (nodes c).kind ≡ k
    → k ≡ Kind.switch_field
    → (i : Item) → item_kind em nodes k c ≢ done i
unfolding item_kind handle handle_kind
item_switch em nodes c Kind.switch_field e s i h =
    subst (λ k. Finishes Any (handle_kind em nodes k (nodes c) >>= λ w. done (widget w))) e
      (subst (Finishes Any) (sym h) tt)
item_switch em nodes c _ e s i h = absurd cc

items-switch :
    (em : Emitter) (nodes : ℕ → Node) (id : ℕ)
    → (nodes id).kind ≡ Kind.switch_field
    → (cs : List ℕ) → contains cs id ≡ true
    → ¬ Finishes Any (items em nodes cs)
unfolding items
items-switch em nodes id k [] c h = cc
items-switch em nodes id k (d ∷ cs) c h =
    let (i, e, h') =
      unbind (item_kind em nodes (nodes d).kind d) (λ i. items em nodes cs >>= λ is. done (i ∷ is))
        h in
    let (is, e', h'') = unbind (items em nodes cs) (λ is. done (i ∷ is)) h' in
    elim (Bool-cases (d == id)) [
      | inl s ↦
          item_switch em nodes d (nodes d).kind refl
            (ap (λ (j : ℕ). (nodes j).kind) (eq_of_test d id s) ∙ k) i e
      | inr n ↦
          items-switch em nodes id k cs (ground (arith, n, c)) (subst (Finishes Any) (sym e') tt)
    ]

-- If a child of the document is a switch, `JSON` does not return, whatever the other nodes are.
pub json-switch :
    (em : Emitter) (nodes : ℕ → Node) (top id : ℕ)
    → contains (nodes top).children id ≡ true
    → (nodes id).kind ≡ Kind.switch_field
    → (out : List ℕ) → json em nodes top ≢ done out
unfolding json
json-switch em nodes top id c k out e =
    let (is, e', h) =
      unbind (items em nodes (nodes top).children) (λ is. done (em.marshal_indent is))
        (subst (Finishes Any) (sym e) tt) in
    items-switch em nodes id k (nodes top).children c (subst (Finishes Any) (sym e') tt)
