-- ===== src/Forms/Parser/Steps.antt =====
-- What the operations of the parser of forms keep, one by one, and the rules for its loops.
use formaldehyde.Prelude.{
  ℕ, zero, suc, ◌+◌, ◌-◌, ◌≤◌, ◌<◌, ◌≡◌, refl, sym, ap, ◌∙◌, arith, Bool, true, false,
  if◌then◌else◌, List, [], ◌∷◌, Option, none, some, length, get_elem?,
}
use formaldehyde.Prelude.Partial.{Partial, done, panic, out_of_fuel, Finishes}
use formaldehyde.Prelude.Process.{◌>>=◌, Finishes-then}
use formaldehyde.Forms.Nodes.{
  Kind, Node, Attr, FormError, nested_pages, Parser, Parse, Lexis, here, set_here, set_kind,
  set_attr, leave, fail, with_child, new_node, add_child, next, need_next, take_token, reset_accum,
  add_accum_child, token_or_end, accum_text,
}
use formaldehyde.Forms.Nodes.Tree.{
  Class, root, page, leaf, input, choice, unused, class_of, fits, is_rest, is_open, HasMap,
  ParentFits, IsTree, change-IsTree, leave-IsTree, current-pos, update_same,
}
use formaldehyde.Forms.Nodes.Tree.Growing.{add-IsTree, enter-IsTree, added-kind, added-new}
use formaldehyde.Forms.Fields.{open_labelled}

abbrev pub is_nesting : Option FormError → Bool
is_nesting (some nested_pages) = true
is_nesting _ = false

-- The rounds that are due: one for each token left, and one for the end, while there is no error.
abbrev pub rounds : Option FormError → ℕ → ℕ
rounds (some e) n = 0
rounds none n = suc n

-- Fewer tokens left make no more rounds due.
pub rounds_le : (e : Option FormError) (n m k : ℕ) → m ≤ k → rounds e k ≤ n → rounds e m ≤ n
rounds_le none n m k le d = omega (arith, le, d)
rounds_le (some e) n m k le d = omega arith

module _ {T : Type 0} where
  abbrev pub left : Parser T → ℕ
  left p = length p.tokens - p.taken

  abbrev pub due : Parser T → ℕ
  due p = rounds p.err (left p)

  -- The nodes are a tree, pages are not nested, the current node is of one of some kinds, and at most
  -- `n` rounds are due.
  abbrev pub At : (Kind → Bool) → ℕ → Parser T → Type 0
  At P n p =
      IsTree p.nodes p.count p.current
      × (is_nesting p.err ≡ false)
      × (P (here p).kind ≡ true)
      × (due p ≤ n)

  -- The same, where the kind is known only if there is no error.
  abbrev pub After : (Kind → Bool) → ℕ → Parser T → Type 0
  After P n p =
      IsTree p.nodes p.count p.current
      × (is_nesting p.err ≡ false)
      × (p.err ≡ none → P (here p).kind ≡ true)
      × (due p ≤ n)

  -- What an operation returns is left out.
  abbrev pub Keeps : {A : Type 0} → (Parser T → Type 0) → Partial (A × Parser T) → Type 0
  Keeps P m = Finishes (λ r. P r.1) m

abbrev pub resting : Kind → Bool
resting k = is_rest (class_of k)

abbrev pub is_input : Class → Bool
is_input input = true
is_input _ = false

abbrev pub in_field : Kind → Bool
in_field k = is_input (class_of k)

-- A field whose kind is known.
abbrev pub in_known : Kind → Bool
in_known k = if is_open k then false else in_field k

abbrev pub is_root : Class → Bool
is_root root = true
is_root _ = false

abbrev pub in_document : Kind → Bool
in_document k = is_root (class_of k)

abbrev pub is_page : Class → Bool
is_page page = true
is_page _ = false

abbrev pub in_page : Kind → Bool
in_page k = is_page (class_of k)

field_class : (k : Kind) → in_field k ≡ true → class_of k ≡ input
field_class k h = input-eq (class_of k) h
  where
    input-eq : (c : Class) → is_input c ≡ true → c ≡ input
    input-eq input e = refl
    input-eq root e = cc
    input-eq page e = cc
    input-eq leaf e = cc
    input-eq choice e = cc
    input-eq unused e = cc

known-field : (k : Kind) → in_known k ≡ true → in_field k ≡ true
known-field k h = ground arith

pub get_elem?-lt {ℓ} :
    {A : Type ℓ} (xs : List A) (i : ℕ) (x : A) → get_elem? xs i ≡ some x → i < length xs
get_elem?-lt [] i x h = cc
get_elem?-lt (y ∷ xs) zero x h = omega arith
get_elem?-lt (y ∷ xs) (suc i) x h = omega (arith, get_elem?-lt xs i x h)

module _ {T : Type 0} where
  pub Keeps-then :
      {A B : Type 0} (P Q : Parser T → Type 0) (m : Parse T A) (f : A → Parse T B) (p : Parser T)
      → Keeps P (m p)
      → ((a : A) (p' : Parser T) → P p' → Keeps Q (f a p'))
      → Keeps Q ((m >>= f) p)
  Keeps-then P Q m f p h k = Finishes-then (λ r. P r.1) (λ r. Q r.1) m f p h k

  pub Keeps-map :
      {A : Type 0} (P Q : Parser T → Type 0) (m : Partial (A × Parser T))
      → Keeps P m
      → ((p : Parser T) → P p → Q p)
      → Keeps Q m
  Keeps-map P Q (done (a, p)) h f = f p h
  Keeps-map P Q panic h f = absurd h
  Keeps-map P Q out_of_fuel h f = absurd h

  pub At-weaken :
      (P Q : Kind → Bool) (n : ℕ) (p : Parser T)
      → ((k : Kind) → P k ≡ true → Q k ≡ true)
      → At P n p
      → At Q n p
  At-weaken P Q n p h (t, q, k, d) = (t, q, h (here p).kind k, d)

  pub At-After : (P : Kind → Bool) (n : ℕ) (p : Parser T) → At P n p → After P n p
  At-After P n p (t, q, k, d) = (t, q, (λ e. k), d)

  pub After-le : (P : Kind → Bool) (n m : ℕ) (p : Parser T) → n ≤ m → After P n p → After P m p
  After-le P n m p l (t, q, k, d) = (t, q, k, omega (arith, d, l))

  -- With an error nothing is due.
  pub fail-At :
      (P : Kind → Bool) (e : FormError) (n : ℕ) (p : Parser T)
      → is_nesting (some e) ≡ false
      → At P n p
      → Keeps (At P n) (fail e p)
  unfolding fail
  fail-At P e n p h (t, q, k, d) = (t, h, k, omega arith)

  pub set_kind-At :
      (k : Kind) (n : ℕ) (p : Parser T)
      → in_known k ≡ true
      → At in_field n p
      → Keeps (At in_known n) (set_kind k p)
  unfolding set_kind
  set_kind-At k n p h (t, q, i, d) = (
    change-IsTree t (record (here p) { kind = k })
        (field_class k (known-field k h) ∙ sym (field_class (here p).kind i)) refl
        (λ l. (t.below p.current l t.in_use).1) (t.children_fit p.current t.in_use),
    q,
    ap (λ (m : Node). in_known m.kind)
          (update_same p.nodes p.current (record (here p) { kind = k }))
        ∙ h,
    d,
  )

  pub set_attr-At :
      (P : Kind → Bool) (key : Attr) (value : List ℕ) (n : ℕ) (p : Parser T)
      → ((k : Kind) → P k ≡ true → in_document k ≡ false)
      → At P n p
      → Keeps (At P n) (set_attr key value p)
  unfolding set_attr
  set_attr-At P key value n p sub (t, q, i, d) =
      go (here p).attrs (t.below p.current below t.in_use).1
    where
      below : 0 < p.current
      below = current-pos t (λ e. cc (sub (here p).kind i))

      go :
          (attrs : Option (List (Attr × List ℕ)))
          → HasMap attrs
          → Keeps (At P n) (elim attrs [
            | none ↦ panic
            | some old ↦
                done (tt, set_here (record (here p) { attrs = some ((key, value) ∷ old) }) p)
          ])
      go none m = absurd m
      go (some old) m = (
        change-IsTree t (record (here p) { attrs = some ((key, value) ∷ old) }) refl refl (λ l. tt)
            (t.children_fit p.current t.in_use),
        q,
        ap (λ (m' : Node). P m'.kind)
              (update_same p.nodes p.current
                (record (here p) { attrs = some ((key, value) ∷ old) }))
            ∙ i,
        d,
      )

  pub leave-At :
      (P Q : Kind → Bool) (n : ℕ) (p : Parser T)
      → ((k : Kind) → P k ≡ true → (in_document k ≡ false) × (is_open k ≡ false))
      → ((k j : Kind) → P k ≡ true → fits (class_of j) (class_of k) ≡ true → Q j ≡ true)
      → At P n p
      → Keeps (At Q n) (leave p)
  unfolding leave
  leave-At P Q n p sub up (t, q, i, d) = go (here p).parent (t.below p.current below t.in_use).0
    where
      below : 0 < p.current
      below = current-pos t (λ e. cc ((sub (here p).kind i).0))

      go :
          (parent : Option ℕ)
          → ParentFits p.nodes p.current parent
          → Keeps
              (At Q n)
              (elim parent [ none ↦ panic | some above ↦ done (tt, record p { current = above }) ])
      go none m = absurd m
      go (some above) (l, f) = (
        leave-IsTree above t (sub (here p).kind i).1 (omega (arith, l, t.in_use)),
        q,
        up (here p).kind (p.nodes above).kind i f,
        d,
      )

module _ {T : Type 0} (lx : Lexis T) where
  pub add_child-At :
      (P : Kind → Bool) (k : Kind) (tox : List T) (n : ℕ) (p : Parser T)
      → ((j : Kind) → P j ≡ true → fits (class_of j) (class_of k) ≡ true)
      → is_open k ≡ false
      → At P n p
      → Keeps (At P n) (add_child lx k tox p)
  unfolding add_child with_child
  add_child-At P k tox n p sub known (t, q, i, d) = (
    add-IsTree t (new_node lx k tox p) refl (sub (here p).kind i) refl tt known,
    q,
    ap P (added-kind t (new_node lx k tox p) refl (sub (here p).kind i) refl tt p.current t.in_use)
        ∙ i,
    d,
  )

  pub add_accum_child-At :
      (P : Kind → Bool) (k : Kind) (n : ℕ) (p : Parser T)
      → ((j : Kind) → P j ≡ true → fits (class_of j) (class_of k) ≡ true)
      → is_open k ≡ false
      → At P n p
      → Keeps (At P n) (add_accum_child lx k p)
  unfolding add_accum_child add_child reset_accum
  add_accum_child-At P k n p sub known h = add_child-At P k p.accum n p sub known h

  -- A new node is entered.
  enter_child-At :
      (P Q : Kind → Bool) (k : Kind) (n : ℕ) (p : Parser T)
      → ((j : Kind) → P j ≡ true → fits (class_of j) (class_of k) ≡ true)
      → ((j : Kind) → P j ≡ true → is_open j ≡ false)
      → At P n p
      → Q k ≡ true
      → At Q n (record (with_child lx k [] p) { current = p.count })
  unfolding with_child
  enter_child-At P Q k n p sub known (t, q, i, d) own = (
    enter-IsTree t (new_node lx k [] p) refl (sub (here p).kind i) refl tt (known (here p).kind i),
    q,
    ap (λ (m : Node). Q m.kind)
          (added-new t (new_node lx k [] p) refl (sub (here p).kind i) refl tt)
        ∙ own,
    d,
  )

  pub open_labelled-At :
      (P Q : Kind → Bool) (k : Kind) (n : ℕ) (p : Parser T)
      → ((j : Kind) → P j ≡ true → fits (class_of j) (class_of k) ≡ true)
      → ((j : Kind) → P j ≡ true → is_open j ≡ false)
      → ((j : Kind) → Q j ≡ true → in_document j ≡ false)
      → Q k ≡ true
      → At P n p
      → Keeps (At Q n) (open_labelled lx k p)
  unfolding open_labelled add_child reset_accum
  open_labelled-At P Q k n p sub known low own h =
      let p' : Parser T = record (with_child lx k [] p) { current = p.count } in
      Keeps-then (At Q n) (At Q n) (set_attr Attr.label (accum_text lx p')) (λ _. reset_accum) p'
        (set_attr-At Q Attr.label (accum_text lx p') n p' low
          (enter_child-At P Q k n p sub known h own))
        (λ _ p'' h'. h')

  pub take_token-At :
      (P : Kind → Bool) (n : ℕ) (p : Parser T)
      → p.err ≡ none
      → At P (suc n) p
      → Keeps (At P n) (need_next lx p)
  unfolding need_next next fail
  take_token-At P n p e (t, q, i, d) = go (get_elem? p.tokens p.taken) refl
    where
      go :
          (o : Option T)
          → get_elem? p.tokens p.taken ≡ o
          → Keeps (At P n) (token_or_end lx (take_token lx o p).0 (take_token lx o p).1)
      go none g = (t, refl, i, omega arith)
      go (some tok) g = (t, q, i, ground (arith, e, d, get_elem?-lt p.tokens p.taken tok g))

  pub need_next-At :
      (P : Kind → Bool) (n : ℕ) (p : Parser T) → At P n p → Keeps (At P n) (need_next lx p)
  unfolding need_next next fail
  need_next-At P n p (t, q, i, d) = go (get_elem? p.tokens p.taken)
    where
      go :
          (o : Option T)
          → Keeps (At P n) (token_or_end lx (take_token lx o p).0 (take_token lx o p).1)
      go none = (t, refl, i, omega arith)
      go (some tok) = (t, q, i, less p.err d)
        where
          less :
              (e : Option FormError)
              → rounds e (left p) ≤ n
              → rounds e (length p.tokens - (p.taken + 1)) ≤ n
          less none d' = omega (arith, d')
          less (some e) d' = omega arith
