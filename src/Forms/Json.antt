-- ===== src/Forms/Json.antt =====
-- `JSON` of src/github.com/latacora/formaldehyd/emit.go: what is made of the nodes of a form. How it is
-- written as text is Go's library, and so a parameter.
pub mod Total
use formaldehyde.Prelude.{
  ℕ, Bool, true, false, List, [], ◌∷◌, Option, none, some, codes, same_text, ℤ,
}
use formaldehyde.Prelude.Partial.{Partial, done, panic, out_of_fuel, ◌>>=◌}
use formaldehyde.Forms.Nodes.{Kind, Attr, Node}

-- `JButton`, `JDropField`, `JHeader`, `JText`, `JRadioField`, `JCheckField`, `JTextField` and
-- `JNumberField`, without the field `type`, which the constructor says.
pub data Widget : Type 0 where
  j_button : (label : List ℕ) (line : ℕ) (tag opt : List ℕ) → Widget
  j_drop_field : (label : List ℕ) (options : List (List ℕ)) (line : ℕ) (tag opt : List ℕ) → Widget
  j_header : (text tag opt : List ℕ) → Widget
  j_text : (text tag opt : List ℕ) → Widget
  j_radio_field : (label : List ℕ) (selected : Bool) (line : ℕ) (tag opt : List ℕ) → Widget
  j_check_field : (label : List ℕ) (checked : Bool) (line : ℕ) (tag opt : List ℕ) → Widget
  j_text_field : (label default : List ℕ) (width height : ℤ) (line : ℕ) (tag opt : List ℕ) → Widget
  j_number_field :
      (label : List ℕ) (default width height : ℤ) (slider plusminus : Bool) (line : ℕ)
      (tag opt : List ℕ)
      → Widget

-- A child of a `JDocument`: a `JPage`, or another.
pub data Item : Type 0 where
  j_page : (label : List ℕ) (children : List Widget) → Item
  widget : Widget → Item

-- What `JSON` takes of Go's library: the number that `strconv.Atoi` returns, whatever its error, and
-- `json.MarshalIndent`.
pub record Emitter : Type 0 where
  pub atoi : List ℕ → ℤ
  pub marshal_indent : List Item → List ℕ

abbrev pub same_attr : Attr → Attr → Bool
same_attr Attr.width Attr.width = true
same_attr Attr.height Attr.height = true
same_attr Attr.default Attr.default = true
same_attr Attr.plusminus Attr.plusminus = true
same_attr Attr.slider Attr.slider = true
same_attr Attr.checked Attr.checked = true
same_attr Attr.selected Attr.selected = true
same_attr Attr.on Attr.on = true
same_attr Attr.label Attr.label = true
same_attr _ _ = false

unfoldable pub find_attr : Attr → List (Attr × List ℕ) → List ℕ
find_attr key [] = []
find_attr key ((k, value) ∷ rest) =
    let other = find_attr key rest in elim (same_attr key k) [ true ↦ value | false ↦ other ]

-- `k.Attrs[key]`, which is empty for a nil map.
unfoldable pub attr : Attr → Node → List ℕ
unfolding find_attr
attr key k = elim k.attrs [ none ↦ [] | some attrs ↦ find_attr key attrs ]

-- `k.Attrs[key] == "t"`.
unfoldable pub flag : Attr → Node → Bool
unfolding attr
flag key k = same_text (attr key k) (codes "t")

module _ (em : Emitter) (nodes : ℕ → Node) where
  unfoldable pub rti : Attr → Node → ℤ
  unfolding attr
  rti key k = em.atoi (attr key k)

  unfoldable pub options : List ℕ → List (List ℕ)
  options [] = []
  options (c ∷ cs) = (nodes c).text ∷ options cs

  -- `handle`, of a node of a kind.
  unfoldable pub handle_kind : Kind → Node → Partial Widget
  unfolding attr flag rti options
  handle_kind Kind.button k = done (j_button k.text k.line k.hash k.opt)
  handle_kind Kind.text k = done (j_text k.text k.hash k.opt)
  handle_kind Kind.heading k = done (j_header k.text k.hash k.opt)
  handle_kind Kind.number_field k = done (
      j_number_field (attr Attr.label k) (rti Attr.default k) (rti Attr.width k) (rti Attr.height k)
        (flag Attr.slider k) (flag Attr.plusminus k) k.line k.hash k.opt)
  handle_kind Kind.text_field k = done (
      j_text_field (attr Attr.label k) (attr Attr.default k) (rti Attr.width k) (rti Attr.height k)
        k.line k.hash k.opt)
  handle_kind Kind.check_field k =
      done (j_check_field (attr Attr.label k) (flag Attr.checked k) k.line k.hash k.opt)
  handle_kind Kind.radio_field k =
      done (j_radio_field (attr Attr.label k) (flag Attr.selected k) k.line k.hash k.opt)
  handle_kind Kind.drop_field k =
      done (j_drop_field (attr Attr.label k) (options k.children) k.line k.hash k.opt)
  handle_kind _ k = panic

  unfoldable pub handle : ℕ → Partial Widget
  unfolding handle_kind
  handle id = handle_kind (nodes id).kind (nodes id)

  -- The loop over the children of a page.
  unfoldable pub handle_all : List ℕ → Partial (List Widget)
  unfolding handle
  handle_all [] = done []
  handle_all (c ∷ cs) = handle c >>= λ w. handle_all cs >>= λ ws'. done (w ∷ ws')

  -- A child of the document, of a kind.
  unfoldable pub item_kind : Kind → ℕ → Partial Item
  unfolding handle_all attr
  item_kind Kind.page id =
      handle_all (nodes id).children >>= λ ws'. done (j_page (attr Attr.label (nodes id)) ws')
  item_kind _ id = handle id >>= λ w. done (widget w)

  -- The loop over the children of the document.
  unfoldable pub items : List ℕ → Partial (List Item)
  unfolding item_kind
  items [] = done []
  items (c ∷ cs) = item_kind (nodes c).kind c >>= λ i. items cs >>= λ is. done (i ∷ is)

  unfoldable pub json : ℕ → Partial (List ℕ)
  unfolding items
  json id = items (nodes id).children >>= λ is. done (em.marshal_indent is)
