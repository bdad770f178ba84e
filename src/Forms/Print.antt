-- ===== src/Forms/Print.antt =====
-- `ToString` of a token and `String` of a node, of src/github.com/latacora/formaldehyd/parse.go: a line for each node, indented by
-- its depth. How `%s` prints a map is Go's library, and so a parameter.
pub mod Lines
use formaldehyde.Prelude.{
  ℕ, zero, suc, ◌+◌, Bool, true, false, List, [], ◌∷◌, ◌++◌, Option, none, some, codes,
}
use formaldehyde.Prelude.Partial.{Partial, done, panic, out_of_fuel, ◌>>=◌}
use formaldehyde.Forms.Tokens.{
  Code, ws, newline, phrase, dash_line, squig_line, plus_minus, slider, o_button, c_button,
  switch_on, switch_off, eof,
}
use formaldehyde.Forms.Nodes.{Kind, Attr, Node, Lexis}

-- `nodeNames[kind]`.
unfoldable pub node_name : Kind → List ℕ
node_name Kind.document = codes "Document"
node_name Kind.label = codes "Label"
node_name Kind.heading = codes "Heading"
node_name Kind.text = codes "Text"
node_name Kind.field = codes "Field"
node_name Kind.page = codes "Page"
node_name Kind.text_field = codes "TextField"
node_name Kind.radio_field = codes "RadioField"
node_name Kind.check_field = codes "CheckField"
node_name Kind.drop_field = codes "DropField"
node_name Kind.selection = codes "Selection"
node_name Kind.button = codes "Button"
node_name Kind.number_field = codes "NumberField"
node_name Kind.switch_field = codes "SwitchField"

unfoldable pub indent : ℕ → List ℕ
indent zero = []
indent (suc depth) = codes "  " ++ indent depth

unfoldable pub text_part : List ℕ → List ℕ
text_part [] = []
text_part (c ∷ cs) = codes " " ++ (c ∷ cs) ++ codes " "

-- The beginning of what `ToString` says of a token.
unfoldable pub code_name : Code → List ℕ
code_name ws = codes "Ws"
code_name newline = codes "Newline"
code_name phrase = codes "Phrase"
code_name dash_line = codes "DashLine"
code_name squig_line = codes "SquigLine"
code_name plus_minus = codes "PlusMinus"
code_name slider = codes "Slider"
code_name o_button = codes "OButton"
code_name c_button = codes "CButton"
code_name switch_on = codes "SwitchOn"
code_name switch_off = codes "SwitchOff"
code_name eof = codes "EOF"
code_name _ = codes "unknown"

-- `ToString`.
unfoldable pub token_string : {T : Type 0} → Lexis T → T → List ℕ
unfolding code_name
token_string lx t = code_name (lx.code t) ++ codes ": <" ++ lx.token_text (t ∷ []) ++ codes ">"

module _ (print_map : List (Attr × List ℕ) → List ℕ) where
  unfoldable pub attrs_part : Option (List (Attr × List ℕ)) → List ℕ
  attrs_part none = []
  attrs_part (some []) = []
  attrs_part (some (a ∷ attrs)) = codes " " ++ print_map (a ∷ attrs)

  -- What `stringRec` writes before the children.
  unfoldable pub node_line : ℕ → Node → List ℕ
  unfolding node_name indent text_part attrs_part
  node_line depth n =
      indent depth ++ node_name n.kind ++ text_part n.text ++ attrs_part n.attrs ++ codes "\n"

  -- The loop over the children.
  unfoldable pub print_all : (ℕ → Partial (List ℕ)) → List ℕ → Partial (List ℕ)
  print_all print [] = done []
  print_all print (c ∷ cs) = print c >>= λ line. print_all print cs >>= λ rest. done (line ++ rest)

  unfoldable pub string_rec : (ℕ → Node) → ℕ → ℕ → ℕ → Partial (List ℕ)
  unfolding node_line print_all
  string_rec nodes zero depth id = out_of_fuel
  string_rec nodes (suc fuel) depth id =
      print_all (string_rec nodes fuel (depth + 1)) (nodes id).children >>= λ kids.
      done (node_line depth (nodes id) ++ kids)

  -- `String`, with fuel for the depth of a form.
  unfoldable pub string : (ℕ → Node) → ℕ → Partial (List ℕ)
  unfolding string_rec
  string nodes id = string_rec nodes 4 0 id
