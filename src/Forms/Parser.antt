-- ===== src/Forms/Parser.antt =====
-- The parser of src/github.com/latacora/formaldehyd/parse.go: its methods from `page` to `document`, and
-- `Parse`. Each loop has the fuel that is given.
pub mod Steps
pub mod Moves
pub mod Loops
pub mod Fields
pub mod Total
pub mod Returns
use formaldehyde.Prelude.{
  ℕ, zero, suc, ◌+◌, ◌-◌, ◌==◌, Bool, true, false, not, ◌&&◌, ◌||◌, if◌then◌else◌, List, [], ◌∷◌,
  ◌++◌, Option, none, some, length, get_elem?, drop, take, codes, String,
}
use formaldehyde.Prelude.Partial
use formaldehyde.Prelude.Partial.{Partial, done, panic, out_of_fuel}
use formaldehyde.Prelude.Process.{Process, ◌>>=◌, ◌>>◌, return, modify}
use formaldehyde.Forms.Tokens
use formaldehyde.Forms.Tokens.{
  Code, ws, newline, phrase, dash_line, squig_line, plus_minus, slider, o_button, c_button,
  switch_on, switch_off, eof, open_paren, close_paren, open_bracket, close_bracket, star, hash,
  pipe,
}
use formaldehyde.Forms.Nodes
use formaldehyde.Forms.Nodes.{
  Kind, Attr, Node, FormError, nested_pages, no_button_label, button_lines, Lexis, Parser, Parse,
  here, set_kind, set_attr, leave, enter, fail, add_accum, reset_accum, cleansing_fire, next,
  need_next, at, unexpected, add_child, add_accum_child, accum_text, is_newline,
}
use formaldehyde.Forms.Rounds.{while_ok, go_on, stop, on_code, each_token}
use formaldehyde.Forms.Fields.{open_labelled, field}

-- `for p.current.Parent != nil`.
unfoldable pub climb : ℕ → (ℕ → Node) → ℕ → Partial ℕ
climb zero nodes id = out_of_fuel
climb (suc fuel) nodes id = elim (nodes id).parent [ none ↦ done id | some q ↦ climb fuel nodes q ]

module _ {T : Type 0} where
  -- The state that `Parse` makes.
  abbrev pub new_parser : List T → Parser T
  new_parser tokens =
      let root : Node = record {
        kind = Kind.document;
        text = [];
        parent = none;
        children = [];
        line = 0;
        hash = [];
        opt = [];
        attrs = none;
      } in
      record {
        tokens = tokens;
        taken = 0;
        opt_tag = [];
        accum = [];
        current = 0;
        twidth = 0;
        line = 1;
        err = none;
        current_hash = [];
        nodes = λ id. root;
        count = 1;
      }

module _ {T : Type 0} (lx : Lexis T) where
  -- `page`, at a current node of a kind.
  unfoldable pub page_at : Kind → Parse T (Unit {0})
  unfolding open_labelled
  page_at Kind.document = open_labelled lx Kind.page
  page_at Kind.page = leave >> open_labelled lx Kind.page
  page_at _ = fail nested_pages

  unfoldable pub page : Parse T (Unit {0})
  unfolding page_at
  page p = page_at (here p).kind p

  -- The loop of a heading.
  unfoldable pub heading_loop : ℕ → T → Parse T (Unit {0})
  heading_loop zero t p = out_of_fuel
  heading_loop (suc fuel) t p = elim (is_newline (lx.code t)) [
    | true ↦ done (tt, p)
    | false ↦ elim p.err [
      | some e ↦ done (tt, p)
      | none ↦ (add_accum t >> need_next lx >>= heading_loop fuel) p
    ]
  ]

  unfoldable pub end_heading : Parse T (Unit {0})
  end_heading p = elim p.err [ some e ↦ done (tt, p) | none ↦ add_accum_child lx Kind.heading p ]

  unfoldable pub hashtag_token : ℕ → Code → T → Parse T (Unit {0})
  unfolding heading_loop end_heading
  hashtag_token fuel phrase t = modify (λ p. record p { current_hash = lx.token_text (t ∷ []) })
  hashtag_token fuel ws t = heading_loop fuel t >> end_heading
  hashtag_token fuel _ t =
      unexpected lx t "parsing a hashtag" "the alphanumeric characters of a hash tag"

  unfoldable pub hashtag_or_header : ℕ → Parse T (Unit {0})
  unfolding hashtag_token
  hashtag_or_header fuel = need_next lx >>= on_code lx (hashtag_token fuel)

  abbrev pub is_newline_token : Option T → Bool
  is_newline_token none = false
  is_newline_token (some t) = is_newline (lx.code t)

  unfoldable pub text_token : ℕ → Option T → Code → T → Parse T Bool
  text_token fuel prev ws t = go_on (add_accum t)
  text_token fuel prev newline t = go_on (add_accum t)
  text_token fuel prev phrase t = go_on (add_accum t)
  text_token fuel prev hash t =
      if is_newline_token prev
      then stop (add_accum_child lx Kind.text >> hashtag_or_header fuel)
      else go_on (add_accum t)
  text_token fuel prev dash_line t = stop page
  text_token fuel prev open_bracket t = stop (field lx fuel t)
  text_token fuel prev open_paren t = stop (field lx fuel t)
  text_token fuel prev star t = stop (field lx fuel t)
  text_token fuel prev _ t = stop (
      unexpected lx t "parsing a run of text"
        "a page marker, a hash tag, the start of a field, or a drop-down")

  unfoldable pub text : ℕ → T → Parse T (Unit {0})
  unfolding each_token text_token
  text fuel t = each_token lx fuel (λ prev. on_code lx (text_token fuel prev)) none (some t)

  -- The tag stays among the accumulated tokens.
  unfoldable pub opt_token : Code → T → Parse T Bool
  opt_token newline t = stop (modify (λ p. record p { opt_tag = accum_text lx p }))
  opt_token squig_line t = stop (modify (λ p. record p { opt_tag = accum_text lx p }))
  opt_token _ t = go_on (add_accum t)

  unfoldable pub opt : ℕ → Parse T (Unit {0})
  unfolding opt_token
  opt fuel = while_ok fuel (need_next lx >>= on_code lx opt_token)

  -- `)]` after a button.
  unfoldable pub end_button : List T → Parse T Bool
  end_button [] = go_on (fail no_button_label)
  end_button (t ∷ ts) = stop (add_accum_child lx Kind.button)

  unfoldable pub button_token : Code → T → Parse T Bool
  unfolding end_button
  button_token c_button t p = end_button p.accum p
  button_token newline t p = go_on (fail button_lines) p
  button_token _ t p = go_on (add_accum t) p

  unfoldable pub button : ℕ → Parse T (Unit {0})
  unfolding button_token
  button fuel = while_ok fuel (need_next lx >>= on_code lx button_token)

  unfoldable pub document_token : ℕ → Code → T → Parse T (Unit {0})
  document_token fuel ws t = return tt
  document_token fuel newline t = return tt
  document_token fuel phrase t = text fuel t
  document_token fuel o_button t = button fuel
  document_token fuel squig_line t = opt fuel
  document_token fuel hash t = hashtag_or_header fuel
  document_token fuel _ t =
      unexpected lx t "parsing the document" "whitespace, text, a button, or a hash tag"

  unfoldable pub document : ℕ → Parse T (Unit {0})
  unfolding document_token
  document fuel =
      next lx >>= each_token lx fuel (λ prev t. go_on (on_code lx (document_token fuel) t)) none

  -- `Parse` of the tokens: the root and the state at the end, with fuel that is always enough.
  unfoldable pub parse : List T → Partial (ℕ × Parser T)
  unfolding climb
  parse tokens = elim (document (length tokens + 2) (new_parser tokens)) [
    | panic ↦ panic
    | out_of_fuel ↦ out_of_fuel
    | done (_, p) ↦ Partial.◌>>=◌ (climb p.count p.nodes p.current) λ root. done (root, p)
  ]
