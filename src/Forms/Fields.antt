-- ===== src/Forms/Fields.antt =====
-- The fields of a form: the methods of the parser of src/github.com/latacora/formaldehyd/parse.go from
-- `textField` to `field`. Each loop has the fuel that is given.
use formaldehyde.Prelude.{
  ℕ, ◌+◌, ◌-◌, ◌==◌, Bool, true, false, ◌&&◌, if◌then◌else◌, List, [], ◌∷◌, Option, none, some,
  drop, codes,
}
use formaldehyde.Prelude.Process.{◌>>=◌, ◌>>◌, return, modify}
use formaldehyde.Forms.Tokens.{
  Code, ws, newline, phrase, dash_line, plus_minus, slider, switch_on, switch_off, eof, open_paren,
  close_paren, open_bracket, close_bracket, star,
}
use formaldehyde.Forms.Nodes.{
  Kind, Attr, Lexis, Parser, Parse, set_kind, set_attr, leave, enter, add_accum, reset_accum,
  need_next, at, unexpected, add_child, add_accum_child, accum_text, is_newline,
}
use formaldehyde.Forms.Rounds.{while_ok, go_on, stop, on_code}

module _ {T : Type 0} (lx : Lexis T) where
  -- The height of a text field: the lines of its default.
  unfoldable pub height_of : List T → ℕ
  height_of [] = 1
  height_of (t ∷ ts) = let rest = height_of ts in if is_newline (lx.code t) then rest + 1 else rest

  -- `]` after a text field. The tokens of its default stay where they are.
  unfoldable pub end_text_field : Parse T (Unit {0})
  unfolding height_of
  end_text_field p =
      (set_attr Attr.width (lx.itoa p.twidth)
          >> set_attr Attr.height (lx.itoa (height_of p.accum))
          >> set_attr Attr.default (accum_text lx p)
          >> modify (λ p'. record p' { twidth = 0 })
          >> leave)
        p

  unfoldable pub widen : T → Parse T (Unit {0})
  widen t = modify (λ p. record p { twidth = p.twidth + lx.token_span (t ∷ []) }) >> add_accum t

  -- `p.current.Kind = NNumberField; p.current.Attrs[key] = "t"`.
  unfoldable pub number_mark : Attr → Parse T (Unit {0})
  number_mark key = set_kind Kind.number_field >> set_attr key (codes "t")

  unfoldable pub text_field_token : Code → T → Parse T Bool
  unfolding end_text_field widen number_mark
  text_field_token close_bracket t = stop end_text_field
  text_field_token plus_minus t = go_on (number_mark Attr.plusminus)
  text_field_token slider t = go_on (number_mark Attr.slider)
  text_field_token _ t = go_on (widen t)

  unfoldable pub text_field : ℕ → Parse T (Unit {0})
  unfolding text_field_token
  text_field fuel = while_ok fuel (need_next lx >>= on_code lx text_field_token)

  abbrev pub is_close : Code → Bool
  is_close close_bracket = true
  is_close _ = false

  -- The part of a checkbox from its kind on.
  unfoldable pub end_check : Parse T (Unit {0})
  end_check = set_kind Kind.check_field >> need_next lx >>= λ t.
      if is_close (lx.code t)
      then leave
      else unexpected lx t "parsing a checkbox" "a ] to close the checkbox"

  -- The `default` of `checkOrText`.
  unfoldable pub begin_text : ℕ → T → Parse T (Unit {0})
  unfolding text_field
  begin_text fuel t =
      set_kind Kind.text_field
      >> modify (λ p. record p { twidth = 0 })
      >> (if is_close (lx.code t)
          then leave
          else add_accum t
            >> modify (λ p. record p { twidth = p.twidth + lx.token_span (t ∷ []) })
            >> text_field fuel)

  -- What the first token of a field is: a star, white space, or another.
  -- `scan.TokenSpan(p.buf, t) == 1 && p.at(p.off) == ']'`, after the token.
  abbrev pub is_box : T → Parser T → Bool
  is_box t p = lx.token_span (t ∷ []) == 1 && is_close (at lx p.taken p)

  unfoldable pub check_token : ℕ → Code → T → Parse T (Unit {0})
  unfolding end_check begin_text
  check_token fuel star t p =
      (if is_box t p then set_attr Attr.checked (codes "t") >> end_check else begin_text fuel t) p
  check_token fuel ws t p = (if is_box t p then end_check else begin_text fuel t) p
  check_token fuel _ t p = begin_text fuel t p

  unfoldable pub check_or_text : ℕ → Parse T (Unit {0})
  unfolding check_token
  check_or_text fuel = need_next lx >>= on_code lx (check_token fuel)

  -- The code of the first token that is neither white space nor an end of line.
  unfoldable pub after_blank : List T → Code
  after_blank [] = eof
  after_blank (t ∷ ts) =
      let rest = after_blank ts in elim (lx.code t) [ ws ↦ rest | newline ↦ rest | c ↦ c ]

  abbrev pub is_phrase : Code → Bool
  is_phrase phrase = true
  is_phrase _ = false

  unfoldable pub drop_next_token : Code → T → Parse T Bool
  unfolding after_blank
  drop_next_token ws t p = go_on (add_accum t) p
  drop_next_token phrase t p = go_on (add_accum t) p
  drop_next_token newline t p =
      (if is_phrase (after_blank (drop (p.taken - 1) p.tokens))
          then go_on (add_accum t)
          else stop (add_accum_child lx Kind.selection))
        p
  drop_next_token _ t p = return true p

  unfoldable pub drop_next_field : ℕ → Parse T (Unit {0})
  unfolding drop_next_token
  drop_next_field fuel = while_ok fuel (need_next lx >>= on_code lx drop_next_token)

  unfoldable pub drop_field_token : ℕ → Code → T → Parse T Bool
  unfolding drop_next_field
  drop_field_token fuel ws t = return true
  drop_field_token fuel newline t = return true
  drop_field_token fuel star t = go_on (drop_next_field fuel)
  drop_field_token fuel dash_line t = stop leave
  drop_field_token fuel _ t = go_on (
      unexpected lx t "parsing the selections of a dropdown selector"
        "whitespace, a star marking the next selector, or a dashed line ending the dropdown")

  abbrev pub is_dash_line : Code → Bool
  is_dash_line dash_line = true
  is_dash_line _ = false

  unfoldable pub drop_field : ℕ → Parse T (Unit {0})
  unfolding drop_field_token
  drop_field fuel = need_next lx >>= λ t.
      if is_dash_line (lx.code t)
      then while_ok fuel (need_next lx >>= on_code lx (drop_field_token fuel))
      else unexpected lx t "parsing a dropdown selector" "a dashed line"

  unfoldable pub radio_token : Code → T → Parse T Bool
  radio_token star t = go_on (set_attr Attr.selected (codes "t"))
  radio_token switch_on t = go_on (set_kind Kind.switch_field >> set_attr Attr.on (codes "t"))
  radio_token switch_off t = go_on (set_kind Kind.switch_field)
  radio_token close_paren t = stop leave
  radio_token ws t = return true
  radio_token _ t = go_on (
      unexpected lx t "parsing a radio button"
        "an star checked marker, a switch *_ indicator, whitespace, or the close of the radio button")

  unfoldable pub radio : ℕ → Parse T (Unit {0})
  unfolding radio_token
  radio fuel = while_ok fuel (need_next lx >>= on_code lx radio_token)

  -- The tokens up to the last end of line, and those from it on, if there is one.
  unfoldable pub split_last_line : List T → Option (List T × List T)
  split_last_line [] = none
  split_last_line (t ∷ ts) = elim (split_last_line ts) [
    | some (before, after) ↦ some (t ∷ before, after)
    | none ↦ if is_newline (lx.code t) then some ([], t ∷ ts) else none
  ]

  -- The loop of `field`.
  unfoldable pub text_before : Option (List T × List T) → Parse T (Unit {0})
  text_before none = return tt
  text_before (some (before, after)) =
      add_child lx Kind.text before >>= λ id. modify (λ p. record p { accum = after })

  -- `p.current = p.addChild(kind, nil)`, and its label.
  unfoldable pub open_labelled : Kind → Parse T (Unit {0})
  open_labelled kind = add_child lx kind [] >>= λ id.
      enter id >> (λ p. set_attr Attr.label (accum_text lx p) p) >> reset_accum

  -- The `switch` of `field`.
  unfoldable pub field_token : ℕ → Code → Parse T (Unit {0})
  field_token fuel open_bracket = check_or_text fuel
  field_token fuel open_paren = set_kind Kind.radio_field >> radio fuel
  field_token fuel _ = set_kind Kind.drop_field >> drop_field fuel

  unfoldable pub field : ℕ → T → Parse T (Unit {0})
  unfolding split_last_line text_before open_labelled field_token
  field fuel t =
      (λ p. text_before (split_last_line p.accum) p)
      >> open_labelled Kind.field
      >> field_token fuel (lx.code t)
