-- ===== src/Forms/Tests.antt =====
-- Tests of the form compiler, and its theorems at concrete forms. A token is its code with its text.
use formaldehyde.Prelude.{
  ℕ, ◌+◌, ◌==◌, ◌≡◌, ◌≢◌, refl, true, false, List, [], ◌∷◌, ◌++◌, none, some, codes, length,
  contains, arith, pos, zero, suc,
}
use formaldehyde.Prelude.Partial.{Partial, done, Finishes}
use formaldehyde.Forms.Tokens.{
  Code, ws, newline, phrase, switch_on, eof, open_paren, close_paren, open_bracket, close_bracket,
}
use formaldehyde.Forms.Nodes.{
  at, next, add_accum, add_child, set_attr, reset_accum, need_next, set_kind, leave, cleansing_fire,
  Kind, Attr, Parser, Lexis,
}
use formaldehyde.Forms.Rounds.{each_token, while_ok}
use formaldehyde.Forms.Fields.{field, check_or_text, radio}
use formaldehyde.Forms.Parser.{parse, document, text, new_parser}
use formaldehyde.Forms.Parser.Returns.{Parsed, parse-Returns}
use formaldehyde.Forms.Json.{Emitter, Item, json}
use formaldehyde.Forms.Json.Total.{NoSwitch, json-Returns, json-switch}
use formaldehyde.Forms.Print.{string}
use formaldehyde.Forms.Print.Lines.{string-Returns}

abbrev Token : Type 0
Token = Code × List ℕ

abbrev text_of : List Token → List ℕ
text_of [] = []
text_of ((c, s) ∷ ts) = s ++ text_of ts

-- The words of a text.
abbrev words : List ℕ → List ℕ → List (List ℕ)
words [] [] = []
words (c ∷ cs) [] = (c ∷ cs) ∷ []
words word (c ∷ cs) =
    let rest = words [] cs in
    let more = words (word ++ c ∷ []) cs in
    elim (c == b' ') [ true ↦ elim word [ [] ↦ rest | d ∷ ds ↦ (d ∷ ds) ∷ rest ] | false ↦ more ]

abbrev lexis : Lexis Token
lexis = record {
  code = λ t. t.0;
  end = (eof, []);
  token_text = text_of;
  token_span = λ ts. length (text_of ts);
  fields = words [];
  itoa = λ n. (n + b'0') ∷ [];
}

-- `Name: [ab]`.
abbrev name_form : List Token
name_form =
    (phrase, codes "Name:")
    ∷ (ws, codes " ")
    ∷ (open_bracket, codes "[")
    ∷ (phrase, codes "ab")
    ∷ (close_bracket, codes "]")
    ∷ (newline, codes "\n")
    ∷ []

abbrev children_at : ℕ → Partial (ℕ × Parser Token) → List (Kind × List (Attr × List ℕ))
children_at id (done (top, p)) = kids (p.nodes id).children
  where
    kids : List ℕ → List (Kind × List (Attr × List ℕ))
    kids [] = []
    kids (c ∷ cs) =
        ((p.nodes c).kind, elim (p.nodes c).attrs [ none ↦ [] | some as' ↦ as' ]) ∷ kids cs
children_at id _ = []

name_form-field :
    children_at 0 (parse lexis name_form)
    ≡ (
      Kind.text_field,
      (Attr.default, codes "ab")
          ∷ (Attr.height, codes "1")
          ∷ (Attr.width, codes "2")
          ∷ (Attr.label, codes "Name:")
          ∷ [],
    )
      ∷ []
unfolding parse document next each_token text add_accum field add_child set_attr reset_accum
    check_or_text need_next set_kind while_ok leave cleansing_fire
name_form-field = refl

abbrev end_of : Partial (ℕ × Parser Token) → ℕ × Parser Token
end_of (done r) = r
end_of _ = (0, new_parser [])

-- The end of `Parse` of a form.
abbrev name_end : ℕ × Parser Token
name_end = end_of (parse lexis name_form)

name_parse : parse lexis name_form ≡ done (name_end.0, name_end.1)
unfolding parse document next each_token text add_accum field add_child set_attr reset_accum
    check_or_text need_next set_kind while_ok leave cleansing_fire
name_parse = refl

name_fine : name_end.1.err ≡ none
unfolding parse document next each_token text add_accum field add_child set_attr reset_accum
    check_or_text need_next set_kind while_ok leave cleansing_fire
name_fine = refl

name-NoSwitch : NoSwitch name_end.1.nodes name_end.1.count
unfolding parse document next each_token text add_accum field add_child set_attr reset_accum
    check_or_text need_next set_kind while_ok leave cleansing_fire
name-NoSwitch zero l = λ e. cc e
name-NoSwitch (suc zero) l = λ e. cc e
name-NoSwitch (suc (suc id)) l = absurd (omega (arith, l))

-- `[x] Next: [ ]`: what a text field holds is left for the label of the next field.
abbrev leaking_form : List Token
leaking_form =
    (phrase, codes "A:")
    ∷ (open_bracket, codes "[")
    ∷ (phrase, codes "x")
    ∷ (close_bracket, codes "]")
    ∷ (phrase, codes "Next:")
    ∷ (open_bracket, codes "[")
    ∷ (ws, codes " ")
    ∷ (close_bracket, codes "]")
    ∷ []

leaking_form-label :
    children_at 0 (parse lexis leaking_form)
    ≡ (
      Kind.text_field,
      (Attr.default, codes "x")
          ∷ (Attr.height, codes "1")
          ∷ (Attr.width, codes "1")
          ∷ (Attr.label, codes "A:")
          ∷ [],
    )
      ∷ (Kind.check_field, (Attr.label, codes "xNext:") ∷ [])
      ∷ []
unfolding parse document next each_token text add_accum field add_child set_attr reset_accum
    check_or_text need_next set_kind while_ok leave cleansing_fire at
leaking_form-label = refl

-- `On: (*_)`.
abbrev switch_form : List Token
switch_form =
    (phrase, codes "On:")
    ∷ (open_paren, codes "(")
    ∷ (switch_on, codes "*_")
    ∷ (close_paren, codes ")")
    ∷ []

abbrev switch_end : ℕ × Parser Token
switch_end = end_of (parse lexis switch_form)

switch_kind : (switch_end.1.nodes 1).kind ≡ Kind.switch_field
unfolding parse document next each_token text add_accum field add_child set_attr reset_accum
    check_or_text need_next set_kind while_ok leave cleansing_fire radio
switch_kind = refl

switch_child : contains (switch_end.1.nodes 0).children 1 ≡ true
unfolding parse document next each_token text add_accum field add_child set_attr reset_accum
    check_or_text need_next set_kind while_ok leave cleansing_fire radio
switch_child = refl

abbrev emitter : Emitter
emitter = record {
  atoi = λ s. pos (length s);
  marshal_indent = λ is. codes "items" ++ length is ∷ [];
}

parse-Returns_example : Finishes Parsed (parse lexis name_form)
parse-Returns_example = parse-Returns lexis name_form

json-Returns_example :
    (is : List Item) × (json emitter name_end.1.nodes name_end.0 ≡ done (emitter.marshal_indent is))
    × (length is ≡ length (name_end.1.nodes name_end.0).children)
json-Returns_example =
    json-Returns lexis emitter name_form name_end.0 name_end.1 name_parse name_fine name-NoSwitch

json-switch_example : json emitter switch_end.1.nodes 0 ≢ done (codes "form")
json-switch_example =
    json-switch emitter switch_end.1.nodes 0 1 switch_child switch_kind (codes "form")

string-Returns_example :
    Finishes (λ out. Unit) (string (λ attrs. codes "map") name_end.1.nodes name_end.0)
string-Returns_example =
    string-Returns lexis (λ attrs. codes "map") name_form name_end.0 name_end.1 name_parse
