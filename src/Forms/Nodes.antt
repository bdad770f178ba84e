-- ===== src/Forms/Nodes.antt =====
-- The nodes and the parser's state of src/github.com/latacora/formaldehyd/parse.go, and the operations on
-- them. A pointer to a node is a number, and the nodes are a store of which `count` are in use. A nil
-- pointer as the current node panics here when it is set: `Parse` uses the current node at its end.
pub mod Tree
use formaldehyde.Prelude.{
  ℕ, zero, suc, ◌+◌, ◌==◌, Bool, true, false, not, if◌then◌else◌, List, [], ◌∷◌, ◌++◌, Option, none,
  some, get_elem?, drop, update, codes, String,
}
use formaldehyde.Prelude.Partial.{Partial, done, panic, out_of_fuel}
use formaldehyde.Prelude.Process.{Process, ◌>>=◌, ◌>>◌, return, modify}
use formaldehyde.Forms.Tokens.{Code, ws, newline, eof}

pub data Kind : Type 0 where
  document label heading text field page text_field radio_field check_field drop_field : Kind
  selection button number_field switch_field : Kind

pub data Attr : Type 0 where
  width height default plusminus slider checked selected on label : Attr

-- `attrs` is `none` for a nil map; the last entry of a key counts, and stands first.
pub record Node : Type 0 where
  pub kind : Kind
  pub text : List ℕ
  pub parent : Option ℕ
  pub children : List ℕ
  pub line : ℕ
  pub hash : List ℕ
  pub opt : List ℕ
  pub attrs : Option (List (Attr × List ℕ))

pub data FormError : Type 0 where
  unexpected_end : FormError
  unexpected_token : ℕ → String → List ℕ → String → FormError
  nested_pages : FormError
  no_button_label : FormError
  button_lines : FormError

-- What the parser takes of the scanner's package and of Go's library: the code of a token, the token
-- that stands for the end, `TokenText` in the buffer, `TokenSpan`, `strings.Fields` and
-- `strconv.Itoa`.
pub record Lexis (T : Type 0) : Type 0 where
  pub code : T → Code
  pub end : T
  pub token_text : List T → List ℕ
  pub token_span : List T → ℕ
  pub fields : List ℕ → List (List ℕ)
  pub itoa : ℕ → List ℕ

-- `taken` is the source's `off`, plus 1.
pub record Parser (T : Type 0) : Type 0 where
  pub tokens : List T
  pub taken : ℕ
  pub opt_tag : List ℕ
  pub accum : List T
  pub current : ℕ
  pub twidth : ℕ
  pub line : ℕ
  pub err : Option FormError
  pub current_hash : List ℕ
  pub nodes : ℕ → Node
  pub count : ℕ

-- `strings.Replace(input, "|", "", -1)`.
unfoldable pub without_bars : List ℕ → List ℕ
without_bars [] = []
without_bars (c ∷ cs) = let rest = without_bars cs in if c == b'|' then rest else c ∷ rest

-- `strings.Join(…, " ")`.
unfoldable pub join_words : List (List ℕ) → List ℕ
join_words [] = []
join_words (w ∷ []) = w
join_words (w ∷ v ∷ ws') = w ++ b' ' ∷ join_words (v ∷ ws')

abbrev pub Parse : Type 0 → Type 0 → Type 0
Parse T A = Process (Parser T) A

abbrev pub is_newline : Code → Bool
is_newline newline = true
is_newline _ = false

module _ {T : Type 0} where
  -- The current node.
  abbrev pub here : Parser T → Node
  here p = p.nodes p.current

  abbrev pub set_here : Node → Parser T → Parser T
  set_here n p = record p { nodes = update p.nodes p.current n }

  -- `p.current.Kind = …`.
  unfoldable pub set_kind : Kind → Parse T (Unit {0})
  set_kind k = modify (λ p. set_here (record (here p) { kind = k }) p)

  -- `p.current.Attrs[…] = …`, which panics for a nil map.
  unfoldable pub set_attr : Attr → List ℕ → Parse T (Unit {0})
  set_attr key value p = elim (here p).attrs [
    | none ↦ panic
    | some attrs ↦ done (tt, set_here (record (here p) { attrs = some ((key, value) ∷ attrs) }) p)
  ]

  -- `p.current = p.current.Parent`.
  unfoldable pub leave : Parse T (Unit {0})
  leave p = elim (here p).parent [ none ↦ panic | some q ↦ done (tt, record p { current = q }) ]

  -- `p.current = …`.
  abbrev pub enter : ℕ → Parse T (Unit {0})
  enter id = modify (λ p. record p { current = id })

  unfoldable pub fail : FormError → Parse T (Unit {0})
  fail e = modify (λ p. record p { err = some e })

  unfoldable pub add_accum : T → Parse T (Unit {0})
  add_accum t = modify (λ p. record p { accum = p.accum ++ t ∷ [] })

  unfoldable pub reset_accum : Parse T (Unit {0})
  reset_accum = modify (λ p. record p { accum = [] })

module _ {T : Type 0} (lx : Lexis T) where
  unfoldable pub cleansing_fire : List ℕ → List ℕ
  unfolding without_bars join_words
  cleansing_fire input = join_words (lx.fields (without_bars input))

  abbrev pub take_token : Option T → Parser T → Option T × Parser T
  take_token none p = (none, p)
  take_token (some t) p = (
    some t,
    record p { taken = p.taken + 1; line = if is_newline (lx.code t) then p.line + 1 else p.line },
  )

  unfoldable pub next : Parse T (Option T)
  next p = done (take_token (get_elem? p.tokens p.taken) p)

  abbrev pub token_or_end : Option T → Parse T T
  token_or_end none = fail unexpected_end >> return lx.end
  token_or_end (some t) = return t

  unfoldable pub need_next : Parse T T
  unfolding next fail
  need_next = next >>= token_or_end

  -- The code of a token that may not be there.
  abbrev pub code_or_eof : Option T → Code
  code_or_eof none = eof
  code_or_eof (some t) = lx.code t

  unfoldable pub at : ℕ → Parser T → Code
  at off p = code_or_eof (get_elem? p.tokens off)

  unfoldable pub unexpected : T → String → String → Parse T (Unit {0})
  unfolding fail
  unexpected t context message p =
      fail (unexpected_token p.line context (lx.token_text (t ∷ [])) message) p

  -- The node that `addChild` makes.
  abbrev pub new_node : Kind → List T → Parser T → Node
  new_node kind tox p = record {
    kind = kind;
    text = cleansing_fire (lx.token_text tox);
    parent = some p.current;
    children = [];
    line = p.line;
    hash = p.current_hash;
    opt = p.opt_tag;
    attrs = some [];
  }

  -- The state after `addChild`.
  unfoldable pub with_child : Kind → List T → Parser T → Parser T
  with_child kind tox p =
      let own = record (here p) { children = (here p).children ++ p.count ∷ [] } in
      record p {
        nodes = update (update p.nodes p.current own) p.count (new_node kind tox p);
        count = p.count + 1;
        current_hash = [];
      }

  unfoldable pub add_child : Kind → List T → Parse T ℕ
  unfolding with_child
  add_child kind tox p = done (p.count, with_child kind tox p)

  -- `p.addChild(kind, p.accum); p.resetAccum()`.
  unfoldable pub add_accum_child : Kind → Parse T (Unit {0})
  unfolding add_child reset_accum
  add_accum_child kind p = (add_child kind p.accum >>= λ id. reset_accum) p

  -- `cleansingFire(scan.TokenText(p.buf, p.accum))`.
  abbrev pub accum_text : Parser T → List ℕ
  accum_text p = cleansing_fire (lx.token_text p.accum)
