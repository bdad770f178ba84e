-- ===== src/Web/Rules/Parsing.antt =====
-- `ParseRules` of src/matasano/web/rules.go, a state machine over the tokens of the lexer.
use formaldehyde.Prelude.{
  ℕ, ℤ, pos_part, Bool, true, false, not, ◌&&◌, if◌then◌else◌, List, [], ◌∷◌, ◌++◌, Option, none,
  some, length, codes, same_text,
}
use formaldehyde.Prelude.Partial.{Partial, done, panic, ◌>>=◌}
use formaldehyde.Web.Lexer.{Token, lex, num, ws, ident, punct, colon, newline, is}
use formaldehyde.Web.Rules.{Rule, rule_num, rule_list, Pipe, blank}

pub data RuleState : Type 0 where
  s_pipe s_list_word s_list s_maybe_pipe s_maybe_step s_step s_num_second s_num_dash s_num :
      RuleState
  s_int_arg s_kind s_sep s_start s_err : RuleState

-- The variables of the loop. `int_arg` makes a pipe of a number, as the closure `intArg`.
pub record Parsing : Type 0 where
  pub state : RuleState
  pub rules : List Rule
  pub cur : Rule
  pub quote : List ℕ
  pub wordtoks : List (List ℕ)
  pub int_arg : ℕ → Pipe

-- The variables before the loop: the first rule has a map of files, and the others a nil one.
abbrev pub new_parsing : Parsing
new_parsing = record {
  state = s_start;
  rules = [];
  cur = record blank { files = some [] };
  quote = [];
  wordtoks = [];
  int_arg = Pipe.pad;
}

-- `err(t)`.
unfoldable pub fail : Token → Parsing → Parsing
fail t p = record p { state = s_err; cur = record p.cur { invalid = true; errtok = t.value } }

abbrev pub to : RuleState → Parsing → Parsing
to state p = record p { state = state }

-- A rule is complete.
unfoldable pub finish : Parsing → Parsing
finish p = record p { rules = p.rules ++ p.cur ∷ []; state = s_start; cur = blank }

-- `t.Is(TokPunct) && string(t.Value) == …`.
unfoldable pub is_punct : Token → List ℕ → Bool
is_punct t text = is t punct && same_text t.value text

abbrev pub append_bytes : List (List ℕ) → List ℕ
append_bytes [] = []
append_bytes (w ∷ rest) = w ++ append_bytes rest

-- `cur.Files[n] = true`: an assignment to a nil map panics.
unfoldable pub add_file : ℕ → Option (List ℕ) → Partial (Option (List ℕ))
add_file n none = panic
add_file n (some ks) = done (some (n ∷ ks))

module _ (parse_int : List ℕ → ℕ → ℕ → ℤ) where
  unfoldable pub maybe_pipe : Token → Parsing → Parsing
  unfolding is_punct finish fail
  maybe_pipe t p =
      if is_punct t (codes "|") then to s_pipe p else if is t newline then finish p else fail t p

  unfoldable pub kind : Token → Parsing → Parsing
  unfolding fail
  kind t p =
      if is t ident
      then if same_text t.value (codes "num")
        then record p { cur = record p.cur { code = rule_num }; state = s_num }
        else if same_text t.value (codes "list")
        then record p { cur = record p.cur { code = rule_list }; state = s_list }
        else fail t p
      else fail t p

  unfoldable pub list_start : Token → Parsing → Partial Parsing
  unfolding is_punct fail add_file
  list_start t p =
      if is t punct && not (same_text t.value (codes "|"))
      then done (record p { state = s_list_word; quote = t.value })
      else if is t ident
      then (let strings = p.cur.strings ++ t.value ∷ [] in
          add_file (length strings) p.cur.files >>= λ files.
          done (record p { cur = record p.cur { strings = strings; files = files } }))
      else if is_punct t (codes "|")
      then done (to s_pipe p)
      else done (fail t p)

  unfoldable pub list_word : Token → Parsing → Parsing
  unfolding is_punct fail
  list_word t p =
      if is_punct t p.quote
      then record p {
        quote = [];
        wordtoks = [];
        cur = record p.cur { strings = p.cur.strings ++ append_bytes p.wordtoks ∷ [] };
        state = s_list;
      }
      else if is t newline
      then fail t p
      else record p { wordtoks = p.wordtoks ++ t.value ∷ [] }

  unfoldable pub pipe : Token → Parsing → Parsing
  unfolding fail
  pipe t p =
      if is t ident
      then if same_text t.value (codes "pad")
        then record p { int_arg = Pipe.pad; state = s_int_arg }
        else if same_text t.value (codes "radix")
        then record p { int_arg = Pipe.radix; state = s_int_arg }
        else fail t p
      else fail t p

  -- The `switch` on the state. White space was passed over, but for `s_list_word`.
  unfoldable pub on_token : RuleState → Token → Parsing → Partial Parsing
  unfolding maybe_pipe kind list_start list_word pipe is_punct fail finish
  on_token s_err t p = done (if is t newline then finish p else p)
  on_token s_start t p = done (
      if is t num
      then record p { cur = record p.cur { index = parse_int t.value 10 32 }; state = s_sep }
      else fail t p)
  on_token s_sep t p = done (if is t colon then to s_kind p else fail t p)
  on_token s_kind t p = done (kind t p)
  on_token s_num t p = done (
      if is t num
      then record p { cur = record p.cur { start = parse_int t.value 10 32 }; state = s_num_dash }
      else fail t p)
  on_token s_num_dash t p = done (if is_punct t (codes "-") then to s_num_second p else fail t p)
  on_token s_num_second t p = done (
      if is t num
      then record p { cur = record p.cur { stop = parse_int t.value 10 32 }; state = s_maybe_step }
      else fail t p)
  on_token s_step t p = done (
      if is t num
      then record p { cur = record p.cur { step = parse_int t.value 10 32 }; state = s_maybe_pipe }
      else fail t p)
  on_token s_maybe_step t p = done (
      if is t ident && same_text t.value (codes "step")
      then to s_step p
      else if not (is_punct t (codes "|"))
      then fail t p
      else maybe_pipe t p)
  on_token s_maybe_pipe t p = done (maybe_pipe t p)
  on_token s_list t p = list_start t p
  on_token s_list_word t p = done (list_word t p)
  on_token s_pipe t p = done (pipe t p)
  on_token s_int_arg t p = done (
      if is t num
      then record p {
        cur = record p.cur {
          pipes = p.cur.pipes ++ p.int_arg (pos_part (parse_int t.value 10 32)) ∷ [];
        };
        state = s_maybe_pipe;
      }
      else fail t p)

  -- `t.Is(TokWs) && state != sListWord`.
  unfoldable pub is_skipped : RuleState → Token → Bool
  is_skipped s_list_word t = false
  is_skipped _ t = is t ws

  unfoldable pub rules_loop : List Token → Parsing → Partial (List Rule)
  unfolding on_token is_skipped
  rules_loop [] p = done p.rules
  rules_loop (t ∷ ts) p =
      (if is_skipped p.state t then done p else on_token p.state t p) >>= λ p'. rules_loop ts p'

-- `ParseRules`.
unfoldable pub parse_rules : (List ℕ → ℕ × ℕ) → (List ℕ → ℕ → ℕ → ℤ) → List ℕ → Partial (List Rule)
unfolding rules_loop
parse_rules decode_rune parse_int buf =
    lex decode_rune buf >>= λ tokens. rules_loop parse_int tokens new_parsing
