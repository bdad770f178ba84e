-- ===== src/Web/Rules.antt =====
-- src/matasano/web/rules.go: rules, the values that they feed, and their parser over the lexer's
-- tokens. `parse_int` is the first result of `strconv.ParseInt`, and `format_int` is
-- `strconv.FormatInt`. The channels `Feed` and `Kill` are the values that are fed before the kill.
pub mod Parsing
use formaldehyde.Prelude.{
  ℕ, zero, suc, ◌+◌, ◌-◌, ℤ, pos, negsuc, ◌+ℤ◌, int64, neg_part, pos_part, Bool, true, false, ltb,
  leb, ◌==◌, ◌&&◌, if◌then◌else◌, List, [], ◌∷◌, ◌++◌, Option, none, some, length, get_elem?,
  contains,
}
use formaldehyde.Prelude.Partial.{Partial, done, panic, out_of_fuel, ◌>>=◌}

pub data RuleCode : Type 0 where
  rule_num rule_list : RuleCode

-- `PipeRadix` and `PipePad`.
pub data Pipe : Type 0 where
  radix pad : ℕ → Pipe

-- `files` holds the keys of the map, or `none` where the map is nil.
pub record Rule : Type 0 where
  pub invalid : Bool
  pub code : RuleCode
  pub start : ℤ
  pub stop : ℤ
  pub step : ℤ
  pub index : ℤ
  pub errtok : List ℕ
  pub strings : List (List ℕ)
  pub files : Option (List ℕ)
  pub pipes : List Pipe

-- `Rule{}`.
abbrev pub blank : Rule
blank = record {
  invalid = false;
  code = rule_num;
  start = pos 0;
  stop = pos 0;
  step = pos 0;
  index = pos 0;
  errtok = [];
  strings = [];
  files = none;
  pipes = [];
}

-- The loop of `PipePad.Transform`.
unfoldable pub zeros : ℕ → List ℕ
zeros zero = []
zeros (suc n) = b'0' ∷ zeros n

-- `strconv.FormatInt` in a base; it panics for one outside 2 to 36.
abbrev format_in : (ℤ → ℕ → List ℕ) → ℤ → ℕ → Partial (List ℕ)
format_in format_int i base = if leb 2 base && leb base 36 then done (format_int i base) else panic

-- `Transform` of the two pipes. `ParseInt` of the text gives no number if it fails.
unfoldable pub transform : (List ℕ → Option ℤ) → (ℤ → ℕ → List ℕ) → Pipe → List ℕ → Partial (List ℕ)
unfolding zeros
transform parse_decimal format_int (radix p) buf = elim (parse_decimal buf) [
  | none ↦ done buf
  | some i ↦ format_in format_int i p
]
transform parse_decimal format_int (pad p) buf =
    done (if ltb (length buf) p then zeros (p - length buf) ++ buf else buf)

abbrev pub transform_all :
    (List ℕ → Option ℤ) → (ℤ → ℕ → List ℕ) → List Pipe → List ℕ → Partial (List ℕ)
transform_all parse_decimal format_int [] buf = done buf
transform_all parse_decimal format_int (p ∷ ps) buf =
    transform parse_decimal format_int p buf >>= transform_all parse_decimal format_int ps

-- `c > r.Stop`.
abbrev pub is_above : ℤ → ℤ → Bool
is_above c stop = ltb (pos_part stop + neg_part c) (pos_part c + neg_part stop)

is_file : Option (List ℕ) → ℕ → Bool
is_file none k = false
is_file (some ks) k = contains ks k

string_at : Option (List ℕ) → Partial (Option (List ℕ))
string_at none = panic
string_at (some s) = done (some s)

-- What `RunList` sends at index `c`: no text for a file.
list_item : Option (List ℕ) → List (List ℕ) → ℕ → Partial (Option (List ℕ))
unfolding is_file string_at
list_item files strings c = if is_file files c then done none else string_at (get_elem? strings c)

module _ (parse_decimal : List ℕ → Option ℤ) (format_int : ℤ → ℕ → List ℕ) where
  -- `RunNum`, which sends values until `takes` of them are taken, and then is killed; `Out`
  -- transforms a value before it sees the kill.
  unfoldable pub num_loop : ℕ → ℕ → Rule → ℤ → List (List ℕ) → Partial (List (List ℕ))
  num_loop zero takes r c out = out_of_fuel
  num_loop (suc fuel) takes r c out =
      transform_all parse_decimal format_int r.pipes (format_int c 10) >>= λ buf. elim takes [
        | zero ↦ done out
        | suc takes' ↦
            let sent = out ++ buf ∷ [] in
            let c' = int64 (c +ℤ r.step) in
            let rest = num_loop fuel takes' r c' sent in
            if is_above c' r.stop then done sent else rest
      ]

  abbrev pub is_zero : ℤ → Bool
  is_zero (pos n) = n == 0
  is_zero (negsuc n) = false

  unfoldable pub run_num : ℕ → ℕ → Rule → Partial (List (List ℕ))
  run_num fuel takes r =
      num_loop fuel takes (if is_zero r.step then record r { step = pos 1 } else r) r.start []

  -- `RunList`, which skips files, and panics at an index past the strings.
  unfoldable pub list_loop : ℕ → ℕ → Rule → ℕ → List (List ℕ) → Partial (List (List ℕ))
  unfolding list_item
  list_loop zero takes r c out = out_of_fuel
  list_loop (suc fuel) takes r c out =
      let next = λ (takes' : ℕ) (out' : List (List ℕ)).
        if leb (length r.strings) (c + 1)
        then done out'
        else list_loop fuel takes' r (c + 1) out' in
      elim (list_item r.files r.strings c) [
        | panic ↦ panic
        | out_of_fuel ↦ out_of_fuel
        | done none ↦ next takes out
        | done (some s) ↦ transform_all parse_decimal format_int r.pipes s >>= λ buf. elim takes [
          | zero ↦ done out
          | suc takes' ↦ next takes' (out ++ buf ∷ [])
        ]
      ]

  unfoldable pub run_list : ℕ → ℕ → Rule → Partial (List (List ℕ))
  run_list fuel takes r = list_loop fuel takes r 0 []
