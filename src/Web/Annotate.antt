-- ===== src/Web/Annotate.antt =====
-- src/matasano/web/annotate.go: marks in a request where values may be injected, and the fragments of
-- a request with such marks. `dec` is what `fmt.Sprintf` prints for `%d`.
pub mod Laws
use formaldehyde.Prelude.{
  ℕ, ◌+◌, Bool, true, false, not, ◌&&◌, ltb, ◌==◌, if◌then◌else◌, List, [], ◌∷◌, ◌++◌, Option, none,
  some, drop, get_elem?, length, codes,
}
use formaldehyde.Prelude.Partial.{Partial, done, out_of_fuel, ◌>>=◌}
use formaldehyde.Web.Nodes.{
  NodeCode, HttpNode, url, arg_key, arg_value, url_path, cookie_name, cookie_value, body_arg_key,
  body_arg_value,
}
use formaldehyde.Web.Parser.{parse_http}

-- The `switch` of `AnnotateHttp`: is the node kept? `urlcomponents` is declared anew for each node,
-- so that it is false at every URL.
unfoldable pub is_kept : NodeCode → Bool
is_kept url_path = true
is_kept arg_key = true
is_kept arg_value = true
is_kept url = true
is_kept body_arg_key = true
is_kept body_arg_value = true
is_kept cookie_name = true
is_kept cookie_value = true
is_kept _ = false

unfoldable pub kept : List HttpNode → List HttpNode
kept [] = []
kept (n ∷ ns) = let rest = kept ns in if is_kept n.code then n ∷ rest else rest

-- `cur` is -1 in the source where it is `none` here.
pub record Marking : Type 0 where
  pub last : ℕ
  pub cur : Option ℕ
  pub out : List ℕ

module _ (dec : ℕ → List ℕ) (nodes : List HttpNode) where
  -- The inner loop at byte `i`, with the nodes from `c` on.
  unfoldable pub open_marks : ℕ → ℕ → List HttpNode → Marking → Marking
  open_marks i c [] s = s
  open_marks i c (n ∷ ns) s =
      let rest = open_marks i (c + 1) ns (
        if n.start == i then record { last = c; cur = some c; out = s.out ++ codes "{{" } else s) in
      if ltb i n.start then s else rest

  -- `}}(%d)`.
  unfoldable pub closing : ℕ → List ℕ
  closing c = codes "}}(" ++ (dec c ++ codes ")")

  unfoldable pub close_mark : ℕ → Marking → Marking
  unfolding closing
  close_mark i s = elim s.cur [
    | none ↦ s
    | some c ↦ elim (get_elem? nodes c) [
      | none ↦ s
      | some n ↦ if n.stop == i then record s { cur = none; out = s.out ++ closing c } else s
    ]
  ]

  -- `i != (sz - 1) || buf[i] != '\n'`.
  abbrev is_written : ℕ → List ℕ → Bool
  is_written b [] = not (b == b'\n')
  is_written b (x ∷ xs) = true

  unfoldable pub write_byte : ℕ → List ℕ → Marking → Marking
  write_byte b rest s = if is_written b rest then record s { out = s.out ++ b ∷ [] } else s

  -- The outer loop, at byte `i` of what is left.
  unfoldable pub mark_loop : ℕ → List ℕ → Marking → Marking
  unfolding open_marks close_mark write_byte
  mark_loop i [] s = s
  mark_loop i (b ∷ rest) s =
      mark_loop (i + 1) rest
        (write_byte b rest (close_mark i (open_marks i s.last (drop s.last nodes) s)))

  -- The mark that is still open at the end.
  unfoldable pub close_last : Marking → List ℕ
  unfolding closing
  close_last s = elim s.cur [ none ↦ s.out | some c ↦ s.out ++ closing c ]

-- `AnnotateHttp`. It reads the nodes until their channel is closed, and waits for ever if it is not.
unfoldable pub annotate_http : (List ℕ → ℕ × ℕ) → (ℕ → List ℕ) → ℕ → List ℕ → Partial (List ℕ)
unfolding kept mark_loop close_last
annotate_http decode_rune dec fuel buf = parse_http decode_rune fuel buf >>= λ (nodes, closed).
    if closed
    then (let ns = kept nodes in
        done
          (close_last dec ns (mark_loop dec ns 0 buf (record { last = 0; cur = none; out = [] }))))
    else out_of_fuel

pub data FragState : Type 0 where
  pre in_value post_open post : FragState

-- The variables of `findFrags`. The map of special fragments is a list of keys and rule indices. The
-- source parses an index, and sets it in a copy of the entry, so that every entry keeps 0.
pub record Frags : Type 0 where
  pub state : FragState
  pub frags : List (List ℕ)
  pub special : List (ℕ × ℕ)
  pub fragc : ℕ
  pub ab : List ℕ

-- Do the two bytes open or close a value here?
unfoldable pub is_mark : FragState → ℕ → ℕ → Bool
is_mark pre b c = b == b'{' && c == b'{'
is_mark in_value b c = b == b'}' && c == b'}'
is_mark post_open b c = false
is_mark post b c = false

cut_state : FragState → Frags → Frags
cut_state pre s = record s {
  state = in_value;
  frags = s.frags ++ s.ab ∷ [];
  fragc = s.fragc + 1;
  ab = [];
}
cut_state in_value s = record {
  state = post_open;
  frags = s.frags ++ s.ab ∷ [];
  special = s.special ++ (s.fragc, 0) ∷ [];
  fragc = s.fragc + 1;
  ab = [];
}
cut_state _ s = s

-- A mark ends the fragment.
unfoldable pub cut : Frags → Frags
unfolding cut_state
cut s = cut_state s.state s

take_state : FragState → ℕ → Frags → Frags
take_state pre b s = record s { ab = s.ab ++ b ∷ [] }
take_state in_value b s = record s { ab = s.ab ++ b ∷ [] }
take_state post_open b s =
    if b == b'(' then record s { state = post } else record s { state = pre; ab = s.ab ++ b ∷ [] }
take_state post b s = if b == b')' then record s { state = pre } else s

-- A byte that is not the first of a mark.
unfoldable pub take_byte : ℕ → Frags → Frags
unfolding take_state
take_byte b s = take_state s.state b s

unfoldable pub frag_loop : List ℕ → Frags → Frags
frag_loop [] s = s
frag_loop (b ∷ []) s = take_byte b s
frag_loop (b ∷ c ∷ rest) s = elim (is_mark s.state b c) [
  | true ↦ frag_loop rest (cut s)
  | false ↦ frag_loop (c ∷ rest) (take_byte b s)
]

abbrev pub new_frags : Frags
new_frags = record { state = pre; frags = []; special = []; fragc = 0; ab = [] }

unfoldable pub find_frags : List ℕ → List (List ℕ) × List (ℕ × ℕ)
unfolding frag_loop
find_frags buf = let s = frag_loop buf new_frags in (s.frags, s.special)

-- The loop of `RunAnnotated` over the fragments, from fragment `i`: the injection stands for each
-- special fragment of the rule.
lookup_frag : ℕ → List (ℕ × ℕ) → Option ℕ
lookup_frag i [] = none
lookup_frag i ((k, r) ∷ m) = let rest = lookup_frag i m in if k == i then some r else rest

unfoldable pub inject : List (ℕ × ℕ) → ℕ → List ℕ → ℕ → List (List ℕ) → List ℕ
unfolding lookup_frag
inject special rule injection i [] = []
inject special rule injection i (frag ∷ frags) =
    let rest = inject special rule injection (i + 1) frags in
    elim (lookup_frag i special) [
      | none ↦ frag ++ rest
      | some r ↦ if r == rule then injection ++ rest else frag ++ rest
    ]
