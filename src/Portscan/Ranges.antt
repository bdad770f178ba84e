-- ===== src/Portscan/Ranges.antt =====
-- The port ranges of src/matasano/util/portscan.go: `ParsePortRanges`, `Sum` and `Randomizer`.
pub mod Shuffling
pub mod Counting
use formaldehyde.Prelude.{
  ℕ, zero, suc, ◌+◌, ◌-◌, ◌%◌, ◌^◌, ◌==◌, ◌||◌, Bool, true, false, if◌then◌else◌, List, [], ◌∷◌,
  ◌++◌, Option, none, some, length, tabulate, update, ℤ, u16, u16_of, split,
}

-- `strconv.ParseUint` and `strconv.ParseInt` of a text, in base 10 with 16 bits; `none` is an error.
pub record Numbers : Type 0 where
  pub parse_uint : List ℕ → Option ℕ
  pub parse_int : List ℕ → Option ℤ

pub record PortRange : Type 0 where
  pub start : ℕ
  pub stop : ℕ
  pub count : ℕ

abbrev pub is_blank : ℕ → Bool
is_blank c = c == b' ' || c == 0x09 || c == 0x0d || c == 0x0a

unfoldable pub trim_left : List ℕ → List ℕ
trim_left [] = []
trim_left (c ∷ cs) = let rest = trim_left cs in if is_blank c then rest else c ∷ cs

unfoldable pub trim_right : List ℕ → List ℕ
trim_right [] = []
trim_right (c ∷ cs) = elim (trim_right cs) [
  | [] ↦ if is_blank c then [] else c ∷ []
  | d ∷ ds ↦ c ∷ d ∷ ds
]

-- `strings.Trim(s, " \t\r\n")`.
unfoldable pub trim : List ℕ → List ℕ
unfolding trim_left trim_right
trim s = trim_left (trim_right s)

-- The text before the first dash and the text after it, if there is one.
unfoldable pub cut_dash : List ℕ → Option (List ℕ × List ℕ)
cut_dash [] = none
cut_dash (c ∷ cs) =
    let rest = cut_dash cs in
    if c == b'-'
    then some ([], cs)
    else elim rest [ none ↦ none | some (before, after) ↦ some (c ∷ before, after) ]

-- The range from one port to another. The difference of two `uint64`s wraps, and so does the count.
unfoldable pub range_of : ℕ → ℕ → PortRange
range_of lp rp = record {
  start = u16 lp;
  stop = u16 rp;
  count = u16 (u16 ((rp + 2 ^ 64 - lp) % 2 ^ 64) + 1);
}

-- The range of a single port, an `int64`.
unfoldable pub single : ℤ → PortRange
single port = record { start = u16_of port; stop = u16_of port; count = 1 }

module _ (num : Numbers) where
  abbrev pub range_of_ends : Option ℕ → Option ℕ → List PortRange
  range_of_ends (some lp) (some rp) = range_of lp rp ∷ []
  range_of_ends _ _ = []

  abbrev pub single_of : Option ℤ → List PortRange
  single_of (some port) = single port ∷ []
  single_of none = []

  -- A round of the loop, of a part that is trimmed.
  abbrev pub part_ranges : Option (List ℕ × List ℕ) → List ℕ → List PortRange
  part_ranges (some (l, r)) part = range_of_ends (num.parse_uint (trim l)) (num.parse_uint (trim r))
  part_ranges none part = single_of (num.parse_int part)

  unfoldable pub parse_parts : List (List ℕ) → List PortRange
  unfolding range_of single trim cut_dash
  parse_parts [] = []
  parse_parts (part ∷ parts) = part_ranges (cut_dash (trim part)) (trim part) ++ parse_parts parts

  unfoldable pub parse_port_ranges : List ℕ → List PortRange
  unfolding parse_parts
  parse_port_ranges input = parse_parts (split b',' input)

unfoldable pub sum : List PortRange → ℕ
sum [] = 0
sum (r ∷ rs) = r.count + sum rs

-- The ports of a range, by the first loop of `Randomizer`. It counts with 32 bits, and so it ends.
unfoldable pub ports : PortRange → List ℕ
ports r = tabulate u16 r.start (r.stop + 1 - r.start)

unfoldable pub all_ports : List PortRange → List ℕ
unfolding ports
all_ports [] = []
all_ports (r ∷ rs) = ports r ++ all_ports rs

-- `x := out[o]; out[o] = out[i]; out[i] = x`.
abbrev pub swap : (ℕ → ℕ) → ℕ → ℕ → ℕ → ℕ
swap out i o = update (update out o (out i)) i (out o)

-- The second loop, from `i` down. `rand` gives the value of `rand.Int()` in the round of `i`.
unfoldable pub shuffle : (ℕ → ℕ) → ℕ → ℕ → (ℕ → ℕ) → ℕ → ℕ
shuffle rand n zero out = out
shuffle rand n (suc i) out = shuffle rand n i (swap out (suc i) (rand (suc i) % n))

-- A list as an array.
unfoldable pub array_of : List ℕ → ℕ → ℕ
array_of [] i = 0
array_of (x ∷ xs) zero = x
array_of (x ∷ xs) (suc i) = array_of xs i

unfoldable pub randomizer : (ℕ → ℕ) → List PortRange → List ℕ
unfolding all_ports shuffle array_of
randomizer rand rs =
    let out = all_ports rs in
    let n = length out in tabulate (shuffle rand n (n - 1) (array_of out)) 0 n
