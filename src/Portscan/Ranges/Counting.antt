-- ===== src/Portscan/Ranges/Counting.antt =====
-- `Sum` is the number of ports that `Randomizer` gives.
use formaldehyde.Prelude.{
  split, ℕ, ◌+◌, ◌-◌, ◌≤◌, ◌<◌, ◌≡◌, refl, sym, ◌∙◌, arith, List, [], ◌∷◌, ◌++◌, Option, none, some,
  length, length-tabulate, length-append, ℤ, u16,
}
use formaldehyde.Portscan.Ranges.{
  Numbers, PortRange, range_of, single, cut_dash, trim, range_of_ends, single_of, part_ranges,
  parse_parts, parse_port_ranges, sum, ports, all_ports, array_of, shuffle, randomizer,
}

-- A property of all ranges.
abbrev pub AllRanges : (PortRange → Type 0) → List PortRange → Type 0
AllRanges P [] = Unit
AllRanges P (r ∷ rs) = P r × AllRanges P rs

-- A range that does not run backwards, and is not that of all ports.
abbrev pub InOrder : PortRange → Type 0
InOrder r = (r.start ≤ r.stop) × (r.stop < r.start + 65535)

-- `ParseUint` keeps to the bit size.
abbrev pub Fits : Numbers → Type 0
Fits num = (s : List ℕ) (n : ℕ) → num.parse_uint s ≡ some n → n < 65536

abbrev Counted : PortRange → Type 0
Counted r = InOrder r → r.count ≡ r.stop + 1 - r.start

range_of-Counted : (lp rp : ℕ) → lp < 65536 → rp < 65536 → Counted (range_of lp rp)
unfolding range_of
range_of-Counted lp rp l r (o, p) = omega (arith, l, r, o, p)

single-Counted : (port : ℤ) → Counted (single port)
unfolding single
single-Counted port h = omega arith

AllRanges-append :
    (P : PortRange → Type 0) (xs ys : List PortRange)
    → AllRanges P xs
    → AllRanges P ys
    → AllRanges P (xs ++ ys)
AllRanges-append P [] ys h k = k
AllRanges-append P (x ∷ xs) ys (p, h) k = (p, AllRanges-append P xs ys h k)

module _ (num : Numbers) (fits : Fits num) where
  ends-Counted :
      (l r : List ℕ) (lp rp : Option ℕ)
      → num.parse_uint l ≡ lp
      → num.parse_uint r ≡ rp
      → AllRanges Counted (range_of_ends num lp rp)
  ends-Counted l r (some lp) (some rp) e f =
      (range_of-Counted lp rp (fits l lp e) (fits r rp f), tt)
  ends-Counted l r (some lp) none e f = tt
  ends-Counted l r none rp e f = tt

  single_of-Counted : (port : Option ℤ) → AllRanges Counted (single_of num port)
  single_of-Counted (some port) = (single-Counted port, tt)
  single_of-Counted none = tt

  part-Counted :
      (o : Option (List ℕ × List ℕ)) (part : List ℕ) → AllRanges Counted (part_ranges num o part)
  part-Counted (some (l, r)) part =
      ends-Counted (trim l) (trim r) (num.parse_uint (trim l)) (num.parse_uint (trim r)) refl refl
  part-Counted none part = single_of-Counted (num.parse_int part)

  parse_parts-Counted : (parts : List (List ℕ)) → AllRanges Counted (parse_parts num parts)
  unfolding parse_parts
  parse_parts-Counted [] = tt
  parse_parts-Counted (part ∷ parts) =
      AllRanges-append Counted (part_ranges num (cut_dash (trim part)) (trim part))
        (parse_parts num parts) (part-Counted (cut_dash (trim part)) (trim part))
        (parse_parts-Counted parts)

sum-all_ports :
    (rs : List PortRange)
    → AllRanges Counted rs
    → AllRanges InOrder rs
    → sum rs ≡ length (all_ports rs)
unfolding sum all_ports ports
sum-all_ports [] c o = refl
sum-all_ports (r ∷ rs) (c, cs) (o, os) = omega (
  arith,
  c o,
  sum-all_ports rs cs os,
  length-append (ports r) (all_ports rs),
  length-tabulate u16 r.start (r.stop + 1 - r.start),
)

-- For a text whose ranges are all in order and none of them that of all ports, `Sum` of what
-- `ParsePortRanges` makes of it is the number of ports that `Randomizer` gives, if `ParseUint` keeps to its bit size.
pub sum-parse_port_ranges :
    (num : Numbers) (rand : ℕ → ℕ) (input : List ℕ)
    → Fits num
    → AllRanges InOrder (parse_port_ranges num input)
    → sum (parse_port_ranges num input) ≡ length (randomizer rand (parse_port_ranges num input))
unfolding parse_port_ranges randomizer
sum-parse_port_ranges num rand input fits o =
    let rs = parse_parts num (split b',' input) in
    let n = length (all_ports rs) in
    sum-all_ports rs (parse_parts-Counted num fits (split b',' input)) o
    ∙ sym (length-tabulate (shuffle rand n (n - 1) (array_of (all_ports rs))) 0 n)
