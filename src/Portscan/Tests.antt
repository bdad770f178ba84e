-- ===== src/Portscan/Tests.antt =====
-- Tests of the port ranges and the timeouts of a scan, and their theorems at concrete inputs.
use formaldehyde.Prelude.{
  ℕ, ◌+◌, ◌*◌, ◌-◌, ◌/◌, ◌<◌, ◌≡◌, refl, arith, Bool, if◌then◌else◌, ltb, leb, ◌&&◌, List, [], ◌∷◌,
  Option, none, some, codes, length, ℤ, pos, ◌==◌,
}
use formaldehyde.Ewma.{new_ewma}
use formaldehyde.Portscan.Ranges.{Numbers, PortRange, parse_port_ranges, sum, randomizer}
use formaldehyde.Portscan.Ranges.Shuffling.{occurs, covering, occurs-randomizer}
use formaldehyde.Portscan.Ranges.Counting.{Fits, sum-parse_port_ranges}
use formaldehyde.Portscan.Policy.{DefaultPolicy, success, compute_timeout, millisecond}
use formaldehyde.Portscan.Policy.Timeouts.{elapsed_times, settled_timeout, compute_timeout-elapsed}

abbrev is_digit : ℕ → Bool
is_digit c = leb b'0' c && leb c b'9'

-- A text of digits, after what stands before them.
abbrev decimal : ℕ → List ℕ → Option ℕ
decimal n [] = some n
decimal n (c ∷ cs) =
    let rest = decimal (n * 10 + (c - b'0')) cs in if is_digit c then rest else none

abbrev number : List ℕ → Option ℕ
number [] = none
number (c ∷ cs) = decimal 0 (c ∷ cs)

abbrev below : ℕ → Option ℕ → Option ℕ
below m none = none
below m (some n) = if ltb n m then some n else none

abbrev as_int : Option ℕ → Option ℤ
as_int none = none
as_int (some n) = some (pos n)

abbrev numbers : Numbers
numbers = record {
  parse_uint = λ s. below 65536 (number s);
  parse_int = λ s. as_int (below 32768 (number s));
}

below-less : (m n : ℕ) (o : Option ℕ) → below m o ≡ some n → n < m
below-less m n none h = cc
below-less m n (some k) h = ground (arith, h)

numbers-Fits : Fits numbers
numbers-Fits s n h = below-less 65536 n (number s) h

parse_port_ranges_list :
    parse_port_ranges numbers (codes "22, 80 - 82")
    ≡ record { start = 22; stop = 22; count = 1 } ∷ record { start = 80; stop = 82; count = 3 } ∷ []
unfolding parse_port_ranges
parse_port_ranges_list = refl

-- A single port is read as a signed number.
parse_port_ranges_high : parse_port_ranges numbers (codes "40000") ≡ []
unfolding parse_port_ranges
parse_port_ranges_high = refl

-- The count of all ports wraps.
parse_port_ranges_all :
    parse_port_ranges numbers (codes "0-65535") ≡ record { start = 0; stop = 65535; count = 0 } ∷ []
unfolding parse_port_ranges
parse_port_ranges_all = refl

abbrev two_ranges : List PortRange
two_ranges =
    record { start = 22; stop = 22; count = 1 } ∷ record { start = 80; stop = 82; count = 3 } ∷ []

occurs-randomizer_example : occurs 81 (randomizer (λ i. i * 7) two_ranges) ≡ covering 81 two_ranges
occurs-randomizer_example =
    occurs-randomizer (λ i. i * 7) two_ranges 81 (omega arith, (omega arith, tt))

sum-parse_port_ranges_example :
    sum (parse_port_ranges numbers (codes "22, 80 - 82"))
    ≡ length (randomizer (λ i. i * 7) (parse_port_ranges numbers (codes "22, 80 - 82")))
unfolding parse_port_ranges
sum-parse_port_ranges_example =
    sum-parse_port_ranges numbers (λ i. i * 7) (codes "22, 80 - 82") numbers-Fits
      ((omega arith, omega arith), ((omega arith, omega arith), tt))

-- The logarithm where the average asks for it.
abbrev ilogb : ℕ → ℕ
ilogb n = if n == 1024 then 10 else if n == 8 then 3 else 0

abbrev new_policy : DefaultPolicy
new_policy = record { max_in_flight = 100; alltimeout = new_ewma; timeouts = none }

compute_timeout-elapsed_example :
    compute_timeout (elapsed_times ilogb 3 7 (pos 30000000) success new_policy) 7
    ≡ pos (settled_timeout (30000000 / millisecond))
compute_timeout-elapsed_example =
    compute_timeout-elapsed ilogb 2 7 30000000 success new_policy refl refl refl refl (omega arith)

settled_timeout_30 : settled_timeout 30 ≡ 124 * millisecond
settled_timeout_30 = refl
