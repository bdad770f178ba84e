-- ===== src/Portscan/Ranges/Shuffling.antt =====
-- `Randomizer` only changes the order of the ports.
use formaldehyde.Prelude.{
  ℕ, zero, suc, ◌+◌, ◌-◌, ◌%◌, ◌==◌, ◌≤◌, ◌<◌, ◌≡◌, refl, ap, ◌∙◌, fun_ext, arith, true,
  if◌then◌else◌, List, [], ◌∷◌, ◌++◌, order_cases, length, tabulate, leb, ltb, u16, ◌&&◌, update,
  Bool-cases, inl, inr,
}
use native.Mathlib.Nat.{mod-lt}
use formaldehyde.Portscan.Ranges.{PortRange, ports, all_ports, swap, shuffle, array_of, randomizer}

eq_of_test : (a b : ℕ) → (a == b) ≡ true → a ≡ b
eq_of_test a b h = ground arith

zero_right : (n : ℕ) → n + 0 ≡ n
zero_right n = omega arith

-- 1 if two numbers are equal, and 0 if not.
abbrev pub same : ℕ → ℕ → ℕ
same a b = if a == b then 1 else 0

-- How often a port is in a list.
unfoldable pub occurs : ℕ → List ℕ → ℕ
occurs v [] = 0
occurs v (x ∷ xs) = same x v + occurs v xs

-- How often it is among the first `n` of an array.
unfoldable among : ℕ → ℕ → (ℕ → ℕ) → ℕ
among v zero f = 0
among v (suc n) f = among v n f + same (f n) v

among-beyond : (v n k a : ℕ) (f : ℕ → ℕ) → n ≤ k → among v n (update f k a) ≡ among v n f
unfolding among
among-beyond v zero k a f l = refl
among-beyond v (suc n) k a f l = ground (arith, l, among-beyond v n k a f (omega (arith, l)))

-- An assignment takes one value away and adds one.
among-update :
    (v n k a : ℕ) (f : ℕ → ℕ)
    → k < n
    → among v n (update f k a) + same (f k) v ≡ among v n f + same a v
unfolding among
among-update v zero k a f l = absurd (omega (arith, l))
among-update v (suc n) k a f l = elim (Bool-cases (n == k)) [
  | inl e ↦
      let u : update f k a n ≡ a = ground (arith, e) in
      omega (
        arith,
        among-beyond v n k a f (ground (arith, e)),
        ap (λ x. same x v) u,
        ap (λ j. same (f j) v) (eq_of_test n k e),
      )
  | inr e ↦
      let u : update f k a n ≡ f n = ground (arith, e) in
      omega (arith, among-update v n k a f (ground (arith, e, l)), ap (λ x. same x v) u)
]

among-swap : (v n i o : ℕ) (f : ℕ → ℕ) → i < n → o < n → among v n (swap f i o) ≡ among v n f
among-swap v n i o f p q =
    let g = update f o (f i) in
    let u : g i ≡ f i = ground arith in
    omega (arith, among-update v n o (f i) f q, among-update v n i (f o) g p, ap (λ x. same x v) u)

among-shuffle :
    (rand : ℕ → ℕ) (v n i : ℕ) (f : ℕ → ℕ) → i < n → among v n (shuffle rand n i f) ≡ among v n f
unfolding shuffle
among-shuffle rand v n zero f l = refl
among-shuffle rand v n (suc i) f l =
    among-shuffle rand v n i (swap f (suc i) (rand (suc i) % n)) (omega (arith, l))
    ∙ among-swap v n (suc i) (rand (suc i) % n) f l (mod-lt (rand (suc i)) (omega (arith, l)))

-- The first values of an array, as a list and counted.
among-first : (v n : ℕ) (f : ℕ → ℕ) → among v (suc n) f ≡ same (f 0) v + among v n (λ i. f (suc i))
unfolding among
among-first v zero f = omega arith
among-first v (suc n) f = omega (arith, among-first v n f)

among-same : (v n : ℕ) (f g : ℕ → ℕ) → ((i : ℕ) → f i ≡ g i) → among v n f ≡ among v n g
among-same v n f g h = ap (among v n) (fun_ext h)

occurs-tabulate :
    (v n from : ℕ) (f : ℕ → ℕ) → occurs v (tabulate f from n) ≡ among v n (λ i. f (from + i))
unfolding occurs among
occurs-tabulate v zero from f = refl
occurs-tabulate v (suc n) from f = omega (
  arith,
  occurs-tabulate v n (from + 1) f,
  among-first v n (λ i. f (from + i)),
  among-same v n (λ i. f (from + 1 + i)) (λ i. f (from + suc i)) (λ i. ap f (omega arith)),
  ap (λ j. same (f j) v) (zero_right from),
)

among-array_of : (v : ℕ) (xs : List ℕ) → among v (length xs) (array_of xs) ≡ occurs v xs
unfolding occurs array_of among
among-array_of v [] = refl
among-array_of v (x ∷ xs) =
    omega (arith, among-first v (length xs) (array_of (x ∷ xs)), among-array_of v xs)

occurs-shuffle :
    (rand : ℕ → ℕ) (xs : List ℕ) (v : ℕ)
    → occurs v (tabulate (shuffle rand (length xs) (length xs - 1) (array_of xs)) 0 (length xs))
      ≡ occurs v xs
unfolding occurs
occurs-shuffle rand [] v = refl
occurs-shuffle rand (x ∷ xs) v =
    let n = length (x ∷ xs) in
    let f = shuffle rand n (n - 1) (array_of (x ∷ xs)) in
    occurs-tabulate v n 0 f
    ∙ among-same v n (λ i. f (0 + i)) f (λ i. ap f (omega arith))
    ∙ among-shuffle rand v n (n - 1) (array_of (x ∷ xs)) (omega arith)
    ∙ among-array_of v (x ∷ xs)

-- How many of the ranges a port is in.
unfoldable pub covering : ℕ → List PortRange → ℕ
covering v [] = 0
covering v (r ∷ rs) = (if leb r.start v && leb v r.stop then 1 else 0) + covering v rs

-- The ranges end at 16-bit ports.
abbrev pub AllPorts : List PortRange → Type 0
AllPorts [] = Unit
AllPorts (r ∷ rs) = (r.stop < 65536) × AllPorts rs

occurs-append : (v : ℕ) (xs ys : List ℕ) → occurs v (xs ++ ys) ≡ occurs v xs + occurs v ys
unfolding occurs
occurs-append v [] ys = omega arith
occurs-append v (x ∷ xs) ys = omega (arith, occurs-append v xs ys)

-- Each of `n` ports in a row is there once.
occurs-row :
    (v n from : ℕ)
    → from + n ≤ 65536
    → occurs v (tabulate u16 from n) ≡ (if leb from v && ltb v (from + n) then 1 else 0)
unfolding occurs
occurs-row v zero from l = ground arith
occurs-row v (suc n) from l = ground (arith, occurs-row v n (from + 1) (omega (arith, l)))

occurs-ports :
    (v : ℕ) (r : PortRange)
    → r.stop < 65536
    → occurs v (ports r) ≡ (if leb r.start v && leb v r.stop then 1 else 0)
unfolding ports occurs
occurs-ports v r l = elim (order_cases r.start (r.stop + 2)) [
  | inl below ↦
      occurs-row v (r.stop + 1 - r.start) r.start (omega (arith, l, below))
      ∙ ground (arith, l, below)
  | inr (inl at) ↦
      ap (λ n. occurs v (tabulate u16 r.start n)) {y = 0} (omega (arith, at))
      ∙ ground (arith, l, at)
  | inr (inr above) ↦
      ap (λ n. occurs v (tabulate u16 r.start n)) {y = 0} (omega (arith, above))
      ∙ ground (arith, l, above)
]

occurs-all_ports :
    (v : ℕ) (rs : List PortRange) → AllPorts rs → occurs v (all_ports rs) ≡ covering v rs
unfolding all_ports covering occurs
occurs-all_ports v [] h = refl
occurs-all_ports v (r ∷ rs) (l, h) =
    omega
      (arith, occurs-append v (ports r) (all_ports rs), occurs-ports v r l, occurs-all_ports v rs h)

-- Whatever numbers are drawn, `Randomizer` gives every port as often as there are ranges with the port
-- between their ends, both included, if the ranges end at 16-bit ports.
pub occurs-randomizer :
    (rand : ℕ → ℕ) (rs : List PortRange) (v : ℕ)
    → AllPorts rs
    → occurs v (randomizer rand rs) ≡ covering v rs
unfolding randomizer
occurs-randomizer rand rs v h = occurs-shuffle rand (all_ports rs) v ∙ occurs-all_ports v rs h
