-- ===== src/Bits/Step.antt =====
-- The lowest binary digit of `&` and `|`. The native operations stand for a recursion that counts
-- digits down, and a larger count changes nothing.
use Prim.Native.Nat.{bitwise, digits, bit_or-bitwise, bit_and-bitwise, max, min}
use formaldehyde.Prelude.{
  ◌≡◌, refl, ap, ◌∙◌, arith, bit_and, bit_or, ℕ, zero, suc, ◌+◌, ◌-◌, ◌*◌, ◌/◌, ◌%◌, ◌≤◌,
}

module _ (rest : ℕ → ℕ) (op : ℕ → ℕ → ℕ) where
  one_more : (count x y : ℕ) → x ≤ count → digits rest op (suc count) x y ≡ digits rest op count x y
  one_more zero zero y h = refl
  one_more zero (suc x) y h = absurd (omega arith)
  one_more (suc count) zero y h = refl
  one_more (suc count) (suc x) y h = rw (one_more count (suc x / 2) (y / 2) (omega arith))

  recount : (m n x y : ℕ) → m ≡ n → digits rest op m x y ≡ digits rest op n x y
  recount m n x y e = ap (λ (count : ℕ). digits rest op count x y) e

  many_more : (extra x y : ℕ) → digits rest op (extra + x) x y ≡ bitwise rest op x y
  many_more zero x y = recount (0 + x) x x y (omega arith)
  many_more (suc extra) x y =
      recount (suc extra + x) (suc (extra + x)) x y (omega arith)
      ∙ (one_more (extra + x) x y (omega arith) ∙ many_more extra x y)

  counted : (count x y : ℕ) → x ≤ count → digits rest op count x y ≡ bitwise rest op x y
  counted count x y h = recount count (count - x + x) x y (omega arith) ∙ many_more (count - x) x y

  lowest_digit :
      (x y : ℕ)
      → bitwise rest op (suc x) y ≡ op (suc x % 2) (y % 2) + 2 * bitwise rest op (suc x / 2) (y / 2)
  lowest_digit x y = omega (arith, counted x (suc x / 2) (y / 2) (omega arith))

pub bit_or_digit : (x y : ℕ) → bit_or x y ≡ max (x % 2) (y % 2) + 2 * bit_or (x / 2) (y / 2)
bit_or_digit zero y = omega (arith, bit_or-bitwise 0 y, bit_or-bitwise 0 (y / 2))
bit_or_digit (suc x) y = simp bit_or-bitwise (lowest_digit (λ rest. rest) max x y)

pub bit_and_digit : (x y : ℕ) → bit_and x y ≡ min (x % 2) (y % 2) + 2 * bit_and (x / 2) (y / 2)
bit_and_digit zero y = omega (arith, bit_and-bitwise 0 y, bit_and-bitwise 0 (y / 2))
bit_and_digit (suc x) y = simp bit_and-bitwise (lowest_digit (λ rest. 0) min x y)
