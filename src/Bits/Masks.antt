-- ===== src/Bits/Masks.antt =====
-- The masks and the field packings that the emulator uses, at every value.
use native.Mathlib.Nat.{pow-suc, one-le-pow, div-div-eq-div-mul}
use formaldehyde.Prelude.{
  ℕ, zero, suc, ◌+◌, ◌-◌, ◌*◌, ◌/◌, ◌%◌, ◌^◌, ◌≤◌, ◌<◌, bit_and, bit_or, ◌≡◌, refl, ap, ◌∙◌, arith,
}
use formaldehyde.Bits.Step.{bit_and_digit, bit_or_digit}

bit_and-zero_below : (n a : ℕ) → a ≤ n → bit_and a 0 ≡ 0
bit_and-zero_below n zero h = refl
bit_and-zero_below zero (suc a) h = absurd (omega arith)
bit_and-zero_below (suc n) (suc a) h =
    omega (arith, bit_and_digit (suc a) 0, bit_and-zero_below n (suc a / 2) (omega arith))

bit_or-zero_below : (n a : ℕ) → a ≤ n → bit_or a 0 ≡ a
bit_or-zero_below n zero h = refl
bit_or-zero_below zero (suc a) h = absurd (omega arith)
bit_or-zero_below (suc n) (suc a) h =
    omega (arith, bit_or_digit (suc a) 0, bit_or-zero_below n (suc a / 2) (omega arith))

pub bit_and-zero : (a : ℕ) → bit_and a 0 ≡ 0
bit_and-zero a = bit_and-zero_below a a (omega arith)

pub bit_or-zero : (a : ℕ) → bit_or a 0 ≡ a
bit_or-zero a = bit_or-zero_below a a (omega arith)

high_doubled : (field width : ℕ) → 2 * (field * 2 ^ width) ≡ field * 2 ^ suc width
high_doubled field width = omega (arith, ap (λ (w : ℕ). field * w) (pow-suc 2 width))

-- `|` acts apart on the fields above and below bit `k`, here where one side has no low bits.
pub bit_or_high :
    (k q h r : ℕ) → r < 2 ^ k → bit_or (q * 2 ^ k) (h * 2 ^ k + r) ≡ bit_or q h * 2 ^ k + r
bit_or_high zero q h r fits = ground arith
bit_or_high (suc k) q h r fits = ground (
  arith,
  bit_or_digit (q * 2 ^ suc k) (h * 2 ^ suc k + r),
  high_doubled q k,
  high_doubled h k,
  high_doubled (bit_or q h) k,
  bit_or_high k q h (r / 2) (omega arith),
)

-- `(high << width) | low` is a sum when `low` fits `width` bits.
pub bit_or_fields :
    (width high low : ℕ) → low < 2 ^ width → bit_or (high * 2 ^ width) low ≡ high * 2 ^ width + low
bit_or_fields width high low fits = omega (
  arith,
  bit_or_high width high 0 low fits,
  ap (λ (word : ℕ). bit_or (high * 2 ^ width) word) no_field,
  ap (λ (field : ℕ). field * 2 ^ width) (bit_or-zero high),
)
  where
    no_field : 0 * 2 ^ width + low ≡ low
    no_field = omega arith

low_field : (k q r : ℕ) → r < 2 ^ k → bit_and (q * 2 ^ k + r) (2 ^ k - 1) ≡ r
low_field zero q r fits = ground (arith, bit_and-zero (q + r))
low_field (suc k) q r fits = ground (
  arith,
  bit_and_digit (q * 2 ^ suc k + r) (2 ^ suc k - 1),
  high_doubled q k,
  pow-suc 2 k,
  low_field k q (r / 2) (omega arith),
)

-- A mask of `k` low bits is the remainder by `2 ^ k`.
pub bit_and_mask : (k a : ℕ) → bit_and a (2 ^ k - 1) ≡ a % 2 ^ k
bit_and_mask k a = ground (arith, one-le-pow k 2, low_field k (a / 2 ^ k) (a % 2 ^ k))

bit_or_comm_below : (n a b : ℕ) → a ≤ n → b ≤ n → bit_or a b ≡ bit_or b a
bit_or_comm_below n zero zero p q = refl
bit_or_comm_below zero zero (suc b) p q = absurd (omega arith)
bit_or_comm_below zero (suc a) b p q = absurd (omega arith)
bit_or_comm_below (suc n) zero (suc b) p q = omega (
  arith,
  bit_or_digit 0 (suc b),
  bit_or_digit (suc b) 0,
  bit_or_comm_below n 0 (suc b / 2) (omega arith) (omega arith),
)
bit_or_comm_below (suc n) (suc a) b p q = omega (
  arith,
  bit_or_digit (suc a) b,
  bit_or_digit b (suc a),
  bit_or_comm_below n (suc a / 2) (b / 2) (omega arith) (omega arith),
)

pub bit_or_comm : (a b : ℕ) → bit_or a b ≡ bit_or b a
bit_or_comm a b = bit_or_comm_below (a + b) a b (omega arith) (omega arith)

pub bit_and-one : (a : ℕ) → bit_and a 1 ≡ a % 2
bit_and-one = bit_and_mask 1

-- One bit of a status word replaced, as the four flag setters write it.
pub set_bit_0 : (x i : ℕ) → bit_or (bit_and x 0xfffe) (bit_and i 1) ≡ x / 2 % 32768 * 2 + i % 2
set_bit_0 x i = rw (cleared, bit_and-one) (bit_or_fields 1 (x / 2 % 32768) (i % 2) (omega arith))
  where
    cleared : bit_and x 0xfffe ≡ x / 2 % 32768 * 2 ^ 1
    cleared = omega (arith, bit_and_digit x 0xfffe, bit_and_mask 15 (x / 2))

pub set_bit_1 :
    (x i : ℕ) → bit_or (bit_and x 0xfd) (bit_and i 1 * 2) ≡ x / 4 % 64 * 4 + i % 2 * 2 + x % 2
set_bit_1 x i =
    rw (cleared, bit_and-one)
      (ground (
        arith,
        bit_or_digit (x / 4 % 64 * 4 + x % 2) (i % 2 * 2),
        bit_or_fields 1 (x / 4 % 64) (i % 2) (omega arith),
      ))
  where
    cleared : bit_and x 0xfd ≡ x / 4 % 64 * 4 + x % 2
    cleared =
        omega (arith, bit_and_digit x 0xfd, bit_and_digit (x / 2) 0x7e, bit_and_mask 6 (x / 2 / 2))

pub set_bit_2 :
    (x i : ℕ) → bit_or (bit_and x 0xfb) (bit_and i 1 * 4) ≡ x / 8 % 32 * 8 + i % 2 * 4 + x % 4
set_bit_2 x i =
    rw (cleared, bit_and-one)
      (ground (
        arith,
        bit_or_digit (x / 8 % 32 * 8 + x % 4) (i % 2 * 4),
        bit_or_digit (x / 8 % 32 * 4 + x / 2 % 2) (i % 2 * 2),
        bit_or_fields 1 (x / 8 % 32) (i % 2) (omega arith),
      ))
  where
    cleared : bit_and x 0xfb ≡ x / 8 % 32 * 8 + x % 4
    cleared = omega (
      arith,
      bit_and_digit x 0xfb,
      bit_and_digit (x / 2) 0x7d,
      bit_and_digit (x / 2 / 2) 0x3e,
      bit_and_mask 5 (x / 2 / 2 / 2),
    )

pub set_bit_8 : (x i : ℕ) → bit_or (bit_and x 0xff) (bit_and i 1 * 256) ≡ i % 2 * 256 + x % 256
set_bit_8 x i =
    rw (bit_and_mask 8, bit_and-one, bit_or_comm) (bit_or_fields 8 (i % 2) (x % 256) (omega arith))

pow_half : (k : ℕ) → (2 ^ suc k / 2 ≡ 2 ^ k) × (2 ^ suc k % 2 ≡ 0)
pow_half k = omega (arith, pow-suc 2 k)

div-pow-suc : (a k : ℕ) → a / 2 / 2 ^ k ≡ a / 2 ^ suc k
div-pow-suc a k =
    div-div-eq-div-mul a 2 (2 ^ k) ∙ ap (λ (t : ℕ). a / t) (omega (arith, pow-suc 2 k))

-- A mask of one bit.
pub bit_and_bit : (k a : ℕ) → bit_and a (2 ^ k) ≡ a / 2 ^ k % 2 * 2 ^ k
bit_and_bit zero a = omega (arith, bit_and-one a)
bit_and_bit (suc k) a = ground (
  arith,
  bit_and_digit a (2 ^ suc k),
  pow-suc 2 k,
  pow_half k,
  bit_and_bit k (a / 2),
  div-pow-suc a k,
  ap (λ (t : ℕ). a / 2 ^ suc k % 2 * t) (pow-suc 2 k),
)

-- Ones absorb.
pub ones-bit_or : (k a : ℕ) → a < 2 ^ k → bit_or (2 ^ k - 1) a ≡ 2 ^ k - 1
ones-bit_or zero a fits = ground (arith, bit_or-zero 0)
ones-bit_or (suc k) a fits = ground (
  arith,
  bit_or_digit (2 ^ suc k - 1) a,
  pow-suc 2 k,
  one-le-pow k 2,
  ones-bit_or k (a / 2) (omega (arith, pow-suc 2 k)),
)
