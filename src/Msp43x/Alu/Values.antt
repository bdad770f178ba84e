-- ===== src/Msp43x/Alu/Values.antt =====
-- What the opcodes of src/newmadrid/msp43x/cpu.go compute, as arithmetic on words and bytes.
use formaldehyde.Prelude.{
  ℕ, ◌+◌, ◌-◌, ◌*◌, ◌/◌, ◌%◌, ◌<◌, ◌≡◌, arith, Bool, true, false, ltb, leb, if◌then◌else◌, bit_and,
  ◌⊎◌, int8, int16,
}
use formaldehyde.Bits.{
  bit_and_bit, bit_and_mask, bit_and-one, bit_or_fields, bit_or_high, ones-bit_or, bit_or_comm,
}
use formaldehyde.Msp43x.Constants.Op2
use formaldehyde.Msp43x.Alu.{rrc, rra, sxt, swpb, eval_double}
use formaldehyde.Msp43x.Alu.Flags.{bit_of}

-- The number of values of an instruction's width.
abbrev pub range : Bool → ℕ
range byte = if byte then 256 else 65536

-- `ADD` is addition with a carry out of the width, for operands within it.
pub eval_add :
    (byte : Bool) (c src dst : ℕ)
    → src < range byte
    → dst < range byte
    → eval_double Op2.add byte c src dst
        + range byte * bit_of (ltb (if byte then 0xff else 0xffff) (src + dst))
      ≡ src + dst
unfolding eval_double
eval_add true c src dst p q = ground arith
eval_add false c src dst p q = ground arith

-- `SUB` and `CMP` are subtraction, with the carry as the absence of a borrow.
pub eval_subtract :
    (op : ℕ) (byte : Bool) (c src dst : ℕ)
    → (op ≡ Op2.sub) ⊎ (op ≡ Op2.cmp)
    → src < range byte
    → dst < range byte
    → eval_double op byte c src dst + src + range byte * bit_of (leb src dst) ≡ dst + range byte
unfolding eval_double
eval_subtract op true c src dst h p q = ground arith
eval_subtract op false c src dst h p q = ground arith

-- `SUBC` leaves the difference of its operands plus the carry, cut to the width, for operands within it.
pub eval_subc :
    (byte : Bool) (c src dst : ℕ)
    → c < 2
    → src < range byte
    → dst < range byte
    → eval_double Op2.subc byte c src dst ≡ (dst + (range byte - src) + c) % range byte
unfolding eval_double
eval_subc true c src dst k p q = ground arith
eval_subc false c src dst k p q = ground arith

-- `ADDC` is addition of both operands and the carry, modulo the width.
eval_addc :
    (byte : Bool) (c src dst : ℕ)
    → c < 2
    → src < range byte
    → dst < range byte
    → eval_double Op2.addc byte c src dst ≡ (src + dst + c) % range byte
unfolding eval_double
eval_addc true c src dst k p q = ground arith
eval_addc false c src dst k p q = ground arith

-- `RRC` rotates through the carry: the bit that falls out below and the carry that comes in above
-- account for the value.
rrc_lem :
    (byte : Bool) (c src : ℕ)
    → c < 2
    → src < range byte
    → rrc byte c src * 2 + bit_and src 1 ≡ src + range byte * c
unfolding rrc
rrc_lem true c src k p = ground (arith, bit_and-one src, bit_or_fields 7 c (src / 2))
rrc_lem false c src k p = ground (arith, bit_and-one src, bit_or_fields 15 c (src / 2))

-- `SWPB` exchanges the bytes.
swpb_lem : (src : ℕ) → src < 65536 → swpb src ≡ src % 256 * 256 + src / 256
unfolding swpb
swpb_lem src p = ground (
  arith,
  bit_and_mask 8 src,
  bit_or_comm (src / 256) (src % 256 * 256),
  bit_or_fields 8 (src % 256) (src / 256),
)

-- `SXT` extends the sign of the low byte.
sxt_lem : (src : ℕ) → src < 65536 → int16 (sxt src) ≡ int8 src
unfolding sxt
sxt_lem src p = ground (
  arith,
  bit_and_bit 7 src,
  bit_and_mask 8 src,
  bit_or_high 8 255 (src / 256) (src % 256),
  ones-bit_or 8 (src / 256),
)

-- `RRA` keeps the sign bit and copies it one place down, and loses every other bit of its operand.
rra_lem :
    (byte : Bool) (src : ℕ)
    → src < range byte
    → rra byte src ≡ src / (if byte then 128 else 32768) * (if byte then 0xc0 else 0xc000)
unfolding rra
rra_lem true src p = ground (
  arith,
  bit_and-one (src / 128),
  bit_and_bit 6 (src / 2),
  bit_or_comm (src / 128 * 64) (src / 128 * 128),
  bit_or_fields 7 (src / 128) (src / 128 * 64),
)
rra_lem false src p = ground (
  arith,
  bit_and-one (src / 32768),
  bit_and_bit 14 (src / 2),
  bit_or_comm (src / 32768 * 16384) (src / 32768 * 32768),
  bit_or_fields 15 (src / 32768) (src / 32768 * 16384),
)

-- `BIC` and `DADD` give 0 whatever their operands.
pub eval_zero :
    (op : ℕ) (byte : Bool) (c src dst : ℕ)
    → (op ≡ Op2.bic) ⊎ (op ≡ Op2.dadd)
    → eval_double op byte c src dst ≡ 0
unfolding eval_double
eval_zero op byte c src dst h = ground arith
