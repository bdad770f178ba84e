-- ===== src/Msp43x/Insn.antt =====
-- `Insn` of src/newmadrid/msp43x/cpu.go, the decoded instruction.
-- `as_bits` is the source's `as`. The narrow fields (`int2`, `int4`, `opcode`, …) are numbers.
use formaldehyde.Prelude.{
  ℕ, ℤ, pos, negsuc, Bool, false, ◌==◌, not, ◌||◌, if◌then◌else◌, Result, ok, panic,
}
use formaldehyde.Msp43x.Constants.{
  Family, single_operand, cond_jump, double_operand, AddrMode, reg_direct,
}
use formaldehyde.Msp43x.Constants.Op1
use formaldehyde.Msp43x.Slice.{Slice}

pub record Insn : Type 0 where
  pub family : Family
  pub mode : AddrMode
  pub dst_mode : AddrMode
  pub opcode : ℕ
  pub condition : ℕ
  pub bw : ℕ
  pub as_bits : ℕ
  pub offset : ℤ
  pub ad : ℕ
  pub source : ℕ
  pub destination : ℕ
  pub srcx : ℤ
  pub dstx : ℤ
  pub width : ℕ
  pub raw : Slice

-- `Insn{Width: 2}`, with Go's zero values. A nil slice has no element and no capacity.
abbrev pub blank : Insn
blank = record {
  family = single_operand;
  mode = reg_direct;
  dst_mode = reg_direct;
  opcode = 0;
  condition = 0;
  bw = 0;
  as_bits = 0;
  offset = pos 0;
  ad = 0;
  source = 0;
  destination = 0;
  srcx = pos 0;
  dstx = pos 0;
  width = 2;
  raw = record { at = λ k. 0; len = 0; cap = 0 };
}

byte_family : Family → ℕ → ℕ → Bool
byte_family single_operand opcode bw =
    if opcode == Op1.rrc || opcode == Op1.rra || opcode == Op1.push then not (bw == 0) else false
byte_family cond_jump opcode bw = false
byte_family double_operand opcode bw = not (bw == 0)

-- `Byte`: is this instruction operating on bytes?
unfoldable pub is_byte : Insn → Bool
unfolding byte_family
is_byte i = byte_family i.family i.opcode i.bw

-- `cg2v`: the constant that register 3 stands for. `as` is two bits of the instruction word, so the
-- source's `panic` is not reached from decoded instructions.
unfoldable pub cg2v : Insn → Result ℤ
cg2v i =
    if i.as_bits == 0
    then ok (pos 4)
    else if i.as_bits == 1
    then ok (pos 8)
    else if i.as_bits == 2
    then ok (pos 0)
    else if i.as_bits == 3
    then ok (negsuc 0)
    else panic
