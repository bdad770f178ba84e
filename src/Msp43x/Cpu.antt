-- ===== src/Msp43x/Cpu.antt =====
-- The registers and the flags of src/newmadrid/msp43x/cpu.go. The register file is the function from
-- a register's number to its word; an `int4` operand is below 16, so no index is out of range.
pub mod Flags
use formaldehyde.Prelude.{
  ℕ, ◌<<◌, ◌>>>◌, bit_and, bit_or, ℤ, pos, ◌==◌, ltb, Bool, ◌||◌, if◌then◌else◌, u8_of, update,
}
use formaldehyde.Prelude.Outcome.{Outcome, ok, err, panic, blocked, lift}
use formaldehyde.Msp43x.Constants.Op1
use formaldehyde.Msp43x.Insn.{Insn, is_byte, cg2v}

-- `CPU`, with the state of the memory behind the interface.
pub record Cpu (M : Type 0) : Type 0 where
  pub regs : ℕ → ℕ
  pub memory : M

-- The opcodes that the `switch` of `bw_eval` and of `bw_store` excludes, whatever the family.
unfoldable pub ignores_bw : ℕ → Bool
ignores_bw opcode =
    opcode == Op1.swpb || opcode == Op1.sxt || opcode == Op1.call || opcode == Op1.reti

-- `bw_eval`: the low byte of a value, for byte instructions only. The low byte of an `int32` is that
-- of its two's complement.
unfoldable pub bw_eval : Insn → ℤ → ℤ
unfolding ignores_bw
bw_eval i val = if is_byte i then if ignores_bw i.opcode then val else pos (u8_of val) else val

module _ {M : Type 0} where
  -- `SetRegs`: the loop writes each of the 16 registers.
  pub set_regs : (ℕ → ℕ) → Cpu M → Cpu M
  set_regs regs cpu = record cpu { regs = λ r. if ltb r 16 then regs r else cpu.regs r }

  -- `GetRegs`.
  pub get_regs : Cpu M → ℕ → ℕ
  get_regs cpu = cpu.regs

  -- `SetMemory`.
  pub set_memory : M → Cpu M → Cpu M
  set_memory memory cpu = record cpu { memory = memory }

  abbrev pub pc : Cpu M → ℕ
  pc cpu = cpu.regs 0

  abbrev pub sp : Cpu M → ℕ
  sp cpu = cpu.regs 1

  abbrev pub sr : Cpu M → ℕ
  sr cpu = cpu.regs 2

  abbrev pub cg2 : Cpu M → ℕ
  cg2 cpu = cpu.regs 3

  -- An assignment to one register.
  abbrev pub set_reg : ℕ → ℕ → Cpu M → Cpu M
  set_reg r val cpu = record cpu { regs = update cpu.regs r val }

  -- The flags: carry, zero, negative, overflow.
  unfoldable pub s_c : Cpu M → ℕ
  s_c cpu = bit_and (sr cpu) 1

  unfoldable pub set_c : ℕ → Cpu M → Cpu M
  set_c i cpu = set_reg 2 (bit_or (bit_and (cpu.regs 2) 0xfffe) (bit_and i 1)) cpu

  unfoldable pub s_z : Cpu M → ℕ
  s_z cpu = bit_and (sr cpu >>> 1) 1

  unfoldable pub set_z : ℕ → Cpu M → Cpu M
  set_z i cpu = set_reg 2 (bit_or (bit_and (cpu.regs 2) 0xfd) (bit_and i 1 << 1)) cpu

  unfoldable pub s_n : Cpu M → ℕ
  s_n cpu = bit_and (sr cpu >>> 2) 1

  unfoldable pub set_n : ℕ → Cpu M → Cpu M
  set_n i cpu = set_reg 2 (bit_or (bit_and (cpu.regs 2) 0xfb) (bit_and i 1 << 2)) cpu

  unfoldable pub s_v : Cpu M → ℕ
  s_v cpu = bit_and (sr cpu >>> 8) 1

  unfoldable pub set_v : ℕ → Cpu M → Cpu M
  set_v i cpu = set_reg 2 (bit_or (bit_and (cpu.regs 2) 0xff) (bit_and i 1 << 8)) cpu

  -- `bw_store`: a byte instruction stores the low byte, but for four opcodes.
  unfoldable pub bw_store : Insn → ℕ → ℕ → Cpu M → Cpu M
  unfolding ignores_bw
  bw_store i reg val =
      if is_byte i
      then if ignores_bw i.opcode then set_reg reg val else set_reg reg (bit_and val 0xff)
      else set_reg reg val

  -- `v`: the value of a register, or the constant that register 3 stands for.
  unfoldable pub v : Insn → ℕ → Cpu M → Outcome (Cpu M) ℤ
  v i r cpu = if r == 3 then lift (cg2v i) cpu else ok (pos (cpu.regs r)) cpu

  -- A call of a method of `cpu.memory`.
  abbrev pub on_memory : {A : Type 0} → (M → Outcome M A) → Cpu M → Outcome (Cpu M) A
  on_memory m cpu = elim (m cpu.memory) [
    | ok a memory' ↦ ok a (record cpu { memory = memory' })
    | err e memory' ↦ err e (record cpu { memory = memory' })
    | panic ↦ panic
    | blocked ↦ blocked
  ]
