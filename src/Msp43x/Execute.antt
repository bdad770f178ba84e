-- ===== src/Msp43x/Execute.antt =====
-- `Execute` of src/newmadrid/msp43x/cpu.go.
pub mod Registers
pub mod Arithmetic
pub mod Compare
use formaldehyde.Prelude.{
  ℕ, ◌+◌, ◌-◌, bit_and, bit_xor, Bool, true, false, ◌==◌, not, ◌||◌, if◌then◌else◌, u16, u16_of,
  cpu_error, halted,
}
use formaldehyde.Prelude.Outcome.{Outcome, ◌>>=◌, ◌>>◌, return, fail, modify, ignore_error}
use formaldehyde.Msp43x.Constants.{Family, single_operand, cond_jump, double_operand}
use formaldehyde.Msp43x.Constants.Cond
use formaldehyde.Msp43x.Constants.Op1
use formaldehyde.Msp43x.Constants.Op2
use formaldehyde.Msp43x.Memory.{Memory}
use formaldehyde.Msp43x.Insn.{Insn, is_byte}
use formaldehyde.Msp43x.Cpu.{Cpu, sp, pc, sr, s_c, s_z, s_n, s_v, set_c, set_reg, on_memory}
use formaldehyde.Msp43x.Operand.{
  store, src_operand, src_operand_store, dst_operand, dst_operand_store,
}
use formaldehyde.Msp43x.Alu.{rrc, swpb, rra, sxt, eval_double, single_flags, double_flags}

module _ {M : Type 0} where
  -- The `switch` that decides `jmp`.
  unfoldable pub takes_jump : ℕ → Cpu M → Bool
  takes_jump condition cpu =
      if condition == Cond.jnz
      then s_z cpu == 0
      else if condition == Cond.jz
      then not (s_z cpu == 0)
      else if condition == Cond.jnc
      then s_c cpu == 0
      else if condition == Cond.jc
      then not (s_c cpu == 0)
      else if condition == Cond.jn
      then not (s_n cpu == 0)
      else if condition == Cond.jge
      then bit_xor (s_n cpu) (s_v cpu) == 0
      else if condition == Cond.jl
      then not (bit_xor (s_n cpu) (s_v cpu) == 0)
      else condition == Cond.jmp

  unfoldable pub jump : Insn → Cpu M → Cpu M
  jump i cpu =
      if takes_jump i.condition cpu then set_reg 0 (u16 (pc cpu + u16_of i.offset)) cpu else cpu

  -- The last test of `Execute`: is CPUOFF set?
  unfoldable pub check_halted : Cpu M → Outcome (Cpu M) (Unit {0})
  check_halted cpu =
      if bit_and (sr cpu) 16 == 0 then return tt cpu else fail (cpu_error halted "CPUOFF set") cpu

module _ {M : Type 0} (mem : Memory M) where
  -- `cpu.regs[1] -= 2`.
  decrement_sp : Cpu M → Cpu M
  decrement_sp cpu = set_reg 1 (u16 (sp cpu + 65536 - 2)) cpu

  -- `Op1Push` and `Op1Call`: the error of the store is dropped.
  unfoldable pub push : Insn → ℕ → Cpu M → Outcome (Cpu M) (Unit {0})
  unfolding decrement_sp
  push i src = do modify decrement_sp; ignore_error (λ cpu. store mem i (sp cpu) src cpu)

  unfoldable pub call : ℕ → Cpu M → Outcome (Cpu M) (Unit {0})
  unfolding decrement_sp
  call src = do
    modify decrement_sp
    ignore_error (λ cpu. on_memory (mem.store_word (sp cpu) (pc cpu)) cpu)
    modify (set_reg 0 src)

  -- S2 of one operand, but for `Op1Reti`. An opcode that is none leaves `tmp` at 0.
  eval_single : Insn → ℕ → Cpu M → Outcome (Cpu M) ℕ
  eval_single i src =
      if i.opcode == Op1.rrc
      then (λ cpu. return (rrc (is_byte i) (s_c cpu) src) (set_c (bit_and src 1) cpu))
      else if i.opcode == Op1.swpb
      then return (swpb src)
      else if i.opcode == Op1.rra
      then (λ cpu. return (rra (is_byte i) src) (set_c (bit_and src 1) cpu))
      else if i.opcode == Op1.sxt
      then return (sxt src)
      else if i.opcode == Op1.push
      then (push i src >> return 0)
      else if i.opcode == Op1.call
      then (call src >> return 0)
      else return 0

  -- S4 of one operand.
  store_single : Insn → ℕ → Cpu M → Outcome (Cpu M) (Unit {0})
  store_single i tmp =
      if i.opcode == Op1.push || i.opcode == Op1.call || i.opcode == Op1.reti
      then return tt
      else src_operand_store mem i tmp

  -- S2 to S4 of one operand.
  unfoldable pub finish_single : Insn → ℕ → Cpu M → Outcome (Cpu M) Bool
  unfolding eval_single store_single
  finish_single i src = do
    tmp ← eval_single i src
    modify (single_flags i.opcode (is_byte i) tmp)
    store_single i tmp
    return true

  -- An instruction of one operand; the result says whether control goes on to the test of CPUOFF,
  -- which the `return` of `Op1Reti` skips.
  unfoldable pub execute_single : Insn → Cpu M → Outcome (Cpu M) Bool
  unfolding finish_single
  execute_single i = do
    src ← src_operand mem i
    (if i.opcode == Op1.reti then return false else finish_single i src)

  -- S4 of two operands.
  store_double : Insn → ℕ → Cpu M → Outcome (Cpu M) (Unit {0})
  store_double i tmp =
      if i.opcode == Op2.bit || i.opcode == Op2.cmp then return tt else dst_operand_store mem i tmp

  -- S2 to S4 of two operands, once both are loaded.
  unfoldable pub compute_double : Insn → ℕ → ℕ → Cpu M → Outcome (Cpu M) (Unit {0})
  unfolding store_double
  compute_double i src dst cpu =
      let tmp = eval_double i.opcode (is_byte i) (s_c cpu) src dst in
      store_double i tmp (double_flags i.opcode (is_byte i) src dst tmp cpu)

  unfoldable pub execute_double : Insn → Cpu M → Outcome (Cpu M) (Unit {0})
  execute_double i = do src ← src_operand mem i; dst ← dst_operand mem i; compute_double i src dst

  execute_family : Family → Insn → Cpu M → Outcome (Cpu M) Bool
  execute_family cond_jump i = modify (jump i) >> return true
  execute_family single_operand i = execute_single i
  execute_family double_operand i = execute_double i >> return true

  -- `Execute`.
  unfoldable pub execute : Insn → Cpu M → Outcome (Cpu M) (Unit {0})
  unfolding execute_family
  execute i = do more ← execute_family i.family i; (if more then check_halted else return tt)
