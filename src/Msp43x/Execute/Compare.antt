-- ===== src/Msp43x/Execute/Compare.antt =====
-- `CMP` between registers and the conditional jumps after it, in src/newmadrid/msp43x/cpu.go.
use formaldehyde.Prelude.{
  ℕ, ◌+◌, ◌-◌, ◌%◌, ◌<◌, ◌≡◌, ◌≢◌, refl, arith, false, leb, ◌==◌, bit_xor, inr, not,
}
use formaldehyde.Msp43x.Constants.Cond
use formaldehyde.Msp43x.Constants.Op2
use formaldehyde.Msp43x.Memory.{Memory}
use formaldehyde.Msp43x.Insn.{Insn}
use formaldehyde.Msp43x.Cpu.{Cpu, s_c}
use formaldehyde.Msp43x.Cpu.Flags.{flags, getters}
use formaldehyde.Msp43x.Alu.{eval_double}
use formaldehyde.Msp43x.Alu.Flags.{flags-subtract}
use formaldehyde.Msp43x.Alu.Values.{eval_subtract}
use formaldehyde.Msp43x.Execute.{execute, takes_jump}
use formaldehyde.Msp43x.Execute.Registers.{IsWordOp, ends, word_test}

module _ {M : Type 0} where
  -- The conditions of a jump, in terms of the flags.
  pub takes_jump_lem :
      (cpu : Cpu M)
      → (takes_jump Cond.jnz cpu ≡ ((flags cpu).z == 0))
        × (takes_jump Cond.jz cpu ≡ not ((flags cpu).z == 0))
        × (takes_jump Cond.jnc cpu ≡ ((flags cpu).c == 0))
        × (takes_jump Cond.jc cpu ≡ not ((flags cpu).c == 0))
        × (takes_jump Cond.jn cpu ≡ not ((flags cpu).n == 0))
        × (takes_jump Cond.jge cpu ≡ (bit_xor (flags cpu).n (flags cpu).v == 0))
        × (takes_jump Cond.jl cpu ≡ not (bit_xor (flags cpu).n (flags cpu).v == 0))
  unfolding takes_jump
  takes_jump_lem cpu =
      let (c, z, n, v) = getters cpu in
      (rw z refl, rw z refl, rw c refl, rw c refl, rw n refl, rw (n, v) refl, rw (n, v) refl)

-- The branches after `CMP Rs, Rd` on words: `JZ` is taken when the registers are equal, `JC` when the
-- destination is not below the source as unsigned numbers, and `JL` when the wrapped difference has
-- its top bit set. Nothing but the status register changes.
pub cmp_jumps :
    {M : Type 0} (mem : Memory M) (s d r : ℕ) (i : Insn) (cpu : Cpu M)
    → IsWordOp Op2.cmp s d i
    → cpu.regs s < 65536
    → cpu.regs d < 65536
    → r ≢ 2
    → (after : Cpu M) × (execute mem i cpu ≡ ends cpu after)
      × (takes_jump Cond.jz after ≡ (cpu.regs d == cpu.regs s))
      × (takes_jump Cond.jc after ≡ leb (cpu.regs s) (cpu.regs d))
      × (takes_jump Cond.jl after ≡ leb 32768 ((cpu.regs d + 65536 - cpu.regs s) % 65536))
      × (after.regs r ≡ cpu.regs r)
      × (after.memory ≡ cpu.memory)
cmp_jumps mem s d r i cpu h p q r2 =
    let tmp = eval_double Op2.cmp false (s_c cpu) (cpu.regs s) (cpu.regs d) in
    let difference =
      eval_subtract Op2.cmp false (s_c cpu) (cpu.regs s) (cpu.regs d) (inr refl) p q in
    let fits : tmp < 65536 = ground (arith, difference) in
    let set = flags-subtract Op2.cmp false (cpu.regs s) (cpu.regs d) tmp cpu refl fits in
    let (after, run, f, at_r, memory) =
      word_test mem Op2.cmp s d r i cpu _ h p q (inr refl) r2 set refl in
    (
      after,
      run,
      ground (arith, (takes_jump_lem after).1, f, difference),
      ground (arith, (takes_jump_lem after).3, f),
      ground (arith, (takes_jump_lem after).6, f, difference),
      at_r,
      memory,
    )
