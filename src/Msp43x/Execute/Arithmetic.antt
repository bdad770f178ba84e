-- ===== src/Msp43x/Execute/Arithmetic.antt =====
-- `ADD`, `SUB`, `BIC` and `DADD` between two registers, run by `Execute` of
-- src/newmadrid/msp43x/cpu.go.
use formaldehyde.Prelude.{ℕ, ◌+◌, ◌*◌, ◌<◌, ◌≡◌, ◌≢◌, refl, ap, arith, false, leb, ◌==◌, ◌⊎◌, inl}
use formaldehyde.Msp43x.Constants.Op2
use formaldehyde.Msp43x.Memory.{Memory}
use formaldehyde.Msp43x.Insn.{Insn}
use formaldehyde.Msp43x.Cpu.{Cpu, s_c}
use formaldehyde.Msp43x.Cpu.Flags.{flags}
use formaldehyde.Msp43x.Alu.{eval_double}
use formaldehyde.Msp43x.Alu.Flags.{bit_of, flags-add, flags-subtract, double_flags-none}
use formaldehyde.Msp43x.Alu.Values.{eval_add, eval_subtract, eval_zero}
use formaldehyde.Msp43x.Execute.{execute}
use formaldehyde.Msp43x.Execute.Registers.{IsWordOp, result, ends, word_op}

module _ {M : Type 0} (mem : Memory M) where
  -- `ADD Rs, Rd` on words: the destination and the carry are the sum, zero and negative describe the
  -- destination, overflow is clear, no other register but the status changes, nor does the memory,
  -- and the result is an error exactly when CPUOFF was set.
  pub execute-add :
      (s d r : ℕ) (i : Insn) (cpu : Cpu M)
      → IsWordOp Op2.add s d i
      → cpu.regs s < 65536
      → cpu.regs d < 65536
      → r ≢ d
      → r ≢ 2
      → (after : Cpu M) × (execute mem i cpu ≡ ends cpu after)
        × (after.regs d + 65536 * (flags after).c ≡ cpu.regs s + cpu.regs d)
        × ((flags after).z ≡ bit_of (after.regs d == 0))
        × ((flags after).n ≡ bit_of (leb 32768 (after.regs d)))
        × ((flags after).v ≡ 0)
        × (after.regs r ≡ cpu.regs r)
        × (after.memory ≡ cpu.memory)
  execute-add s d r i cpu h p q rd r2 =
      let tmp = eval_double Op2.add false (s_c cpu) (cpu.regs s) (cpu.regs d) in
      let sum = eval_add false (s_c cpu) (cpu.regs s) (cpu.regs d) p q in
      let fits : tmp < 65536 = ground (arith, sum) in
      let set = flags-add Op2.add false (cpu.regs s) (cpu.regs d) tmp cpu refl fits in
      let (after, run, f, at_d, at_r, memory) =
        word_op mem Op2.add s d r i cpu _ h p q (omega arith) (omega arith) rd r2 set refl in
      (
        after,
        run,
        ground (arith, sum, f, at_d),
        ground (arith, f, at_d),
        ground (arith, f, at_d),
        ground (arith, f),
        at_r,
        memory,
      )

  -- `SUB Rs, Rd` on words: the destination is the difference, with the carry set when nothing was
  -- borrowed, zero says whether the registers were equal, negative describes the destination, and
  -- overflow is clear; no register but the destination and the status changes, nor does the memory,
  -- and the result is an error exactly when CPUOFF was set.
  pub execute-sub :
      (s d r : ℕ) (i : Insn) (cpu : Cpu M)
      → IsWordOp Op2.sub s d i
      → cpu.regs s < 65536
      → cpu.regs d < 65536
      → r ≢ d
      → r ≢ 2
      → (after : Cpu M) × (execute mem i cpu ≡ ends cpu after)
        × (after.regs d + cpu.regs s + 65536 * (flags after).c ≡ cpu.regs d + 65536)
        × ((flags after).z ≡ bit_of (cpu.regs s == cpu.regs d))
        × ((flags after).n ≡ bit_of (leb 32768 (after.regs d)))
        × ((flags after).v ≡ 0)
        × (after.regs r ≡ cpu.regs r)
        × (after.memory ≡ cpu.memory)
  execute-sub s d r i cpu h p q rd r2 =
      let tmp = eval_double Op2.sub false (s_c cpu) (cpu.regs s) (cpu.regs d) in
      let difference =
        eval_subtract Op2.sub false (s_c cpu) (cpu.regs s) (cpu.regs d) (inl refl) p q in
      let fits : tmp < 65536 = ground (arith, difference) in
      let set = flags-subtract Op2.sub false (cpu.regs s) (cpu.regs d) tmp cpu refl fits in
      let (after, run, f, at_d, at_r, memory) =
        word_op mem Op2.sub s d r i cpu _ h p q (omega arith) (omega arith) rd r2 set refl in
      (
        after,
        run,
        ground (arith, difference, f, at_d),
        ground (arith, difference, f, at_d),
        ground (arith, f, at_d),
        ground (arith, f),
        at_r,
        memory,
      )

  -- `BIC Rs, Rd` and `DADD Rs, Rd` on words: the destination becomes 0, whatever the operands, and
  -- no flag, no other register but the status and nothing in memory changes.
  pub execute-bic :
      (op s d r : ℕ) (i : Insn) (cpu : Cpu M)
      → (op ≡ Op2.bic) ⊎ (op ≡ Op2.dadd)
      → IsWordOp op s d i
      → cpu.regs s < 65536
      → cpu.regs d < 65536
      → r ≢ d
      → r ≢ 2
      → (after : Cpu M) × (execute mem i cpu ≡ ends cpu after)
        × (after.regs d ≡ 0)
        × (flags after ≡ flags cpu)
        × (after.regs r ≡ cpu.regs r)
        × (after.memory ≡ cpu.memory)
  execute-bic op s d r i cpu which h p q rd r2 =
      let tmp = eval_double op false (s_c cpu) (cpu.regs s) (cpu.regs d) in
      let set : flags (result op s d cpu) ≡ flags cpu =
        ap flags (double_flags-none op false (cpu.regs s) (cpu.regs d) tmp cpu which) in
      let (after, run, f, at_d, at_r, memory) =
        word_op mem op s d r i cpu (flags cpu) h p q (ground arith) (ground arith) rd r2 set refl in
      let zero = eval_zero op false (s_c cpu) (cpu.regs s) (cpu.regs d) which in
      (after, run, ground (arith, at_d, zero), f, at_r, memory)
