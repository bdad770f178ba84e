-- ===== src/Msp43x/Execute/Registers.antt =====
-- Instructions between two registers, run by `Execute` of src/newmadrid/msp43x/cpu.go.
use formaldehyde.Prelude.{
  ℕ, ◌<◌, ◌≡◌, ◌≢◌, ap, arith, false, ◌==◌, if◌then◌else◌, ◌∙◌, ◌⊎◌, cpu_error, halted,
}
use formaldehyde.Prelude.Outcome.{Outcome, ok, err, >>=-ok}
use formaldehyde.Bits.{bit_and_bit}
use formaldehyde.Msp43x.Constants.{double_operand, reg_direct}
use formaldehyde.Msp43x.Constants.Op2
use formaldehyde.Msp43x.Memory.{Memory}
use formaldehyde.Msp43x.Insn.{Insn, is_byte}
use formaldehyde.Msp43x.Cpu.{Cpu, set_reg, bw_store, bw_eval, v, s_c}
use formaldehyde.Msp43x.Cpu.Flags.{Flags, flags, flags_of}
use formaldehyde.Msp43x.Operand.{src_operand, dst_operand, dst_operand_store}
use formaldehyde.Msp43x.Alu.{eval_double, double_flags}
use formaldehyde.Msp43x.Alu.Flags.{double_flags-frame}
use formaldehyde.Msp43x.Execute.{execute, execute_double, compute_double, check_halted}

-- The instruction `op Rs, Rd` on words, with neither register the constant generator and the
-- destination not the status register.
pub record IsWordOp (op s d : ℕ) (i : Insn) : Type 0 where
  pub is_double : i.family ≡ double_operand
  pub src_direct : i.mode ≡ reg_direct
  pub dst_direct : i.dst_mode ≡ reg_direct
  pub has_opcode : i.opcode ≡ op
  pub from_s : i.source ≡ s
  pub to_d : i.destination ≡ d
  pub on_words : is_byte i ≡ false
  pub s_general : s ≢ 3
  pub d_general : d ≢ 3
  pub d_not_status : d ≢ 2

module _ {M : Type 0} where
  -- `Execute` ends with the error for CPUOFF exactly when that flag is set.
  pub check_halted_lem :
      (cpu : Cpu M)
      → check_halted cpu
        ≡ (if (flags cpu).off == 0 then ok tt cpu else err (cpu_error halted "CPUOFF set") cpu)
  unfolding check_halted flags_of
  check_halted_lem cpu = ground (arith, bit_and_bit 4 (cpu.regs 2))

  -- What such an instruction leaves, before the test of CPUOFF.
  abbrev pub result : ℕ → ℕ → ℕ → Cpu M → Cpu M
  result op s d cpu =
      double_flags op false (cpu.regs s) (cpu.regs d)
        (eval_double op false (s_c cpu) (cpu.regs s) (cpu.regs d)) cpu

  flags-set_reg : (d val : ℕ) (cpu : Cpu M) → d ≢ 2 → flags (set_reg d val cpu) ≡ flags cpu
  unfolding flags_of
  flags-set_reg d val cpu ne = ground arith

  -- The end of `Execute`, for the machine `before` that starts and the machine `after` it.
  abbrev pub ends : Cpu M → Cpu M → Outcome (Cpu M) (Unit {0})
  ends before after =
      if (flags before).off == 0 then ok tt after else err (cpu_error halted "CPUOFF set") after

  halts :
      (cpu after : Cpu M) (f : Flags)
      → flags after ≡ f
      → f.off ≡ (flags cpu).off
      → check_halted after ≡ ends cpu after
  halts cpu after f has kept =
      check_halted_lem after
      ∙ ap (λ (o : ℕ). if o == 0 then ok tt after else err (cpu_error halted "CPUOFF set") after)
          (ap (λ (x : Flags). x.off) has ∙ kept)

module _ {M : Type 0} (mem : Memory M) where
  src_of :
      (op s d : ℕ) (i : Insn) (cpu : Cpu M)
      → IsWordOp op s d i
      → cpu.regs s < 65536
      → src_operand mem i cpu ≡ ok (cpu.regs s) cpu
  unfolding src_operand v bw_eval
  src_of op s d i cpu h fits = ground arith

  dst_of :
      (op s d : ℕ) (i : Insn) (cpu : Cpu M)
      → IsWordOp op s d i
      → cpu.regs d < 65536
      → dst_operand mem i cpu ≡ ok (cpu.regs d) cpu
  unfolding dst_operand bw_eval
  dst_of op s d i cpu h fits = ground arith

  stores :
      (op s d val : ℕ) (i : Insn) (cpu : Cpu M)
      → IsWordOp op s d i
      → dst_operand_store mem i val cpu ≡ ok tt (set_reg d val cpu)
  unfolding dst_operand_store bw_store
  stores op s d val i cpu h = ground arith

  computes :
      (op s d : ℕ) (i : Insn) (cpu : Cpu M)
      → IsWordOp op s d i
      → cpu.regs s < 65536
      → cpu.regs d < 65536
      → execute_double mem i cpu ≡ compute_double mem i (cpu.regs s) (cpu.regs d) cpu
  unfolding execute_double
  computes op s d i cpu h p q =
      >>=-ok (src_operand mem i) _ cpu (src_of op s d i cpu h p)
      ∙ >>=-ok (dst_operand mem i) _ cpu (dst_of op s d i cpu h q)

  storing :
      (op s d : ℕ) (i : Insn) (cpu : Cpu M)
      → IsWordOp op s d i
      → op ≢ Op2.bit
      → op ≢ Op2.cmp
      → compute_double mem i (cpu.regs s) (cpu.regs d) cpu
        ≡ ok tt (
            set_reg d
              (eval_double op false (s_c cpu) (cpu.regs s) (cpu.regs d))
              (result op s d cpu))
  unfolding compute_double
  storing op s d i cpu h nb nc = ground (
    arith,
    stores op s d (eval_double op false (s_c cpu) (cpu.regs s) (cpu.regs d)) i (result op s d cpu)
        h,
  )

  testing :
      (op s d : ℕ) (i : Insn) (cpu : Cpu M)
      → IsWordOp op s d i
      → (op ≡ Op2.bit) ⊎ (op ≡ Op2.cmp)
      → compute_double mem i (cpu.regs s) (cpu.regs d) cpu ≡ ok tt (result op s d cpu)
  unfolding compute_double
  testing op s d i cpu h t = ground arith

  executes :
      (i : Insn) (cpu after : Cpu M)
      → i.family ≡ double_operand
      → execute_double mem i cpu ≡ ok tt after
      → execute mem i cpu ≡ check_halted after
  unfolding execute
  executes i cpu after f e = ground arith

  -- What every such instruction that stores has in common, given the flags that it sets.
  pub word_op :
      (op s d r : ℕ) (i : Insn) (cpu : Cpu M) (f : Flags)
      → IsWordOp op s d i
      → cpu.regs s < 65536
      → cpu.regs d < 65536
      → op ≢ Op2.bit
      → op ≢ Op2.cmp
      → r ≢ d
      → r ≢ 2
      → flags (result op s d cpu) ≡ f
      → f.off ≡ (flags cpu).off
      → (after : Cpu M) × (execute mem i cpu ≡ ends cpu after)
        × (flags after ≡ f)
        × (after.regs d ≡ eval_double op false (s_c cpu) (cpu.regs s) (cpu.regs d))
        × (after.regs r ≡ cpu.regs r)
        × (after.memory ≡ cpu.memory)
  word_op op s d r i cpu f h p q nb nc rd r2 set kept =
      let tmp = eval_double op false (s_c cpu) (cpu.regs s) (cpu.regs d) in
      let mid = result op s d cpu in
      let after = set_reg d tmp mid in
      let same = double_flags-frame op false (cpu.regs s) (cpu.regs d) tmp r cpu r2 in
      let has : flags after ≡ f = flags-set_reg d tmp mid h.d_not_status ∙ set in
      let runs : execute_double mem i cpu ≡ ok tt after =
        computes op s d i cpu h p q ∙ storing op s d i cpu h nb nc in
      (
        after,
        executes i cpu after h.is_double runs ∙ halts cpu after f has kept,
        has,
        ground arith,
        ground (arith, same.0),
        same.1,
      )

  -- The same for the two instructions that store nothing.
  pub word_test :
      (op s d r : ℕ) (i : Insn) (cpu : Cpu M) (f : Flags)
      → IsWordOp op s d i
      → cpu.regs s < 65536
      → cpu.regs d < 65536
      → (op ≡ Op2.bit) ⊎ (op ≡ Op2.cmp)
      → r ≢ 2
      → flags (result op s d cpu) ≡ f
      → f.off ≡ (flags cpu).off
      → (after : Cpu M) × (execute mem i cpu ≡ ends cpu after)
        × (flags after ≡ f)
        × (after.regs r ≡ cpu.regs r)
        × (after.memory ≡ cpu.memory)
  word_test op s d r i cpu f h p q t r2 set kept =
      let tmp = eval_double op false (s_c cpu) (cpu.regs s) (cpu.regs d) in
      let after = result op s d cpu in
      let same = double_flags-frame op false (cpu.regs s) (cpu.regs d) tmp r cpu r2 in
      let runs : execute_double mem i cpu ≡ ok tt after =
        computes op s d i cpu h p q ∙ testing op s d i cpu h t in
      (
        after,
        executes i cpu after h.is_double runs ∙ halts cpu after f set kept,
        set,
        same.0,
        same.1,
      )
