-- ===== src/Msp43x/Step/Laws.antt =====
-- `Step` of src/newmadrid/msp43x/cpu.go: fetching, the program counter, and an instruction from its
-- encoding in memory to its effect.
use formaldehyde.Prelude.{
  ℕ, String, ◌+◌, ◌*◌, ◌≤◌, ◌<◌, ◌≡◌, ◌≢◌, refl, arith, ◌∙◌, ap, sym, cpu_error, again, u16, ok,
}
use formaldehyde.Prelude.Outcome.{Outcome, err, ◌>>=◌}
use formaldehyde.Msp43x.Constants.Op2
use formaldehyde.Msp43x.Slice.{Slice}
use formaldehyde.Msp43x.Memory.{Memory}
use formaldehyde.Msp43x.Insn.{Insn, is_byte}
use formaldehyde.Msp43x.Disasm.{disassemble}
use formaldehyde.Msp43x.Disasm.Words.{Holds}
use formaldehyde.Msp43x.Disasm.Encode.{Source, Destination}
use formaldehyde.Msp43x.Disasm.RoundTrip.{double_word, double_insn, disassemble-double}
use formaldehyde.Msp43x.Cpu.{Cpu, pc}
use formaldehyde.Msp43x.Cpu.Flags.{flags}
use formaldehyde.Msp43x.Execute.{execute}
use formaldehyde.Msp43x.Execute.Registers.{IsWordOp, ends}
use formaldehyde.Msp43x.Execute.Arithmetic.{execute-add}
use formaldehyde.Msp43x.Step.{step, advance, retry, retreat}

module _ {M : Type 0} (mem : Memory M) where
  -- `Step` when the fetch and the decoding succeed.
  step-execute :
      (cpu : Cpu M) (raw : Slice) (m : M) (i : Insn)
      → mem.load_6_bytes (pc cpu) cpu.memory ≡ Outcome.ok raw m
      → disassemble raw ≡ ok i
      → step mem cpu ≡ retry i.width (execute mem i (advance i.width (record cpu { memory = m })))
  unfolding step
  step-execute cpu raw m i fetched decoded = rw (◌>>=◌, fetched, decoded) refl

  -- An instruction that ends with the error "again", without having changed the program counter
  -- itself, leaves the program counter at its own address, so that the next step runs it again.
  pub step_again :
      (cpu after : Cpu M) (raw : Slice) (m : M) (i : Insn) (msg : String)
      → mem.load_6_bytes (pc cpu) cpu.memory ≡ Outcome.ok raw m
      → disassemble raw ≡ ok i
      → execute mem i (advance i.width (record cpu { memory = m }))
        ≡ err (cpu_error again msg) after
      → pc after ≡ u16 (pc cpu + i.width)
      → pc cpu < 65536
      → i.width ≤ 6
      → (final : Cpu M) × (step mem cpu ≡ err (cpu_error again msg) final)
        × (pc final ≡ pc cpu)
        × (final.memory ≡ after.memory)
  unfolding retry
  step_again cpu after raw m i msg fetched decoded stopped at fits narrow = (
    retreat i.width after,
    step-execute cpu raw m i fetched decoded ∙ ground arith,
    ground arith,
    refl,
  )

  retry-ends :
      (width : ℕ) (before after : Cpu M) → retry width (ends before after) ≡ ends before after
  unfolding retry
  retry-ends width before after = ground arith

  -- With the encoding of `ADD Rs, Rd` on words at the program counter, a step adds the registers:
  -- the destination and the carry are the sum, the program counter goes on by two bytes, the memory
  -- is as the fetch left it, and the result is an error exactly when CPUOFF was set.
  pub step-add :
      (s d : ℕ) (cpu : Cpu M) (raw : Slice) (m : M)
      → mem.load_6_bytes (pc cpu) cpu.memory ≡ Outcome.ok raw m
      → Holds raw 0 (double_word Op2.add 0 (Source.in_register s) (Destination.in_register d))
      → 6 ≤ raw.cap
      → s < 16
      → d < 16
      → s ≢ 0
      → s ≢ 3
      → d ≢ 0
      → d ≢ 2
      → d ≢ 3
      → cpu.regs s < 65536
      → cpu.regs d < 65536
      → (after : Cpu M) × (step mem cpu ≡ ends cpu after)
        × (after.regs d + 65536 * (flags after).c ≡ cpu.regs s + cpu.regs d)
        × (pc after ≡ u16 (pc cpu + 2))
        × (after.memory ≡ m)
  unfolding advance
  step-add s d cpu raw m fetched holds cap s16 d16 s0 s3 d0 d2 d3 p q =
      let src = Source.in_register s in
      let dst = Destination.in_register d in
      let i = double_insn Op2.add 0 src dst raw in
      let next = advance 2 (record cpu { memory = m }) in
      let word_op : IsWordOp Op2.add s d i = record {
        is_double = refl;
        src_direct = refl;
        dst_direct = refl;
        has_opcode = refl;
        from_s = refl;
        to_d = refl;
        on_words = unfold is_byte in refl;
        s_general = s3;
        d_general = d3;
        d_not_status = d2;
      } in
      let decoded =
        disassemble-double Op2.add 0 src dst raw (omega arith) (omega arith) (omega arith) (s16, s3)
          d16 holds tt cap in
      let s_fits : next.regs s < 65536 = ground arith in
      let d_fits : next.regs d < 65536 = ground arith in
      let (after, runs, sum, z, n, v, at_pc, memory) =
        execute-add mem s d 0 i next word_op s_fits d_fits (λ e. d0 (sym e)) (omega arith) in
      (
        after,
        step-execute cpu raw m i fetched decoded ∙ (ap (retry 2) runs ∙ retry-ends 2 next after),
        ground (arith, sum),
        at_pc,
        memory,
      )
