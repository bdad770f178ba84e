-- ===== src/Msp43x/Tests/Running.antt =====
-- Instructions run on the test machine.
use formaldehyde.Prelude.{ℕ, ◌+◌, ◌-◌, ◌*◌, ◌%◌, ◌≡◌, refl, arith, inl, false, leb, ◌==◌}
use formaldehyde.Prelude.Outcome.{ok}
use formaldehyde.Msp43x.Constants.Cond
use formaldehyde.Msp43x.Constants.Op2
use formaldehyde.Msp43x.SimpleMemory
use formaldehyde.Msp43x.HookableMemory
use formaldehyde.Msp43x.Insn.{is_byte}
use formaldehyde.Msp43x.Disasm.Words.{Holds}
use formaldehyde.Msp43x.Cpu.{Cpu, pc}
use formaldehyde.Msp43x.Cpu.Flags.{flags}
use formaldehyde.Msp43x.Alu.Flags.{bit_of}
use formaldehyde.Msp43x.Execute.{execute, takes_jump}
use formaldehyde.Msp43x.Execute.Registers.{IsWordOp, ends}
use formaldehyde.Msp43x.Execute.Arithmetic.{execute-add, execute-sub, execute-bic}
use formaldehyde.Msp43x.Execute.Compare.{cmp_jumps}
use formaldehyde.Msp43x.Step.{step}
use formaldehyde.Msp43x.Step.Laws.{step-add}
use formaldehyde.Msp43x.TestMachine.{Store, mem, store, raw, insn, cpu}

insn-IsWordOp : (op : ℕ) → IsWordOp op 5 6 (insn op)
unfolding is_byte
insn-IsWordOp op = record {
  is_double = refl;
  src_direct = refl;
  dst_direct = refl;
  has_opcode = refl;
  from_s = refl;
  to_d = refl;
  on_words = refl;
  s_general = omega arith;
  d_general = omega arith;
  d_not_status = omega arith;
}

execute-add_example :
    (after : Cpu Store) × (execute mem (insn Op2.add) cpu ≡ ends cpu after)
    × (after.regs 6 + 65536 * (flags after).c ≡ 0xfff0 + 0x20)
    × ((flags after).z ≡ bit_of (after.regs 6 == 0))
    × ((flags after).n ≡ bit_of (leb 32768 (after.regs 6)))
    × ((flags after).v ≡ 0)
    × (after.regs 5 ≡ 0xfff0)
    × (after.memory ≡ store)
execute-add_example =
    execute-add mem 5 6 5 (insn Op2.add) cpu (insn-IsWordOp Op2.add) (omega arith) (omega arith)
      (omega arith) (omega arith)

execute-sub_example :
    (after : Cpu Store) × (execute mem (insn Op2.sub) cpu ≡ ends cpu after)
    × (after.regs 6 + 0xfff0 + 65536 * (flags after).c ≡ 0x20 + 65536)
    × ((flags after).z ≡ 0)
    × ((flags after).n ≡ bit_of (leb 32768 (after.regs 6)))
    × ((flags after).v ≡ 0)
    × (after.regs 5 ≡ 0xfff0)
    × (after.memory ≡ store)
execute-sub_example =
    execute-sub mem 5 6 5 (insn Op2.sub) cpu (insn-IsWordOp Op2.sub) (omega arith) (omega arith)
      (omega arith) (omega arith)

execute-bic_example :
    (after : Cpu Store) × (execute mem (insn Op2.bic) cpu ≡ ends cpu after)
    × (after.regs 6 ≡ 0)
    × (flags after ≡ flags cpu)
    × (after.regs 5 ≡ 0xfff0)
    × (after.memory ≡ store)
execute-bic_example =
    execute-bic mem Op2.bic 5 6 5 (insn Op2.bic) cpu (inl refl) (insn-IsWordOp Op2.bic)
      (omega arith) (omega arith) (omega arith) (omega arith)

cmp_jumps_example :
    (after : Cpu Store) × (execute mem (insn Op2.cmp) cpu ≡ ends cpu after)
    × (takes_jump Cond.jz after ≡ false)
    × (takes_jump Cond.jc after ≡ false)
    × (takes_jump Cond.jl after ≡ leb 32768 ((0x20 + 65536 - 0xfff0) % 65536))
    × (after.regs 6 ≡ 0x20)
    × (after.memory ≡ store)
cmp_jumps_example =
    cmp_jumps mem 5 6 6 (insn Op2.cmp) cpu (insn-IsWordOp Op2.cmp) (omega arith) (omega arith)
      (omega arith)

fetched : mem.load_6_bytes (pc cpu) cpu.memory ≡ ok raw store
unfolding HookableMemory.load_6_bytes HookableMemory.new_hookable_memory SimpleMemory.load_6_bytes
fetched = refl

raw-Holds : Holds raw 0 0x5506
raw-Holds = record { low = refl; high = refl; inside = omega arith; is_word = omega arith }

step-add_example :
    (after : Cpu Store) × (step mem cpu ≡ ends cpu after)
    × (after.regs 6 + 65536 * (flags after).c ≡ 0xfff0 + 0x20)
    × (pc after ≡ 0x4402)
    × (after.memory ≡ store)
step-add_example =
    step-add mem 5 6 cpu raw store fetched raw-Holds (omega arith) (omega arith) (omega arith)
      (omega arith) (omega arith) (omega arith) (omega arith) (omega arith) (omega arith)
      (omega arith)
