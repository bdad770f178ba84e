-- ===== src/Msp43x/Tests/Waiting.antt =====
-- An instruction whose store must be tried again: `MOV R5, 0(R6)` at 0x4400, with a write hook at the
-- address in R6.
use formaldehyde.Prelude.{
  ℕ, ◌+◌, ◌-◌, ◌≡◌, refl, arith, some, none, Error, cpu_error, again, ◌==◌, if◌then◌else◌, bit_and,
  bit_or,
}
use formaldehyde.Prelude
use formaldehyde.Prelude.Outcome.{ok, err}
use formaldehyde.Msp43x.Constants.Op2
use formaldehyde.Msp43x.Slice.{Slice}
use formaldehyde.Msp43x.Memory.{Memory}
use formaldehyde.Msp43x.SimpleMemory.{SimpleMemory}
use formaldehyde.Msp43x.SimpleMemory
use formaldehyde.Msp43x.HookableMemory.{HookableMemory, Hooks, hookable_memory}
use formaldehyde.Msp43x.HookableMemory
use formaldehyde.Msp43x.Insn.{Insn, is_byte}
use formaldehyde.Msp43x.Disasm.{disassemble}
use formaldehyde.Msp43x.Disasm.Encode.{Source, Destination}
use formaldehyde.Msp43x.Disasm.RoundTrip.{double_insn, disassemble-double}
use formaldehyde.Msp43x.Cpu.{Cpu, pc, bw_eval, v}
use formaldehyde.Msp43x.Operand.{src_operand, dst_operand, dst_operand_store}
use formaldehyde.Msp43x.Alu.{eval_double, double_flags, double_c, double_v, double_n, double_z}
use formaldehyde.Msp43x.Execute.{execute, execute_double, compute_double}
use formaldehyde.Msp43x.Step.{step, advance}
use formaldehyde.Msp43x.Step.Laws.{step_again}

abbrev hooks : Hooks ℕ ℕ (Unit {0})
hooks = record {
  read_memory = λ h address self. ok 0 self;
  write_memory = λ h address value self. err (cpu_error again "wait") self;
}

abbrev Store : Type 0
Store = HookableMemory ℕ ℕ (Unit {0})

abbrev mem : Memory Store
mem = hookable_memory hooks

abbrev bytes : SimpleMemory
bytes = record { byte = λ a. if a == 0x4400 then 0x86 else if a == 0x4401 then 0x45 else 0 }

abbrev waiting : Store
waiting = record {
  mem = bytes;
  read_hooks = λ a. none;
  write_hooks = λ a. if a == 0x200 then some 1 else none;
  world = tt;
}

abbrev raw : Slice
raw = record { at = λ k. bytes.byte (0x4400 + k); len = 6; cap = 65536 - 0x4400 }

abbrev insn : Insn
insn = double_insn Op2.mov 0 (Source.in_register 5) (Destination.at_index 6 0) raw

abbrev cpu : Cpu Store
cpu = record {
  regs = λ r. if r == 0 then 0x4400 else if r == 5 then 0xbeef else if r == 6 then 0x200 else 0;
  memory = waiting;
}

abbrev after : Cpu Store
after = record cpu { regs = λ r. if r == 0 then 0x4404 else cpu.regs r }

fetched : mem.load_6_bytes (pc cpu) cpu.memory ≡ ok raw waiting
unfolding HookableMemory.load_6_bytes SimpleMemory.load_6_bytes
fetched = refl

decoded : disassemble raw ≡ Prelude.ok insn
decoded =
    disassemble-double Op2.mov 0 (Source.in_register 5) (Destination.at_index 6 0) raw (omega arith)
      (omega arith) (omega arith) (omega arith) (omega arith)
      (record { low = refl; high = refl; inside = omega arith; is_word = omega arith })
      (record { low = refl; high = refl; inside = omega arith; is_word = omega arith })
      (omega arith)

stopped : execute mem insn (advance 4 cpu) ≡ err (cpu_error again "wait") after
unfolding execute execute_double compute_double advance src_operand dst_operand dst_operand_store
    bw_eval v is_byte eval_double double_flags double_c double_v double_n double_z
    HookableMemory.load_word HookableMemory.store_word SimpleMemory.load_word
stopped = refl

step_again_example :
    (final : Cpu Store) × (step mem cpu ≡ err (cpu_error again "wait") final)
    × (pc final ≡ 0x4400)
    × (final.memory ≡ waiting)
step_again_example =
    step_again mem cpu after raw waiting insn "wait" fetched decoded stopped refl (omega arith)
      (omega arith)
