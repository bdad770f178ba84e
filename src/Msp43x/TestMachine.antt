-- ===== src/Msp43x/TestMachine.antt =====
-- A small machine for tests: `ADD R5, R6` at 0x4400, in a memory with no hooks.
use formaldehyde.Prelude.{ℕ, ◌+◌, ◌-◌, ◌==◌, if◌then◌else◌}
use formaldehyde.Prelude.Outcome.{ok}
use formaldehyde.Msp43x.Slice.{Slice}
use formaldehyde.Msp43x.Memory.{Memory}
use formaldehyde.Msp43x.SimpleMemory.{SimpleMemory}
use formaldehyde.Msp43x.HookableMemory.{HookableMemory, Hooks, hookable_memory}
use formaldehyde.Msp43x.HookableMemory
use formaldehyde.Msp43x.Insn.{Insn}
use formaldehyde.Msp43x.Disasm.Encode.{Source, Destination}
use formaldehyde.Msp43x.Disasm.RoundTrip.{double_insn}
use formaldehyde.Msp43x.Cpu.{Cpu}

-- Hooks are numbers here, and do nothing.
abbrev pub hooks : Hooks ℕ ℕ (Unit {0})
hooks = record {
  read_memory = λ h address self. ok 0 self;
  write_memory = λ h address value self. ok tt self;
}

abbrev pub Store : Type 0
Store = HookableMemory ℕ ℕ (Unit {0})

abbrev pub mem : Memory Store
mem = hookable_memory hooks

abbrev pub bytes : SimpleMemory
bytes = record { byte = λ a. if a == 0x4400 then 0x06 else if a == 0x4401 then 0x55 else 0 }

abbrev pub store : Store
store = HookableMemory.new_hookable_memory bytes tt

abbrev pub raw : Slice
raw = record { at = λ k. bytes.byte (0x4400 + k); len = 6; cap = 65536 - 0x4400 }

-- The instruction `op R5, R6` on words.
abbrev pub insn : ℕ → Insn
insn op = double_insn op 0 (Source.in_register 5) (Destination.in_register 6) raw

abbrev pub registers : ℕ → ℕ
registers r = if r == 0 then 0x4400 else if r == 5 then 0xfff0 else if r == 6 then 0x0020 else 0

abbrev pub cpu : Cpu Store
cpu = record { regs = registers; memory = store }
